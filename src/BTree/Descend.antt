-- ===== src/BTree/Descend.antt =====
-- One step of a search in a stored B-tree: what is found at a node's index, or else below it.
use db_index_performance_eva.Base.{
  ℕ, zero, suc, ◌≤◌, ◌≡◌, refl, ap, ◌∙◌, Bool, Bool-cases, inl, inr, none, some, List, [], ◌∷◌,
  arith, length, get_elem?, get_elem?-some, if◌then◌else◌, lt→ltb, le→ltb, ℤ, eqb_ℤ, ◌<ℤ◌,
}
use native.Mathlib.Decide.{dec_lt}
use db_index_performance_eva.Base.Go.{ok}
use db_index_performance_eva.BtPage.{Page}
use db_index_performance_eva.Accessor.{Value, Cell}
use db_index_performance_eva.Accessor.BTree.{btree_acc}
use db_index_performance_eva.Accessor.BTree.RoundTrip.{btree_laws}
use db_index_performance_eva.Node.{found_value}
use db_index_performance_eva.Node.Child.{child_of}
use db_index_performance_eva.Node.Layout.{Holds, read_cell-CellAt}
use db_index_performance_eva.Node.Search.{IsSorted}
use db_index_performance_eva.BTree.Stored.{
  lookup_value, Spread, Splits, value_here, lookup_value-Below, lookup_value-left,
  lookup_value-right, lookup_value-here,
}

abbrev pub or_else : Value → Value → Value
or_else none w = w
or_else (some v) w = some v

or_none : (v : Value) → v ≡ or_else v none
or_none none = refl
or_none (some v) = refl

IsSorted-tail : (c : Cell) (cs : List Cell) → IsSorted (c ∷ cs) → IsSorted cs
IsSorted-tail c cs sorted i j d e f g h = sorted (suc i) (suc j) d e f g (omega arith)

value_here-some :
    (key : ℤ) (cs : List Cell) (idx : ℕ) (c : Cell)
    → get_elem? cs idx ≡ some c
    → (if eqb_ℤ c.key key then c.value else none) ≡ value_here key cs idx
value_here-some key [] idx c e = cc
value_here-some key (d ∷ cs) zero c e = let same : d ≡ c = cc in rw same refl
value_here-some key (d ∷ cs) (suc idx) c e = value_here-some key cs idx c e

value_here-none :
    (key : ℤ) (cs : List Cell) (idx : ℕ) → length cs ≤ idx → none ≡ value_here key cs idx
value_here-none key [] idx h = refl
value_here-none key (d ∷ cs) zero h = absurd (omega arith)
value_here-none key (d ∷ cs) (suc idx) h = value_here-none key cs idx (omega arith)

-- No later entry has a smaller key.
lookup_value-after :
    (key : ℤ) (c : Cell) (cs : List Cell)
    → IsSorted (c ∷ cs)
    → key <ℤ c.key
    → lookup_value key cs ≡ none
lookup_value-after key c [] sorted h = refl
lookup_value-after key c (d ∷ cs) sorted h =
    let le = sorted 0 1 c d refl refl (omega arith) in
    ground (arith, lookup_value-after key d cs (IsSorted-tail c (d ∷ cs) sorted))

-- Below an internal node: the value at its index, or else what the child at the index has.
pub Spread-descend :
    (key : ℤ) (P : ℕ → List Cell → Type 0) (cs : List Cell) (last : ℕ) (es : List Cell) (idx : ℕ)
    → Spread P cs last es
    → Splits key cs idx
    → (sub : List Cell) × P (child_of cs idx last) sub
      × (lookup_value key es ≡ or_else (value_here key cs idx) (lookup_value key sub))
Spread-descend key P [] last es idx t s = (es, t, refl)
Spread-descend key P (c ∷ cs) last es zero t s =
    let (left, right, e, p, b, a, _) = t in
    elim (Bool-cases (eqb_ℤ c.key key)) [
      | inl same ↦
          let missing = lookup_value-Below key c.key left b (ground arith) in
          (
            left,
            p,
            rw (e, lookup_value-here key left c right b same, same, missing) (or_none c.value),
          )
      | inr other ↦ (left, p, rw (e, other) (lookup_value-left key left c right a (ground arith)))
    ]
Spread-descend key P (c ∷ cs) last es (suc idx) t s =
    let (left, right, e, p, b, a, rest) = t in
    let (sub, p', e') = Spread-descend key P cs last right idx rest s.1 in
    (sub, p', rw e (lookup_value-right key left c right b s.0 ∙ e'))

-- In a leaf: the value at the index, or none.
pub value_here-leaf :
    (key : ℤ) (cs : List Cell) (idx : ℕ)
    → IsSorted cs
    → Splits key cs idx
    → lookup_value key cs ≡ value_here key cs idx
value_here-leaf key [] idx sorted s = refl
value_here-leaf key (c ∷ cs) zero sorted s = ground (arith, lookup_value-after key c cs sorted)
value_here-leaf key (c ∷ cs) (suc idx) sorted s =
    ground (arith, value_here-leaf key cs idx (IsSorted-tail c cs sorted) s.1, s.0)

-- What the code reads at the index of a node.
module _ (pg : Page) (leaf : Bool) (cs : List Cell) (lo : ℕ)
    (h : Holds btree_acc btree_laws pg leaf cs lo) where
  pub found_value-Holds :
      (key : ℤ) (idx : ℕ)
      → found_value btree_acc pg idx (length cs) key leaf ≡ ok (value_here key cs idx)
  unfolding found_value
  found_value-Holds key idx = elim (dec_lt idx (length cs)) [
    | yes inside ↦
        let (c, e) = get_elem?-some cs idx inside in
        rw (lt→ltb idx (length cs) inside, read_cell-CellAt btree_acc btree_laws (h.cells idx c e))
          (ap ok (value_here-some key cs idx c e))
    | no outside ↦
        rw (le→ltb idx (length cs) (omega arith)) (ap ok (value_here-none key cs idx (omega arith)))
  ]
