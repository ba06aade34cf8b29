-- ===== src/BpTree/Order.antt =====
-- Entries in the order of their keys, leaf after leaf, and what a search at an index of a leaf says.
use db_index_performance_eva.Node.Order.{Below, AtLeast, InOrder}
use db_index_performance_eva.Base.{
  ℕ, zero, suc, ◌≤◌, ◌≡◌, refl, ap, true, false, Bool-cases, ◌⊎◌, inl, inr, if◌then◌else◌, Option,
  none, some, List, [], ◌∷◌, ◌++◌, arith, length, get_elem?, get_elem?-some, lt→ltb, le→ltb, ℤ,
  eqb_ℤ, ltb_ℤ, ◌≤ℤ◌, ◌<ℤ◌,
}
use native.Mathlib.Decide.{dec_lt}
use db_index_performance_eva.Base.Go.{ok}
use db_index_performance_eva.BtPage.{Page}
use db_index_performance_eva.Accessor.{Value, Cell}
use db_index_performance_eva.Accessor.BpTree.{bptree_acc}
use db_index_performance_eva.Accessor.BpTree.RoundTrip.{bptree_laws}
use db_index_performance_eva.Node.{goes_right}
use db_index_performance_eva.Node.Layout.{Holds, read_cell-CellAt}
use db_index_performance_eva.Node.Search.{SplitsAt}
use db_index_performance_eva.BTree.Stored.{lookup_value, Splits, Splits-cells}
use db_index_performance_eva.BpTree.{leaf_answer}

right-lt : (key k : ℤ) → goes_right bptree_acc key true k ≡ true → k <ℤ key
unfolding goes_right
right-lt key k e = ground arith

not_right-le : (key k : ℤ) → goes_right bptree_acc key true k ≡ false → key ≤ℤ k
unfolding goes_right
not_right-le key k e = ground arith

pub SplitsAt-Splits :
    (key : ℤ) (cs : List Cell) (idx : ℕ) → SplitsAt bptree_acc key true cs idx → Splits key cs idx
SplitsAt-Splits key cs idx (within, r, l) =
    Splits-cells key cs idx (λ i c e b. right-lt key c.key (r i c e b))
      (λ i c e b. not_right-le key c.key (l i c e b))

lookup_value-AtLeast :
    (key k : ℤ) (es : List Cell) → AtLeast k es → key <ℤ k → lookup_value key es ≡ none
lookup_value-AtLeast key k [] a h = refl
lookup_value-AtLeast key k (e ∷ es) a h = ground (arith, lookup_value-AtLeast key k es a.1 h, a.0)

-- Entries with smaller keys do not matter.
pub lookup_value-skip :
    (key : ℤ) (xs ys : List Cell) → Below key xs → lookup_value key (xs ++ ys) ≡ lookup_value key ys
lookup_value-skip key [] ys b = refl
lookup_value-skip key (x ∷ xs) ys b = ground (arith, lookup_value-skip key xs ys b.1, b.0)

-- What the cell at an index says of the key, as `leaf_answer` reads it.
abbrev pub answer : ℤ → List Cell → ℕ → Option Value
answer key [] idx = none
answer key (c ∷ cs) zero =
    if eqb_ℤ c.key key then some c.value else if ltb_ℤ key c.key then some none else none
answer key (c ∷ cs) (suc idx) = answer key cs idx

answer-some :
    (key : ℤ) (cs : List Cell) (idx : ℕ) (c : Cell)
    → get_elem? cs idx ≡ some c
    → (if eqb_ℤ c.key key then some c.value else if ltb_ℤ key c.key then some none else none)
      ≡ answer key cs idx
answer-some key [] idx c e = cc
answer-some key (d ∷ cs) zero c e = let same : d ≡ c = cc in rw same refl
answer-some key (d ∷ cs) (suc idx) c e = answer-some key cs idx c e

answer-none : (key : ℤ) (cs : List Cell) (idx : ℕ) → length cs ≤ idx → none ≡ answer key cs idx
answer-none key [] idx h = refl
answer-none key (d ∷ cs) zero h = absurd (omega arith)
answer-none key (d ∷ cs) (suc idx) h = answer-none key cs idx (omega arith)

pub leaf_answer-Holds :
    (pg : Page) (cs : List Cell) (lo idx : ℕ) (key : ℤ)
    → Holds bptree_acc bptree_laws pg true cs lo
    → leaf_answer pg (length cs) idx key ≡ ok (answer key cs idx)
unfolding leaf_answer
leaf_answer-Holds pg cs lo idx key h = elim (dec_lt idx (length cs)) [
  | yes inside ↦
      let (c, e) = get_elem?-some cs idx inside in
      rw (lt→ltb idx (length cs) inside, read_cell-CellAt bptree_acc bptree_laws (h.cells idx c e))
        (ap ok (answer-some key cs idx c e))
  | no outside ↦
      rw (le→ltb idx (length cs) (omega arith)) (ap ok (answer-none key cs idx (omega arith)))
]

-- The answer of a leaf is the one of all entries from the leaf on, or the next leaf's.
pub answer-lookup_value :
    (key : ℤ) (es rest : List Cell) (idx : ℕ)
    → Splits key es idx
    → InOrder (es ++ rest)
    → (answer key es idx ≡ some (lookup_value key (es ++ rest)))
      ⊎ ((answer key es idx ≡ none) × (lookup_value key (es ++ rest) ≡ lookup_value key rest))
answer-lookup_value key [] rest idx s o = inr (refl, refl)
answer-lookup_value key (c ∷ es) rest zero s o = elim (Bool-cases (eqb_ℤ c.key key)) [
  | inl same ↦ inl (rw same refl)
  | inr other ↦
      let less : ltb_ℤ key c.key ≡ true = ground arith in
      inl (rw (other, less, lookup_value-AtLeast key c.key (es ++ rest) o.0 (ground arith)) refl)
]
answer-lookup_value key (c ∷ es) rest (suc idx) s o =
    let other : eqb_ℤ c.key key ≡ false = ground (arith, s.0) in
    rw other (answer-lookup_value key es rest idx s.1 o.1)
