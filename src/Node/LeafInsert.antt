-- ===== src/Node/LeafInsert.antt =====
-- Search and insertion on a leaf together, as `insertRec` and `doInsert` make them, and the search
-- that finds the key again.
use db_index_performance_eva.Base.{
  ℕ, ◌+◌, ◌-◌, ◌*◌, ◌≤◌, ◌<◌, ◌≡◌, inl, inr, Bool, true, false, List, some, arith, length,
  insert_at, length-insert_at, get_elem?-insert_at_self, get_elem?-some, lt→ltb, eqb_ℤ, refl,
  get_elem?, get_elem?-insert_at, ℤ, ◌≤ℤ◌, ◌<ℤ◌,
}
use native.Mathlib.Decide.{dec_lt}
use db_index_performance_eva.Base.Go.{ok}
use db_index_performance_eva.BtPage.{Page}
use db_index_performance_eva.Accessor.{Value, Cell, Accessor}
use db_index_performance_eva.Accessor.Laws.{Fits, AccessorLaws}
use db_index_performance_eva.Node.{goes_right, find_idx, found_value, insert_cell}
use db_index_performance_eva.Node.Layout.{Holds, read_cell-CellAt}
use db_index_performance_eva.Node.Search.{IsSorted, SplitsAt, find_idx-SplitsAt}
use db_index_performance_eva.Node.Insert.{leaf_cell, insert_cell-Holds}

module _ (acc : Accessor) (key k : ℤ) where
  goes_right-lt : goes_right acc key true k ≡ true → k <ℤ key
  unfolding goes_right
  goes_right-lt e = ground arith

  goes_right-le : goes_right acc key true k ≡ false → key ≤ℤ k
  unfolding goes_right
  goes_right-le e = ground arith

  not_right : k ≡ key → goes_right acc key true k ≡ false
  unfolding goes_right
  not_right e = ground arith

  eqb_refl : eqb_ℤ key key ≡ true
  eqb_refl = ground arith

  lt→le : k <ℤ key → k ≤ℤ key
  lt→le h = ground arith

-- Sorted cells stay sorted if a cell is put between those with keys up to its own and the others.
insert_at-IsSorted :
    (idx : ℕ) (x : Cell) (cs : List Cell)
    → idx ≤ length cs
    → IsSorted cs
    → ((i : ℕ) (c : Cell) → get_elem? cs i ≡ some c → i < idx → c.key ≤ℤ x.key)
    → ((i : ℕ) (c : Cell) → get_elem? cs i ≡ some c → idx ≤ i → x.key ≤ℤ c.key)
    → IsSorted (insert_at idx x cs)
insert_at-IsSorted idx x cs within sorted below above i j c d e f le =
    let second = get_elem?-insert_at idx x cs j d within f in
    elim (get_elem?-insert_at idx x cs i c within e) [
      | inl (a, g) ↦ elim second [
        | inl (b, h) ↦ sorted i j c d g h le
        | inr (inl (b, h)) ↦ rw (← h) (below i c g a)
        | inr (inr (j', b, b', h)) ↦ sorted i j' c d g h (omega arith)
      ]
      | inr (inl (a, g)) ↦ elim second [
        | inl (b, h) ↦ absurd (omega arith)
        | inr (inl (b, h)) ↦ rw (← g, ← h) (ground arith)
        | inr (inr (j', b, b', h)) ↦ rw (← g) (above j' d h b')
      ]
      | inr (inr (i', a, a', g)) ↦ elim second [
        | inl (b, h) ↦ absurd (omega arith)
        | inr (inl (b, h)) ↦ absurd (omega arith)
        | inr (inr (j', b, b', h)) ↦ sorted i' j' c d g h (omega arith)
      ]
    ]

-- At the index of the new cell the keys before it are smaller, and those from it on are not.
insert_at-SplitsAt :
    (acc : Accessor) (key : ℤ) (idx : ℕ) (x : Cell) (cs : List Cell)
    → x.key ≡ key
    → SplitsAt acc key true cs idx
    → SplitsAt acc key true (insert_at idx x cs) idx
insert_at-SplitsAt acc key idx x cs same (within, right, left) = (
  omega (arith, length-insert_at idx x cs),
  λ i c e b. elim (get_elem?-insert_at idx x cs i c within e) [
    | inl (a, g) ↦ right i c g b
    | inr (inl (a, g)) ↦ absurd (omega arith)
    | inr (inr (j, a, a', g)) ↦ absurd (omega arith)
  ],
  λ i c e b. elim (get_elem?-insert_at idx x cs i c within e) [
    | inl (a, g) ↦ absurd (omega arith)
    | inr (inl (a, g)) ↦ not_right acc key c.key (rw (← g, same) refl)
    | inr (inr (j, a, a', g)) ↦ left j c g a'
  ],
)

-- Only one index splits the cells.
SplitsAt-unique :
    (acc : Accessor) (key : ℤ) (leaf : Bool) (cs : List Cell) (m n : ℕ)
    → SplitsAt acc key leaf cs m
    → SplitsAt acc key leaf cs n
    → m ≡ n
SplitsAt-unique acc key leaf cs m n (a, right, left) (a', right', left') = elim (dec_lt m n) [
  | yes below ↦
      let (c, e) = get_elem?-some cs m (omega arith) in
      absurd (cc (left m c e (omega arith), right' m c e below))
  | no above ↦ elim (dec_lt n m) [
    | yes below ↦
        let (c, e) = get_elem?-some cs n (omega arith) in
        absurd (cc (left' n c e (omega arith), right n c e below))
    | no same ↦ omega arith
  ]
]

module _ (acc : Accessor) (laws : AccessorLaws acc) where
  -- On a leaf that holds sorted cells and has room for one more pointer and the cell, the search
  -- and the insertion at its index succeed; the leaf then holds sorted cells, the new one among
  -- them; and the same search finds it, with the value that its encoding keeps.
  pub insert_cell-found :
      (p : Page) (cs : List Cell) (lo : ℕ) (key : ℤ) (value : Value)
      → Holds acc laws p true cs lo
      → IsSorted cs
      → Fits (leaf_cell key value)
      → 13 + (length cs + 1) * 2 + acc.cell_size true value ≤ lo
      → (idx : ℕ) × (p' : Page) × (find_idx acc p key (length cs) true ≡ ok idx)
        × (insert_cell acc p (length cs) idx key value 0 true ≡ ok p')
        × Holds acc laws p' true
            (insert_at idx (laws.stored true (leaf_cell key value)) cs)
            (lo - acc.cell_size true value)
        × IsSorted (insert_at idx (laws.stored true (leaf_cell key value)) cs)
        × (find_idx acc p' key (length cs + 1) true ≡ ok idx)
        × (found_value acc p' idx (length cs + 1) key true
            ≡ ok (laws.stored true (leaf_cell key value)).value)
  unfolding found_value
  insert_cell-found p cs lo key value h sorted fits room =
      let x = laws.stored true (leaf_cell key value) in
      let same : x.key ≡ key = laws.key-stored true (leaf_cell key value) in
      let (idx, e, splits) = find_idx-SplitsAt acc laws p true cs lo key h sorted in
      let (within, right, left) = splits in
      let (p', f, g, _, _) = insert_cell-Holds acc laws p cs lo idx key value h fits within room in
      let cs' = insert_at idx x cs in
      let grown = length-insert_at idx x cs in
      let sorted' =
        insert_at-IsSorted idx x cs within sorted
          (λ i c r b. rw same (lt→le acc key c.key (goes_right-lt acc key c.key (right i c r b))))
          (λ i c r b. rw same (goes_right-le acc key c.key (left i c r b))) in
      let (idx', e', splits') =
        find_idx-SplitsAt acc laws p' true cs' (lo - acc.cell_size true value) key g sorted' in
      let again : idx' ≡ idx =
        SplitsAt-unique acc key true cs' idx' idx splits'
          (insert_at-SplitsAt acc key idx x cs same splits) in
      let size : length cs' ≡ length cs + 1 = omega (arith, grown) in
      let read =
        read_cell-CellAt acc laws (g.cells idx x (get_elem?-insert_at_self idx x cs within)) in
      (
        idx,
        p',
        e,
        f,
        g,
        sorted',
        rw (← size, e', again),
        rw (lt→ltb idx (length cs + 1) (omega arith), read, same, eqb_refl acc key key),
      )
