-- ===== src/Node/Search.antt =====
-- `FindIdx`: the binary search on the sorted cells of a page.
use db_index_performance_eva.Base.{
  ℕ, zero, suc, ◌+◌, ◌/◌, ◌≤◌, ◌<◌, ◌≡◌, inl, inr, Bool, true, false, List, some, arith, length,
  ◌⊎◌, ◌<ℤ◌, ltb_ℤ, eqb_ℤ, eqb→≡, get_elem?, get_elem?-some, get_elem?-lt, lt→ltb, le→ltb,
  Bool-cases, ℤ, ◌≤ℤ◌,
}
use native.Mathlib.Decide.{dec_lt}
use db_index_performance_eva.Base.Go.{ok}
use db_index_performance_eva.BtPage.{Page}
use db_index_performance_eva.Accessor.{Cell, Accessor}
use db_index_performance_eva.Accessor.Laws.{AccessorLaws}
use db_index_performance_eva.Node.{goes_right, find_loop, find_idx}
use db_index_performance_eva.Node.Layout.{Holds, read_cell-CellAt}

-- Keys do not fall from one cell to a later one.
abbrev pub IsSorted : List Cell → Type 0
IsSorted cs =
    (i j : ℕ) (c d : Cell)
    → get_elem? cs i ≡ some c
    → get_elem? cs j ≡ some d
    → i ≤ j
    → c.key ≤ℤ d.key

module _ (acc : Accessor) (key : ℤ) (leaf : Bool) (cs : List Cell) where
  abbrev pub AllRight : ℕ → Type 0
  AllRight lo =
      (i : ℕ) (c : Cell) → get_elem? cs i ≡ some c → i < lo → goes_right acc key leaf c.key ≡ true

  abbrev pub NoneRight : ℕ → Type 0
  NoneRight hi =
      (i : ℕ) (c : Cell) → get_elem? cs i ≡ some c → hi ≤ i → goes_right acc key leaf c.key ≡ false

  -- The index splits the cells: before it stand those that the search passes, from it on the others.
  abbrev pub SplitsAt : ℕ → Type 0
  SplitsAt idx = (idx ≤ length cs) × AllRight idx × NoneRight idx

  goes_right_mono :
      (k l : ℤ) → k ≤ℤ l → goes_right acc key leaf l ≡ true → goes_right acc key leaf k ≡ true
  unfolding goes_right
  goes_right_mono k l h e = ground arith

  module _ (p : Page) (sorted : IsSorted cs)
      (reads : (i : ℕ) (c : Cell) → get_elem? cs i ≡ some c → acc.read_cell p i leaf ≡ ok c) where
    before :
        (m : ℕ) (c : Cell)
        → get_elem? cs m ≡ some c
        → goes_right acc key leaf c.key ≡ true
        → AllRight (m + 1)
    before m c e r i d f h = goes_right_mono d.key c.key (sorted i m d c f e (omega arith)) r

    behind :
        (m : ℕ) (c : Cell)
        → get_elem? cs m ≡ some c
        → goes_right acc key leaf c.key ≡ false
        → NoneRight m
    behind m c e r i d f h = elim (Bool-cases (goes_right acc key leaf d.key)) [
      | inr no_right ↦ no_right
      | inl right ↦ cc (goes_right_mono c.key d.key (sorted m i c d e f h) right)
    ]

    module _ (fuel lo hi : ℕ) (c : Cell) (inside : lo < hi)
        (read : acc.read_cell p ((lo + hi) / 2) leaf ≡ ok c) where
      step_right :
          goes_right acc key leaf c.key ≡ true
          → find_loop acc (suc fuel) p key leaf lo hi
            ≡ find_loop acc fuel p key leaf ((lo + hi) / 2 + 1) hi
      unfolding find_loop
      step_right e = rw (lt→ltb lo hi inside, read) (ground arith)

      step_left :
          goes_right acc key leaf c.key ≡ false
          → find_loop acc (suc fuel) p key leaf lo hi
            ≡ find_loop acc fuel p key leaf lo ((lo + hi) / 2)
      unfolding find_loop
      step_left e = rw (lt→ltb lo hi inside, read) (ground arith)

    step_done : (fuel lo : ℕ) → find_loop acc (suc fuel) p key leaf lo lo ≡ ok lo
    unfolding find_loop
    step_done fuel lo = rw (le→ltb lo lo (omega arith))

    find_loop-SplitsAt :
        (fuel lo hi : ℕ)
        → hi < lo + fuel
        → lo ≤ hi
        → hi ≤ length cs
        → AllRight lo
        → NoneRight hi
        → (idx : ℕ) × (find_loop acc fuel p key leaf lo hi ≡ ok idx) × SplitsAt idx
    find_loop-SplitsAt zero lo hi f o b l r = absurd (omega arith)
    find_loop-SplitsAt (suc fuel) lo hi f o b l r = elim (dec_lt lo hi) [
      | no stop ↦
          let same : hi ≡ lo = omega arith in
          (lo, rw same (step_done fuel lo), (omega arith, l, λ i c g h. r i c g (omega arith)))
      | yes inside ↦
          let m = (lo + hi) / 2 in
          let (c, g) = get_elem?-some cs m (omega arith) in
          elim (Bool-cases (goes_right acc key leaf c.key)) [
            | inl right ↦ rw (step_right fuel lo hi c inside (reads m c g) right) (
                find_loop-SplitsAt fuel (m + 1) hi (omega arith) (omega arith) b
                  (before m c g right) r)
            | inr left ↦ rw (step_left fuel lo hi c inside (reads m c g) left) (
                find_loop-SplitsAt fuel lo m (omega arith) (omega arith) (omega arith) l
                  (behind m c g left))
          ]
    ]

-- On a page that holds sorted cells `FindIdx` ends, and returns the index up to which its test sends the
-- search to the right.
pub find_idx-SplitsAt :
    (acc : Accessor) (laws : AccessorLaws acc) (p : Page) (leaf : Bool) (cs : List Cell) (lo : ℕ)
    (key : ℤ)
    → Holds acc laws p leaf cs lo
    → IsSorted cs
    → (idx : ℕ) × (find_idx acc p key (length cs) leaf ≡ ok idx) × SplitsAt acc key leaf cs idx
unfolding find_idx
find_idx-SplitsAt acc laws p leaf cs lo key h sorted =
    find_loop-SplitsAt acc key leaf cs p sorted (λ i c e. read_cell-CellAt acc laws (h.cells i c e))
      (length cs + 1) 0 (length cs) (omega arith) (omega arith) (omega arith)
      (λ i c e b. absurd (omega arith)) (λ i c e b. absurd (omega (arith, get_elem?-lt cs i c e)))

-- What stands left of a search for `key`: a smaller key, or, in an inner node of a tree that copies
-- keys up from its leaves, the key itself.
abbrev pub StandsLeft : Accessor → ℤ → Bool → ℤ → Type 0
StandsLeft acc key leaf k = (k <ℤ key) ⊎ ((leaf ≡ false) × (acc.copy_up_leaves ≡ true) × (k ≡ key))

-- What does not: a greater key, or else the key itself.
abbrev pub StandsRight : Accessor → ℤ → Bool → ℤ → Type 0
StandsRight acc key leaf k =
    (key <ℤ k) ⊎ ((k ≡ key) × ((leaf ≡ true) ⊎ (acc.copy_up_leaves ≡ false)))

goes_right-StandsLeft :
    (acc : Accessor) (key k : ℤ) (leaf : Bool)
    → goes_right acc key leaf k ≡ true
    → StandsLeft acc key leaf k
unfolding goes_right
goes_right-StandsLeft acc key k leaf h = elim (Bool-cases (ltb_ℤ k key)) [
  | inl less ↦ inl (ground arith)
  | inr not_less ↦ inr (ground (arith, eqb→≡ k key))
]

goes_right-StandsRight :
    (acc : Accessor) (key k : ℤ) (leaf : Bool)
    → goes_right acc key leaf k ≡ false
    → StandsRight acc key leaf k
unfolding goes_right
goes_right-StandsRight acc key k leaf h = elim (Bool-cases (eqb_ℤ k key)) [
  | inl same ↦ elim (Bool-cases leaf) [
    | inl in_leaf ↦ inr (eqb→≡ k key same, inl in_leaf)
    | inr inner ↦ inr (eqb→≡ k key same, inr (ground arith))
  ]
  | inr other ↦ inl (ground arith)
]

-- The index splits the cells by their keys at the one that is sought.
abbrev pub SplitsKeys : Accessor → ℤ → Bool → List Cell → ℕ → Type 0
SplitsKeys acc key leaf cs idx =
    (idx ≤ length cs)
    × ((i : ℕ) (c : Cell) → get_elem? cs i ≡ some c → i < idx → StandsLeft acc key leaf c.key)
    × ((i : ℕ) (c : Cell) → get_elem? cs i ≡ some c → idx ≤ i → StandsRight acc key leaf c.key)

-- On a page that holds sorted cells `FindIdx` ends, and returns the index that splits them at the key:
-- the cells before it have smaller keys, those from it on have keys that are not smaller; in an inner
-- node of a tree that copies keys up, a cell with the key itself stands before the index.
pub find_idx-SplitsKeys :
    (acc : Accessor) (laws : AccessorLaws acc) (p : Page) (leaf : Bool) (cs : List Cell) (lo : ℕ)
    (key : ℤ)
    → Holds acc laws p leaf cs lo
    → IsSorted cs
    → (idx : ℕ) × (find_idx acc p key (length cs) leaf ≡ ok idx) × SplitsKeys acc key leaf cs idx
find_idx-SplitsKeys acc laws p leaf cs lo key h sorted =
    let (idx, e, (b, l, r)) = find_idx-SplitsAt acc laws p leaf cs lo key h sorted in
    (
      idx,
      e,
      (
        b,
        λ i c g before. goes_right-StandsLeft acc key c.key leaf (l i c g before),
        λ i c g after. goes_right-StandsRight acc key c.key leaf (r i c g after),
      ),
    )
