-- ===== src/BTree/Stored.antt =====
-- What it means that a B-tree of a given height is stored on the disk with given entries in order.
use db_index_performance_eva.Node.Order.{Below}
use db_index_performance_eva.Base.{
  ℕ, zero, suc, ◌≤◌, ◌<◌, ◌≡◌, refl, Bool, true, false, none, some, List, [], ◌∷◌, ◌++◌, arith, All,
  get_elem?, if◌then◌else◌, ℤ, eqb_ℤ, ◌≤ℤ◌, ◌<ℤ◌,
}
use db_index_performance_eva.Base.Go.{ok}
use db_index_performance_eva.BtPage.{Page, rightmost}
use db_index_performance_eva.Accessor.{Value, Cell}
use db_index_performance_eva.Accessor.BTree.{btree_acc}
use db_index_performance_eva.Accessor.BTree.RoundTrip.{btree_laws}
use db_index_performance_eva.Node.{goes_right}
use db_index_performance_eva.Node.Layout.{Holds}
use db_index_performance_eva.Node.Search.{IsSorted, SplitsAt}

-- The value under a key in a list of entries; nil if there is none.
abbrev pub lookup_value : ℤ → List Cell → Value
lookup_value key [] = none
lookup_value key (c ∷ cs) = if eqb_ℤ c.key key then c.value else lookup_value key cs

abbrev pub Above : ℤ → List Cell → Type 0
Above k es = All (λ c. k <ℤ c.key) es

-- The entries of a node: those of the subtree left of a cell, the cell itself, and so on, up to those
-- of the rightmost subtree; the cell's key separates them.
abbrev pub Spread : (ℕ → List Cell → Type 0) → List Cell → ℕ → List Cell → Type 0
Spread Below_node [] last es = Below_node last es
Spread Below_node (c ∷ cs) last es =
    (left right : List Cell) × (es ≡ left ++ (c ∷ right))
    × Below_node c.left_child left
    × Below c.key left
    × Above c.key right
    × Spread Below_node cs last right

-- All leaves lie at the same depth. `pages` gives the pages that are there.
abbrev pub Stored : (ℕ → Page) → (ℕ → Type 0) → ℕ → ℕ → List Cell → Type 0
Stored page_of There zero id es =
    There id × IsSorted es × ((lo : ℕ) × Holds btree_acc btree_laws (page_of id) true es lo)
Stored page_of There (suc height) id es =
    There id
    × ((cs : List Cell) × (lo last : ℕ) × Holds btree_acc btree_laws (page_of id) false cs lo
        × IsSorted cs
        × (rightmost (page_of id) ≡ ok last)
        × Spread (Stored page_of There height) cs last es)

-- The index of a search, as a recursion on the cells.
abbrev pub Splits : ℤ → List Cell → ℕ → Type 0
Splits key [] idx = Unit
Splits key (c ∷ cs) zero = key ≤ℤ c.key
Splits key (c ∷ cs) (suc idx) = (c.key <ℤ key) × Splits key cs idx

abbrev pub value_here : ℤ → List Cell → ℕ → Value
value_here key [] idx = none
value_here key (c ∷ cs) zero = if eqb_ℤ c.key key then c.value else none
value_here key (c ∷ cs) (suc idx) = value_here key cs idx

module _ (key k : ℤ) (leaf : Bool) where
  right-lt : goes_right btree_acc key leaf k ≡ true → k <ℤ key
  unfolding goes_right
  right-lt e = ground arith

  not_right-le : goes_right btree_acc key leaf k ≡ false → key ≤ℤ k
  unfolding goes_right
  not_right-le e = ground arith

pub Splits-cells :
    (key : ℤ) (cs : List Cell) (idx : ℕ)
    → ((i : ℕ) (c : Cell) → get_elem? cs i ≡ some c → i < idx → c.key <ℤ key)
    → ((i : ℕ) (c : Cell) → get_elem? cs i ≡ some c → idx ≤ i → key ≤ℤ c.key)
    → Splits key cs idx
Splits-cells key [] idx r l = tt
Splits-cells key (c ∷ cs) zero r l = l 0 c refl (omega arith)
Splits-cells key (c ∷ cs) (suc idx) r l = (
  r 0 c refl (omega arith),
  Splits-cells key cs idx (λ i d e b. r (suc i) d e (omega arith))
      (λ i d e b. l (suc i) d e (omega arith)),
)

pub SplitsAt-Splits :
    (key : ℤ) (leaf : Bool) (cs : List Cell) (idx : ℕ)
    → SplitsAt btree_acc key leaf cs idx
    → Splits key cs idx
SplitsAt-Splits key leaf cs idx (within, r, l) =
    Splits-cells key cs idx (λ i c e b. right-lt key c.key leaf (r i c e b))
      (λ i c e b. not_right-le key c.key leaf (l i c e b))

pub lookup_value-Below :
    (key k : ℤ) (es : List Cell) → Below k es → k ≤ℤ key → lookup_value key es ≡ none
lookup_value-Below key k [] b h = refl
lookup_value-Below key k (e ∷ es) b h = ground (arith, lookup_value-Below key k es b.1 h, b.0)

lookup_value-Above :
    (key k : ℤ) (es : List Cell) → Above k es → key ≤ℤ k → lookup_value key es ≡ none
lookup_value-Above key k [] b h = refl
lookup_value-Above key k (e ∷ es) b h = ground (arith, lookup_value-Above key k es b.1 h, b.0)

-- What is found in a list with a cell in it, by the cell's key.
pub lookup_value-left :
    (key : ℤ) (left : List Cell) (c : Cell) (right : List Cell)
    → Above c.key right
    → key <ℤ c.key
    → lookup_value key (left ++ (c ∷ right)) ≡ lookup_value key left
lookup_value-left key [] c right a h = ground (arith, lookup_value-Above key c.key right a)
lookup_value-left key (e ∷ left) c right a h =
    ground (arith, lookup_value-left key left c right a h)

pub lookup_value-right :
    (key : ℤ) (left : List Cell) (c : Cell) (right : List Cell)
    → Below c.key left
    → c.key <ℤ key
    → lookup_value key (left ++ (c ∷ right)) ≡ lookup_value key right
lookup_value-right key [] c right b h = ground arith
lookup_value-right key (e ∷ left) c right b h =
    ground (arith, lookup_value-right key left c right b.1 h, b.0)

pub lookup_value-here :
    (key : ℤ) (left : List Cell) (c : Cell) (right : List Cell)
    → Below c.key left
    → eqb_ℤ c.key key ≡ true
    → lookup_value key (left ++ (c ∷ right)) ≡ c.value
lookup_value-here key [] c right b h = rw h
lookup_value-here key (e ∷ left) c right b h =
    ground (arith, lookup_value-here key left c right b.1 h, b.0)
