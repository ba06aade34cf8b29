-- ===== src/BpTree/Stored.antt =====
-- What it means that a B+ tree of a given height is stored on the disk, with given leaves in order.
use db_index_performance_eva.Node.Order.{Below, AtLeast, AtLeast-trans, Below-append}
use db_index_performance_eva.Base.{
  ℕ, zero, suc, ◌≤◌, ◌<◌, ◌≡◌, ◌≢◌, refl, sym, ap, ◌∙◌, true, false, some, List, [], ◌∷◌, ◌++◌,
  append_assoc, append-nil, arith, All, get_elem?, ℤ, ◌≤ℤ◌, ◌<ℤ◌,
}
use db_index_performance_eva.Base.Go.{ok}
use db_index_performance_eva.BtPage.{Page, invalid_page, rightmost, next_leaf}
use db_index_performance_eva.Accessor.{Cell}
use db_index_performance_eva.Accessor.BpTree.{bptree_acc}
use db_index_performance_eva.Accessor.BpTree.RoundTrip.{bptree_laws}
use db_index_performance_eva.Node.{goes_right}
use db_index_performance_eva.Node.Child.{child_of}
use db_index_performance_eva.Node.Layout.{Holds}
use db_index_performance_eva.Node.Search.{IsSorted, SplitsAt}

pub record Leaf : Type 0 where
  pub id : ℕ
  pub cells : List Cell

-- The cells of the leaves, one leaf after another.
abbrev pub entries : List Leaf → List Cell
entries [] = []
entries (x ∷ xs) = x.cells ++ entries xs

abbrev pub first_id : List Leaf → ℕ
first_id [] = invalid_page
first_id (x ∷ xs) = x.id

module _ (page_of : ℕ → Page) (There : ℕ → Type 0) where
  pub record LeafAt (x : Leaf) : Type 0 where
    pub there : There x.id
    pub real : x.id ≢ invalid_page
    pub lo : ℕ
    pub holds : Holds bptree_acc bptree_laws (page_of x.id) true x.cells lo

  -- Each leaf leads to the next one, and the last one to none.
  abbrev pub Linked : List Leaf → Type 0
  Linked [] = Unit
  Linked (x ∷ xs) = (next_leaf (page_of x.id) ≡ ok (first_id xs)) × Linked xs

  -- The leaves below an internal node: those of the child left of a cell, whose keys are below the
  -- cell's, and so on, up to those of the rightmost child. All leaves right of a cell have keys from
  -- the cell's on.
  abbrev pub Branch : (ℕ → List Leaf → Type 0) → List Cell → ℕ → List Leaf → Type 0
  Branch Child [] last ls = Child last ls
  Branch Child (c ∷ cs) last ls =
      (left right : List Leaf) × (ls ≡ left ++ right)
      × Child c.left_child left
      × Below c.key (entries left)
      × AtLeast c.key (entries right)
      × Branch Child cs last right

  abbrev pub Subtree : ℕ → ℕ → List Leaf → Type 0
  Subtree zero id ls =
      (cs : List Cell) × (ls ≡ record { id = id; cells = cs } ∷ [])
      × LeafAt (record { id = id; cells = cs })
  Subtree (suc height) id ls =
      There id
      × ((cs : List Cell) × (lo last : ℕ) × Holds bptree_acc bptree_laws (page_of id) false cs lo
          × IsSorted cs
          × (rightmost (page_of id) ≡ ok last)
          × Branch (Subtree height) cs last ls)

  All-append : (xs ys : List Leaf) → All LeafAt xs → All LeafAt ys → All LeafAt (xs ++ ys)
  All-append [] ys a b = b
  All-append (x ∷ xs) ys a b = (a.0, All-append xs ys a.1 b)

  Branch-All :
      (Child : ℕ → List Leaf → Type 0) (cs : List Cell) (last : ℕ) (ls : List Leaf)
      → ((id : ℕ) (xs : List Leaf) → Child id xs → All LeafAt xs)
      → Branch Child cs last ls
      → All LeafAt ls
  Branch-All Child [] last ls each b = each last ls b
  Branch-All Child (c ∷ cs) last ls each b =
      let (left, right, e, child, _, _, rest) = b in
      rw e (
        All-append left right (each c.left_child left child)
          (Branch-All Child cs last right each rest))

  -- All leaves of a subtree are stored.
  pub Subtree-All : (height id : ℕ) (ls : List Leaf) → Subtree height id ls → All LeafAt ls
  Subtree-All zero id ls t = let (cs, e, at_leaf) = t in rw e (at_leaf, tt)
  Subtree-All (suc height) id ls t =
      let (_, (cs, lo, last, _, _, _, b)) = t in
      Branch-All (Subtree height) cs last ls (Subtree-All height) b

  pub Linked-suffix : (xs ys : List Leaf) → Linked (xs ++ ys) → Linked ys
  Linked-suffix [] ys l = l
  Linked-suffix (x ∷ xs) ys l = Linked-suffix xs ys l.1

  pub All-suffix : (xs ys : List Leaf) → All LeafAt (xs ++ ys) → All LeafAt ys
  All-suffix [] ys a = a
  All-suffix (x ∷ xs) ys a = All-suffix xs ys a.1

pub entries-append : (xs ys : List Leaf) → entries (xs ++ ys) ≡ entries xs ++ entries ys
entries-append [] ys = refl
entries-append (x ∷ xs) ys =
    ap (◌++◌ x.cells) (entries-append xs ys) ∙ sym (append_assoc x.cells (entries xs) (entries ys))

-- The index of a search in an internal node: the cells that it passes have keys up to the one sought,
-- and the next cell has a larger one.
abbrev pub Passed : ℤ → List Cell → ℕ → Type 0
Passed key [] idx = Unit
Passed key (c ∷ cs) zero = key <ℤ c.key
Passed key (c ∷ cs) (suc idx) = (c.key ≤ℤ key) × Passed key cs idx

module _ (key k : ℤ) where
  right-le : goes_right bptree_acc key false k ≡ true → k ≤ℤ key
  unfolding goes_right
  right-le e = ground arith

  not_right-lt : goes_right bptree_acc key false k ≡ false → key <ℤ k
  unfolding goes_right
  not_right-lt e = ground arith

Passed-cells :
    (key : ℤ) (cs : List Cell) (idx : ℕ)
    → ((i : ℕ) (c : Cell)
        → get_elem? cs i ≡ some c
        → i < idx
        → goes_right bptree_acc key false c.key ≡ true)
    → ((i : ℕ) (c : Cell)
        → get_elem? cs i ≡ some c
        → idx ≤ i
        → goes_right bptree_acc key false c.key ≡ false)
    → Passed key cs idx
Passed-cells key [] idx r l = tt
Passed-cells key (c ∷ cs) zero r l = not_right-lt key c.key (l 0 c refl (omega arith))
Passed-cells key (c ∷ cs) (suc idx) r l = (
  right-le key c.key (r 0 c refl (omega arith)),
  Passed-cells key cs idx (λ i d e b. r (suc i) d e (omega arith))
      (λ i d e b. l (suc i) d e (omega arith)),
)

pub SplitsAt-Passed :
    (key : ℤ) (cs : List Cell) (idx : ℕ) → SplitsAt bptree_acc key false cs idx → Passed key cs idx
SplitsAt-Passed key cs idx (within, right, left) = Passed-cells key cs idx right left

Below-trans : (k key : ℤ) (es : List Cell) → Below k es → k ≤ℤ key → Below key es
Below-trans k key [] b h = tt
Below-trans k key (e ∷ es) b h = (omega (arith, b.0), Below-trans k key es b.1 h)

-- The leaves below the child that the search descends into; those before them hold smaller keys, and
-- those behind them no smaller ones.
pub Branch-descend :
    (page_of : ℕ → Page) (There : ℕ → Type 0) (key : ℤ) (Child : ℕ → List Leaf → Type 0)
    (cs : List Cell) (last : ℕ) (ls : List Leaf) (idx : ℕ)
    → Branch page_of There Child cs last ls
    → Passed key cs idx
    → (left sub right : List Leaf) × (ls ≡ left ++ (sub ++ right))
      × Child (child_of cs idx last) sub
      × Below key (entries left)
      × AtLeast key (entries right)
Branch-descend page_of There key Child [] last ls idx b s =
    ([], ls, [], sym (append-nil ls), b, tt, tt)
Branch-descend page_of There key Child (c ∷ cs) last ls zero b s =
    let (left, right, e, child, _, high, _) = b in
    ([], left, right, e, child, tt, AtLeast-trans c.key key (entries right) high (omega (arith, s)))
Branch-descend page_of There key Child (c ∷ cs) last ls (suc idx) b s =
    let (left, right, e, _, low, _, rest) = b in
    let (before, sub, after, e', child, low', high) =
      Branch-descend page_of There key Child cs last right idx rest s.1 in
    (
      left ++ before,
      sub,
      after,
      e ∙ ap (◌++◌ left) e' ∙ sym (append_assoc left before (sub ++ after)),
      child,
      rw (entries-append left before) (
          Below-append key (entries left) (entries before)
            (Below-trans c.key key (entries left) low s.0) low'),
      high,
    )
