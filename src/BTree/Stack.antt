-- ===== src/BTree/Stack.antt =====
-- What the stack of a B-tree's range iterator has left to visit, in a tree that is stored on the disk.
use db_index_performance_eva.Node.Order.{Below, AtLeast, Below-append}
use db_index_performance_eva.Base.{
  ℕ, zero, suc, ◌+◌, ◌≤◌, ◌<◌, ◌≡◌, refl, sym, ap, ◌∙◌, true, false, some, List, [], ◌∷◌, ◌++◌,
  append_assoc, append-nil, arith, length, drop, get_elem?, ℤ, ◌≤ℤ◌,
}
use db_index_performance_eva.Base.Go.{ok}
use db_index_performance_eva.BtPage.{Page, rightmost}
use db_index_performance_eva.Accessor.{Cell}
use db_index_performance_eva.Accessor.BTree.{btree_acc}
use db_index_performance_eva.Accessor.BTree.RoundTrip.{btree_laws}
use db_index_performance_eva.Node.Child.{child_of}
use db_index_performance_eva.Node.Layout.{Holds}
use db_index_performance_eva.BTree.{Frame}
use db_index_performance_eva.BTree.Stored.{Above, Spread, Splits, Stored}

module _ (Child : ℕ → List Cell → Type 0) where
  -- The entries of a node from the child at an index on.
  abbrev pub From : List Cell → ℕ → ℕ → List Cell → Type 0
  From cs last zero rem = Spread Child cs last rem
  From [] last (suc idx) rem = ⊥
  From (c ∷ cs) last (suc idx) rem = From cs last idx rem

  -- The entries of a node behind the child at an index.
  abbrev pub Behind : List Cell → ℕ → ℕ → List Cell → Type 0
  Behind [] last idx rem = rem ≡ []
  Behind (c ∷ cs) last zero rem =
      (right : List Cell) × (rem ≡ c ∷ right) × Spread Child cs last right
  Behind (c ∷ cs) last (suc idx) rem = Behind cs last idx rem

  pub From-child :
      (cs : List Cell) (last idx : ℕ) (rem : List Cell)
      → From cs last idx rem
      → (sub rest : List Cell) × (rem ≡ sub ++ rest)
        × Child (child_of cs idx last) sub
        × Behind cs last idx rest
        × (idx ≤ length cs)
  From-child [] last zero rem f = (rem, [], sym (append-nil rem), f, refl, omega arith)
  From-child [] last (suc idx) rem f = elim f [ ]
  From-child (c ∷ cs) last zero rem f =
      let (left, right, e, child, _, _, spread) = f in
      (left, c ∷ right, e, child, (right, refl, spread), omega arith)
  From-child (c ∷ cs) last (suc idx) rem f =
      let (sub, rest, e, child, behind, within) = From-child cs last idx rem f in
      (sub, rest, e, child, behind, omega (arith, within))

  -- Behind a child comes a cell, and then the next child, or nothing.
  pub Behind-cell :
      (cs : List Cell) (last idx : ℕ) (rem : List Cell)
      → idx < length cs
      → Behind cs last idx rem
      → (c : Cell) × (right : List Cell) × (get_elem? cs idx ≡ some c)
        × (rem ≡ c ∷ right)
        × From cs last (idx + 1) right
  Behind-cell [] last idx rem h b = absurd (omega arith)
  Behind-cell (c ∷ cs) last zero rem h b = let (right, e, spread) = b in (c, right, refl, e, spread)
  Behind-cell (c ∷ cs) last (suc idx) rem h b =
      let (d, right, g, e, from) = Behind-cell cs last idx rem (omega arith) b in
      let next : suc idx + 1 ≡ suc (idx + 1) = omega arith in (d, right, g, e, rw next from)

  pub Behind-end :
      (cs : List Cell) (last idx : ℕ) (rem : List Cell)
      → length cs ≤ idx
      → Behind cs last idx rem
      → rem ≡ []
  Behind-end [] last idx rem h b = b
  Behind-end (c ∷ cs) last zero rem h b = absurd (omega arith)
  Behind-end (c ∷ cs) last (suc idx) rem h b = Behind-end cs last idx rem (omega arith) b

  -- The entries that a search for a key splits a node into: those it passes are smaller, and those
  -- behind the child that it goes to are not.
  pub Spread-search :
      (key : ℤ) (cs : List Cell) (last idx : ℕ) (es : List Cell)
      → Spread Child cs last es
      → Splits key cs idx
      → (low sub rest : List Cell) × (es ≡ low ++ (sub ++ rest))
        × Below key low
        × AtLeast key rest
        × Child (child_of cs idx last) sub
        × Behind cs last idx rest
  Spread-search key [] last idx es s p = ([], es, [], sym (append-nil es), tt, tt, s, refl)
  Spread-search key (c ∷ cs) last zero es s p =
      let (left, right, e, child, _, above, spread) = s in
      (
        [],
        left,
        c ∷ right,
        e,
        tt,
        (p, Above-AtLeast c.key right above p),
        child,
        (right, refl, spread),
      )
    where
      Above-AtLeast : (k : ℤ) (xs : List Cell) → Above k xs → key ≤ℤ k → AtLeast key xs
      Above-AtLeast k [] a h = tt
      Above-AtLeast k (x ∷ xs) a h = (omega (arith, a.0), Above-AtLeast k xs a.1 h)
  Spread-search key (c ∷ cs) last (suc idx) es s p =
      let (left, right, e, _, below, _, spread) = s in
      let (low, sub, rest, e', low', high, child, behind) =
        Spread-search key cs last idx right spread p.1 in
      (
        left ++ (c ∷ low),
        sub,
        rest,
        e ∙ ap (λ l. left ++ (c ∷ l)) e' ∙ sym (append_assoc left (c ∷ low) (sub ++ rest)),
        Below-append key left (c ∷ low) (Below-step left below) (p.0, low'),
        high,
        child,
        behind,
      )
    where
      Below-step : (xs : List Cell) → Below c.key xs → Below key xs
      Below-step [] b = tt
      Below-step (x ∷ xs) b = (omega (arith, b.0, p.0), Below-step xs b.1)

module _ (page_of : ℕ → Page) (There : ℕ → Type 0) where
  -- A leaf with the given cells, and an internal node with its cells and its rightmost child.
  abbrev pub LeafNode : ℕ → List Cell → Type 0
  LeafNode id cs = There id × ((lo : ℕ) × Holds btree_acc btree_laws (page_of id) true cs lo)

  abbrev pub InternalNode : ℕ → List Cell → ℕ → Type 0
  InternalNode id cs last =
      There id
      × ((lo : ℕ) × Holds btree_acc btree_laws (page_of id) false cs lo)
      × (rightmost (page_of id) ≡ ok last)

  -- What a frame whose child was visited, or which is a leaf's, has left.
  abbrev pub Settled : ℕ → ℕ → ℕ → List Cell → Type 0
  Settled zero id idx rem = (cs : List Cell) × LeafNode id cs × (rem ≡ drop idx cs)
  Settled (suc height) id idx rem =
      (cs : List Cell) × (last : ℕ) × InternalNode id cs last
      × Behind (Stored page_of There height) cs last idx rem

  -- What the frames below one of the given height have left, all of them being visited.
  abbrev pub Waiting : ℕ → List Frame → List Cell → Type 0
  Waiting height [] rem = rem ≡ []
  Waiting height (f ∷ fs) rem =
      (here later : List Cell) × (rem ≡ here ++ later)
      × Settled (suc height) f.id f.idx here
      × Waiting (suc height) fs later
