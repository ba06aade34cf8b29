-- ===== src/Node/Split.antt =====
-- How `splitNode` hands the cells of an overfull node out to two pages.
use db_index_performance_eva.Base.{
  ℕ, ◌+◌, ◌-◌, ◌*◌, ◌%◌, ◌^◌, ◌≤◌, ◌<◌, ◌≡◌, ◌∙◌, refl, Bool, true, false, List, [], ◌∷◌, ◌++◌, map,
  append_assoc, append-nil, arith, length, length-append, take, drop, All, if◌then◌else◌,
}
use db_index_performance_eva.Base.Go.{ok}
use db_index_performance_eva.Bytes.Frame.{SameOutside}
use db_index_performance_eva.BtPage.{Page, rightmost, next_leaf}
use db_index_performance_eva.BtPage.Fields.{
  set_rightmost_lem, page_type-same, num_cells-same, cell_content-same,
}
use db_index_performance_eva.Accessor.{Cell, Accessor}
use db_index_performance_eva.Accessor.Laws.{Fits, AccessorLaws}
use db_index_performance_eva.Node.{append_cells, split_leaf, split_internal}
use db_index_performance_eva.Node.Layout.{
  KeepsLinks, KeepsLinks-trans, is_leaf-same, CellAt-same, Holds,
}
use db_index_performance_eva.Node.Append.{append_cell-Holds}

module _ (acc : Accessor) (laws : AccessorLaws acc) where
  -- The bytes that cells take on a page, their pointers included.
  abbrev pub weight : Bool → List Cell → ℕ
  weight leaf [] = 0
  weight leaf (c ∷ cs) = 2 + acc.cell_size leaf c.value + weight leaf cs

  -- Where the cell area begins after `ds` are put below `lo`.
  abbrev pub area : Bool → List Cell → ℕ → ℕ
  area leaf [] lo = lo
  area leaf (d ∷ ds) lo = area leaf ds (lo - acc.cell_size leaf d.value)

  pub append_cells-Holds :
      (ds : List Cell) (p : Page) (leaf : Bool) (cs : List Cell) (lo : ℕ)
      → Holds acc laws p leaf cs lo
      → All Fits ds
      → 13 + length cs * 2 + weight leaf ds ≤ lo
      → (p' : Page) × (append_cells acc ds p ≡ ok p')
        × Holds acc laws p' leaf (cs ++ map (laws.stored leaf) ds) (area leaf ds lo)
        × KeepsLinks p p'
  unfolding append_cells
  append_cells-Holds [] p leaf cs lo h fits room = (
    p,
    refl,
    rw append-nil h,
    record { size = refl; kind = refl; rightmost = refl; next_leaf = refl },
  )
  append_cells-Holds (d ∷ ds) p leaf cs lo h fits room =
      let (q, e, g, links) = append_cell-Holds acc laws p leaf cs lo d h fits.0 (omega arith) in
      let cs' = cs ++ (laws.stored leaf d ∷ []) in
      let more = length-append cs (laws.stored leaf d ∷ []) in
      let (r, e', g', links') =
        append_cells-Holds ds q leaf cs' (lo - acc.cell_size leaf d.value) g fits.1
          (omega (arith, more)) in
      (r, rw e e', rw append_assoc at g', KeepsLinks-trans {q = q} links links')

  -- A write of one of the two links of a page leaves its cells where they are.
  Holds-same :
      {p p' : Page} {w m : ℕ} (leaf : Bool) (cs : List Cell) (lo : ℕ)
      → SameOutside p p' w m
      → 5 ≤ w
      → w + m ≤ 13
      → Holds acc laws p leaf cs lo
      → Holds acc laws p' leaf cs lo
  Holds-same {p} {p'} leaf cs lo s a b h = record {
    small = omega (arith, s.size, h.small);
    kind = is_leaf-same p p' (page_type-same s (omega arith)) ∙ h.kind;
    count = num_cells-same s (omega arith) ∙ h.count;
    top = cell_content-same s (omega arith) ∙ h.top;
    room = h.room;
    bound = omega (arith, s.size, h.bound);
    cells = λ i c e.
        CellAt-same acc laws lo (h.cells i c e) s (omega arith) (omega (arith, h.room))
          (omega arith);
  }

  -- A split of a leaf, given two pages that `InitPage` has made, with room for the halves: the left
  -- page gets the cells before `mid`, the right page those from `mid` on, without the middle cell
  -- itself if the tree does not copy up; in a tree that does, the right page follows the left one
  -- in the chain of leaves, and is followed by the leaf that followed the node before.
  pub split_leaf-Holds :
      (p right : Page) (all : List Cell) (mid new_id old_next lo lo' : ℕ)
      → Holds acc laws p true [] lo
      → Holds acc laws right true [] lo'
      → All Fits (take mid all)
      → All Fits (drop (if acc.copy_up_leaves then mid else mid + 1) all)
      → 13 + weight true (take mid all) ≤ lo
      → 13 + weight true (drop (if acc.copy_up_leaves then mid else mid + 1) all) ≤ lo'
      → new_id < 2 ^ 32
      → old_next < 2 ^ 32
      → (p' right' : Page) × (split_leaf acc p right all mid new_id old_next ≡ ok (p', right'))
        × Holds acc laws p' true
            (map (laws.stored true) (take mid all))
            (area true (take mid all) lo)
        × Holds acc laws right' true
            (map (laws.stored true) (drop (if acc.copy_up_leaves then mid else mid + 1) all))
            (area true (drop (if acc.copy_up_leaves then mid else mid + 1) all) lo')
        × (acc.copy_up_leaves ≡ true
            → (next_leaf p' ≡ ok new_id) × (next_leaf right' ≡ ok old_next))
  unfolding split_leaf
  split_leaf-Holds p right all mid new_id old_next lo lo' h h' f f' room room' a b =
      let start = if acc.copy_up_leaves then mid else mid + 1 in
      let (q, e, g, links) = append_cells-Holds (take mid all) p true [] lo h f (omega arith) in
      let (q', e', g', links') =
        append_cells-Holds (drop start all) right true [] lo' h' f' (omega arith) in
      let (r, r', e'', s, s', next) =
        laws.link_leaves-ok q q' new_id old_next (omega (arith, g.room, g.bound))
          (omega (arith, g'.room, g'.bound)) a b in
      let whole : new_id % 2 ^ 32 ≡ new_id = omega arith in
      (
        r,
        r',
        rw (e, e', whole) e'',
        Holds-same true _ _ s (omega arith) (omega arith) g,
        Holds-same true _ _ s' (omega arith) (omega arith) g',
        next,
      )

  -- A split of an internal node, likewise: the left page gets the cells before `mid` and the middle
  -- cell's left child as its rightmost one, the right page the cells behind the middle one and the
  -- node's rightmost child.
  pub split_internal-Holds :
      (p right : Page) (all : List Cell) (mid : ℕ) (promoted : Cell) (old_rightmost lo lo' : ℕ)
      → Holds acc laws p false [] lo
      → Holds acc laws right false [] lo'
      → All Fits (take mid all)
      → All Fits (drop (mid + 1) all)
      → 13 + weight false (take mid all) ≤ lo
      → 13 + weight false (drop (mid + 1) all) ≤ lo'
      → promoted.left_child < 2 ^ 32
      → old_rightmost < 2 ^ 32
      → (p' right' : Page) × (split_internal acc p right all mid promoted old_rightmost
          ≡ ok (p', right'))
        × Holds acc laws p' false
            (map (laws.stored false) (take mid all))
            (area false (take mid all) lo)
        × Holds acc laws right' false
            (map (laws.stored false) (drop (mid + 1) all))
            (area false (drop (mid + 1) all) lo')
        × (rightmost p' ≡ ok promoted.left_child)
        × (rightmost right' ≡ ok old_rightmost)
  unfolding split_internal
  split_internal-Holds p right all mid promoted old_rightmost lo lo' h h' f f' room room' a b =
      let (q, e, g, links) = append_cells-Holds (take mid all) p false [] lo h f (omega arith) in
      let (q', e', g', links') =
        append_cells-Holds (drop (mid + 1) all) right false [] lo' h' f' (omega arith) in
      let (r, d, s, last) =
        set_rightmost_lem q promoted.left_child (omega (arith, g.room, g.bound)) a in
      let (r', d', s', last') =
        set_rightmost_lem q' old_rightmost (omega (arith, g'.room, g'.bound)) b in
      (
        r,
        r',
        rw (e, d, e', d'),
        Holds-same false _ _ s (omega arith) (omega arith) g,
        Holds-same false _ _ s' (omega arith) (omega arith) g',
        last,
        last',
      )
