-- ===== src/Node/Insert.antt =====
-- `doInsert` on a leaf with room puts a cell between the others.
use db_index_performance_eva.Base.{
  ℕ, ◌+◌, ◌-◌, ◌*◌, ◌≤◌, ◌<◌, ◌≡◌, ◌∙◌, refl, ap, ℤ, inl, inr, true, List, arith, length, insert_at,
  length-insert_at, get_elem?-lt, get_elem?-insert_at, pos, Bool-cases, ◌==◌,
}
use db_index_performance_eva.Base.Go.{ok}
use db_index_performance_eva.Bytes.{to_u16}
use db_index_performance_eva.Bytes.Words.{to_u16-pos}
use db_index_performance_eva.Bytes.Frame.{SameOutside, SameOutside-refl}
use db_index_performance_eva.BtPage.{Page, page_type, num_cells, next_leaf, cell_ptr}
use db_index_performance_eva.BtPage.Fields.{
  set_num_cells_lem, set_rightmost_lem, page_type-same, cell_content-same, next_leaf-same,
}
use db_index_performance_eva.Accessor.{Value, Cell, Accessor}
use db_index_performance_eva.Accessor.Laws.{Fits, AccessorLaws}
use db_index_performance_eva.Node.{link_right_child, insert_cell}
use db_index_performance_eva.Node.Layout.{
  is_leaf-same, CellAt, CellAt-same, CellAt-moved, Holds, Holds-IsPtr,
}
use db_index_performance_eva.Node.Place.{Placed, place}
use db_index_performance_eva.Node.Shift.{shift_up_lem}

-- The cell that an insertion writes to a leaf.
abbrev pub leaf_cell : ℤ → Value → Cell
leaf_cell key value = record { key = key; value = value; left_child = 0 }

module _ (acc : Accessor) (laws : AccessorLaws acc) where
  link_right_child-leaf :
      (p : Page) (n idx : ℕ)
      → 9 ≤ length p
      → (p' : Page) × (link_right_child acc p n idx true 0 ≡ ok p') × SameOutside p p' 5 4
  unfolding link_right_child
  link_right_child-leaf p n idx h =
      let (q, e, s, r) = set_rightmost_lem p 0 h (omega arith) in
      elim (Bool-cases (idx == n)) [
        | inl last ↦ (q, rw last e, s)
        | inr inner ↦ (p, rw inner refl, SameOutside-refl p 5 4)
      ]

  -- The page after the moves of the pointers, the writes of the cell and of the header.
  module _ (p q p1 p2 p3 p4 p5 : Page) (cs : List Cell) (lo idx : ℕ) (c : Cell)
      (within : idx ≤ length cs) (room : 13 + (length cs + 1) * 2 + acc.cell_size true c.value ≤ lo)
      (s : SameOutside p q (13 + (idx + 1) * 2) ((length cs - idx) * 2))
      (moved : (j : ℕ) → idx ≤ j → j < idx + (length cs - idx) → cell_ptr q (j + 1) ≡ cell_ptr p j)
      (placed : Placed acc laws true lo idx c (length cs) q p1 p2 p3) (s4 : SameOutside p3 p4 5 4)
      (s5 : SameOutside p4 p5 1 2) where
    kept :
        (i : ℕ) (d : Cell)
        → i ≤ length cs
        → CellAt acc laws p3 true (lo - acc.cell_size true c.value) i d
        → CellAt acc laws p5 true (lo - acc.cell_size true c.value) i d
    kept i d b a =
        let low = lo - acc.cell_size true c.value in
        let a' =
          CellAt-same acc laws {p' = p4} low a s4 (omega arith) (omega arith) (omega arith) in
        CellAt-same acc laws low a' s5 (omega arith) (omega arith) (omega arith)

    kind : page_type p5 ≡ page_type p
    kind =
        page_type-same s5 (omega arith)
        ∙ page_type-same s4 (omega arith)
        ∙ placed.links.kind
        ∙ page_type-same s (omega arith)

    next : next_leaf p5 ≡ next_leaf p
    next =
        next_leaf-same s5 (omega arith)
        ∙ next_leaf-same s4 (omega arith)
        ∙ placed.links.next_leaf
        ∙ next_leaf-same s (omega arith)

    inserted :
        Holds acc laws p true cs lo
        → num_cells p5 ≡ ok (length cs + 1)
        → Holds acc laws p5 true
            (insert_at idx (laws.stored true c) cs)
            (lo - acc.cell_size true c.value)
    inserted h count =
        let grown = length-insert_at idx (laws.stored true c) cs in
        record {
          small = omega (arith, s5.size, s4.size, placed.links.size, s.size, h.small);
          kind = is_leaf-same p p5 kind ∙ h.kind;
          count = count ∙ ap ok (omega (arith, grown));
          top =
              cell_content-same s5 (omega arith) ∙ cell_content-same s4 (omega arith) ∙ placed.top;
          room = omega (arith, grown);
          bound = omega (arith, s5.size, s4.size, placed.links.size, s.size, h.bound);
          cells = λ i d f. elim (get_elem?-insert_at idx (laws.stored true c) cs i d within f) [
            | inl (before, g) ↦
                let a =
                  CellAt-same acc laws {p' = q} lo (h.cells i d g) s (omega arith) (omega arith)
                    (omega arith) in
                kept i d (omega arith) (placed.old i d (omega arith) (omega arith) a)
            | inr (inl (at, g)) ↦ rw (at, ← g) (kept idx (laws.stored true c) within placed.new)
            | inr (inr (j, at, behind, g)) ↦
                let there = get_elem?-lt cs j d g in
                let a =
                  CellAt-moved acc laws {p' = q} (h.cells j d g) s (moved j behind (omega arith))
                    (omega arith) in
                rw at (
                  kept (j + 1) d (omega arith) (placed.old (j + 1) d (omega arith) (omega arith) a))
          ];
        }

  -- The insertion with all that it keeps.
  insert_cell_lem :
      (p : Page) (cs : List Cell) (lo idx : ℕ) (key : ℤ) (value : Value)
      → Holds acc laws p true cs lo
      → Fits (leaf_cell key value)
      → idx ≤ length cs
      → 13 + (length cs + 1) * 2 + acc.cell_size true value ≤ lo
      → (p' : Page) × (insert_cell acc p (length cs) idx key value 0 true ≡ ok p')
        × Holds acc laws p' true
            (insert_at idx (laws.stored true (leaf_cell key value)) cs)
            (lo - acc.cell_size true value)
        × (page_type p' ≡ page_type p)
        × (next_leaf p' ≡ next_leaf p)
        × (length p' ≡ length p)
  unfolding insert_cell
  insert_cell_lem p cs lo idx key value h fits within room =
      let c = leaf_cell key value in
      let n = length cs in
      let size = acc.cell_size true value in
      let (q, e, s, moved) =
        shift_up_lem (n - idx) idx p (omega (arith, h.bound))
          (λ j a b. Holds-IsPtr acc laws h j (omega arith)) in
      let (p1, p2, p3, placed) =
        place acc laws true lo idx c n q within room (omega (arith, s.size, h.bound))
          (omega (arith, s.size, h.small)) (cell_content-same s (omega arith) ∙ h.top) fits in
      let (p4, e4, s4) =
        link_right_child-leaf p3 n idx (omega (arith, placed.links.size, s.size, h.bound)) in
      let (p5, e5, s5, r5) =
        set_num_cells_lem p4 (n + 1) (omega (arith, s4.size, placed.links.size, s.size, h.bound))
          (omega (arith, h.small, h.bound)) in
      let low : to_u16 (pos (lo - size)) ≡ lo - size =
        to_u16-pos (lo - size) (omega (arith, h.small, h.bound)) in
      (
        p5,
        rw (e, placed.allocated, placed.written, low, placed.pointed, e4) e5,
        inserted p q p1 p2 p3 p4 p5 cs lo idx c within room s moved placed s4 s5 h r5,
        kind p q p1 p2 p3 p4 p5 cs lo idx c within room s moved placed s4 s5,
        next p q p1 p2 p3 p4 p5 cs lo idx c within room s moved placed s4 s5,
        omega (arith, s5.size, s4.size, placed.links.size, s.size),
      )

  -- On a leaf that holds `cs` and has room for one more pointer and the cell, the insertion at an
  -- index up to their number succeeds, and the leaf holds `cs` with the cell at that index, as its
  -- encoding keeps it; the page's type and its next leaf stay.
  pub insert_cell-Holds :
      (p : Page) (cs : List Cell) (lo idx : ℕ) (key : ℤ) (value : Value)
      → Holds acc laws p true cs lo
      → Fits (leaf_cell key value)
      → idx ≤ length cs
      → 13 + (length cs + 1) * 2 + acc.cell_size true value ≤ lo
      → (p' : Page) × (insert_cell acc p (length cs) idx key value 0 true ≡ ok p')
        × Holds acc laws p' true
            (insert_at idx (laws.stored true (leaf_cell key value)) cs)
            (lo - acc.cell_size true value)
        × (page_type p' ≡ page_type p)
        × (next_leaf p' ≡ next_leaf p)
  insert_cell-Holds p cs lo idx key value h fits within room =
      let (p', e, g, kept, next, _) = insert_cell_lem p cs lo idx key value h fits within room in
      (p', e, g, kept, next)

  -- The page keeps its size.
  pub length-insert_cell :
      (p p' : Page) (cs : List Cell) (lo idx : ℕ) (key : ℤ) (value : Value)
      → Holds acc laws p true cs lo
      → Fits (leaf_cell key value)
      → idx ≤ length cs
      → 13 + (length cs + 1) * 2 + acc.cell_size true value ≤ lo
      → insert_cell acc p (length cs) idx key value 0 true ≡ ok p'
      → length p' ≡ length p
  length-insert_cell p p' cs lo idx key value h fits within room f =
      let (q, e, _, _, _, size) = insert_cell_lem p cs lo idx key value h fits within room in
      let same : q ≡ p' = cc in rw same at size
