-- ===== src/Node/Place.antt =====
-- The three writes by which `AppendCell` and `doInsert` put a cell on a page: the start of the cell
-- area goes down, the cell is written there, and pointer `k` is set to it.
use db_index_performance_eva.Base.{
  ℕ, ◌+◌, ◌-◌, ◌*◌, ◌^◌, ◌≤◌, ◌<◌, ◌≡◌, ◌≢◌, ◌∙◌, Bool, arith, length, pos,
}
use db_index_performance_eva.Base.Go.{ok}
use db_index_performance_eva.Bytes.Frame.{SameOutside}
use db_index_performance_eva.BtPage.{
  Page, num_cells, cell_content, cell_ptr, set_cell_ptr, alloc_cell,
}
use db_index_performance_eva.BtPage.Fields.{
  set_cell_ptr_lem, alloc_cell_lem, num_cells-same, page_type-same, cell_content-same,
}
use db_index_performance_eva.Accessor.{Cell, Accessor}
use db_index_performance_eva.Accessor.Laws.{Fits, AccessorLaws}
use db_index_performance_eva.Node.{is_leaf}
use db_index_performance_eva.Node.Layout.{
  KeepsLinks, KeepsLinks-same, KeepsLinks-trans, is_leaf-same, CellAt, CellAt-same,
}

module _ (acc : Accessor) (laws : AccessorLaws acc) (leaf : Bool) (lo k : ℕ) (c : Cell) where
  abbrev size : ℕ
  size = acc.cell_size leaf c.value

  -- The page before, between and after the writes.
  pub record Placed (n : ℕ) (p p1 p2 p3 : Page) : Type 0 where
    pub allocated : alloc_cell p size ≡ ok (pos (lo - size), p1)
    pub is_leaf_1 : is_leaf p1 ≡ is_leaf p
    pub written : acc.write_cell p1 (pos (lo - size)) c.key c.value c.left_child leaf ≡ ok p2
    pub pointed : set_cell_ptr p2 k (lo - size) ≡ ok p3
    pub links : KeepsLinks p p3
    pub count : num_cells p3 ≡ num_cells p
    pub top : cell_content p3 ≡ ok (lo - size)
    pub new : CellAt acc laws p3 leaf (lo - size) k (laws.stored leaf c)
    pub old :
        (i : ℕ) (d : Cell)
        → i ≢ k
        → i ≤ n
        → CellAt acc laws p leaf lo i d
        → CellAt acc laws p3 leaf (lo - size) i d

  module _ {p p1 p2 p3 : Page} (s1 : SameOutside p p1 3 2) (s2 : SameOutside p1 p2 (lo - size) size)
      (s3 : SameOutside p2 p3 (13 + k * 2) 2) (room : 13 + (k + 1) * 2 + size ≤ lo) where
    links : KeepsLinks p p3
    links = KeepsLinks-trans {q = p1} (KeepsLinks-same s1 (omega arith) (omega arith)) (
        KeepsLinks-trans {q = p2} (KeepsLinks-same s2 (omega arith) (omega arith))
          (KeepsLinks-same s3 (omega arith) (omega arith)))

    old :
        (i : ℕ) (d : Cell)
        → i ≢ k
        → 13 + (i + 1) * 2 + size ≤ lo
        → CellAt acc laws p leaf lo i d
        → CellAt acc laws p3 leaf (lo - size) i d
    old i d ne below a =
        let a1 = CellAt-same acc laws {p' = p1} lo a s1 (omega arith) (omega arith) (omega arith) in
        let a2 =
          CellAt-same acc laws {p' = p2} lo a1 s2 (omega arith) (omega arith) (omega arith) in
        CellAt-same acc laws (lo - size) a2 s3 (omega arith) (omega arith) (omega arith)

    new :
        laws.decode p2 (lo - size) leaf ≡ ok (laws.stored leaf c)
        → cell_ptr p3 k ≡ ok (lo - size)
        → lo ≤ length p
        → CellAt acc laws p3 leaf (lo - size) k (laws.stored leaf c)
    new r2 r3 bound = record {
      off = lo - size;
      ptr = r3;
      above = omega arith;
      inside = omega (arith, s1.size, s2.size, s3.size, laws.cell_size-stored leaf c);
      here = laws.decode-same p2 p3 (lo - size) (13 + k * 2) 2 leaf _ s3 (omega arith) r2;
    }

  -- With room below the cell area for the cell and for the pointers up to `n`, the writes succeed,
  -- and every other cell of the page stays.
  pub place :
      (n : ℕ) (p : Page)
      → k ≤ n
      → 13 + (n + 1) * 2 + size ≤ lo
      → lo ≤ length p
      → length p < 2 ^ 16
      → cell_content p ≡ ok lo
      → Fits c
      → (p1 : Page) × (p2 : Page) × (p3 : Page) × Placed n p p1 p2 p3
  place n p below room bound small top fits =
      let (p1, e1, s1, r1) =
        alloc_cell_lem p size lo top (omega arith) (omega arith) (omega arith) in
      let (p2, e2, s2, r2) =
        laws.write_cell-stored p1 (lo - size) c leaf (omega (arith, s1.size)) fits in
      let (p3, e3, s3, r3) =
        set_cell_ptr_lem p2 k (lo - size) (omega (arith, s1.size, s2.size)) (omega arith) in
      let room' : 13 + (k + 1) * 2 + size ≤ lo = omega arith in
      (
        p1,
        p2,
        p3,
        record {
          allocated = e1;
          is_leaf_1 = is_leaf-same p p1 (page_type-same s1 (omega arith));
          written = e2;
          pointed = e3;
          links = links s1 s2 s3 room';
          count =
              num_cells-same s3 (omega arith)
              ∙ num_cells-same s2 (omega arith)
              ∙ num_cells-same s1 (omega arith);
          top = cell_content-same s3 (omega arith) ∙ cell_content-same s2 (omega arith) ∙ r1;
          new = new s1 s2 s3 room' r2 r3 bound;
          old = λ i d ne le a. old s1 s2 s3 room' i d ne (omega arith) a;
        },
      )
