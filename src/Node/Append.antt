-- ===== src/Node/Append.antt =====
-- `AppendCell` on a page that has room puts one cell behind the others.
use db_index_performance_eva.Base.{
  ℕ, ◌+◌, ◌-◌, ◌*◌, ◌≤◌, ◌≡◌, ◌∙◌, inl, inr, Bool, List, [], ◌∷◌, ◌++◌, arith, length,
  length-append, get_elem?-lt, get_elem?-append_one, pos,
}
use db_index_performance_eva.Base.Go.{ok}
use db_index_performance_eva.Bytes.{to_u16}
use db_index_performance_eva.Bytes.Words.{to_u16-pos}
use db_index_performance_eva.BtPage.{Page}
use db_index_performance_eva.BtPage.Fields.{set_num_cells_lem, cell_content-same}
use db_index_performance_eva.Accessor.{Cell, Accessor}
use db_index_performance_eva.Accessor.Laws.{Fits, AccessorLaws}
use db_index_performance_eva.Node.{append_cell}
use db_index_performance_eva.Node.Layout.{
  KeepsLinks, KeepsLinks-same, KeepsLinks-trans, is_leaf-same, CellAt, CellAt-same, Holds,
}
use db_index_performance_eva.Node.Place.{place}

module _ (acc : Accessor) (laws : AccessorLaws acc) where
  -- On a page that holds `cs` and has room for one more pointer and the cell, the call succeeds and
  -- the page holds `cs` followed by the cell as its encoding keeps it; the page's type, its
  -- rightmost child and its next leaf stay.
  pub append_cell-Holds :
      (p : Page) (leaf : Bool) (cs : List Cell) (lo : ℕ) (c : Cell)
      → Holds acc laws p leaf cs lo
      → Fits c
      → 13 + (length cs + 1) * 2 + acc.cell_size leaf c.value ≤ lo
      → (p' : Page) × (append_cell acc p c.key c.value c.left_child ≡ ok p')
        × Holds acc laws p' leaf (cs ++ (laws.stored leaf c ∷ [])) (lo - acc.cell_size leaf c.value)
        × KeepsLinks p p'
  unfolding append_cell
  append_cell-Holds p leaf cs lo c h fits room =
      let n = length cs in
      let size = acc.cell_size leaf c.value in
      let (p1, p2, p3, placed) =
        place acc laws leaf lo n c n p (omega arith) room h.bound h.small h.top fits in
      let (p4, e4, s4, r4) =
        set_num_cells_lem p3 (n + 1) (omega (arith, placed.links.size, h.bound))
          (omega (arith, h.small, h.bound)) in
      let links =
        KeepsLinks-trans {q = p3} placed.links (KeepsLinks-same s4 (omega arith) (omega arith)) in
      let grown = length-append cs (laws.stored leaf c ∷ []) in
      let low : to_u16 (pos (lo - size)) ≡ lo - size =
        to_u16-pos (lo - size) (omega (arith, h.small, h.bound)) in
      let keep = λ (i : ℕ) (d : Cell) (a : CellAt acc laws p3 leaf (lo - size) i d) (b : i ≤ n).
        CellAt-same acc laws (lo - size) a s4 (omega arith) (omega arith) (omega arith) in
      (
        p4,
        rw
            (
              h.count, h.kind, placed.allocated, placed.is_leaf_1, h.kind, placed.written, low,
              placed.pointed,
            )
            e4,
        record {
          small = omega (arith, links.size, h.small);
          kind = is_leaf-same p p4 links.kind ∙ h.kind;
          count = rw grown r4;
          top = cell_content-same s4 (omega arith) ∙ placed.top;
          room = omega (arith, grown);
          bound = omega (arith, links.size, h.bound);
          cells = λ i d e. elim (get_elem?-append_one cs (laws.stored leaf c) i d e) [
            | inl e' ↦
                let below = get_elem?-lt cs i d e' in
                keep i d (placed.old i d (omega arith) (omega arith) (h.cells i d e')) (omega arith)
            | inr (e', f) ↦ rw (e', ← f) (keep n (laws.stored leaf c) placed.new (omega arith))
          ];
        },
        links,
      )
