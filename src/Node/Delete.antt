-- ===== src/Node/Delete.antt =====
-- `DeleteCell` takes the pointer to a cell away; the cell area stays as it is.
use db_index_performance_eva.Base.{
  ℕ, ◌+◌, ◌-◌, ◌*◌, ◌≤◌, ◌<◌, ◌≡◌, ◌∙◌, ap, inl, inr, Bool, List, arith, length, remove_at,
  length-remove_at, get_elem?-lt, get_elem?-remove_at, pos, sub_ℕ,
}
use db_index_performance_eva.Base.Go.{ok}
use db_index_performance_eva.Bytes.Frame.{SameOutside}
use db_index_performance_eva.BtPage.{Page, num_cells, cell_ptr}
use db_index_performance_eva.BtPage.Fields.{set_num_cells_lem, cell_content-same}
use db_index_performance_eva.Accessor.{Cell, Accessor}
use db_index_performance_eva.Accessor.Laws.{AccessorLaws}
use db_index_performance_eva.Node.{delete_cell}
use db_index_performance_eva.Node.Layout.{
  KeepsLinks, KeepsLinks-same, KeepsLinks-trans, is_leaf-same, CellAt, CellAt-same, CellAt-moved,
  Holds, Holds-IsPtr,
}
use db_index_performance_eva.Node.Shift.{shift_down_lem}

module _ (acc : Accessor) (laws : AccessorLaws acc) where
  -- The page after the moves of the pointers and the write of the number of cells.
  module _ {p q p' : Page} {leaf : Bool} (cs : List Cell) (lo i : ℕ)
      (h : Holds acc laws p leaf cs lo) (inside : i < length cs)
      (s : SameOutside p q (13 + i * 2) ((length cs - 1 - i) * 2))
      (moved : (j : ℕ) → i ≤ j → j < i + (length cs - 1 - i) → cell_ptr q j ≡ cell_ptr p (j + 1))
      (s' : SameOutside q p' 1 2) where
    kept : (j : ℕ) (c : Cell) → CellAt acc laws q leaf lo j c → CellAt acc laws p' leaf lo j c
    kept j c a = CellAt-same acc laws lo a s' (omega arith) (omega (arith, h.room)) (omega arith)

    links : KeepsLinks p p'
    links =
        KeepsLinks-trans {q = q} (KeepsLinks-same s (omega arith) (omega arith))
          (KeepsLinks-same s' (omega arith) (omega arith))

    deleted : num_cells p' ≡ ok (length cs - 1) → Holds acc laws p' leaf (remove_at i cs) lo
    deleted count =
        let shrunk = length-remove_at i cs inside in
        record {
          small = omega (arith, links.size, h.small);
          kind = is_leaf-same p p' links.kind ∙ h.kind;
          count = count ∙ ap ok (omega (arith, shrunk));
          top = cell_content-same s' (omega arith) ∙ cell_content-same s (omega arith) ∙ h.top;
          room = omega (arith, h.room);
          bound = omega (arith, links.size, h.bound);
          cells = λ j c f. elim (get_elem?-remove_at i cs j c f) [
            | inl (before, g) ↦ kept j c (
                CellAt-same acc laws lo (h.cells j c g) s (omega arith) (omega (arith, h.room))
                  (omega arith))
            | inr (behind, g) ↦
                let there = get_elem?-lt cs (j + 1) c g in
                kept j c (
                  CellAt-moved acc laws (h.cells (j + 1) c g) s (moved j behind (omega arith))
                    (omega (arith, h.room)))
          ];
        }

  -- On a page that holds `cs`, the deletion of the cell at an index below their number succeeds, and
  -- the page holds the others in order; the page's links stay, and no room is given back.
  pub delete_cell-Holds :
      (p : Page) (leaf : Bool) (cs : List Cell) (lo i : ℕ)
      → Holds acc laws p leaf cs lo
      → i < length cs
      → (p' : Page) × (delete_cell p i ≡ ok p')
        × Holds acc laws p' leaf (remove_at i cs) lo
        × KeepsLinks p p'
  unfolding delete_cell
  delete_cell-Holds p leaf cs lo i h inside =
      let n = length cs in
      let (q, e, s, moved) =
        shift_down_lem (n - 1 - i) i p (omega (arith, h.room, h.bound))
          (λ j a b. Holds-IsPtr acc laws h j (omega arith)) in
      let (p', e', s', r') =
        set_num_cells_lem q (n - 1) (omega (arith, s.size, h.room, h.bound))
          (omega (arith, h.small, h.bound, h.room)) in
      let fewer : sub_ℕ n 1 ≡ pos (n - 1) = ground arith in
      (
        p',
        rw (h.count, e, fewer) e',
        deleted cs lo i h inside s moved s' r',
        links cs lo i h inside s moved s',
      )
