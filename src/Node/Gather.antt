-- ===== src/Node/Gather.antt =====
-- The first part of `splitNode` collects the cells of an overfull leaf, with the new one among them.
use db_index_performance_eva.Base.{
  ℕ, suc, ◌+◌, ◌≡◌, refl, Bool, true, List, [], ◌∷◌, ◌++◌, some, arith, length, take, drop,
  get_elem?, ℤ,
}
use db_index_performance_eva.Base.Go.{ok}
use db_index_performance_eva.BtPage.{Page, rightmost}
use db_index_performance_eva.Accessor.{Value, Cell, Accessor}
use db_index_performance_eva.Accessor.Laws.{AccessorLaws}
use db_index_performance_eva.Node.{read_cells, gather_cells}
use db_index_performance_eva.Node.Layout.{Holds, read_cell-CellAt}
use db_index_performance_eva.Node.Insert.{leaf_cell}

module _ (acc : Accessor) (p : Page) (leaf : Bool) where
  read_cells-ok :
      (cs : List Cell) (i : ℕ)
      → ((j k : ℕ) (c : Cell) → get_elem? cs j ≡ some c → k ≡ i + j → acc.read_cell p k leaf ≡ ok c)
      → read_cells acc (length cs) i p leaf ≡ ok cs
  unfolding read_cells
  read_cells-ok [] i reads = refl
  read_cells-ok (c ∷ cs) i reads =
      let first = reads 0 i c refl (omega arith) in
      let rest = read_cells-ok cs (i + 1) (λ j k d e at. reads (suc j) k d e (omega arith)) in
      rw (first, rest)

module _ (acc : Accessor) (laws : AccessorLaws acc) where
  -- On a leaf that holds `cs`, the result is `cs` with the new cell put behind the first `idx` of its
  -- cells, and the rightmost child as it stands on the page.
  gather_cells-leaf :
      (p : Page) (cs : List Cell) (lo idx : ℕ) (key : ℤ) (value : Value) (right_child r : ℕ)
      → Holds acc laws p true cs lo
      → rightmost p ≡ ok r
      → gather_cells acc p (length cs) idx key value right_child true
        ≡ ok (take idx cs ++ (leaf_cell key value ∷ drop idx cs), r)
  unfolding gather_cells
  gather_cells-leaf p cs lo idx key value right_child r h last =
      let cells = read_cells-ok acc p true cs 0 (λ j k c e at.
        read_cell-CellAt acc laws {lo = lo}
          (let same : k ≡ j = omega arith in rw same (h.cells j c e))) in
      rw (cells, last)
