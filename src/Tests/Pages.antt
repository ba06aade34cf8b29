-- ===== src/Tests/Pages.antt =====
-- Concrete pages and cells for the runs and the examples.
use db_index_performance_eva.Base.{
  ℕ, zero, suc, ◌≡◌, refl, true, false, some, [], ◌∷◌, ◌++◌, arith, replicate, get_elem?, pos,
}
use db_index_performance_eva.Bytes.{slice, get_uint, le_value, to_i64}
use db_index_performance_eva.BtPage.{Page, page_type, num_cells, cell_content, cell_ptr}
use db_index_performance_eva.Accessor.{Cell, Accessor}
use db_index_performance_eva.Accessor.Values.{value_at}
use db_index_performance_eva.Accessor.Laws.{AccessorLaws, Fits}
use db_index_performance_eva.Accessor.BpTree.{bptree_acc, decode, read_leaf_cell}
use db_index_performance_eva.Accessor.BpTree.RoundTrip.{bptree_laws, decode-bptree_laws}
use db_index_performance_eva.Node.{is_leaf}
use db_index_performance_eva.Node.Layout.{CellAt, Holds}
use db_index_performance_eva.Node.Search.{IsSorted}

-- Pages of 64 bytes as `InitPage` makes them, of a leaf and of an internal node.
abbrev pub empty_page : ℕ → Page
empty_page pt = (pt ∷ 0 ∷ 0 ∷ 64 ∷ 0 ∷ 0 ∷ 0 ∷ 0 ∷ 0 ∷ 255 ∷ 255 ∷ 255 ∷ 255 ∷ []) ++ replicate 51 0

module _ (acc : Accessor) (laws : AccessorLaws acc) where
  pub empty_leaf-Holds : Holds acc laws (empty_page 1) true [] 64
  unfolding is_leaf page_type num_cells cell_content get_uint slice le_value
  empty_leaf-Holds = record {
    small = omega arith;
    kind = refl;
    count = refl;
    top = refl;
    room = omega arith;
    bound = omega arith;
    cells = λ i c e. cc;
  }

  pub empty_internal-Holds : Holds acc laws (empty_page 0) false [] 64
  unfolding is_leaf page_type num_cells cell_content get_uint slice le_value
  empty_internal-Holds = record {
    small = omega arith;
    kind = refl;
    count = refl;
    top = refl;
    room = omega arith;
    bound = omega arith;
    cells = λ i c e. cc;
  }

abbrev pub cell_3 : Cell
cell_3 = record { key = pos 3; value = some (7 ∷ []); left_child = 0 }

abbrev pub cell_5 : Cell
cell_5 = record { key = pos 5; value = some (8 ∷ 9 ∷ []); left_child = 0 }

-- A leaf of a B+ tree that holds the two.
abbrev pub two_cells : Page
two_cells =
    (1 ∷ 2 ∷ 0 ∷ 41 ∷ 0 ∷ 0 ∷ 0 ∷ 0 ∷ 0 ∷ 255 ∷ 255 ∷ 255 ∷ 255 ∷ 53 ∷ 0 ∷ 41 ∷ 0 ∷ [])
    ++ replicate 24 0
    ++ (5 ∷ 0 ∷ 0 ∷ 0 ∷ 0 ∷ 0 ∷ 0 ∷ 0 ∷ 2 ∷ 0 ∷ 8 ∷ 9 ∷ [])
    ++ (3 ∷ 0 ∷ 0 ∷ 0 ∷ 0 ∷ 0 ∷ 0 ∷ 0 ∷ 1 ∷ 0 ∷ 7 ∷ [])

two_cells-CellAt :
    (i : ℕ) (c : Cell)
    → get_elem? (cell_3 ∷ cell_5 ∷ []) i ≡ some c
    → CellAt bptree_acc bptree_laws two_cells true 41 i c
unfolding cell_ptr decode read_leaf_cell value_at get_uint slice le_value to_i64
two_cells-CellAt zero c e =
    let same : cell_3 ≡ c = cc in
    rw (← same) (record {
      off = 53;
      ptr = refl;
      above = omega arith;
      inside = omega arith;
      here = decode-bptree_laws two_cells 53 true;
    })
two_cells-CellAt (suc zero) c e =
    let same : cell_5 ≡ c = cc in
    rw (← same) (record {
      off = 41;
      ptr = refl;
      above = omega arith;
      inside = omega arith;
      here = decode-bptree_laws two_cells 41 true;
    })
two_cells-CellAt (suc (suc i)) c e = cc

pub two_cells-Holds : Holds bptree_acc bptree_laws two_cells true (cell_3 ∷ cell_5 ∷ []) 41
unfolding is_leaf page_type num_cells cell_content get_uint slice le_value
two_cells-Holds = record {
  small = omega arith;
  kind = refl;
  count = refl;
  top = refl;
  room = omega arith;
  bound = omega arith;
  cells = two_cells-CellAt;
}

pub two_cells-IsSorted : IsSorted (cell_3 ∷ cell_5 ∷ [])
two_cells-IsSorted zero zero c d e f h = ground arith
two_cells-IsSorted zero (suc zero) c d e f h = ground arith
two_cells-IsSorted (suc zero) (suc zero) c d e f h = ground arith
two_cells-IsSorted (suc i) zero c d e f h = absurd (omega arith)
two_cells-IsSorted i (suc (suc j)) c d e f h = cc
two_cells-IsSorted (suc (suc i)) j c d e f h = cc

pub cell_3-Fits : Fits cell_3
cell_3-Fits = record { key = omega arith; value = omega arith; left_child = omega arith }

pub cell_5-Fits : Fits cell_5
cell_5-Fits = record { key = omega arith; value = omega arith; left_child = omega arith }
