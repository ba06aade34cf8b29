-- ===== src/Tests/Leaves.antt =====
-- A B+ tree of two levels on pages of 64 bytes.
use db_index_performance_eva.Base.{
  ℕ, zero, suc, ◌≡◌, refl, Bool, true, false, none, some, List, [], ◌∷◌, ◌++◌, arith, replicate,
  get_elem?, pos,
}
use db_index_performance_eva.Bytes.{Bytes, slice, get_uint, le_value, to_i64}
use db_index_performance_eva.BtPage.{
  Page, page_type, num_cells, cell_content, cell_ptr, rightmost, next_leaf,
}
use db_index_performance_eva.Accessor.{Cell}
use db_index_performance_eva.Accessor.Values.{value_at}
use db_index_performance_eva.Accessor.BpTree.{
  bptree_acc, decode, read_leaf_cell, read_internal_cell,
}
use db_index_performance_eva.Accessor.BpTree.RoundTrip.{bptree_laws, decode-bptree_laws}
use db_index_performance_eva.Node.{is_leaf}
use db_index_performance_eva.Node.Layout.{CellAt, Holds}
use db_index_performance_eva.BpTree.Stored.{Leaf}
use db_index_performance_eva.BpTree.Get.{StoredTree}
use db_index_performance_eva.BpTree.Reading.{IsReader}
use db_index_performance_eva.BpTree.Insert.{OneLeaf}
use db_index_performance_eva.Tree.LeafInsert.{Missing}
use db_index_performance_eva.Node.Insert.{leaf_cell}
use db_index_performance_eva.Accessor.Laws.{Fits}
use db_index_performance_eva.Tests.Trees.{fresh, fresh-IsClean, one-IsSorted}

-- The leaves hold the keys 3 and 5, and the root the separator 5.
abbrev pub cell_three : Cell
cell_three = record { key = pos 3; value = some (7 ∷ []); left_child = 0 }

abbrev pub cell_five : Cell
cell_five = record { key = pos 5; value = some (4 ∷ []); left_child = 0 }

abbrev separator : Cell
separator = record { key = pos 5; value = none; left_child = 1 }

abbrev three_page : Page
three_page =
    (1 ∷ 1 ∷ 0 ∷ 53 ∷ 0 ∷ 0 ∷ 0 ∷ 0 ∷ 0 ∷ 2 ∷ 0 ∷ 0 ∷ 0 ∷ 53 ∷ 0 ∷ [])
    ++ replicate 38 0
    ++ (3 ∷ 0 ∷ 0 ∷ 0 ∷ 0 ∷ 0 ∷ 0 ∷ 0 ∷ 1 ∷ 0 ∷ 7 ∷ [])

abbrev five_page : Page
five_page =
    (1 ∷ 1 ∷ 0 ∷ 53 ∷ 0 ∷ 0 ∷ 0 ∷ 0 ∷ 0 ∷ 255 ∷ 255 ∷ 255 ∷ 255 ∷ 53 ∷ 0 ∷ [])
    ++ replicate 38 0
    ++ (5 ∷ 0 ∷ 0 ∷ 0 ∷ 0 ∷ 0 ∷ 0 ∷ 0 ∷ 1 ∷ 0 ∷ 4 ∷ [])

abbrev root_page : Page
root_page =
    (0 ∷ 1 ∷ 0 ∷ 52 ∷ 0 ∷ 2 ∷ 0 ∷ 0 ∷ 0 ∷ 255 ∷ 255 ∷ 255 ∷ 255 ∷ 52 ∷ 0 ∷ [])
    ++ replicate 37 0
    ++ (1 ∷ 0 ∷ 0 ∷ 0 ∷ 5 ∷ 0 ∷ 0 ∷ 0 ∷ 0 ∷ 0 ∷ 0 ∷ 0 ∷ [])

abbrev pub leaves_bytes : Bytes
leaves_bytes = root_page ++ three_page ++ five_page

abbrev pub two_leaves : List Leaf
two_leaves =
    record { id = 1; cells = cell_three ∷ [] } ∷ record { id = 2; cells = cell_five ∷ [] } ∷ []

module _ (p : Page) (leaf : Bool) (lo : ℕ) (c : Cell)
    (a : CellAt bptree_acc bptree_laws p leaf lo 0 c) where
  only :
      (i : ℕ) (d : Cell)
      → get_elem? (c ∷ []) i ≡ some d
      → CellAt bptree_acc bptree_laws p leaf lo i d
  only zero d e = let same : c ≡ d = cc in rw (← same) a
  only (suc i) d e = cc

three_page-Holds : Holds bptree_acc bptree_laws three_page true (cell_three ∷ []) 53
unfolding is_leaf page_type num_cells cell_content cell_ptr decode read_leaf_cell value_at get_uint
    slice le_value to_i64
three_page-Holds = record {
  small = omega arith;
  kind = refl;
  count = refl;
  top = refl;
  room = omega arith;
  bound = omega arith;
  cells = only three_page true 53 cell_three (record {
    off = 53;
    ptr = refl;
    above = omega arith;
    inside = omega arith;
    here = decode-bptree_laws three_page 53 true;
  });
}

five_page-Holds : Holds bptree_acc bptree_laws five_page true (cell_five ∷ []) 53
unfolding is_leaf page_type num_cells cell_content cell_ptr decode read_leaf_cell value_at get_uint
    slice le_value to_i64
five_page-Holds = record {
  small = omega arith;
  kind = refl;
  count = refl;
  top = refl;
  room = omega arith;
  bound = omega arith;
  cells = only five_page true 53 cell_five (record {
    off = 53;
    ptr = refl;
    above = omega arith;
    inside = omega arith;
    here = decode-bptree_laws five_page 53 true;
  });
}

root_page-Holds : Holds bptree_acc bptree_laws root_page false (separator ∷ []) 52
unfolding is_leaf page_type num_cells cell_content cell_ptr decode read_internal_cell value_at
    get_uint slice le_value to_i64
root_page-Holds = record {
  small = omega arith;
  kind = refl;
  count = refl;
  top = refl;
  room = omega arith;
  bound = omega arith;
  cells = only root_page false 52 separator (record {
    off = 52;
    ptr = refl;
    above = omega arith;
    inside = omega arith;
    here = decode-bptree_laws root_page 52 false;
  });
}

pub fresh-IsReader : IsReader (fresh 64) leaves_bytes 64
fresh-IsReader = ([], fresh-IsClean 64 0 leaves_bytes, refl)

pub leaves_bytes-StoredTree : StoredTree leaves_bytes 64 1 0 two_leaves
unfolding rightmost next_leaf get_uint slice le_value
leaves_bytes-StoredTree = record {
  shape = (
    (omega arith, omega arith),
    (
      separator ∷ [],
      52,
      2,
      root_page-Holds,
      one-IsSorted separator,
      refl,
      (
        record { id = 1; cells = cell_three ∷ [] } ∷ [],
        record { id = 2; cells = cell_five ∷ [] } ∷ [],
        refl,
        (
          cell_three ∷ [],
          refl,
          record {
            there = (omega arith, omega arith);
            real = omega arith;
            lo = 53;
            holds = three_page-Holds;
          },
        ),
        (ground arith, tt),
        (ground arith, tt),
        (
          cell_five ∷ [],
          refl,
          record {
            there = (omega arith, omega arith);
            real = omega arith;
            lo = 53;
            holds = five_page-Holds;
          },
        ),
      ),
    ),
  );
  linked = (refl, (refl, tt));
  in_order = ((ground arith, tt), (tt, tt));
}

-- The second leaf alone, as the root of a tree, and a key to insert.
pub five_page-OneLeaf : OneLeaf (fresh 64) leaves_bytes 2 (cell_five ∷ []) 12
unfolding next_leaf get_uint slice le_value
five_page-OneLeaf = record {
  lo = 53;
  within = (omega arith, omega arith);
  real = λ e. omega (arith, e);
  sorted = one-IsSorted cell_five;
  holds = five_page-Holds;
  last = refl;
  room = omega arith;
}

pub six-Missing : Missing (pos 6) (cell_five ∷ [])
six-Missing zero c e = let same : cell_five ≡ c = cc in rw (← same) refl
six-Missing (suc i) c e = cc

pub six-Fits : Fits (leaf_cell (pos 6) (some (1 ∷ 2 ∷ [])))
six-Fits = record { key = omega arith; value = omega arith; left_child = omega arith }
