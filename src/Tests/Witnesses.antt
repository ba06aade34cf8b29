-- ===== src/Tests/Witnesses.antt =====
-- The theorems applied to concrete pages, cells, keys and lists.
use db_index_performance_eva.Base.{
  ℕ, ◌≡◌, refl, true, false, none, some, List, [], ◌∷◌, ◌++◌, map, arith, insert_at, pos, negsuc,
}
use db_index_performance_eva.Base.Go.{ok}
use db_index_performance_eva.BtPage.{Page, page_type, rightmost, next_leaf, cell_ptr}
use db_index_performance_eva.Accessor.BTree
use db_index_performance_eva.Accessor.BTree.{btree_acc}
use db_index_performance_eva.Accessor.BTree.RoundTrip.{btree_laws, btree_read-write}
use db_index_performance_eva.Accessor.BpTree
use db_index_performance_eva.Accessor.BpTree.{bptree_acc}
use db_index_performance_eva.Accessor.BpTree.RoundTrip.{bptree_laws, bptree_read-write}
use db_index_performance_eva.Accessor.Laws.{Fits}
use db_index_performance_eva.Node.{
  append_cell, find_idx, split_leaf, split_internal, insert_cell, found_value, delete_cell,
}
use db_index_performance_eva.Node.Insert.{leaf_cell, insert_cell-Holds}
use db_index_performance_eva.Node.LeafInsert.{insert_cell-found}
use db_index_performance_eva.Node.Delete.{delete_cell-Holds}
use db_index_performance_eva.Node.Layout.{KeepsLinks, Holds}
use db_index_performance_eva.Node.Search.{IsSorted, SplitsKeys, find_idx-SplitsKeys}
use db_index_performance_eva.Node.Append.{append_cell-Holds}
use db_index_performance_eva.Node.Split.{split_leaf-Holds, split_internal-Holds}
use db_index_performance_eva.Bytes.{get_uint, slice, le_value}
use db_index_performance_eva.ListIndex
use db_index_performance_eva.ListIndex.{Data, found, range}
use db_index_performance_eva.ListIndex.Laws.{get-insert, Distinct, Deleted, delete-Deleted}
use db_index_performance_eva.ListIndex.Scan.{collect, select, range-select}
use db_index_performance_eva.Lsm.{encode_key, decode_key}
use db_index_performance_eva.Lsm.Order.{
  bytes_compare, KeyOrder, bytes_compare-encode_key, decode_key-encode_key, in_bounds,
  in_bounds-mixed,
}
use db_index_performance_eva.Tests.Pages.{
  empty_page, empty_leaf-Holds, empty_internal-Holds, cell_3, cell_5, cell_3-Fits, cell_5-Fits,
  two_cells, two_cells-Holds, two_cells-IsSorted,
}

find_idx_example :
    (idx : ℕ) × (find_idx bptree_acc two_cells (pos 4) 2 true ≡ ok idx)
    × SplitsKeys bptree_acc (pos 4) true (cell_3 ∷ cell_5 ∷ []) idx
find_idx_example =
    find_idx-SplitsKeys bptree_acc bptree_laws two_cells true (cell_3 ∷ cell_5 ∷ []) 41 (pos 4)
      two_cells-Holds two_cells-IsSorted

key_4-Fits : Fits (leaf_cell (pos 4) (some (1 ∷ [])))
key_4-Fits = record { key = omega arith; value = omega arith; left_child = omega arith }

insert_cell-found_example :
    (idx : ℕ) × (p' : Page) × (find_idx bptree_acc two_cells (pos 4) 2 true ≡ ok idx)
    × (insert_cell bptree_acc two_cells 2 idx (pos 4) (some (1 ∷ [])) 0 true ≡ ok p')
    × Holds bptree_acc bptree_laws p' true
        (insert_at idx
          (bptree_laws.stored true (leaf_cell (pos 4) (some (1 ∷ []))))
          (cell_3 ∷ cell_5 ∷ []))
        30
    × IsSorted (
        insert_at idx
          (bptree_laws.stored true (leaf_cell (pos 4) (some (1 ∷ []))))
          (cell_3 ∷ cell_5 ∷ []))
    × (find_idx bptree_acc p' (pos 4) 3 true ≡ ok idx)
    × (found_value bptree_acc p' idx 3 (pos 4) true
        ≡ ok (bptree_laws.stored true (leaf_cell (pos 4) (some (1 ∷ [])))).value)
insert_cell-found_example =
    insert_cell-found bptree_acc bptree_laws two_cells (cell_3 ∷ cell_5 ∷ []) 41 (pos 4)
      (some (1 ∷ [])) two_cells-Holds two_cells-IsSorted key_4-Fits (omega arith)

insert_cell_example :
    (p' : Page) × (insert_cell bptree_acc two_cells 2 1 (pos 4) (some (1 ∷ [])) 0 true ≡ ok p')
    × Holds bptree_acc bptree_laws p' true
        (insert_at 1
          (bptree_laws.stored true (leaf_cell (pos 4) (some (1 ∷ []))))
          (cell_3 ∷ cell_5 ∷ []))
        30
    × (page_type p' ≡ page_type two_cells)
    × (next_leaf p' ≡ next_leaf two_cells)
insert_cell_example =
    insert_cell-Holds bptree_acc bptree_laws two_cells (cell_3 ∷ cell_5 ∷ []) 41 1 (pos 4)
      (some (1 ∷ [])) two_cells-Holds key_4-Fits (omega arith) (omega arith)

delete_cell_example :
    (p' : Page) × (delete_cell two_cells 0 ≡ ok p')
    × Holds bptree_acc bptree_laws p' true (cell_5 ∷ []) 41
    × KeepsLinks two_cells p'
delete_cell_example =
    delete_cell-Holds bptree_acc bptree_laws two_cells true (cell_3 ∷ cell_5 ∷ []) 41 0
      two_cells-Holds (omega arith)

append_cell_example :
    (p' : Page) × (append_cell bptree_acc two_cells (pos 3) (some (7 ∷ [])) 0 ≡ ok p')
    × Holds bptree_acc bptree_laws p' true
        ((cell_3 ∷ cell_5 ∷ []) ++ (bptree_laws.stored true cell_3 ∷ []))
        30
    × KeepsLinks two_cells p'
append_cell_example =
    append_cell-Holds bptree_acc bptree_laws two_cells true (cell_3 ∷ cell_5 ∷ []) 41 cell_3
      two_cells-Holds cell_3-Fits (omega arith)

split_leaf_example :
    (p' right' : Page) × (split_leaf bptree_acc
        (empty_page 1)
        (empty_page 1)
        (cell_3 ∷ cell_5 ∷ [])
        1
        4
        9
      ≡ ok (p', right'))
    × Holds bptree_acc bptree_laws p' true (map (bptree_laws.stored true) (cell_3 ∷ [])) 53
    × Holds bptree_acc bptree_laws right' true (map (bptree_laws.stored true) (cell_5 ∷ [])) 52
    × (true ≡ true → (next_leaf p' ≡ ok 4) × (next_leaf right' ≡ ok 9))
split_leaf_example =
    split_leaf-Holds bptree_acc bptree_laws (empty_page 1) (empty_page 1) (cell_3 ∷ cell_5 ∷ []) 1 4
      9 64 64 (empty_leaf-Holds bptree_acc bptree_laws) (empty_leaf-Holds bptree_acc bptree_laws)
      (cell_3-Fits, tt) (cell_5-Fits, tt) (omega arith) (omega arith) (omega arith) (omega arith)

split_internal_example :
    (p' right' : Page) × (split_internal btree_acc
        (empty_page 0)
        (empty_page 0)
        (cell_3 ∷ cell_3 ∷ cell_5 ∷ [])
        1
        cell_3
        9
      ≡ ok (p', right'))
    × Holds btree_acc btree_laws p' false (map (btree_laws.stored false) (cell_3 ∷ [])) 49
    × Holds btree_acc btree_laws right' false (map (btree_laws.stored false) (cell_5 ∷ [])) 48
    × (rightmost p' ≡ ok 0)
    × (rightmost right' ≡ ok 9)
split_internal_example =
    split_internal-Holds btree_acc btree_laws (empty_page 0) (empty_page 0)
      (cell_3 ∷ cell_3 ∷ cell_5 ∷ []) 1 cell_3 9 64 64 (empty_internal-Holds btree_acc btree_laws)
      (empty_internal-Holds btree_acc btree_laws) (cell_3-Fits, tt) (cell_5-Fits, tt) (omega arith)
      (omega arith) (omega arith) (omega arith)

cell_ptr-two_cells : (cell_ptr two_cells 0 ≡ ok 53) × (cell_ptr two_cells 1 ≡ ok 41)
unfolding cell_ptr get_uint slice le_value
cell_ptr-two_cells = (refl, refl)

btree_read-write_example :
    (p' : Page) × (BTree.write_cell two_cells (pos 41) (pos 3) (some (7 ∷ [])) 0 true ≡ ok p')
    × (BTree.read_cell p' 1 true ≡ ok cell_3)
btree_read-write_example =
    btree_read-write two_cells 1 41 cell_3 true cell_ptr-two_cells.1 (omega arith) (omega arith)
      cell_3-Fits

bptree_read-write_example :
    (p' : Page) × (BpTree.write_cell two_cells (pos 53) (pos 3) (some (7 ∷ [])) 0 true ≡ ok p')
    × (BpTree.read_cell p' 0 true ≡ ok cell_3)
bptree_read-write_example =
    bptree_read-write two_cells 0 53 cell_3 true cell_ptr-two_cells.0 (omega arith) (omega arith)
      cell_3-Fits

abbrev two_items : List Data
two_items = record { key = pos 3; val = some (7 ∷ []) } ∷ record { key = negsuc 4; val = none } ∷ []

get-insert_example :
    ListIndex.get (pos 3) (ListIndex.insert (pos 3) (some (9 ∷ [])) two_items)
    ≡ found (some (9 ∷ []))
get-insert_example = get-insert (pos 3) (pos 3) (some (9 ∷ [])) two_items

two_items-Distinct : Distinct two_items
two_items-Distinct = ((refl, tt), (tt, tt))

delete-Deleted_example : Deleted (negsuc 4) (pos 3) two_items (ListIndex.delete (pos 3) two_items)
delete-Deleted_example = delete-Deleted (negsuc 4) (pos 3) two_items two_items-Distinct

range-select_example :
    collect 3 (range (negsuc 6) (pos 0) two_items) ≡ ok (select (negsuc 6) (pos 0) two_items)
range-select_example = range-select (negsuc 6) (pos 0) two_items

bytes_compare_example :
    bytes_compare (encode_key (negsuc 0)) (encode_key (pos 7)) ≡ KeyOrder (negsuc 0) (pos 7)
bytes_compare_example = bytes_compare-encode_key (negsuc 0) (pos 7) (omega arith) (omega arith)

decode_key_example : decode_key (encode_key (negsuc 41)) ≡ negsuc 41
decode_key_example = decode_key-encode_key (negsuc 41) (omega arith)

in_bounds-mixed_example : in_bounds (negsuc 4) (pos 5) (pos 0) ≡ false
in_bounds-mixed_example =
    in_bounds-mixed (negsuc 4) (pos 5) (pos 0) (omega arith) (omega arith) (omega arith)
      (omega arith) (omega arith)
