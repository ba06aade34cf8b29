-- ===== src/Tests/Runs.antt =====
-- Runs of both trees from an empty file: insertions that split pages, a search, a scan.
use db_index_performance_eva.Base.{
  ℕ, zero, suc, none, some, List, [], ◌∷◌, if◌then◌else◌, ℤ, pos, ◌≡◌, refl,
}
use db_index_performance_eva.Base.State.{Run, done, fail, panicked, stuck, pure, ◌>>=◌, ◌>>◌}
use db_index_performance_eva.Bytes.{
  overlay, copy_at, slice, store, copy_from, le_bytes, le_value, get_uint, put_uint, to_u16, to_u64,
  to_i64,
}
use db_index_performance_eva.BtPage.{
  page_type, num_cells, set_num_cells, cell_content, set_cell_content, rightmost, set_rightmost,
  next_leaf, set_next_leaf, cell_ptr, set_cell_ptr, init_page, free_space, alloc_cell,
}
use db_index_performance_eva.Accessor.Values.{value_at, put_value}
use db_index_performance_eva.Node.{
  is_leaf, shift_down, delete_cell, shift_up, append_cell, append_cells, child_at, goes_right,
  find_loop, find_idx, found_value, link_right_child, insert_cell, read_cells, link_split,
  gather_cells, split_leaf, split_internal,
}
use db_index_performance_eva.Accessor.{Value}
use db_index_performance_eva.Disk.{
  next_fault, extend, read_at, write_at, sync, touch, has_content, Error, File,
}
use db_index_performance_eva.Accessor.BTree.{
  btree_acc, decode, read_cell, write_cell, overwrite_value,
}
use db_index_performance_eva.Accessor.BpTree as BpAcc
use db_index_performance_eva.Lru
use db_index_performance_eva.Pager
use db_index_performance_eva.Tree
use db_index_performance_eva.Tree.{Tree, Code}
use db_index_performance_eva.BTree
use db_index_performance_eva.BpTree

abbrev empty_file : File
empty_file = record { content = []; faults = []; syncs = 0 }

-- The keys `n`, …, 2, 1, each with a value of two bytes.
unfoldable insert_all : ℕ → Code Unit
insert_all zero = pure tt
insert_all (suc n) = BTree.insert 9 (pos (suc n)) (some (suc n ∷ 7 ∷ [])) >> insert_all n

abbrev outcome : Run Error Tree (Value × ℕ × ℕ) → List ℕ
outcome (done (v, h, k) t) = h ∷ k ∷ (elim v [ none ↦ [] | some bs ↦ bs ])
outcome (fail e t) = []
outcome panicked = []
outcome stuck = []

abbrev btree_run : List ℕ
btree_run = outcome (
    (do
      Tree.open_tree
      insert_all 7
      v ← BTree.get 9 (pos 3)
      h ← Tree.height 9
      k ← Tree.count_leaves btree_acc 9
      pure (v, h, k))
      (Tree.initial (Pager.initial empty_file 2 64)))

btree_run_result : btree_run ≡ 3 ∷ 4 ∷ 3 ∷ 7 ∷ []
unfolding insert_all decode read_cell write_cell overwrite_value overlay copy_at slice store
    copy_from le_bytes le_value get_uint put_uint to_u16 to_u64 to_i64 page_type num_cells
    set_num_cells cell_content set_cell_content rightmost set_rightmost next_leaf set_next_leaf
    cell_ptr set_cell_ptr init_page free_space alloc_cell value_at put_value is_leaf shift_down
    delete_cell shift_up append_cell append_cells child_at goes_right find_loop find_idx found_value
    link_right_child insert_cell read_cells link_split gather_cells split_leaf split_internal
    Lru.lookup Lru.insert Lru.delete Lru.load Lru.update Lru.push_front Lru.unlink_to_front
    Lru.move_to_front Lru.evict_tail Lru.evict Lru.get Lru.put_new Lru.put next_fault extend read_at
    write_at sync touch has_content Pager.new_buffer Pager.load_page Pager.store_page Pager.offset
    Pager.read_page_from_disk Pager.count_write Pager.write_page_to_disk Pager.cache_get
    Pager.cache_put Pager.read Pager.write Pager.allocate Pager.load_page_count
    Pager.existing_header Pager.store_page_count Pager.create Pager.open_pager Pager.close
    Tree.write_header Tree.read_header Tree.height_loop Tree.height Tree.get_loop Tree.get
    Tree.find_leaf_loop Tree.find_leaf Tree.split_node Tree.do_insert Tree.replace_existing
    Tree.insert_rec Tree.grow Tree.insert Tree.count_children Tree.count_page Tree.count_leaves_rec
    Tree.count_leaves Tree.create Tree.open_tree Tree.close BTree.get BTree.insert BTree.range_loop
    BTree.range BTree.next_leaf_round BTree.next_internal_round BTree.next_round BTree.next
btree_run_result = refl

unfoldable insert_keys : ℕ → Code Unit
insert_keys zero = pure tt
insert_keys (suc n) = BpTree.insert 9 (pos (suc n)) (some (suc n ∷ 7 ∷ [])) >> insert_keys n

-- The keys that the iterator yields, by `n` calls of `Next` at most.
unfoldable drain : ℕ → BpTree.RangeIterator → Code (List ℤ)
drain zero it = pure []
drain (suc n) it = do
  (it, more) ← BpTree.next 9 it
  if more then (do rest ← drain n it; pure (it.k ∷ rest)) else pure []

abbrev scanned : Run Error Tree (Value × List ℤ) → Value × List ℤ
scanned (done r t) = r
scanned (fail e t) = (none, [])
scanned panicked = (none, [])
scanned stuck = (none, [])

abbrev bptree_run : Value × List ℤ
bptree_run = scanned (
    (do
      Tree.open_tree
      insert_keys 9
      v ← BpTree.get 9 9 (pos 3)
      it ← BpTree.range 9 (pos 2) (pos 6)
      keys ← drain 7 it
      pure (v, keys))
      (Tree.initial (Pager.initial empty_file 2 64)))

bptree_run_result : bptree_run ≡ (some (3 ∷ 7 ∷ []), pos 2 ∷ pos 3 ∷ pos 4 ∷ pos 5 ∷ pos 6 ∷ [])
unfolding insert_keys drain BpAcc.read_leaf_cell BpAcc.read_internal_cell BpAcc.decode
    BpAcc.read_cell BpAcc.read_cell_zero_copy BpAcc.write_leaf_cell BpAcc.write_internal_cell
    BpAcc.write_cell BpAcc.overwrite_leaf_value BpAcc.overwrite_value BpAcc.link_leaves
    BpTree.insert BpTree.leaf_answer BpTree.scan_leaves BpTree.get BpTree.range BpTree.current_page
    BpTree.next_on_page BpTree.next overlay copy_at slice store copy_from le_bytes le_value get_uint
    put_uint to_u16 to_u64 to_i64 page_type num_cells set_num_cells cell_content set_cell_content
    rightmost set_rightmost next_leaf set_next_leaf cell_ptr set_cell_ptr init_page free_space
    alloc_cell value_at put_value is_leaf shift_down delete_cell shift_up append_cell append_cells
    child_at goes_right find_loop find_idx found_value link_right_child insert_cell read_cells
    link_split gather_cells split_leaf split_internal Lru.lookup Lru.insert Lru.delete Lru.load
    Lru.update Lru.push_front Lru.unlink_to_front Lru.move_to_front Lru.evict_tail Lru.evict Lru.get
    Lru.put_new Lru.put next_fault extend read_at write_at sync touch has_content Pager.new_buffer
    Pager.load_page Pager.store_page Pager.offset Pager.read_page_from_disk Pager.count_write
    Pager.write_page_to_disk Pager.cache_get Pager.cache_put Pager.read Pager.write Pager.allocate
    Pager.load_page_count Pager.existing_header Pager.store_page_count Pager.create Pager.open_pager
    Pager.close Tree.write_header Tree.read_header Tree.height_loop Tree.height Tree.get_loop
    Tree.get Tree.find_leaf_loop Tree.find_leaf Tree.split_node Tree.do_insert Tree.replace_existing
    Tree.insert_rec Tree.grow Tree.insert Tree.count_children Tree.count_page Tree.count_leaves_rec
    Tree.count_leaves Tree.create Tree.open_tree Tree.close
bptree_run_result = refl
