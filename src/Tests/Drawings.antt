-- ===== src/Tests/Drawings.antt =====
-- The drawing of a B+ tree of two leaves.
use db_index_performance_eva.Base.{◌≡◌, refl, some, none, [], ◌∷◌, List, pos, false}
use db_index_performance_eva.Base.State.{Run, done}
use db_index_performance_eva.Bytes.{le_value, get_uint, slice, to_i64}
use db_index_performance_eva.BtPage.{
  page_type, num_cells, cell_content, rightmost, next_leaf, cell_ptr, free_space,
}
use db_index_performance_eva.Accessor.Values.{value_at}
use db_index_performance_eva.Accessor.BpTree as BpAcc
use db_index_performance_eva.Accessor.BpTree.{bptree_acc}
use db_index_performance_eva.Node.{is_leaf, read_cells}
use db_index_performance_eva.Lru
use db_index_performance_eva.Disk.{next_fault, read_at}
use db_index_performance_eva.Pager
use db_index_performance_eva.Tree.Dot
use db_index_performance_eva.BTree.Get.{tree_on}
use db_index_performance_eva.Tree.Dot.{
  Line, leaf_node, internal_node, child_edge, same_rank, next_edge, export_dot,
}
use db_index_performance_eva.Tests.Trees.{fresh}
use db_index_performance_eva.Tests.Leaves.{leaves_bytes}

abbrev lines_of : {E S : Type 0} → Run E S (List Line) → List Line
lines_of (done ls s) = ls
lines_of _ = []

drawn :
    lines_of (export_dot bptree_acc 2 (tree_on (fresh 64) leaves_bytes 0 0))
    ≡ internal_node 0 0 (pos 37) ((pos 5, ([], false), 1) ∷ []) 2
      ∷ leaf_node 1 1 (pos 38) ((pos 3, (7 ∷ [], false), 0) ∷ []) (some 2)
      ∷ child_edge 0 0 1
      ∷ leaf_node 2 2 (pos 38) ((pos 5, (4 ∷ [], false), 0) ∷ []) none
      ∷ child_edge 0 1 2
      ∷ same_rank (some 1 ∷ some 2 ∷ [])
      ∷ next_edge 1 2
      ∷ []
unfolding export_dot Dot.export_rec Dot.export_leaf Dot.export_internal Dot.export_children
    Dot.export_links BpAcc.read_leaf_cell BpAcc.read_internal_cell BpAcc.decode BpAcc.read_cell
    le_value get_uint slice to_i64 page_type num_cells cell_content rightmost next_leaf cell_ptr
    free_space value_at is_leaf read_cells Lru.lookup Lru.insert Lru.delete Lru.load Lru.update
    Lru.push_front Lru.unlink_to_front Lru.move_to_front Lru.evict_tail Lru.evict Lru.get
    Lru.put_new Lru.put next_fault read_at Pager.new_buffer Pager.load_page Pager.offset
    Pager.read_page_from_disk Pager.cache_get Pager.cache_put Pager.read
drawn = refl
