-- ===== src/Accessor/BTree.antt =====
-- BTreeAcc of src/dbms/index/btree/btree.go: one cell format for all nodes.
pub mod RoundTrip
use db_index_performance_eva.Base.{ℕ, ◌+◌, Bool, false, some, ℤ}
use db_index_performance_eva.Base.Go.{Go, ok, ◌>>=◌}
use db_index_performance_eva.Bytes.{get_uint, put_uint, to_u64, to_i64}
use db_index_performance_eva.BtPage.{Page, cell_ptr}
use db_index_performance_eva.Accessor.{Value, len, Cell, at_offset, Accessor}
use db_index_performance_eva.Accessor.Values.{value_at, put_value}

abbrev pub cell_header : ℕ
cell_header = 4 + 8 + 2

abbrev pub cell_size : Bool → Value → ℕ
cell_size _ value = cell_header + len value

-- The cell at an offset.
unfoldable pub decode : Page → ℕ → Bool → Go Cell
decode p off _ = do
  lc ← get_uint 4 p off
  key ← get_uint 8 p (off + 4)
  val ← value_at p (off + 12)
  ok (record { key = to_i64 key; value = some val; left_child = lc })

unfoldable pub read_cell : Page → ℕ → Bool → Go Cell
read_cell p i is_leaf = do off ← cell_ptr p i; decode p off is_leaf

unfoldable pub write_cell : Page → ℤ → ℤ → Value → ℕ → Bool → Go Page
write_cell p at key value left _ = at_offset at λ off. do
  p ← put_uint 4 p off left
  p ← put_uint 8 p (off + 4) (to_u64 key)
  put_value p (off + 12) value

unfoldable pub overwrite_value : Page → ℕ → Value → Bool → Go Page
overwrite_value p i new_val _ = do off ← cell_ptr p i; put_value p (off + 12) new_val

-- `LinkLeaves` does nothing.
abbrev pub link_leaves : Page → Page → ℕ → ℕ → Go (Page × Page)
link_leaves left right new_right_id old_next = ok (left, right)

abbrev pub btree_acc : Accessor
btree_acc = record {
  cell_size = cell_size;
  read_cell = read_cell;
  write_cell = write_cell;
  overwrite_value = overwrite_value;
  copy_up_leaves = false;
  link_leaves = link_leaves;
}
