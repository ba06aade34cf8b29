-- ===== src/Accessor/BpTree.antt =====
-- BPTreeAcc of src/dbms/index/bptree/bptree.go: leaf cells hold a key and a value, internal cells a
-- left child and a key.
pub mod RoundTrip
use db_index_performance_eva.Base.{ℕ, ◌+◌, Bool, true, none, some, ℤ, if◌then◌else◌}
use db_index_performance_eva.Base.Go.{Go, ok, ◌>>=◌}
use db_index_performance_eva.Bytes.{Bytes, get_uint, put_uint, to_u64, to_i64}
use db_index_performance_eva.BtPage.{Page, cell_ptr, set_next_leaf}
use db_index_performance_eva.Accessor.{Value, len, Cell, at_offset, Accessor}
use db_index_performance_eva.Accessor.Values.{value_at, put_value}

abbrev pub internal_cell_size : ℕ
internal_cell_size = 4 + 8

abbrev pub leaf_cell_header : ℕ
leaf_cell_header = 8 + 2

abbrev pub cell_size : Bool → Value → ℕ
cell_size is_leaf value = if is_leaf then leaf_cell_header + len value else internal_cell_size

unfoldable pub read_leaf_cell : Page → ℕ → Go Cell
read_leaf_cell p off = do
  key ← get_uint 8 p off
  val ← value_at p (off + 8)
  ok (record { key = to_i64 key; value = some val; left_child = 0 })

unfoldable pub read_internal_cell : Page → ℕ → Go Cell
read_internal_cell p off = do
  lc ← get_uint 4 p off
  key ← get_uint 8 p (off + 4)
  ok (record { key = to_i64 key; value = none; left_child = lc })

-- The cell at an offset.
unfoldable pub decode : Page → ℕ → Bool → Go Cell
decode p off is_leaf = if is_leaf then read_leaf_cell p off else read_internal_cell p off

unfoldable pub read_cell : Page → ℕ → Bool → Go Cell
read_cell p i is_leaf = do off ← cell_ptr p i; decode p off is_leaf

-- The value is a slice of the page itself; here, its bytes at the time of the call.
unfoldable pub read_cell_zero_copy : Page → ℕ → Go (ℤ × Bytes)
read_cell_zero_copy p i = do
  off ← cell_ptr p i
  key ← get_uint 8 p off
  val ← value_at p (off + 8)
  ok (to_i64 key, val)

unfoldable pub write_leaf_cell : Page → ℕ → ℤ → Value → Go Page
write_leaf_cell p off key value = do p ← put_uint 8 p off (to_u64 key); put_value p (off + 8) value

unfoldable pub write_internal_cell : Page → ℕ → ℤ → ℕ → Go Page
write_internal_cell p off key left = do
  p ← put_uint 4 p off left
  put_uint 8 p (off + 4) (to_u64 key)

unfoldable pub write_cell : Page → ℤ → ℤ → Value → ℕ → Bool → Go Page
write_cell p at key value left is_leaf =
    at_offset at
      λ off. if is_leaf then write_leaf_cell p off key value else write_internal_cell p off key left

unfoldable pub overwrite_leaf_value : Page → ℕ → Value → Go Page
overwrite_leaf_value p i new_val = do off ← cell_ptr p i; put_value p (off + 8) new_val

unfoldable pub overwrite_value : Page → ℕ → Value → Bool → Go Page
overwrite_value p i new_val is_leaf = if is_leaf then overwrite_leaf_value p i new_val else ok p

unfoldable pub link_leaves : Page → Page → ℕ → ℕ → Go (Page × Page)
link_leaves left right new_right_id old_next = do
  left ← set_next_leaf left new_right_id
  right ← set_next_leaf right old_next
  ok (left, right)

abbrev pub bptree_acc : Accessor
bptree_acc = record {
  cell_size = cell_size;
  read_cell = read_cell;
  write_cell = write_cell;
  overwrite_value = overwrite_value;
  copy_up_leaves = true;
  link_leaves = link_leaves;
}
