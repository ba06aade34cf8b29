-- ===== src/Node.antt =====
-- The page-level functions of src/dbms/index/shared/tree.go, over any accessor.
pub mod Layout
pub mod Child
pub mod Place
pub mod Search
pub mod Order
pub mod Between
pub mod Init
pub mod Split
pub mod Append
pub mod Shift
pub mod Delete
pub mod Insert
pub mod Gather
pub mod LeafInsert
use db_index_performance_eva.Base.{
  ℕ, zero, suc, ◌+◌, ◌-◌, ◌/◌, ◌%◌, ◌^◌, Bool, true, false, not, ◌&&◌, ◌||◌, List, [], ◌∷◌, ◌++◌,
  none, some, ltb, ◌==◌, if◌then◌else◌, ℤ, pos, sub_ℕ, ltb_ℤ, eqb_ℤ, get_elem?, set, take, drop,
}
use db_index_performance_eva.Base.Go.{Go, ok, panic, out_of_fuel, ◌>>=◌}
use db_index_performance_eva.Bytes.{put_uint, to_u16}
use db_index_performance_eva.BtPage.{
  Page, type_leaf, page_type, num_cells, set_num_cells, rightmost, set_rightmost, cell_ptr,
  set_cell_ptr, alloc_cell,
}
use db_index_performance_eva.Accessor.{Value, Cell, Accessor}

unfoldable pub is_leaf : Page → Go Bool
is_leaf p = do t ← page_type p; ok (t == type_leaf)

-- The loop of `DeleteCell`: each of the pointers from `j` on takes the next one's place.
unfoldable pub shift_down : ℕ → ℕ → Page → Go Page
shift_down zero j p = ok p
shift_down (suc rounds) j p = do
  o ← cell_ptr p (j + 1)
  p ← set_cell_ptr p j o
  shift_down rounds (j + 1) p

unfoldable pub delete_cell : Page → ℕ → Go Page
delete_cell p i = do n ← num_cells p; p ← shift_down (n - 1 - i) i p; set_num_cells p (sub_ℕ n 1)

-- The first loop of `doInsert`: the pointers from `idx` on move up by one, the last one first.
unfoldable pub shift_up : ℕ → ℕ → Page → Go Page
shift_up zero idx p = ok p
shift_up (suc rounds) idx p = do
  o ← cell_ptr p (idx + rounds)
  p ← set_cell_ptr p (idx + rounds + 1) o
  shift_up rounds idx p

module _ (acc : Accessor) where
  unfoldable pub append_cell : Page → ℤ → Value → ℕ → Go Page
  append_cell p key value left_child = do
    n ← num_cells p
    leaf ← is_leaf p
    (off, p) ← alloc_cell p (acc.cell_size leaf value)
    leaf ← is_leaf p
    p ← acc.write_cell p off key value left_child leaf
    p ← set_cell_ptr p n (to_u16 off)
    set_num_cells p (pos (n + 1))

  -- A loop of `AppendCell` calls, as `splitNode` makes them.
  unfoldable pub append_cells : List Cell → Page → Go Page
  append_cells [] p = ok p
  append_cells (c ∷ cs) p = do p ← append_cell p c.key c.value c.left_child; append_cells cs p

  unfoldable pub child_at : Page → ℕ → ℕ → Go ℕ
  child_at p idx n =
      if idx == n then rightmost p else do c ← acc.read_cell p idx false; ok c.left_child

  -- The test that sends the search of `FindIdx` to the right of a cell.
  unfoldable pub goes_right : ℤ → Bool → ℤ → Bool
  goes_right key leaf k = ltb_ℤ k key || (not leaf && eqb_ℤ k key && acc.copy_up_leaves)

  unfoldable pub find_loop : ℕ → Page → ℤ → Bool → ℕ → ℕ → Go ℕ
  find_loop zero p key leaf lo hi = out_of_fuel
  find_loop (suc fuel) p key leaf lo hi =
      let m = (lo + hi) / 2 in
      let search = acc.read_cell p m leaf >>= λ c. elim (goes_right key leaf c.key) [
        | true ↦ find_loop fuel p key leaf (m + 1) hi
        | false ↦ find_loop fuel p key leaf lo m
      ] in
      if ltb lo hi then search else ok lo

  unfoldable pub find_idx : Page → ℤ → ℕ → Bool → Go ℕ
  find_idx p key n leaf = find_loop (n + 1) p key leaf 0 n

  -- The value at `idx` if the key is there; nil otherwise, and for a cell that holds no value.
  unfoldable pub found_value : Page → ℕ → ℕ → ℤ → Bool → Go Value
  found_value p idx n key leaf =
      if ltb idx n
      then acc.read_cell p idx leaf >>= (λ c. ok (if eqb_ℤ c.key key then c.value else none))
      else ok none

  -- `doInsert` on a page with room: the new cell takes place `idx`, and in an internal node the
  -- cell behind it, or else the rightmost child, is made to point to `right_child`.
  unfoldable pub link_right_child : Page → ℕ → ℕ → Bool → ℕ → Go Page
  link_right_child p n idx leaf right_child =
      if idx == n
      then set_rightmost p (right_child % 2 ^ 32)
      else if leaf
      then ok p
      else do off1 ← cell_ptr p (idx + 1); put_uint 4 p off1 (right_child % 2 ^ 32)

  unfoldable pub insert_cell : Page → ℕ → ℕ → ℤ → Value → ℕ → Bool → Go Page
  insert_cell p n idx key value right_child leaf = do
    p ← shift_up (n - idx) idx p
    left_child ← if leaf then ok 0 else child_at p idx n
    (off, p) ← alloc_cell p (acc.cell_size leaf value)
    p ← acc.write_cell p off key value left_child leaf
    p ← set_cell_ptr p idx (to_u16 off)
    p ← link_right_child p n idx leaf right_child
    set_num_cells p (pos (n + 1))

  -- The first loop of `splitNode`: cells `i`, `i + 1`, … of the page.
  unfoldable pub read_cells : ℕ → ℕ → Page → Bool → Go (List Cell)
  read_cells zero i p leaf = ok []
  read_cells (suc rounds) i p leaf = do
    c ← acc.read_cell p i leaf
    cs ← read_cells rounds (i + 1) p leaf
    ok (c ∷ cs)

  -- The cell behind the new one points to the new right child; behind the last one stands the
  -- rightmost child.
  unfoldable pub link_split : ℕ → ℕ → ℕ → List Cell → ℕ → Go (List Cell × ℕ)
  link_split n idx right_child all old_rightmost =
      if idx == n then ok (all, right_child % 2 ^ 32) else elim (get_elem? all (idx + 1)) [
        | none ↦ panic
        | some c ↦
            ok (set all (idx + 1) (record c { left_child = right_child % 2 ^ 32 }), old_rightmost)
      ]

  -- All cells of an overfull node in order, the new one at `idx`, with the child pointers updated;
  -- and the rightmost child.
  unfoldable pub gather_cells : Page → ℕ → ℕ → ℤ → Value → ℕ → Bool → Go (List Cell × ℕ)
  gather_cells p n idx key value right_child leaf = do
    cells ← read_cells n 0 p leaf
    left_child ← if leaf then ok 0 else child_at p idx n
    let new : Cell = record { key = key; value = value; left_child = left_child }
    let all = take idx cells ++ (new ∷ drop idx cells)
    old_rightmost ← rightmost p
    if leaf then ok (all, old_rightmost) else link_split n idx right_child all old_rightmost

  -- `splitNode` on a leaf: the cells before the middle stay, the others go right; the middle cell
  -- itself goes right only if leaves copy it up.
  unfoldable pub split_leaf : Page → Page → List Cell → ℕ → ℕ → ℕ → Go (Page × Page)
  split_leaf p right all mid new_id old_next = do
    p ← append_cells (take mid all) p
    let start = if acc.copy_up_leaves then mid else mid + 1
    right ← append_cells (drop start all) right
    acc.link_leaves p right (new_id % 2 ^ 32) old_next

  -- `splitNode` on an internal node: the middle cell leaves it, and its left child becomes the
  -- rightmost child of the left half.
  unfoldable pub split_internal : Page → Page → List Cell → ℕ → Cell → ℕ → Go (Page × Page)
  split_internal p right all mid promoted old_rightmost = do
    p ← append_cells (take mid all) p
    p ← set_rightmost p promoted.left_child
    right ← append_cells (drop (mid + 1) all) right
    right ← set_rightmost right old_rightmost
    ok (p, right)
