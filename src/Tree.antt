-- ===== src/Tree.antt =====
-- The engine Tree of src/dbms/index/shared/tree.go, over a pager and an accessor. Pages are handled
-- by the addresses of their buffers and changed in place, as in the source. A function that follows
-- child pointers takes fuel, one unit for each page on the way down.
pub mod Dot
pub mod LeafInsert
use db_index_performance_eva.Base.{
  ℕ, zero, suc, ◌+◌, ◌-◌, ◌/◌, ◌%◌, ◌^◌, Bool, false, ◌&&◌, Option, none, some, ltb, leb,
  if◌then◌else◌, ℤ, pos, eqb_ℤ, leb_ℤ, get_elem?, replicate,
}
use db_index_performance_eva.Base.Go.{Go, panic, ok}
use db_index_performance_eva.Base.State.{
  Run, done, fail, panicked, stuck, pure, ◌>>=◌, ◌>>◌, gets, modify, or_zero, run_go,
}
use db_index_performance_eva.Bytes.{get_uint, put_uint}
use db_index_performance_eva.BtPage.{
  Page, type_internal, type_leaf, page_type, num_cells, rightmost, set_rightmost, next_leaf,
  free_space, init_page,
}
use db_index_performance_eva.Accessor.{Value, len, Accessor}
use db_index_performance_eva.Node.{
  is_leaf, delete_cell, append_cell, child_at, find_idx, found_value, insert_cell, gather_cells,
  split_leaf, split_internal,
}
use db_index_performance_eva.Disk.{Error}
use db_index_performance_eva.Pager
use db_index_performance_eva.Pager.{Pager, nil_page}

pub record Tree : Type 0 where
  pub pg : Pager
  pub root_id : ℕ

abbrev pub Code : Type 0 → Type 0
Code A = Tree → Run Error Tree A

-- A call on the tree's pager.
abbrev pub on_pager : {A : Type 0} → Pager.Code A → Code A
on_pager call t = elim (call t.pg) [
  | done a p ↦ done a (record t { pg = p })
  | fail e p ↦ fail e (record t { pg = p })
  | panicked ↦ panicked
  | stuck ↦ stuck
]

-- A value computed from the buffer at `a`, and a change of it in place.
abbrev pub on_page : {A : Type 0} → ℕ → (Page → Go A) → Code A
on_page a f = on_pager (Pager.load_page a) >>= λ p. run_go (f p)

abbrev pub change_page : ℕ → (Page → Go Page) → Code (Unit {0})
change_page a f = on_page a f >>= λ p. on_pager (Pager.store_page a p)

-- What an insertion hands to the parent after a split.
pub record Split : Type 0 where
  pub key : ℤ
  pub value : Value
  pub right_id : ℕ

unfoldable pub write_header : Code (Unit {0})
write_header = do
  p ← on_pager (Pager.read 1)
  root ← gets (λ t. t.root_id)
  change_page p (λ pg. put_uint 4 pg 0 root)
  on_pager (Pager.write 1 p)

unfoldable pub read_header : Code (Unit {0})
read_header = do
  p ← on_pager (Pager.read 1)
  root ← on_page p (λ pg. get_uint 4 pg 0)
  modify λ t. record t { root_id = root }

-- `Height` goes down by the rightmost children.
unfoldable pub height_loop : ℕ → ℕ → ℕ → Code ℕ
height_loop zero curr h = λ _. stuck
height_loop (suc fuel) curr h = do
  p ← or_zero nil_page (on_pager (Pager.read curr))
  leaf ← on_page p is_leaf
  if leaf then pure h else do next ← on_page p rightmost; height_loop fuel next (h + 1)

unfoldable pub height : ℕ → Code ℕ
height fuel = do root ← gets (λ t. t.root_id); height_loop fuel root 1

module _ (acc : Accessor) where
  -- `Tree.Get`
  unfoldable pub get_loop : ℕ → ℕ → ℤ → Code Value
  get_loop zero curr key = λ _. stuck
  get_loop (suc fuel) curr key = do
    p ← on_pager (Pager.read curr)
    n ← on_page p num_cells
    leaf ← on_page p is_leaf
    idx ← on_page p (λ pg. find_idx acc pg key n leaf)
    found ← on_page p (λ pg. found_value acc pg idx n key leaf)
    elim found [
      | some val ↦ pure (some val)
      | none ↦
          if leaf
          then pure none
          else do child ← on_page p (λ pg. child_at acc pg idx n); get_loop fuel child key
    ]

  unfoldable pub get : ℕ → ℤ → Code Value
  get fuel key = do root ← gets (λ t. t.root_id); get_loop fuel root key

  unfoldable pub find_leaf_loop : ℕ → ℕ → ℤ → Code ℕ
  find_leaf_loop zero curr key = λ _. stuck
  find_leaf_loop (suc fuel) curr key = do
    p ← on_pager (Pager.read curr)
    leaf ← on_page p is_leaf
    if leaf then pure curr else do
      n ← on_page p num_cells
      idx ← on_page p (λ pg. find_idx acc pg key n false)
      child ← on_page p (λ pg. child_at acc pg idx n)
      find_leaf_loop fuel child key

  unfoldable pub find_leaf : ℕ → ℤ → Code ℕ
  find_leaf fuel key = do root ← gets (λ t. t.root_id); find_leaf_loop fuel root key

  -- `splitNode`
  unfoldable pub split_node : ℕ → ℕ → ℕ → ℕ → ℤ → Value → ℕ → Code (Option Split)
  split_node id p n idx key value right_child = do
    leaf ← on_page p is_leaf
    kind ← on_page p page_type
    (all, old_rightmost) ← on_page p (λ pg. gather_cells acc pg n idx key value right_child leaf)
    old_next ← on_page p next_leaf
    let mid = (n + 1) / 2
    promoted ← run_go (elim (get_elem? all mid) [ none ↦ panic | some c ↦ ok c ])
    new_id ← or_zero 0 (on_pager Pager.allocate)
    right ← or_zero nil_page (on_pager (Pager.read new_id))
    change_page p (λ pg. init_page pg kind)
    change_page right (λ pg. init_page pg kind)
    left_page ← on_page p ok
    right_page ← on_page right ok
    (left_page, right_page) ← run_go (
        if leaf
        then split_leaf acc left_page right_page all mid new_id old_next
        else split_internal acc left_page right_page all mid promoted old_rightmost)
    on_pager (Pager.store_page p left_page)
    on_pager (Pager.store_page right right_page)
    or_zero tt (on_pager (Pager.write id p))
    or_zero tt (on_pager (Pager.write new_id right))
    pure (
        some (record {
          key = promoted.key;
          value = if leaf && acc.copy_up_leaves then none else promoted.value;
          right_id = new_id;
        }))

  -- `doInsert`
  unfoldable pub do_insert : ℕ → ℕ → ℕ → ℕ → ℤ → Value → ℕ → Code (Option Split)
  do_insert id p n idx key value right_child = do
    leaf ← on_page p is_leaf
    free ← on_page p (λ pg. free_space pg n)
    if leb_ℤ (pos (acc.cell_size leaf value)) free
        then (do
          change_page p (λ pg. insert_cell acc pg n idx key value right_child leaf)
          on_pager (Pager.write id p)
          pure none)
        else split_node id p n idx key value right_child

  -- The part of `insertRec` for a key that the page holds: `none` if the insertion is over, or else
  -- the number of cells that are left.
  unfoldable pub replace_existing : ℕ → ℕ → ℕ → ℕ → ℤ → Value → Bool → Code (Option ℕ)
  replace_existing id p n idx key value leaf =
      if ltb idx n
      then (do
        c ← on_page p (λ pg. acc.read_cell pg idx leaf)
        if eqb_ℤ c.key key
            then (if leb (len value) (len c.value)
                then (do
                  change_page p (λ pg. acc.overwrite_value pg idx value leaf)
                  on_pager (Pager.write id p)
                  pure none)
                else (do change_page p (λ pg. delete_cell pg idx); pure (some (n - 1))))
            else pure (some n))
      else pure (some n)

  unfoldable pub insert_rec : ℕ → ℕ → ℤ → Value → Code (Option Split)
  insert_rec zero id key value = λ _. stuck
  insert_rec (suc fuel) id key value = do
    p ← on_pager (Pager.read id)
    n ← on_page p num_cells
    leaf ← on_page p is_leaf
    idx ← on_page p (λ pg. find_idx acc pg key n leaf)
    kept ← replace_existing id p n idx key value leaf
    elim kept [
      | none ↦ pure none
      | some n ↦ if leaf then do_insert id p n idx key value 0 else do
        child ← on_page p (λ pg. child_at acc pg idx n)
        split ← insert_rec fuel child key value
        elim split [
          | none ↦ pure none
          | some s ↦ do
            p ← on_pager (Pager.read id)
            n ← on_page p num_cells
            idx ← on_page p (λ pg. find_idx acc pg s.key n false)
            do_insert id p n idx s.key s.value s.right_id
        ]
    ]

  -- The part of `Insert` behind a split of the root.
  unfoldable pub grow : Split → Code (Unit {0})
  grow s = do
    root ← gets (λ t. t.root_id)
    new_root ← or_zero 0 (on_pager Pager.allocate)
    p ← or_zero nil_page (on_pager (Pager.read new_root))
    change_page p (λ pg. init_page pg type_internal)
    change_page p (λ pg. set_rightmost pg (s.right_id % 2 ^ 32))
    change_page p (λ pg. append_cell acc pg s.key s.value root)
    or_zero tt (on_pager (Pager.write new_root p))
    modify λ t. record t { root_id = new_root % 2 ^ 32 }
    write_header

  unfoldable pub insert : ℕ → ℤ → Value → Code (Unit {0})
  insert fuel key value = do
    root ← gets (λ t. t.root_id)
    split ← insert_rec fuel root key value
    elim split [ none ↦ pure tt | some s ↦ grow s ]

  -- The loop of `countLeavesRec` over the cells `i`, `i + 1`, …, given the recursive call.
  unfoldable pub count_children : (ℕ → Code ℕ) → ℕ → ℕ → ℕ → Code ℕ
  count_children count zero i p = pure 0
  count_children count (suc rounds) i p = do
    c ← on_page p (λ pg. acc.read_cell pg i false)
    here ← count c.left_child
    rest ← count_children count rounds (i + 1) p
    pure (here + rest)

  unfoldable pub count_page : (ℕ → Code ℕ) → ℕ → Code ℕ
  count_page count p = do
    leaf ← on_page p is_leaf
    if leaf then pure 1 else do
      n ← on_page p num_cells
      below ← count_children count n 0 p
      last ← on_page p rightmost
      behind ← count last
      pure (below + behind)

  unfoldable pub count_leaves_rec : ℕ → ℕ → Code ℕ
  count_leaves_rec zero id t = stuck
  count_leaves_rec (suc fuel) id t = elim (on_pager (Pager.read id) t) [
    | done p t' ↦ count_page (count_leaves_rec fuel) p t'
    | fail e t' ↦ done 0 t'
    | panicked ↦ panicked
    | stuck ↦ stuck
  ]

  unfoldable pub count_leaves : ℕ → Code ℕ
  count_leaves fuel = do root ← gets (λ t. t.root_id); count_leaves_rec fuel root

unfoldable set_sync_interval : ℤ → Code (Unit {0})
set_sync_interval n = on_pager (Pager.set_sync_interval n)

abbrev pub initial : Pager → Tree
initial pg = record { pg = pg; root_id = 0 }

-- A new file gets a header page and an empty root leaf.
unfoldable pub create : Code (Unit {0})
create = do
  or_zero 0 (on_pager Pager.allocate)
  root ← or_zero 0 (on_pager Pager.allocate)
  modify λ t. record t { root_id = root % 2 ^ 32 }
  size ← gets (λ t. t.pg.page_size)
  p ← on_pager (Pager.new_buffer (replicate size 0))
  change_page p (λ pg. init_page pg type_leaf)
  or_zero tt (on_pager (Pager.write root p))
  or_zero tt write_header

-- The functions `Open` of the packages btree and bptree, which differ in the file's name and in the
-- accessor only; run from the tree over `Pager.initial`.
unfoldable pub open_tree : Code (Unit {0})
open_tree = do
  on_pager Pager.open_pager
  count ← gets (λ t. t.pg.page_count)
  if leb count 2 then create else or_zero tt read_header

-- The methods `Close` of BTree and BPTree.
unfoldable pub close : Code (Unit {0})
close = do or_zero tt write_header; on_pager Pager.close

-- The methods `Delete` of BTree and BPTree, which do nothing.
abbrev pub delete : ℤ → Code (Unit {0})
delete key = pure tt
