-- ===== src/BTree.antt =====
-- The B-tree of src/dbms/index/btree/btree.go: `Get` and `Insert` are the engine's over BTreeAcc;
-- the range iterator walks the tree in order with a stack of frames.
pub mod Stored
pub mod Descend
pub mod Get
pub mod Insert
pub mod Stack
pub mod Rounds
pub mod Visit
pub mod Enter
pub mod Collect
pub mod Range
use db_index_performance_eva.Base.{
  ℕ, zero, suc, ◌+◌, Bool, true, false, none, List, [], ◌∷◌, ltb, if◌then◌else◌, ℤ, pos, ltb_ℤ,
  Option, some,
}
use db_index_performance_eva.Base.State.{done, fail, panicked, stuck, pure, and_then, ◌>>=◌, gets}
use db_index_performance_eva.BtPage.{num_cells}
use db_index_performance_eva.Accessor.{Value, Cell}
use db_index_performance_eva.Accessor.BTree.{btree_acc, read_cell}
use db_index_performance_eva.Node.{is_leaf, child_at, find_idx}
use db_index_performance_eva.Disk.{Error}
use db_index_performance_eva.Pager
use db_index_performance_eva.Tree
use db_index_performance_eva.Tree.{Code, on_pager, on_page}

-- `BTree.Get` and `BTree.Insert`
unfoldable pub get : ℕ → ℤ → Code Value
get fuel key = Tree.get btree_acc fuel key

unfoldable pub insert : ℕ → ℤ → Value → Code (Unit {0})
insert fuel key value = Tree.insert btree_acc fuel key value

pub record Frame : Type 0 where
  pub id : ℕ
  pub idx : ℕ
  pub subtree_done : Bool

-- The stack's top stands first. The fields `k` and `v` hold the current pair.
pub record RangeIterator : Type 0 where
  pub end_key : ℤ
  pub stack : List Frame
  pub k : ℤ
  pub v : Value
  pub err : Option Error

unfoldable pub range_loop : ℕ → ℕ → ℤ → List Frame → Code (List Frame)
range_loop zero curr start stack = λ _. stuck
range_loop (suc fuel) curr start stack = do
  p ← on_pager (Pager.read curr)
  n ← on_page p num_cells
  leaf ← on_page p is_leaf
  idx ← on_page p (λ pg. find_idx btree_acc pg start n leaf)
  let frame : Frame = record { id = curr; idx = idx; subtree_done = false }
  if leaf then pure (frame ∷ stack) else do
    child ← on_page p (λ pg. child_at btree_acc pg idx n)
    range_loop fuel child start (frame ∷ stack)

unfoldable pub range : ℕ → ℤ → ℤ → Code RangeIterator
range fuel start end_key = do
  root ← gets (λ t. t.root_id)
  stack ← range_loop fuel root start []
  pure (record { end_key = end_key; stack = stack; k = pos 0; v = none; err = none })

-- What one round of the loop of `Next` does: it yields a cell, ends the scan, or goes on with
-- another stack.
pub data Round : Type 0 where
  yield : Cell → List Frame → Round
  finish : Round
  again : List Frame → Round

-- The top frame goes, and the one below it has visited its subtree.
abbrev pub pop_frame : List Frame → List Frame
pop_frame [] = []
pop_frame (f ∷ rest) = record f { subtree_done = true } ∷ rest

-- The cell at the top frame, unless it lies behind the end.
abbrev pub yield_cell : ℤ → Cell → Frame → List Frame → Round
yield_cell end_key c f rest =
    if ltb_ℤ end_key c.key
    then finish
    else yield c (record f { idx = f.idx + 1; subtree_done = false } ∷ rest)

unfoldable pub next_leaf_round : ℤ → ℕ → ℕ → Frame → List Frame → Code Round
next_leaf_round end_key p n f rest =
    if ltb f.idx n
    then on_page p (λ pg. read_cell pg f.idx true) >>= (λ c. pure (yield_leaf c))
    else pure (again (pop_frame rest))
  where
    yield_leaf : Cell → Round
    yield_leaf c =
        if ltb_ℤ end_key c.key then finish else yield c (record f { idx = f.idx + 1 } ∷ rest)

unfoldable pub next_internal_round : ℤ → ℕ → ℕ → Frame → List Frame → Code Round
next_internal_round end_key p n f rest =
    if f.subtree_done
    then (if ltb f.idx n
        then on_page p (λ pg. read_cell pg f.idx false)
          >>= (λ c. pure (yield_cell end_key c f rest))
        else pure (again (pop_frame rest)))
    else on_page p (λ pg. child_at btree_acc pg f.idx n) >>= (λ child.
      pure (again (record { id = child; idx = 0; subtree_done = false } ∷ (f ∷ rest))))

-- One round at an addressed page.
unfoldable pub next_round : ℤ → ℕ → Frame → List Frame → Code Round
next_round end_key p f rest = do
  n ← on_page p num_cells
  leaf ← on_page p is_leaf
  if leaf then next_leaf_round end_key p n f rest else next_internal_round end_key p n f rest

-- `Next`: the iterator and whether there is a pair. A read error is kept in the iterator.
unfoldable pub next : ℕ → RangeIterator → Code (RangeIterator × Bool)
next zero it t = stuck
next (suc fuel) it t = elim it.stack [
  | [] ↦ done (it, false) t
  | f ∷ rest ↦ elim (on_pager (Pager.read f.id) t) [
    | fail e t' ↦ done (record it { err = some e }, false) t'
    | panicked ↦ panicked
    | stuck ↦ stuck
    | done p t' ↦ and_then (next_round it.end_key p f rest t') (λ r. elim r [
      | yield c stack ↦ pure (record it { stack = stack; k = c.key; v = c.value }, true)
      | finish ↦ pure (it, false)
      | again stack ↦ next fuel (record it { stack = stack })
    ])
  ]
]
