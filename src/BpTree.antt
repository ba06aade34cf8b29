-- ===== src/BpTree.antt =====
-- The B+ tree of src/dbms/index/bptree/bptree.go: `Insert` is the engine's over BPTreeAcc; `Get` and
-- the range iterator go from leaf to leaf.
pub mod Stored
pub mod Reading
pub mod FindLeaf
pub mod Order
pub mod Get
pub mod Insert
pub mod Scan
pub mod Position
pub mod Collect
pub mod Range
use db_index_performance_eva.Base.{
  ℕ, zero, suc, ◌+◌, Bool, true, false, none, [], ltb, ◌==◌, if◌then◌else◌, ℤ, pos, ltb_ℤ, eqb_ℤ,
  Option, some, ◌⊎◌, inl, inr,
}
use db_index_performance_eva.Base.Go.{Go, ok, panic, out_of_fuel}
use db_index_performance_eva.Base.State.{done, fail, panicked, stuck, pure, and_then, ◌>>=◌}
use db_index_performance_eva.Bytes.{Bytes}
use db_index_performance_eva.BtPage.{Page, invalid_page, num_cells, next_leaf}
use db_index_performance_eva.Accessor.{Value}
use db_index_performance_eva.Accessor.BpTree.{bptree_acc, read_cell, read_cell_zero_copy}
use db_index_performance_eva.Node.{find_idx}
use db_index_performance_eva.Disk.{Error}
use db_index_performance_eva.Pager
use db_index_performance_eva.Tree
use db_index_performance_eva.Tree.{Code, on_pager, on_page}

unfoldable pub insert : ℕ → ℤ → Value → Code (Unit {0})
insert fuel key value = Tree.insert bptree_acc fuel key value

-- What a leaf says of the key: `some` answers the search, `none` sends it to the next leaf.
unfoldable pub leaf_answer : Page → ℕ → ℕ → ℤ → Go (Option Value)
leaf_answer p n idx key =
    if ltb idx n
    then elim (read_cell p idx true) [
      | ok c ↦
          ok (if eqb_ℤ c.key key then some c.value else if ltb_ℤ key c.key then some none else none)
      | panic ↦ panic
      | out_of_fuel ↦ out_of_fuel
    ]
    else ok none

-- The loop of `Get` along the leaves.
unfoldable pub scan_leaves : ℕ → ℕ → ℤ → Code Value
scan_leaves zero leaf_id key = λ _. stuck
scan_leaves (suc fuel) leaf_id key = if leaf_id == invalid_page then pure none else do
  p ← on_pager (Pager.read leaf_id)
  n ← on_page p num_cells
  idx ← on_page p (λ pg. find_idx bptree_acc pg key n true)
  answer ← on_page p (λ pg. leaf_answer pg n idx key)
  elim answer [
    | some value ↦ pure value
    | none ↦ do next ← on_page p next_leaf; scan_leaves fuel next key
  ]

-- `BPTree.Get`, with fuel for the way down and for the leaves.
unfoldable pub get : ℕ → ℕ → ℤ → Code Value
get depth fuel key = do leaf_id ← Tree.find_leaf bptree_acc depth key; scan_leaves fuel leaf_id key

-- `curr_pg` is the buffer of the current leaf, or nil. `k` and `v` hold the current pair; the value
-- of a pair is a slice of that buffer.
pub record RangeIterator : Type 0 where
  pub end_key : ℤ
  pub leaf_id : ℕ
  pub idx : ℕ
  pub curr_pg : Option ℕ
  pub k : ℤ
  pub v : Bytes
  pub err : Option Error

unfoldable pub range : ℕ → ℤ → ℤ → Code RangeIterator
range depth start end_key = do
  leaf_id ← Tree.find_leaf bptree_acc depth start
  p ← on_pager (Pager.read leaf_id)
  n ← on_page p num_cells
  idx ← on_page p (λ pg. find_idx bptree_acc pg start n true)
  pure (record {
    end_key = end_key;
    leaf_id = leaf_id;
    idx = idx;
    curr_pg = some p;
    k = pos 0;
    v = [];
    err = none;
  })

-- The page of a round of `Next`: the one that the iterator holds, or else the leaf's.
unfoldable pub current_page : RangeIterator → Code ℕ
current_page it = elim it.curr_pg [ some p ↦ pure p | none ↦ on_pager (Pager.read it.leaf_id) ]

-- A round on the page `p`: `inl` ends the call with its result, `inr` goes on.
unfoldable pub next_on_page : RangeIterator → ℕ → Code ((RangeIterator × Bool) ⊎ RangeIterator)
next_on_page it p = do
  n ← on_page p num_cells
  if ltb it.idx n
      then (do
        (k, v) ← on_page p (λ pg. read_cell_zero_copy pg it.idx)
        pure (
            inl (
              if ltb_ℤ it.end_key k
              then (record it { curr_pg = some p }, false)
              else (record it { curr_pg = some p; k = k; v = v; idx = it.idx + 1 }, true))))
      else (do
        following ← on_page p next_leaf
        pure (inr (record it { leaf_id = following; curr_pg = none; idx = 0 })))

-- `Next`: the iterator and whether there is a pair. A read error is kept in the iterator.
unfoldable pub next : ℕ → RangeIterator → Code (RangeIterator × Bool)
next zero it t = stuck
next (suc fuel) it t = elim (it.leaf_id == invalid_page) [
  | true ↦ done (it, false) t
  | false ↦ elim (current_page it t) [
    | fail e t' ↦ done (record it { err = some e }, false) t'
    | panicked ↦ panicked
    | stuck ↦ stuck
    | done p t' ↦
        and_then (next_on_page it p t')
          (λ r. elim r [ inl result ↦ pure result | inr it' ↦ next fuel it' ])
  ]
]
