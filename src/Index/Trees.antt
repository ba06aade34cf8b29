-- ===== src/Index/Trees.antt =====
-- The B-tree and the B+ tree as implementations of the index interface. The fuel is for the way from
-- page to page in each call.
use db_index_performance_eva.Base.{ℕ, some}
use db_index_performance_eva.Base.Go.{ok}
use db_index_performance_eva.Base.State.{done}
use db_index_performance_eva.Disk.{Error}
use db_index_performance_eva.Tree
use db_index_performance_eva.Tree.{Tree}
use db_index_performance_eva.BTree
use db_index_performance_eva.BpTree
use db_index_performance_eva.Index.{Index, Iterator}

abbrev btree_index : ℕ → Index Tree Error BTree.RangeIterator
btree_index fuel = record {
  insert = BTree.insert fuel;
  get = BTree.get fuel;
  delete = Tree.delete;
  range = BTree.range fuel;
  close = Tree.close;
}

abbrev btree_iterator : ℕ → Iterator Tree Error BTree.RangeIterator
btree_iterator fuel = record {
  next = BTree.next fuel;
  key = λ it. ok it.k;
  value = λ it. ok it.v;
  error = λ it. it.err;
  close = λ it t. done tt t;
}

abbrev bptree_index : ℕ → ℕ → Index Tree Error BpTree.RangeIterator
bptree_index depth fuel = record {
  insert = BpTree.insert depth;
  get = BpTree.get depth fuel;
  delete = Tree.delete;
  range = BpTree.range depth;
  close = Tree.close;
}

abbrev bptree_iterator : ℕ → Iterator Tree Error BpTree.RangeIterator
bptree_iterator fuel = record {
  next = BpTree.next fuel;
  key = λ it. ok it.k;
  value = λ it. ok (some it.v);
  error = λ it. it.err;
  close = λ it t. done tt t;
}
