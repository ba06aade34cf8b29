-- ===== src/Tests/Traversals.antt =====
-- The theorems on the ways through a B+ tree of two leaves, and through a B-tree of two levels.
use db_index_performance_eva.Base.{◌≡◌, refl, some, [], ◌∷◌, arith, pos}
use db_index_performance_eva.Base.State.{done, ◌>>=◌}
use db_index_performance_eva.Pager.{Pager}
use db_index_performance_eva.BTree.Get.{tree_on}
use db_index_performance_eva.BpTree
use db_index_performance_eva.BpTree.{get, range}
use db_index_performance_eva.BpTree.Insert.{get-insert_leaf}
use db_index_performance_eva.Tree.{Tree}
use db_index_performance_eva.BpTree.Reading.{IsReader}
use db_index_performance_eva.BpTree.Collect.{collect}
use db_index_performance_eva.BpTree.Get.{get-StoredTree}
use db_index_performance_eva.BpTree.Range.{range-StoredTree}
use db_index_performance_eva.BTree
use db_index_performance_eva.BTree.Range.{range-Stored}
use db_index_performance_eva.Tests.Trees.{
  fresh, fresh-IsClean, tree_bytes, tree_bytes-Stored, cell_low, cell_root, cell_high,
}
use db_index_performance_eva.Tests.Leaves.{
  leaves_bytes, leaves_bytes-StoredTree, two_leaves, fresh-IsReader, cell_five, five_page-OneLeaf,
  six-Missing, six-Fits,
}

get-StoredTree_example :
    (q : Pager) × (get 2 3 (pos 5) (tree_on (fresh 64) leaves_bytes 0 0)
      ≡ done (some (4 ∷ [])) (tree_on q leaves_bytes 0 0))
    × IsReader q leaves_bytes 64
get-StoredTree_example =
    get-StoredTree leaves_bytes 64 0 0 (pos 5) 1 2 3 (fresh 64) two_leaves fresh-IsReader
      leaves_bytes-StoredTree (omega arith) (omega arith)

range-StoredTree_example :
    (q : Pager) × ((range 2 (pos 2) (pos 5) >>= collect 3 3) (tree_on (fresh 64) leaves_bytes 0 0)
      ≡ done ((pos 3, 7 ∷ []) ∷ (pos 5, 4 ∷ []) ∷ []) (tree_on q leaves_bytes 0 0))
    × IsReader q leaves_bytes 64
range-StoredTree_example =
    range-StoredTree leaves_bytes 64 0 0 (pos 2) (pos 5) 1 2 3 3 (fresh 64) two_leaves
      fresh-IsReader leaves_bytes-StoredTree (omega arith) (omega arith) (omega arith)

range-Stored_example :
    (q : Pager) × ((BTree.range 2 (pos 4) (pos 9) >>= BTree.Collect.collect 4 4)
        (tree_on (fresh 64) tree_bytes 0 0)
      ≡ done ((pos 5, some (8 ∷ 6 ∷ [])) ∷ (pos 9, some (4 ∷ [])) ∷ []) (tree_on q tree_bytes 0 0))
    × IsReader q tree_bytes 64
range-Stored_example =
    range-Stored tree_bytes 64 0 0 1 2 4 4 (pos 4) (pos 9) (fresh 64)
      (cell_low ∷ cell_root ∷ cell_high ∷ []) ([], fresh-IsClean 64 0 tree_bytes, refl)
      tree_bytes-Stored ((ground arith, (ground arith, tt)), ((ground arith, tt), (tt, tt)))
      (omega arith) (omega arith) (omega arith)

get-insert_leaf_example :
    (t t' : Tree) × (BpTree.insert 1
        (pos 6)
        (some (1 ∷ 2 ∷ []))
        (tree_on (fresh 64) leaves_bytes 0 2)
      ≡ done tt t)
    × (get 1 2 (pos 6) t ≡ done (some (1 ∷ 2 ∷ [])) t')
get-insert_leaf_example =
    get-insert_leaf 0 0 0 2 (pos 6) (pos 6) (some (1 ∷ 2 ∷ [])) (fresh 64) leaves_bytes 0 []
      (cell_five ∷ []) (fresh-IsClean 64 0 leaves_bytes) (omega arith) five_page-OneLeaf six-Missing
      six-Fits
