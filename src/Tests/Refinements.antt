-- ===== src/Tests/Refinements.antt =====
-- The theorems on the cache, the pager and the tree applied to concrete states.
use db_index_performance_eva.Base.{
  ℕ, ◌≡◌, refl, some, [], ◌∷◌, ◌++◌, arith, replicate, length, pos, List, map, ℤ, negsuc, none,
}
use db_index_performance_eva.Base.Go.{ok}
use db_index_performance_eva.Base.State.{done, fail}
use db_index_performance_eva.Bytes.{Bytes}
use db_index_performance_eva.Disk.{extend, io_error, read_page}
use db_index_performance_eva.Lru
use db_index_performance_eva.Lru.{Items, LruCache}
use db_index_performance_eva.Lru.Refine.{IsLru, get-touched}
use db_index_performance_eva.Lru.Put.{put-added}
use db_index_performance_eva.Pager.{Pager, read, write, allocate}
use db_index_performance_eva.Pager.Storage.{calm_pager}
use db_index_performance_eva.Pager.Cached.{IsClean, page_at}
use db_index_performance_eva.Pager.Read.{ReadClean, read-IsClean}
use db_index_performance_eva.Pager.Write.{changed, write-IsClean, allocate-IsClean}
use db_index_performance_eva.Pager.Fault.{faulty_pager, read-retry}
use db_index_performance_eva.BTree.{get, insert}
use db_index_performance_eva.Tree.{Tree}
use db_index_performance_eva.BTree.Insert.{get_after_insert}
use db_index_performance_eva.BTree.Get.{tree_on, get-Stored}
use db_index_performance_eva.Lsm.Engine
use db_index_performance_eva.Lsm.Engine.{RangeIterator}
use db_index_performance_eva.Lsm.Store.{Entries, insert-get, delete-get}
use db_index_performance_eva.Lsm.Scan.{stored, collect, collect-range}
use db_index_performance_eva.Tests.Engine.{in_memory, in_memory_laws, entries-in_memory_laws}
use db_index_performance_eva.Tests.Trees.{
  low_page-OneLeaf, four-Missing, four-Fits, two_cached, two_cached-IsLru, fresh, fresh-IsClean,
  tree_bytes, tree_bytes-Stored, cell_low, cell_root, cell_high,
}

get-touched_example :
    (c : LruCache) × (Lru.get two_cached 4 ≡ ok (c, some 7))
    × IsLru c ((4, 7) ∷ (5, 8) ∷ [])
    × (c.cap ≡ 2)
unfolding Lru.lookup Lru.delete
get-touched_example = get-touched two_cached ((5, 8) ∷ (4, 7) ∷ []) 4 two_cached-IsLru

put-added_example :
    (c : LruCache) × (Lru.put two_cached 6 9 ≡ ok c) × IsLru c ((6, 9) ∷ (5, 8) ∷ []) × (c.cap ≡ 2)
unfolding Lru.delete
put-added_example = put-added two_cached ((5, 8) ∷ (4, 7) ∷ []) 6 9 two_cached-IsLru

abbrev two_blocks : Bytes
two_blocks = 1 ∷ 2 ∷ 3 ∷ 4 ∷ 5 ∷ 6 ∷ 7 ∷ 8 ∷ []

read-IsClean_example : ReadClean (record (fresh 4) { page_count = 2 }) two_blocks 0 1
read-IsClean_example =
    read-IsClean (record (fresh 4) { page_count = 2 }) two_blocks 0 [] 1
      (fresh-IsClean 4 2 two_blocks) (omega arith) (omega arith)

none_cached : (j : ℕ) → Lru.lookup j [] ≡ some 1 → j ≡ 1
unfolding Lru.lookup
none_cached j e = cc

write-IsClean_example :
    (n t : ℕ) × (c : LruCache) × (l : Items) × (write 1 1
        (calm_pager (changed (fresh 4) 1 (9 ∷ 9 ∷ 8 ∷ 8 ∷ [])) two_blocks 0)
      ≡ done tt (
          calm_pager
            (record (changed (fresh 4) 1 (9 ∷ 9 ∷ 8 ∷ 8 ∷ [])) { cache = c; write_count = n })
            (extend two_blocks 4 (9 ∷ 9 ∷ 8 ∷ 8 ∷ []))
            t))
    × IsClean
        (record (changed (fresh 4) 1 (9 ∷ 9 ∷ 8 ∷ 8 ∷ [])) { cache = c; write_count = n })
        (extend two_blocks 4 (9 ∷ 9 ∷ 8 ∷ 8 ∷ []))
        l
write-IsClean_example =
    write-IsClean (fresh 4) two_blocks [] 1 1 (9 ∷ 9 ∷ 8 ∷ 8 ∷ []) (fresh-IsClean 4 0 two_blocks)
      none_cached (omega arith) (omega arith) refl (omega arith) 0 (omega arith)

abbrev counted : Pager
counted = record (fresh 4) { page_count = 2 }

allocate-IsClean_example :
    (n t : ℕ) × (allocate (calm_pager counted two_blocks 0)
      ≡ done 2 (
          calm_pager
            (record counted { page_count = 3; write_count = n })
            (two_blocks ++ replicate 4 0)
            t))
    × IsClean (record counted { page_count = 3; write_count = n }) (two_blocks ++ replicate 4 0) []
    × (length (two_blocks ++ replicate 4 0) ≡ 12)
    × (page_at (two_blocks ++ replicate 4 0) 4 2 ≡ replicate 4 0)
allocate-IsClean_example =
    allocate-IsClean counted two_blocks 0 [] (fresh-IsClean 4 2 two_blocks) refl (omega arith)
      (omega arith)

get-Stored_example :
    (q : Pager) × (l : Items) × (get 2 (pos 9) (tree_on (fresh 64) tree_bytes 0 0)
      ≡ done (some (4 ∷ [])) (tree_on q tree_bytes 0 0))
    × IsClean q tree_bytes l
    × (q.page_size ≡ 64)
get-Stored_example =
    get-Stored 1 2 0 (pos 9) (fresh 64) tree_bytes 0 [] (cell_low ∷ cell_root ∷ cell_high ∷ [])
      (fresh-IsClean 64 0 tree_bytes) tree_bytes-Stored (omega arith)

-- Three pairs in the engine.
abbrev three_pairs : List (ℤ × Bytes)
three_pairs = (pos 3, 7 ∷ []) ∷ (pos 300, 8 ∷ 9 ∷ []) ∷ (negsuc 1, []) ∷ []

insert-get_example :
    (db db' : Entries) × (Engine.insert in_memory (pos 3) (some (1 ∷ [])) (map stored three_pairs)
      ≡ done tt db)
    × (Engine.get in_memory (pos 3) db ≡ done (some (1 ∷ [])) db')
insert-get_example =
    insert-get in_memory in_memory_laws (pos 3) (pos 3) (some (1 ∷ [])) (map stored three_pairs)
      (omega arith) (omega arith)

delete-get_example :
    (db db' : Entries) × (Engine.delete in_memory (pos 3) (map stored three_pairs) ≡ done tt db)
    × (Engine.get in_memory (pos 3) db ≡ done none db')
delete-get_example =
    delete-get in_memory in_memory_laws (pos 3) (pos 3) (map stored three_pairs) (omega arith)
      (omega arith)

collect-range_example :
    (it : RangeIterator Entries (Unit {0})) × (Engine.range in_memory
        (pos 0)
        (pos 400)
        (map stored three_pairs)
      ≡ done it (map stored three_pairs))
    × (collect in_memory in_memory_laws 4 it
        ≡ ok ((pos 3, some (7 ∷ [])) ∷ (pos 300, some (8 ∷ 9 ∷ [])) ∷ []))
collect-range_example =
    collect-range in_memory in_memory_laws (pos 0) (pos 400) three_pairs (map stored three_pairs)
      (omega arith) (omega arith) (omega arith) (omega arith)
      (omega arith, (omega arith, (omega arith, tt))) (entries-in_memory_laws _)

none_found : Lru.lookup 1 [] ≡ none
unfolding Lru.lookup
none_found = refl

read-retry_example :
    (q : Pager) × (read 1 (faulty_pager counted two_blocks 0 0)
      ≡ fail (read_page 1 io_error) (calm_pager q two_blocks 0))
    × IsClean q two_blocks []
    × ReadClean q two_blocks 0 1
read-retry_example =
    read-retry counted two_blocks 0 0 [] 1 (fresh-IsClean 4 2 two_blocks) none_found (omega arith)
      (omega arith)

get_after_insert_example :
    (t t' : Tree) × (insert 1 (pos 4) (some (1 ∷ 2 ∷ [])) (tree_on (fresh 64) tree_bytes 0 1)
      ≡ done tt t)
    × (get 1 (pos 4) t ≡ done (some (1 ∷ 2 ∷ [])) t')
get_after_insert_example =
    get_after_insert 0 1 (pos 4) (pos 4) (some (1 ∷ 2 ∷ [])) (fresh 64) tree_bytes 0 []
      (cell_low ∷ []) (fresh-IsClean 64 0 tree_bytes) (omega arith) low_page-OneLeaf four-Missing
      four-Fits
