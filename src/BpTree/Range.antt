-- ===== src/BpTree/Range.antt =====
-- `Range` on a B+ tree that is stored on the disk, and the iteration of its result.
use db_index_performance_eva.Node.Order.{
  AtLeast, InOrder, AtLeast-trans, InOrder-prefix, InOrder-suffix, InOrder-IsSorted,
}
use db_index_performance_eva.Base.{
  ℕ, zero, suc, ◌≤◌, ◌<◌, ◌≡◌, refl, sym, ap, ◌∙◌, true, inr, none, some, List, [], ◌∷◌, ◌++◌,
  arith, length, length-append, drop, get_elem?, ℤ, pos, ltb_ℤ,
}
use db_index_performance_eva.Base.Go.{ok}
use db_index_performance_eva.Base.State.{done, and_then, ◌>>=◌}
use db_index_performance_eva.Bytes.{Bytes}
use db_index_performance_eva.BtPage.{Page}
use db_index_performance_eva.Accessor.{Cell}
use db_index_performance_eva.Accessor.BpTree.{bptree_acc}
use db_index_performance_eva.Accessor.BpTree.RoundTrip.{bptree_laws}
use db_index_performance_eva.Node.{find_idx}
use db_index_performance_eva.Node.Layout.{Holds}
use db_index_performance_eva.Node.Search.{find_idx-SplitsAt}
use db_index_performance_eva.Pager
use db_index_performance_eva.Pager.{Pager}
use db_index_performance_eva.Pager.Storage.{load_page-ok, calm_pager}
use db_index_performance_eva.Pager.Cached.{page_at}
use db_index_performance_eva.Node.Between.{until, between, between-Below, between-until}
use db_index_performance_eva.Tree
use db_index_performance_eva.Tree.{Tree, Code, on_pager, on_page}
use db_index_performance_eva.BTree.Stored.{Splits}
use db_index_performance_eva.BTree.Get.{Within, tree_on}
use db_index_performance_eva.BpTree.{RangeIterator, range}
use db_index_performance_eva.BpTree.Reading.{IsReader, read-IsReader}
use db_index_performance_eva.BpTree.Stored.{
  Leaf, entries, Subtree-All, Linked-suffix, All-suffix, entries-append,
}
use db_index_performance_eva.BpTree.FindLeaf.{find_leaf_loop-Subtree}
use db_index_performance_eva.BpTree.Order.{SplitsAt-Splits}
use db_index_performance_eva.BpTree.Collect.{collect, pair, collect-Position}
use db_index_performance_eva.BpTree.Position.{Position}
use db_index_performance_eva.BpTree.Get.{StoredTree}

module _ (start end_key : ℤ) where
  -- From the index of a search on, the entries up to the end are the ones sought.
  between-Splits :
      (cs rest : List Cell) (idx : ℕ)
      → Splits start cs idx
      → AtLeast start rest
      → InOrder (cs ++ rest)
      → between pair start end_key (cs ++ rest) ≡ until pair end_key (drop idx cs ++ rest)
  between-Splits [] rest zero s a o = between-until pair start end_key rest a o
  between-Splits [] rest (suc idx) s a o = between-until pair start end_key rest a o
  between-Splits (c ∷ cs) rest zero s a o =
      between-until pair start end_key (c ∷ (cs ++ rest))
        (s, AtLeast-trans c.key start (cs ++ rest) o.0 s) o
  between-Splits (c ∷ cs) rest (suc idx) s a o =
      let low : ltb_ℤ c.key start ≡ true = ground (arith, s.0) in
      rw low (between-Splits cs rest idx s.1 a o.1)

  length-rest : (cs rest : List Cell) (idx : ℕ) → length (drop idx cs ++ rest) ≤ length (cs ++ rest)
  length-rest [] rest zero = omega arith
  length-rest [] rest (suc idx) = omega arith
  length-rest (c ∷ cs) rest zero = omega arith
  length-rest (c ∷ cs) rest (suc idx) = let shorter = length-rest cs rest idx in omega arith

-- The iterator that `Range` gives.
abbrev started : ℕ → ℤ → ℕ → ℕ → RangeIterator
started leaf_id end_key idx a = record {
  end_key = end_key;
  leaf_id = leaf_id;
  idx = idx;
  curr_pg = some a;
  k = pos 0;
  v = [];
  err = none;
}

range-page :
    (depth id a idx r : ℕ) (start end_key : ℤ) (p q q' : Pager) (d : Bytes) (s : ℕ) (pg : Page)
    (cs : List Cell) (lo : ℕ)
    → Tree.find_leaf bptree_acc depth start (tree_on p d s r) ≡ done id (tree_on q d s r)
    → Pager.read id (calm_pager q d s) ≡ done a (calm_pager q' d s)
    → get_elem? q'.bufs a ≡ some pg
    → Holds bptree_acc bptree_laws pg true cs lo
    → find_idx bptree_acc pg start (length cs) true ≡ ok idx
    → range depth start end_key (tree_on p d s r)
      ≡ done (started id end_key idx a) (tree_on q' d s r)
unfolding range
range-page depth id a idx r start end_key p q q' d s pg cs lo down step there h i =
    let load = load_page-ok a (calm_pager q' d s) pg there in
    rw (range, down, on_pager, step, on_page, on_pager, load, h.count, on_page, on_pager, load, i)
      refl

module _ (d : Bytes) (size s r : ℕ) (start end_key : ℤ) where
  -- `Range` on a B+ tree that is stored in a file whose calls succeed, with a clean cache, returns an
  -- iterator, and `Next` called on it for as long as it answers true gives, with `Key` and `Value`,
  -- the pairs of the leaves' entries whose keys lie from `start` to `end_key`, in the order of the
  -- entries and each one once; fuel above the height, above the number of leaves in each call of
  -- `Next`, and above the number of entries for the calls is enough. The file stays, and the cache
  -- stays clean.
  pub range-StoredTree :
      (height depth fuel rounds : ℕ) (p : Pager) (ls : List Leaf)
      → IsReader p d size
      → StoredTree d size height r ls
      → height < depth
      → length ls < fuel
      → length (entries ls) < rounds
      → (q : Pager) × ((range depth start end_key >>= collect fuel rounds) (tree_on p d s r)
          ≡ done (between pair start end_key (entries ls)) (tree_on q d s r))
        × IsReader q d size
  unfolding Tree.find_leaf
  range-StoredTree height depth fuel rounds p ls k t h m n =
      let (before, x, after, q, e, low, high, run, k') =
        find_leaf_loop-Subtree d size s r start height depth r p ls k t.shape h in
      let page_of = page_at d size in
      let There = Within size d in
      let all =
        All-suffix page_of There before (x ∷ after)
          (rw e at (Subtree-All page_of There height r ls t.shape)) in
      let linked = Linked-suffix page_of There before (x ∷ after) (rw e at t.linked) in
      let cells : entries ls ≡ entries before ++ (x.cells ++ entries after) =
        ap entries e ∙ entries-append before (x ∷ after) in
      let in_order =
        InOrder-suffix (entries before) (x.cells ++ entries after) (rw cells at t.in_order) in
      let leaf = all.0 in
      let (a, q', step, there, k'', _) = read-IsReader q d s size x.id k' leaf.there in
      let sorted = InOrder-IsSorted x.cells (InOrder-prefix x.cells (entries after) in_order) in
      let (idx, i, split) =
        find_idx-SplitsAt bptree_acc bptree_laws (page_at d size x.id) true x.cells leaf.lo start
          leaf.holds sorted in
      let rem = drop idx x.cells ++ entries after in
      let it = started x.id end_key idx a in
      let pos' : Position d size s r fuel q' it rem = record {
        cells = x.cells;
        later = after;
        leaf = leaf;
        stored = all.1;
        onward = linked.0;
        linked = linked.1;
        left = refl;
        pinned = inr (a, refl, there);
        few = omega (arith, ap length e, length-append before (x ∷ after));
        reader = k'';
      } in
      let short = length-rest start end_key x.cells (entries after) idx in
      let (q'', run', k''') = collect-Position d size s r rem rounds fuel q' it pos' (
        omega
          (arith, ap length cells, length-append (entries before) (x.cells ++ entries after))) in
      (
        q'',
        ap (λ o. and_then o (collect fuel rounds))
              (range-page depth x.id a idx r start end_key p q q' d s _ x.cells leaf.lo run step
                there leaf.holds i)
            ∙ run'
            ∙ ap (λ l. done l (tree_on q'' d s r))
                (sym (
                  ap (between pair start end_key) cells
                  ∙ between-Below pair start end_key (entries before) _ low
                  ∙ between-Splits start end_key x.cells (entries after) idx
                      (SplitsAt-Splits start x.cells idx split) high in_order)),
        k''',
      )
