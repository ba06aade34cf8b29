-- ===== src/BpTree/FindLeaf.antt =====
-- `FindLeaf` in a B+ tree that is stored on the disk, through the pager and its cache.
use db_index_performance_eva.Node.Order.{Below, AtLeast, AtLeast-append, Below-append}
use db_index_performance_eva.Base.{
  ℕ, zero, suc, ◌≤◌, ◌<◌, ◌≡◌, refl, sym, ap, ◌∙◌, true, false, some, List, [], ◌∷◌, ◌++◌,
  append_assoc, arith, length, get_elem?, ℤ,
}
use db_index_performance_eva.Base.Go.{ok}
use db_index_performance_eva.Base.State.{done}
use db_index_performance_eva.Bytes.{Bytes}
use db_index_performance_eva.BtPage.{Page, rightmost}
use db_index_performance_eva.Accessor.{Cell}
use db_index_performance_eva.Accessor.BpTree.{bptree_acc}
use db_index_performance_eva.Accessor.BpTree.RoundTrip.{bptree_laws}
use db_index_performance_eva.Node.{is_leaf, find_idx}
use db_index_performance_eva.Node.Child.{child_of, child_at-Holds}
use db_index_performance_eva.Node.Layout.{Holds}
use db_index_performance_eva.Node.Search.{find_idx-SplitsAt}
use db_index_performance_eva.Pager
use db_index_performance_eva.Pager.{Pager}
use db_index_performance_eva.Pager.Storage.{load_page-ok, calm_pager}
use db_index_performance_eva.Pager.Cached.{page_at}
use db_index_performance_eva.Tree.{on_pager, on_page, find_leaf_loop}
use db_index_performance_eva.BTree.Get.{Within, tree_on}
use db_index_performance_eva.BpTree.Reading.{IsReader, read-IsReader}
use db_index_performance_eva.BpTree.Stored.{
  Leaf, entries, Subtree, Branch-descend, SplitsAt-Passed, entries-append,
}

-- One round of `find_leaf_loop` on a page that is read into the buffer `a`.
module _ (fuel curr a r : ℕ) (key : ℤ) (p q : Pager) (d : Bytes) (s : ℕ) (pg : Page)
    (step : Pager.read curr (calm_pager p d s) ≡ done a (calm_pager q d s))
    (there : get_elem? q.bufs a ≡ some pg) where
  at_leaf :
      is_leaf pg ≡ ok true
      → find_leaf_loop bptree_acc (suc fuel) curr key (tree_on p d s r)
        ≡ done curr (tree_on q d s r)
  unfolding find_leaf_loop
  at_leaf leaf =
      let load = load_page-ok a (calm_pager q d s) pg there in
      rw (find_leaf_loop, on_pager, step, on_page, on_pager, load, leaf) refl

  at_internal :
      (cs : List Cell) (lo last idx : ℕ)
      → Holds bptree_acc bptree_laws pg false cs lo
      → rightmost pg ≡ ok last
      → find_idx bptree_acc pg key (length cs) false ≡ ok idx
      → idx ≤ length cs
      → find_leaf_loop bptree_acc (suc fuel) curr key (tree_on p d s r)
        ≡ find_leaf_loop bptree_acc fuel (child_of cs idx last) key (tree_on q d s r)
  unfolding find_leaf_loop
  at_internal cs lo last idx h e i within =
      let load = load_page-ok a (calm_pager q d s) pg there in
      let child = child_at-Holds bptree_acc bptree_laws pg false cs lo h idx last refl within e in
      rw
        (
          find_leaf_loop, on_pager, step, on_page, on_pager, load, h.kind, on_page, on_pager, load,
          h.count, on_page, on_pager, load, i, on_page, on_pager, load, child,
        )
        refl

module _ (d : Bytes) (size s r : ℕ) (key : ℤ) where
  -- A leaf that is found among leaves: those before it hold smaller keys, those behind it no smaller
  -- ones.
  abbrev pub FoundLeaf : Pager → ℕ → ℕ → List Leaf → Type 0
  FoundLeaf p fuel id ls =
      (before : List Leaf) × (x : Leaf) × (after : List Leaf) × (q : Pager) × (ls
        ≡ before ++ (x ∷ after))
      × Below key (entries before)
      × AtLeast key (entries after)
      × (find_leaf_loop bptree_acc fuel id key (tree_on p d s r) ≡ done x.id (tree_on q d s r))
      × IsReader q d size

  pub find_leaf_loop-Subtree :
      (height fuel id : ℕ) (p : Pager) (ls : List Leaf)
      → IsReader p d size
      → Subtree (page_at d size) (Within size d) height id ls
      → height < fuel
      → FoundLeaf p fuel id ls
  find_leaf_loop-Subtree height zero id p ls k t h = absurd (omega arith)
  find_leaf_loop-Subtree zero (suc fuel) id p ls k t h =
      let (cs, e, leaf) = t in
      let (a, q, step, there, k', _) = read-IsReader p d s size id k leaf.there in
      (
        [],
        record { id = id; cells = cs },
        [],
        q,
        e,
        tt,
        tt,
        at_leaf fuel id a r key p q d s _ step there leaf.holds.kind,
        k',
      )
  find_leaf_loop-Subtree (suc height) (suc fuel) id p ls k t h =
      let (within, (cs, lo, last, holds, sorted, end, branch)) = t in
      let (a, q, step, there, k', _) = read-IsReader p d s size id k within in
      let page = page_at d size id in
      let (idx, i, split) =
        find_idx-SplitsAt bptree_acc bptree_laws page false cs lo key holds sorted in
      let (left, sub, right, e, below, low, high) =
        Branch-descend (page_at d size) (Within size d) key _ cs last ls idx branch
          (SplitsAt-Passed key cs idx split) in
      let (before, x, after, q', e', low', high', run, k'') =
        find_leaf_loop-Subtree height fuel (child_of cs idx last) q sub k' below (omega arith) in
      (
        left ++ before,
        x,
        after ++ right,
        q',
        e
            ∙ ap (λ l. left ++ (l ++ right)) e'
            ∙ ap (◌++◌ left) (append_assoc before (x ∷ after) right)
            ∙ sym (append_assoc left before (x ∷ (after ++ right))),
        rw (entries-append left before) (Below-append key (entries left) (entries before) low low'),
        rw (entries-append after right)
            (AtLeast-append key (entries after) (entries right) high' high),
        at_internal fuel id a r key p q d s _ step there cs lo last idx holds end i split.0 ∙ run,
        k'',
      )
