-- ===== src/BpTree/Get.antt =====
-- `Get` on a B+ tree that is stored on the disk: down to a leaf, and along the leaves.
use db_index_performance_eva.Node.Order.{InOrder, InOrder-prefix, InOrder-suffix, InOrder-IsSorted}
use db_index_performance_eva.Base.{
  ℕ, zero, suc, ◌<◌, ◌≡◌, ◌≢◌, refl, sym, ap, ◌∙◌, true, inl, inr, none, some, List, [], ◌∷◌, ◌++◌,
  arith, length, length-append, All, get_elem?, ne→eq, ℤ,
}
use db_index_performance_eva.Base.Go.{ok}
use db_index_performance_eva.Base.State.{done}
use db_index_performance_eva.Bytes.{Bytes}
use db_index_performance_eva.BtPage.{Page, invalid_page, next_leaf}
use db_index_performance_eva.Accessor.{Value, Cell}
use db_index_performance_eva.Accessor.BpTree.{bptree_acc}
use db_index_performance_eva.Accessor.BpTree.RoundTrip.{bptree_laws}
use db_index_performance_eva.Node.{find_idx}
use db_index_performance_eva.Node.Layout.{Holds}
use db_index_performance_eva.Node.Search.{find_idx-SplitsAt}
use db_index_performance_eva.Pager
use db_index_performance_eva.Pager.{Pager}
use db_index_performance_eva.Pager.Storage.{load_page-ok, calm_pager}
use db_index_performance_eva.Pager.Cached.{page_at}
use db_index_performance_eva.Tree
use db_index_performance_eva.Tree.{Tree, Code, on_pager, on_page}
use db_index_performance_eva.BTree.Stored.{lookup_value}
use db_index_performance_eva.BTree.Get.{Within, tree_on}
use db_index_performance_eva.BpTree.{scan_leaves, get}
use db_index_performance_eva.BpTree.Reading.{IsReader, read-IsReader}
use db_index_performance_eva.BpTree.Stored.{
  Leaf, entries, first_id, LeafAt, Linked, Subtree, Subtree-All, Linked-suffix, All-suffix,
  entries-append,
}
use db_index_performance_eva.BpTree.FindLeaf.{find_leaf_loop-Subtree}
use db_index_performance_eva.BpTree.Order.{
  SplitsAt-Splits, lookup_value-skip, answer, leaf_answer-Holds, answer-lookup_value,
}

-- A B+ tree with the given leaves is stored: below the root, linked from leaf to leaf, and in order.
pub record StoredTree (d : Bytes) (size height root : ℕ) (ls : List Leaf) : Type 0 where
  pub shape : Subtree (page_at d size) (Within size d) height root ls
  pub linked : Linked (page_at d size) (Within size d) ls
  pub in_order : InOrder (entries ls)

-- One round of `scan_leaves` on a page that is read into the buffer `a`.
module _ (fuel id a r : ℕ) (key : ℤ) (p q : Pager) (d : Bytes) (s : ℕ) (pg : Page)
    (step : Pager.read id (calm_pager p d s) ≡ done a (calm_pager q d s))
    (there : get_elem? q.bufs a ≡ some pg) (real : id ≢ invalid_page) (cs : List Cell) (lo idx : ℕ)
    (h : Holds bptree_acc bptree_laws pg true cs lo)
    (i : find_idx bptree_acc pg key (length cs) true ≡ ok idx) where
  answered :
      (v : Value)
      → answer key cs idx ≡ some v
      → scan_leaves (suc fuel) id key (tree_on p d s r) ≡ done v (tree_on q d s r)
  unfolding scan_leaves
  answered v e =
      let load = load_page-ok a (calm_pager q d s) pg there in
      rw
        (
          scan_leaves,
          ne→eq id invalid_page real,
          on_pager,
          step,
          on_page,
          on_pager,
          load,
          h.count,
          on_page,
          on_pager,
          load,
          i,
          on_page,
          on_pager,
          load,
          leaf_answer-Holds pg cs lo idx key h,
          e,
        )
        refl

  passed :
      (next : ℕ)
      → answer key cs idx ≡ none
      → next_leaf pg ≡ ok next
      → scan_leaves (suc fuel) id key (tree_on p d s r)
        ≡ scan_leaves fuel next key (tree_on q d s r)
  unfolding scan_leaves
  passed next e n =
      let load = load_page-ok a (calm_pager q d s) pg there in
      rw
        (
          scan_leaves,
          ne→eq id invalid_page real,
          on_pager,
          step,
          on_page,
          on_pager,
          load,
          h.count,
          on_page,
          on_pager,
          load,
          i,
          on_page,
          on_pager,
          load,
          leaf_answer-Holds pg cs lo idx key h,
          e,
          on_page,
          on_pager,
          load,
          n,
        )
        refl

module _ (d : Bytes) (size s r : ℕ) (key : ℤ) where
  scan_leaves-Linked :
      (ls : List Leaf) (fuel : ℕ) (p : Pager)
      → IsReader p d size
      → All (LeafAt (page_at d size) (Within size d)) ls
      → Linked (page_at d size) (Within size d) ls
      → InOrder (entries ls)
      → length ls < fuel
      → (q : Pager) × (scan_leaves fuel (first_id ls) key (tree_on p d s r)
          ≡ done (lookup_value key (entries ls)) (tree_on q d s r))
        × IsReader q d size
  scan_leaves-Linked ls zero p k a l o h = absurd (omega arith)
  scan_leaves-Linked [] (suc fuel) p k a l o h = (p, unfold scan_leaves in refl, k)
  scan_leaves-Linked (x ∷ ls) (suc fuel) p k a l o h =
      let leaf = a.0 in
      let page = page_at d size x.id in
      let (b, q, step, there, k', _) = read-IsReader p d s size x.id k leaf.there in
      let sorted = InOrder-IsSorted x.cells (InOrder-prefix x.cells (entries ls) o) in
      let (idx, i, split) =
        find_idx-SplitsAt bptree_acc bptree_laws page true x.cells leaf.lo key leaf.holds sorted in
      let found =
        answer-lookup_value key x.cells (entries ls) idx (SplitsAt-Splits key x.cells idx split)
          o in
      elim found [
        | inl e ↦ (
          q,
          answered fuel x.id b r key p q d s page step there leaf.real x.cells leaf.lo idx
              leaf.holds i (lookup_value key (x.cells ++ entries ls)) e,
          k',
        )
        | inr (e, same) ↦
            let (q', run, k'') =
              scan_leaves-Linked ls fuel q k' a.1 l.1 (InOrder-suffix x.cells (entries ls) o)
                (omega arith) in
            (
              q',
              passed fuel x.id b r key p q d s page step there leaf.real x.cells leaf.lo idx
                    leaf.holds i (first_id ls) e l.0
                  ∙ run
                  ∙ ap (λ v. done v (tree_on q' d s r)) (sym same),
              k'',
            )
      ]

  -- `Get` on a B+ tree that is stored in a file whose calls succeed, with a clean cache, returns the value
  -- that the entries of its leaves have under the key, or nil if they have none; fuel above the height
  -- for the way down and above the number of leaves for the way along them is enough. The file stays,
  -- and the cache stays clean.
  pub get-StoredTree :
      (height depth fuel : ℕ) (p : Pager) (ls : List Leaf)
      → IsReader p d size
      → StoredTree d size height r ls
      → height < depth
      → length ls < fuel
      → (q : Pager) × (get depth fuel key (tree_on p d s r)
          ≡ done (lookup_value key (entries ls)) (tree_on q d s r))
        × IsReader q d size
  unfolding get Tree.find_leaf
  get-StoredTree height depth fuel p ls k t h m =
      let (before, x, after, q, e, low, _, run, k') =
        find_leaf_loop-Subtree d size s r key height depth r p ls k t.shape h in
      let page_of = page_at d size in
      let There = Within size d in
      let all = rw e at (Subtree-All page_of There height r ls t.shape) in
      let linked = rw e at t.linked in
      let cells : entries ls ≡ entries before ++ entries (x ∷ after) =
        ap entries e ∙ entries-append before (x ∷ after) in
      let in_order = rw cells at t.in_order in
      let (q', scan, k'') =
        scan_leaves-Linked (x ∷ after) fuel q k' (All-suffix page_of There before (x ∷ after) all)
          (Linked-suffix page_of There before (x ∷ after) linked)
          (InOrder-suffix (entries before) (entries (x ∷ after)) in_order)
          (omega (arith, ap length e, length-append before (x ∷ after))) in
      (
        q',
        rw (get, run) scan
            ∙ ap (λ v. done v (tree_on q' d s r))
                (sym (ap (lookup_value key) cells ∙ lookup_value-skip key (entries before) _ low)),
        k'',
      )
