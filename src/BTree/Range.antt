-- ===== src/BTree/Range.antt =====
-- `Range` on a B-tree that is stored on the disk, and the iteration of its result.
use db_index_performance_eva.Node.Order.{
  Below, AtLeast, InOrder, AtLeast-append, AtLeast-trans, InOrder-prefix, InOrder-suffix,
  Below-append,
}
use db_index_performance_eva.Base.{
  ℕ, zero, suc, ◌+◌, ◌≤◌, ◌<◌, ◌≡◌, refl, sym, ap, ◌∙◌, true, false, inl, none, some, List, [], ◌∷◌,
  ◌++◌, append_assoc, append-nil, arith, length, length-append, drop, get_elem?, ℤ, pos,
}
use db_index_performance_eva.Base.Go.{ok}
use db_index_performance_eva.Base.State.{done, and_then, ◌>>=◌}
use db_index_performance_eva.Bytes.{Bytes}
use db_index_performance_eva.BtPage.{Page, rightmost}
use db_index_performance_eva.Accessor.{Cell}
use db_index_performance_eva.Accessor.BTree.{btree_acc}
use db_index_performance_eva.Accessor.BTree.RoundTrip.{btree_laws}
use db_index_performance_eva.Node.{find_idx}
use db_index_performance_eva.Node.Child.{child_of, child_at-Holds}
use db_index_performance_eva.Node.Layout.{Holds}
use db_index_performance_eva.Node.Search.{find_idx-SplitsAt}
use db_index_performance_eva.Pager
use db_index_performance_eva.Pager.{Pager}
use db_index_performance_eva.Pager.Storage.{load_page-ok, calm_pager}
use db_index_performance_eva.Pager.Cached.{page_at}
use db_index_performance_eva.Tree.{Tree, on_pager, on_page}
use db_index_performance_eva.BTree.Stored.{Splits, SplitsAt-Splits, Stored}
use db_index_performance_eva.BTree.Get.{Within, tree_on}
use db_index_performance_eva.BTree.{Frame, RangeIterator, range_loop, range}
use db_index_performance_eva.BTree.Stack.{Spread-search, Waiting}
use db_index_performance_eva.Node.Between.{between, between-Below, between-until}
use db_index_performance_eva.BTree.Visit.{Placed}
use db_index_performance_eva.BTree.Collect.{collect, pair, collect-Placed}
use db_index_performance_eva.BpTree.Reading.{IsReader, read-IsReader}

-- The index of a search in a leaf.
Splits-leaf :
    (key : ℤ) (cs : List Cell) (idx : ℕ)
    → Splits key cs idx
    → InOrder cs
    → (low : List Cell) × (cs ≡ low ++ drop idx cs) × Below key low × AtLeast key (drop idx cs)
Splits-leaf key [] zero p o = ([], refl, tt, tt)
Splits-leaf key [] (suc idx) p o = ([], refl, tt, tt)
Splits-leaf key (c ∷ cs) zero p o = ([], refl, tt, (p, AtLeast-trans c.key key cs o.0 p))
Splits-leaf key (c ∷ cs) (suc idx) p o =
    let (low, e, below, high) = Splits-leaf key cs idx p.1 o.1 in
    (c ∷ low, ap (λ l. c ∷ l) e, (p.0, below), high)

-- A round of the loop of `Range` on a page that is read into the buffer `a`.
module _ (fuel curr a r idx : ℕ) (start : ℤ) (stack : List Frame) (p q : Pager) (d : Bytes) (s : ℕ)
    (pg : Page) (cs : List Cell) (lo : ℕ)
    (step : Pager.read curr (calm_pager p d s) ≡ done a (calm_pager q d s))
    (there : get_elem? q.bufs a ≡ some pg) where
  loop_leaf :
      Holds btree_acc btree_laws pg true cs lo
      → find_idx btree_acc pg start (length cs) true ≡ ok idx
      → range_loop (suc fuel) curr start stack (tree_on p d s r)
        ≡ done (record { id = curr; idx = idx; subtree_done = false } ∷ stack) (tree_on q d s r)
  unfolding range_loop
  loop_leaf h i =
      let load = load_page-ok a (calm_pager q d s) pg there in
      rw
        (
          range_loop, on_pager, step, on_page, on_pager, load, h.count, on_page, on_pager, load,
          h.kind, on_page, on_pager, load, i,
        )
        refl

  loop_internal :
      (last : ℕ)
      → Holds btree_acc btree_laws pg false cs lo
      → rightmost pg ≡ ok last
      → find_idx btree_acc pg start (length cs) false ≡ ok idx
      → idx ≤ length cs
      → range_loop (suc fuel) curr start stack (tree_on p d s r)
        ≡ range_loop fuel
            (child_of cs idx last)
            start
            (record { id = curr; idx = idx; subtree_done = false } ∷ stack)
            (tree_on q d s r)
  unfolding range_loop
  loop_internal last h e i within =
      let load = load_page-ok a (calm_pager q d s) pg there in
      let child = child_at-Holds btree_acc btree_laws pg false cs lo h idx last refl within e in
      rw
        (
          range_loop, on_pager, step, on_page, on_pager, load, h.count, on_page, on_pager, load,
          h.kind, on_page, on_pager, load, i, on_page, on_pager, load, child,
        )
        refl

module _ (d : Bytes) (size s r : ℕ) (start : ℤ) where
  -- Where the loop of `Range` ends, below the frames that are on the stack.
  abbrev Started : ℕ → ℕ → ℕ → List Frame → List Cell → Pager → Type 0
  Started height fuel id stack es p =
      (q : Pager) × (stack' : List Frame) × (low rem : List Cell) × (range_loop fuel id start stack
          (tree_on p d s r)
        ≡ done stack' (tree_on q d s r))
      × IsReader q d size
      × (es ≡ low ++ rem)
      × Below start low
      × AtLeast start rem
      × ((bound : ℕ) (later : List Cell)
          → Waiting (page_at d size) (Within size d) height stack later
          → height + length stack ≤ bound
          → Placed d size s r bound stack' (rem ++ later))

  range_loop-Started :
      (height fuel id : ℕ) (stack : List Frame) (es : List Cell) (p : Pager)
      → IsReader p d size
      → Stored (page_at d size) (Within size d) height id es
      → InOrder es
      → height < fuel
      → Started height fuel id stack es p
  range_loop-Started height zero id stack es p k node o h = absurd (omega arith)
  range_loop-Started zero (suc fuel) id stack es p k (there, sorted, (lo, holds)) o h =
      let (a, q, step, load, k', _) = read-IsReader p d s size id k there in
      let (idx, i, split) =
        find_idx-SplitsAt btree_acc btree_laws _ true es lo start holds sorted in
      let (low, e, below, high) =
        Splits-leaf start es idx (SplitsAt-Splits start true es idx split) o in
      (
        q,
        record { id = id; idx = idx; subtree_done = false } ∷ stack,
        low,
        drop idx es,
        loop_leaf fuel id a r idx start stack p q d s _ es lo step load holds i,
        k',
        e,
        below,
        high,
        λ bound later wait b.
            (0, drop idx es, later, refl, inl (es, (there, (lo, holds)), refl), wait, b),
      )
  range_loop-Started (suc height) (suc fuel) id stack es p k
        (there, (cs, lo, last, holds, sorted, right, spread)) o h =
      let Child = Stored (page_at d size) (Within size d) height in
      let (a, q, step, load, k', _) = read-IsReader p d s size id k there in
      let (idx, i, split) =
        find_idx-SplitsAt btree_acc btree_laws _ false cs lo start holds sorted in
      let (left, sub, rest, e, below, high, child, behind) =
        Spread-search Child start cs last idx es spread
          (SplitsAt-Splits start false cs idx split) in
      let inner = InOrder-prefix sub rest (InOrder-suffix left (sub ++ rest) (rw e at o)) in
      let frame : Frame = record { id = id; idx = idx; subtree_done = false } in
      let (q', stack', low, rem, run, k'', e', below', high', placed) =
        range_loop-Started height fuel (child_of cs idx last) (frame ∷ stack) sub q k' child inner
          (omega arith) in
      (
        q',
        stack',
        left ++ low,
        rem ++ rest,
        loop_internal fuel id a r idx start stack p q d s _ cs lo step load last holds right i
              split.0
            ∙ run,
        k'',
        e
            ∙ ap (λ l. left ++ (l ++ rest)) e'
            ∙ ap (◌++◌ left) (append_assoc low rem rest)
            ∙ sym (append_assoc left low (rem ++ rest)),
        Below-append start left low below below',
        AtLeast-append start rem rest high' high,
        λ bound later wait b. rw (append_assoc rem rest later) (
            placed bound (rest ++ later)
              (rest, later, refl, (cs, last, (there, (lo, holds), right), behind), wait)
              (omega arith)),
      )

range-steps :
    (fuel : ℕ) (start end_key : ℤ) (stack : List Frame) (t t' : Tree)
    → range_loop fuel t.root_id start [] t ≡ done stack t'
    → range fuel start end_key t
      ≡ done (record { end_key = end_key; stack = stack; k = pos 0; v = none; err = none }) t'
unfolding range
range-steps fuel start end_key stack t t' e = rw (range, e) refl

-- `Range` on a B-tree of any height that is stored in a file whose calls succeed, with a clean cache,
-- and whose entries are in order, returns an iterator, and `Next` called on it for as long as it
-- answers true gives, with `Key` and `Value`, the entries of the tree, in inner nodes and in leaves,
-- whose keys lie from `start` to `end_key`, in order and each one once; fuel above the height for the
-- way down, above twice the height and one in each call of `Next`, and above the number of entries
-- for the calls is enough. The file stays, and the cache stays clean.
pub range-Stored :
    (d : Bytes) (size s root height depth fuel rounds : ℕ) (start end_key : ℤ) (p : Pager)
    (es : List Cell)
    → IsReader p d size
    → Stored (page_at d size) (Within size d) height root es
    → InOrder es
    → height < depth
    → height + height + 1 < fuel
    → length es < rounds
    → (q : Pager) × ((range depth start end_key >>= collect fuel rounds) (tree_on p d s root)
        ≡ done (between pair start end_key es) (tree_on q d s root))
      × IsReader q d size
range-Stored d size s root height depth fuel rounds start end_key p es k stored o h g n =
    let (q, stack, low, rem, run, k', e, below, high, placed) =
      range_loop-Started d size s root start height depth root [] es p k stored o h in
    let it : RangeIterator = record {
      end_key = end_key;
      stack = stack;
      k = pos 0;
      v = none;
      err = none;
    } in
    let here : Placed d size s root height stack rem =
      rw (append-nil rem) at (placed height [] refl (omega arith)) in
    let rest = InOrder-suffix low rem (rw e at o) in
    let (q', run', k'') =
      collect-Placed d size s root rem rounds height fuel q it k' here
        (omega (arith, ap (λ l. length l) e, length-append low rem)) g in
    (
      q',
      ap (λ o. and_then o (collect fuel rounds))
            (range-steps depth start end_key stack (tree_on p d s root) (tree_on q d s root) run)
          ∙ run'
          ∙ ap (λ l. done l (tree_on q' d s root))
              (sym (
                ap (between pair start end_key) e
                ∙ between-Below pair start end_key low rem below
                ∙ between-until pair start end_key rem high rest)),
      k'',
    )
