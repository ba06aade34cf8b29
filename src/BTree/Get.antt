-- ===== src/BTree/Get.antt =====
-- `Get` on a B-tree that is stored on the disk, through the pager and its cache.
use db_index_performance_eva.Base.{
  ℕ, zero, suc, ◌+◌, ◌*◌, ◌^◌, ◌≤◌, ◌<◌, ◌≡◌, if◌then◌else◌, refl, sym, ap, ◌∙◌, Bool, true, false,
  none, some, List, arith, length, get_elem?, ℤ, Option-cases, inl, inr,
}
use db_index_performance_eva.Base.Go.{ok}
use db_index_performance_eva.Base.State.{Run, done, ◌>>=◌, pure}
use db_index_performance_eva.Bytes.{Bytes}
use db_index_performance_eva.BtPage.{Page, rightmost}
use db_index_performance_eva.Accessor.{Value, Cell}
use db_index_performance_eva.Accessor.BTree.{btree_acc}
use db_index_performance_eva.Accessor.BTree.RoundTrip.{btree_laws}
use db_index_performance_eva.Node.{child_at, found_value, find_idx}
use db_index_performance_eva.Node.Child.{child_of, child_at-Holds}
use db_index_performance_eva.Node.Layout.{Holds}
use db_index_performance_eva.Node.Search.{IsSorted, find_idx-SplitsAt}
use db_index_performance_eva.Disk.{Error}
use db_index_performance_eva.Lru.{Items}
use db_index_performance_eva.Pager
use db_index_performance_eva.Pager.{Pager, load_page}
use db_index_performance_eva.Pager.Storage.{load_page-ok, calm_pager}
use db_index_performance_eva.Pager.Cached.{IsClean, page_at}
use db_index_performance_eva.Pager.Read.{read-IsClean}
use db_index_performance_eva.Tree.{Tree, Code, on_pager, on_page, get_loop}
use db_index_performance_eva.Tree
use db_index_performance_eva.BTree.{get}
use db_index_performance_eva.BTree.Stored.{lookup_value, Stored, value_here, SplitsAt-Splits}
use db_index_performance_eva.BTree.Descend.{Spread-descend, value_here-leaf, found_value-Holds}

-- The page lies within the file.
abbrev pub Within : ℕ → Bytes → ℕ → Type 0
Within size d id = (id * size < 2 ^ 63) × (id * size + size ≤ length d)

-- The tree over a pager whose file has the bytes `d` and does not fail.
abbrev pub tree_on : Pager → Bytes → ℕ → ℕ → Tree
tree_on p d s r = record { pg = calm_pager p d s; root_id = r }

abbrev rest_of_round :
    ℕ → ℕ → ℕ → ℤ → Pager → Bytes → ℕ → Bool → ℕ → ℕ → Value → Run Error Tree Value
rest_of_round fuel a r key q d s leaf n idx (some v) = done (some v) (tree_on q d s r)
rest_of_round fuel a r key q d s leaf n idx none =
    (if leaf
        then pure none
        else on_page a (λ pg. child_at btree_acc pg idx n)
          >>= (λ child. get_loop btree_acc fuel child key))
      (tree_on q d s r)

-- One round of `get_loop` on a page that is read into the buffer `a`.
module _ (fuel curr a r : ℕ) (key : ℤ) (p q : Pager) (d : Bytes) (s : ℕ) (pg : Page)
    (step : Pager.read curr (calm_pager p d s) ≡ done a (calm_pager q d s))
    (there : get_elem? q.bufs a ≡ some pg) where
  -- A round reads the cells' number, the type, the index and the value there.
  round :
      (leaf : Bool) (cs : List Cell) (lo idx : ℕ) (v : Value)
      → Holds btree_acc btree_laws pg leaf cs lo
      → find_idx btree_acc pg key (length cs) leaf ≡ ok idx
      → found_value btree_acc pg idx (length cs) key leaf ≡ ok v
      → get_loop btree_acc (suc fuel) curr key (tree_on p d s r)
        ≡ rest_of_round fuel a r key q d s leaf (length cs) idx v
  unfolding get_loop
  round leaf cs lo idx none h i e =
      let load = load_page-ok a (calm_pager q d s) pg there in
      rw
        (
          get_loop, on_pager, step, on_page, on_pager, load, h.count, on_page, on_pager, load,
          h.kind, on_page, on_pager, load, i, on_page, on_pager, load, e,
        )
        refl
  round leaf cs lo idx (some v) h i e =
      let load = load_page-ok a (calm_pager q d s) pg there in
      rw
        (
          get_loop, on_pager, step, on_page, on_pager, load, h.count, on_page, on_pager, load,
          h.kind, on_page, on_pager, load, i, on_page, on_pager, load, e,
        )
        refl

  at_leaf :
      (es : List Cell) (lo : ℕ)
      → Holds btree_acc btree_laws pg true es lo
      → IsSorted es
      → get_loop btree_acc (suc fuel) curr key (tree_on p d s r)
        ≡ done (lookup_value key es) (tree_on q d s r)
  at_leaf es lo h sorted =
      let (idx, i, split) = find_idx-SplitsAt btree_acc btree_laws pg true es lo key h sorted in
      let found = value_here-leaf key es idx sorted (SplitsAt-Splits key true es idx split) in
      elim (Option-cases (value_here key es idx)) [
        | inl missing ↦
            round true es lo idx none h i
              (found_value-Holds pg true es lo h key idx ∙ ap ok missing)
            ∙ ap (λ v. done v (tree_on q d s r)) (sym missing ∙ sym found)
        | inr (v, here) ↦
            round true es lo idx (some v) h i
              (found_value-Holds pg true es lo h key idx ∙ ap ok here)
            ∙ ap (λ v. done v (tree_on q d s r)) (sym here ∙ sym found)
      ]

  -- Below an internal node without a value at the index, `get_loop` goes on at the child.
  at_internal :
      (cs : List Cell) (lo last idx : ℕ)
      → Holds btree_acc btree_laws pg false cs lo
      → rightmost pg ≡ ok last
      → find_idx btree_acc pg key (length cs) false ≡ ok idx
      → idx ≤ length cs
      → value_here key cs idx ≡ none
      → get_loop btree_acc (suc fuel) curr key (tree_on p d s r)
        ≡ get_loop btree_acc fuel (child_of cs idx last) key (tree_on q d s r)
  at_internal cs lo last idx h e i within missing =
      let load = load_page-ok a (calm_pager q d s) pg there in
      let child = child_at-Holds btree_acc btree_laws pg false cs lo h idx last refl within e in
      round false cs lo idx none h i (found_value-Holds pg false cs lo h key idx ∙ ap ok missing)
      ∙ rw (on_page, on_pager, load, child) refl

Stored-size :
    {m n : ℕ} (d : Bytes) (height id : ℕ) (es : List Cell)
    → m ≡ n
    → Stored (page_at d m) (Within m d) height id es
    → Stored (page_at d n) (Within n d) height id es
Stored-size d height id es e stored = rw e at stored

-- The rest of the search, by the height of the tree.
Found : ℕ → ℕ → ℕ → ℤ → Pager → Bytes → ℕ → List Cell → Type 0
Found fuel id r key p d s es =
    (q : Pager) × (l : Items) × (get_loop btree_acc fuel id key (tree_on p d s r)
      ≡ done (lookup_value key es) (tree_on q d s r))
    × IsClean q d l
    × (q.page_size ≡ p.page_size)

get_loop-Stored :
    (height fuel id r : ℕ) (key : ℤ) (p : Pager) (d : Bytes) (s : ℕ) (l : Items) (es : List Cell)
    → IsClean p d l
    → Stored (page_at d p.page_size) (Within p.page_size d) height id es
    → height < fuel
    → Found fuel id r key p d s es
unfolding Found
get_loop-Stored height zero id r key p d s l es k stored h = absurd (omega arith)
get_loop-Stored zero (suc fuel) id r key p d s l es k stored h =
    let ((small, inside), sorted, (lo, holds)) = stored in
    let (a, q, l', step, ret) = read-IsClean p d s l id k small inside in
    (
      q,
      l',
      at_leaf fuel id a r key p q d s _ step ret.page es lo holds sorted,
      ret.clean,
      ret.page_size,
    )
get_loop-Stored (suc height) (suc fuel) id r key p d s l es k stored h =
    let ((small, inside), (cs, lo, last, holds, sorted, end, spread)) = stored in
    let (a, q, l', step, ret) = read-IsClean p d s l id k small inside in
    let page = page_at d p.page_size id in
    let (idx, i, split) =
      find_idx-SplitsAt btree_acc btree_laws page false cs lo key holds sorted in
    let (sub, below, value) =
      Spread-descend key _ cs last es idx spread (SplitsAt-Splits key false cs idx split) in
    elim (Option-cases (value_here key cs idx)) [
      | inr (v, here) ↦ (
        q,
        l',
        round fuel id a r key p q d s _ step ret.page false cs lo idx (some v) holds i
              (found_value-Holds page false cs lo holds key idx ∙ ap ok here)
            ∙ rw (value, here) refl,
        ret.clean,
        ret.page_size,
      )
      | inl missing ↦
          let there = Stored-size d height _ sub (sym ret.page_size) below in
          let (q', l'', e, clean, size) =
            get_loop-Stored height fuel (child_of cs idx last) r key q d s l' sub ret.clean there
              (omega arith) in
          (
            q',
            l'',
            at_internal fuel id a r key p q d s _ step ret.page cs lo last idx holds end i split.0
                  missing
                ∙ e
                ∙ rw (value, missing) refl,
            clean,
            size ∙ ret.page_size,
          )
    ]

-- `Get` on a B-tree that is stored in a file whose calls succeed, and whose pages the cache holds as
-- they stand on the disk, returns the value that the tree's entries have under the key, or nil if
-- they have none; fuel above the tree's height is enough. The file stays, and so does what the
-- cache is known to hold.
pub get-Stored :
    (height fuel r : ℕ) (key : ℤ) (p : Pager) (d : Bytes) (s : ℕ) (l : Items) (es : List Cell)
    → IsClean p d l
    → Stored (page_at d p.page_size) (Within p.page_size d) height r es
    → height < fuel
    → (q : Pager) × (l' : Items) × (get fuel key (tree_on p d s r)
        ≡ done (lookup_value key es) (tree_on q d s r))
      × IsClean q d l'
      × (q.page_size ≡ p.page_size)
unfolding get Tree.get Found
get-Stored height fuel r key p d s l es k stored h =
    get_loop-Stored height fuel r r key p d s l es k stored h
