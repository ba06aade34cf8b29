-- ===== src/Tree/LeafInsert.antt =====
-- `insertRec` of a new key on a tree that is one leaf with room, for any accessor, through the pager to
-- the disk.
use db_index_performance_eva.Base.{
  ℕ, zero, suc, ◌+◌, ◌-◌, ◌*◌, ◌^◌, ◌≤◌, ◌<◌, ◌≡◌, refl, sym, ap, ◌∙◌, true, false, none, some,
  List, [], ◌∷◌, arith, length, get_elem?, get_elem?-lt, get_elem?-some, insert_at, if◌then◌else◌,
  lt→ltb, le→ltb, ℤ, pos, sub_ℕ, eqb_ℤ, leb_ℤ,
}
use native.Mathlib.Decide.{dec_lt}
use db_index_performance_eva.Base.Go.{ok}
use db_index_performance_eva.Base.State.{done}
use db_index_performance_eva.Bytes.{Bytes}
use db_index_performance_eva.BtPage.{Page, free_space, next_leaf}
use db_index_performance_eva.Accessor.{Value, Cell, Accessor}
use db_index_performance_eva.Accessor.Laws.{Fits, AccessorLaws}
use db_index_performance_eva.Node.{find_idx, insert_cell}
use db_index_performance_eva.Node.Layout.{Holds, read_cell-CellAt}
use db_index_performance_eva.Node.Search.{IsSorted, find_idx-SplitsAt}
use db_index_performance_eva.Node.Insert.{leaf_cell, length-insert_cell, insert_cell-Holds}
use db_index_performance_eva.Node.LeafInsert.{insert_cell-found}
use db_index_performance_eva.Lru.{Items, LruCache}
use db_index_performance_eva.Pager
use db_index_performance_eva.Pager.{Pager, load_page, store_page}
use db_index_performance_eva.Pager.Storage.{load_page-ok, calm_pager}
use db_index_performance_eva.Pager.Cached.{IsClean, page_at, length-page_at}
use db_index_performance_eva.Pager.Read.{read-IsClean}
use db_index_performance_eva.Pager.Write.{changed, write-IsClean, page_at_written}
use db_index_performance_eva.Disk.{extend}
use db_index_performance_eva.Disk.Extend.{length-extend}
use db_index_performance_eva.Tree.{
  on_pager, on_page, change_page, do_insert, replace_existing, insert_rec,
}
use db_index_performance_eva.BTree.Stored.{lookup_value}
use db_index_performance_eva.BTree.Get.{Within, tree_on}

-- No entry has the key.
abbrev pub Missing : ℤ → List Cell → Type 0
Missing key es = (i : ℕ) (c : Cell) → get_elem? es i ≡ some c → eqb_ℤ c.key key ≡ false

-- `free_space` counts the pointers that are there.
free_space-Holds :
    (acc : Accessor) (laws : AccessorLaws acc) (pg : Page) (es : List Cell) (lo : ℕ)
    → Holds acc laws pg true es lo
    → free_space pg (length es) ≡ ok (sub_ℕ lo (13 + length es * 2))
unfolding free_space
free_space-Holds acc laws pg es lo h = rw (h.top) refl

has_room :
    (size lo n : ℕ) → 13 + (n + 1) * 2 + size ≤ lo → leb_ℤ (pos size) (sub_ℕ lo (13 + n * 2)) ≡ true
has_room size lo n h = ground arith

module _ (acc : Accessor) (laws : AccessorLaws acc) (a : ℕ) (q : Pager) (d : Bytes) (s r : ℕ)
    (pg : Page) (es : List Cell) (lo : ℕ) (there : get_elem? q.bufs a ≡ some pg)
    (h : Holds acc laws pg true es lo) where
  replace_existing-Missing :
      (id idx : ℕ) (key : ℤ) (value : Value)
      → Missing key es
      → replace_existing acc id a (length es) idx key value true (tree_on q d s r)
        ≡ done (some (length es)) (tree_on q d s r)
  unfolding replace_existing
  replace_existing-Missing id idx key value missing = elim (dec_lt idx (length es)) [
    | no outside ↦ rw (replace_existing, le→ltb idx (length es) (omega arith)) refl
    | yes inside ↦
        let (c, e) = get_elem?-some es idx inside in
        let load = load_page-ok a (calm_pager q d s) pg there in
        rw
          (
            replace_existing,
            lt→ltb idx (length es) inside,
            on_page,
            on_pager,
            load,
            read_cell-CellAt acc laws (h.cells idx c e),
            missing idx c e,
          )
          refl
  ]

  do_insert-leaf :
      (id idx n t : ℕ) (key : ℤ) (value : Value) (pg' : Page) (c : LruCache) (d' : Bytes)
      → insert_cell acc pg (length es) idx key value 0 true ≡ ok pg'
      → 13 + (length es + 1) * 2 + acc.cell_size true value ≤ lo
      → Pager.write id a (calm_pager (changed q a pg') d s)
        ≡ done tt (calm_pager (record (changed q a pg') { cache = c; write_count = n }) d' t)
      → do_insert acc id a (length es) idx key value 0 (tree_on q d s r)
        ≡ done none (tree_on (record (changed q a pg') { cache = c; write_count = n }) d' t r)
  unfolding do_insert store_page
  do_insert-leaf id idx n t key value pg' c d' f room written =
      let load = load_page-ok a (calm_pager q d s) pg there in
      rw
        (
          do_insert,
          on_page,
          on_pager,
          load,
          h.kind,
          on_page,
          on_pager,
          load,
          free_space-Holds acc laws pg es lo h,
          has_room (acc.cell_size true value) lo (length es) room,
          change_page,
          on_page,
          on_pager,
          load,
          f,
          on_pager,
          on_pager,
          written,
        )
        refl

  insert_rec-leaf :
      (p : Pager) (fuel idx n t : ℕ) (key : ℤ) (value : Value) (pg' : Page) (c : LruCache)
      (d' : Bytes)
      → Pager.read r (calm_pager p d s) ≡ done a (calm_pager q d s)
      → find_idx acc pg key (length es) true ≡ ok idx
      → Missing key es
      → insert_cell acc pg (length es) idx key value 0 true ≡ ok pg'
      → 13 + (length es + 1) * 2 + acc.cell_size true value ≤ lo
      → Pager.write r a (calm_pager (changed q a pg') d s)
        ≡ done tt (calm_pager (record (changed q a pg') { cache = c; write_count = n }) d' t)
      → insert_rec acc (suc fuel) r key value (tree_on p d s r)
        ≡ done none (tree_on (record (changed q a pg') { cache = c; write_count = n }) d' t r)
  unfolding insert_rec
  insert_rec-leaf p fuel idx n t key value pg' c d' step i missing f room written =
      let load = load_page-ok a (calm_pager q d s) pg there in
      rw
        (
          insert_rec,
          on_pager,
          step,
          on_page,
          on_pager,
          load,
          h.count,
          on_page,
          on_pager,
          load,
          h.kind,
          on_page,
          on_pager,
          load,
          i,
          replace_existing-Missing r idx key value missing,
          do_insert-leaf r idx n t key value pg' c d' f room written,
        )
        refl

-- What is found among the entries once a missing key is put between them.
pub lookup_value-insert_at :
    (k : ℤ) (idx : ℕ) (x : Cell) (es : List Cell)
    → Missing x.key es
    → idx ≤ length es
    → lookup_value k (insert_at idx x es) ≡ (if eqb_ℤ x.key k then x.value else lookup_value k es)
lookup_value-insert_at k zero x es missing h = refl
lookup_value-insert_at k (suc idx) x [] missing h = absurd (omega arith)
lookup_value-insert_at k (suc idx) x (e ∷ es) missing h = ground (
  arith,
  missing 0 e refl,
  lookup_value-insert_at k idx x es (λ i c g. missing (suc i) c g) (omega arith),
)

-- A leaf that is stored under the id `r`, and the same one later, with the cell `x` among its cells.
pub record Grown (acc : Accessor) (laws : AccessorLaws acc) (p q : Pager) (d d' : Bytes) (r : ℕ)
    (es : List Cell) (x : Cell) : Type 0 where
  pub items : Items
  pub clean : IsClean q d' items
  pub page_size : q.page_size ≡ p.page_size
  pub idx : ℕ
  pub lo : ℕ
  pub upto : idx ≤ length es
  pub within : Within q.page_size d' r
  pub sorted : IsSorted (insert_at idx x es)
  pub holds : Holds acc laws (page_at d' q.page_size r) true (insert_at idx x es) lo
  pub next : next_leaf (page_at d' q.page_size r) ≡ next_leaf (page_at d p.page_size r)

within_written :
    (size r : ℕ) (d : Bytes) (pg : Page)
    → length pg ≡ size
    → 0 < size
    → r * size < 2 ^ 63
    → Within size (extend d (r * size) pg) r
within_written size r d pg full big small =
    let long : r * size + length pg ≤ length (extend d (r * size) pg) =
      (length-extend d (r * size) pg (omega (arith, full))).0 in
    (small, omega (arith, long, full))

-- On a leaf that is the root, with room, `insertRec` of a key that it does not have puts it there.
pub insert_rec-Grown :
    (acc : Accessor) (laws : AccessorLaws acc) (fuel r : ℕ) (key : ℤ) (value : Value) (p : Pager)
    (d : Bytes) (s : ℕ) (l : Items) (es : List Cell) (lo : ℕ)
    → IsClean p d l
    → 0 < p.page_size
    → Within p.page_size d r
    → IsSorted es
    → Holds acc laws (page_at d p.page_size r) true es lo
    → 13 + (length es + 1) * 2 + acc.cell_size true value ≤ lo
    → Missing key es
    → Fits (leaf_cell key value)
    → (q : Pager) × (d' : Bytes) × (t : ℕ) × (insert_rec acc
          (suc fuel)
          r
          key
          value
          (tree_on p d s r)
        ≡ done none (tree_on q d' t r))
      × Grown acc laws p q d d' r es (laws.stored true (leaf_cell key value))
insert_rec-Grown acc laws fuel r key value p d s l es lo k big (small, inside) sorted holds room
      missing fits =
    let page = page_at d p.page_size r in
    let (a, q, l1, step, ret) = read-IsClean p d s l r k small inside in
    let (idx, pg', i, f, holds', sorted', _, _) =
      insert_cell-found acc laws page es lo key value holds sorted fits room in
    let (idx2, i2, (upto, _, _)) = find_idx-SplitsAt acc laws page true es lo key holds sorted in
    let same : idx2 ≡ idx = cc in
    let le : idx ≤ length es = rw same at upto in
    let long = length-insert_cell acc laws page pg' es lo idx key value holds fits le room f in
    let (pg2, f2, _, _, next) =
      insert_cell-Holds acc laws page es lo idx key value holds fits le room in
    let same_page : pg2 ≡ pg' = cc in
    let size : length pg' ≡ q.page_size =
      long ∙ length-page_at d p.page_size r inside ∙ sym ret.page_size in
    let big' : 0 < q.page_size = omega (arith, ret.page_size) in
    let small' : r * q.page_size < 2 ^ 63 = rw ret.page_size small in
    let held = get_elem?-lt q.bufs a page ret.page in
    let (n, t, c, l2, w, clean) =
      write-IsClean q d l1 r a pg' ret.clean ret.owner ret.full held size big' s small' in
    let written = page_at_written d q.page_size r pg' size big' in
    (
      record (changed q a pg') { cache = c; write_count = n },
      extend d (r * q.page_size) pg',
      t,
      insert_rec-leaf acc laws a q d s r page es lo ret.page holds p fuel idx n t key value pg' c
          (extend d (r * q.page_size) pg') step i missing f room w,
      record {
        items = l2;
        clean = clean;
        page_size = ret.page_size;
        idx = idx;
        lo = lo - acc.cell_size true value;
        upto = le;
        within = within_written q.page_size r d pg' size big' small';
        sorted = sorted';
        holds = rw written holds';
        next = ap next_leaf (written ∙ sym same_page) ∙ next;
      },
    )
