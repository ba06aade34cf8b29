-- ===== src/Pager/Durable.antt =====
-- `Open` of a new file, a client's operations, `Close`, and `Open` of the file again.
use db_index_performance_eva.Base.{
  ℕ, zero, suc, ◌*◌, ◌^◌, ◌≤◌, ◌<◌, ◌≡◌, refl, sym, ap, ◌∙◌, some, List, [], ◌∷◌, arith, length,
  length-replicate, set, get_elem?, replicate, take,
}
use db_index_performance_eva.Base.Go.{ok}
use db_index_performance_eva.Base.State.{done, ◌>>=◌, ◌>>◌, pure, wrap}
use db_index_performance_eva.Bytes.{Bytes, put_uint}
use db_index_performance_eva.Bytes.Words.{put_uint_lem}
use db_index_performance_eva.BtPage.{Page}
use db_index_performance_eva.Disk.{extend, touch, has_content, next_fault}
use db_index_performance_eva.Pager.{
  Pager, Code, on_file, initial, create, store_page_count, open_pager, close,
}
use db_index_performance_eva.Pager.Storage.{calm_file, calm_pager, write_page_to_disk-calm}
use db_index_performance_eva.Pager.Cached.{IsClean, page_at}
use db_index_performance_eva.Pager.Client.{Stores, Op, run, trace, final, AsksAll}
use db_index_performance_eva.Pager.Client.Sequence.{run-Stores, shortest}
use db_index_performance_eva.Pager.Reopen.{
  initial-IsClean, store_page_count-steps, close-open_pager,
}

-- The pager on a new file, with its header page.
abbrev fresh_pager : ℕ → ℕ → ℕ → Pager
fresh_pager size cap n = record (initial (calm_file [] 0) cap size) {
  page_count = 1;
  write_count = n;
}

extend_empty : (o : ℕ) (bs : Bytes) → o ≡ 0 → extend [] o bs ≡ bs
unfolding extend
extend_empty o bs e = rw e refl

take_whole : (bs : Bytes) → take (length bs) bs ≡ bs
take_whole [] = refl
take_whole (x ∷ bs) = ap (◌∷◌ x) (take_whole bs)

only_page :
    (size : ℕ) (hdr : Page)
    → length hdr ≡ size
    → (i : ℕ) (pg : Page) → get_elem? (hdr ∷ []) i ≡ some pg
    → page_at hdr size i ≡ pg
only_page size hdr long zero pg e =
    let same : hdr ≡ pg = cc in
    let start : 0 * size ≡ 0 = omega arith in rw (start, ← long) (take_whole hdr) ∙ same
only_page size hdr long (suc i) pg e = cc

fresh-IsClean : (size cap n : ℕ) (d : Bytes) → IsClean (fresh_pager size cap n) d []
fresh-IsClean size cap n d =
    let k = initial-IsClean size cap 1 d in
    record {
      lru = k.lru;
      some_bufs = k.some_bufs;
      held = k.held;
      inside = k.inside;
      unshared = k.unshared;
    }

create-steps :
    (size cap n t s : ℕ) (hdr : Page)
    → store_page_count
        (calm_pager (record (initial (calm_file [] 0) cap size) { page_count = 1 }) [] s)
      ≡ done tt (calm_pager (fresh_pager size cap n) hdr t)
    → open_pager (calm_pager (initial (calm_file [] 0) cap size) [] s)
      ≡ done tt (calm_pager (fresh_pager size cap n) hdr t)
unfolding open_pager create touch has_content next_fault
create-steps size cap n t s hdr e = rw (open_pager, on_file, wrap, create, e) refl

-- `Open` of an empty file whose calls succeed stores one page, the header, in it.
open_pager-new :
    (size cap s : ℕ) (hdr : Page)
    → 8 ≤ size
    → put_uint 8 (replicate size 0) 0 1 ≡ ok hdr
    → (n t : ℕ) × (open_pager (calm_pager (initial (calm_file [] 0) cap size) [] s)
        ≡ done tt (calm_pager (fresh_pager size cap n) hdr t))
      × Stores size (fresh_pager size cap n) hdr (hdr ∷ [])
open_pager-new size cap s hdr big put =
    let q = record (initial (calm_file [] 0) cap size) { page_count = 1 } in
    let blank = length-replicate {A = ℕ} 0 size in
    let (hdr', e, same, f) =
      put_uint_lem 8 (replicate size 0) 0 1 (omega (arith, blank)) (omega arith) in
    let it : hdr' ≡ hdr = cc in
    let long : length hdr ≡ size = ap (λ b. length b) (sym it) ∙ same.size ∙ blank in
    let (n, t, w) = write_page_to_disk-calm q [] s 0 hdr (omega arith) in
    let start : 0 * size ≡ 0 = omega arith in
    let store =
      store_page_count-steps q [] s (replicate size 0) hdr refl put
      ∙ w
      ∙ ap (λ d. done tt (calm_pager (fresh_pager size cap n) d t))
          (extend_empty (0 * size) hdr start) in
    (
      n,
      t,
      create-steps size cap n t s hdr store,
      record {
        l = [];
        clean = fresh-IsClean size cap n hdr;
        page_size = refl;
        count = refl;
        whole = omega (arith, long);
        view = only_page size hdr long;
      },
    )

-- A program that opens a file, works on its pages and closes it.
unfoldable pub session : List Op → Code (List Page)
session ops = do open_pager; pages ← run ops; close; pure pages

session-steps :
    (size cap : ℕ) (ops : List Op) (p q r : Pager) (d d' d'' : Bytes) (s t t' : ℕ)
    (pages : List Page)
    → open_pager (calm_pager (initial (calm_file [] 0) cap size) d s) ≡ done tt (calm_pager p d' t)
    → run ops (calm_pager p d' t) ≡ done pages (calm_pager q d'' t')
    → close (calm_pager q d'' t') ≡ done tt r
    → session ops (calm_pager (initial (calm_file [] 0) cap size) d s) ≡ done pages r
unfolding session
session-steps size cap ops p q r d d' d'' s t t' pages e f g = rw (session, e, f, g) refl

-- On an empty file whose calls succeed, with pages of at least 8 bytes, a program that opens the file,
-- reads, changes and allocates pages as the client does, and closes it, sees what it would see on a
-- plain list of pages that starts with the header page alone. A pager that is opened on the file
-- afterwards, with a cache of any capacity, stores the pages that the list has then, but for the
-- header; all that as long as the client asks for pages that there are, writes pages of full size,
-- and the file stays below 2 ^ 63 bytes.
pub session-open_pager :
    (size cap cap' s : ℕ) (hdr : Page) (ops : List Op)
    → 8 ≤ size
    → put_uint 8 (replicate size 0) 0 1 ≡ ok hdr
    → AsksAll size ops (hdr ∷ [])
    → length (final size ops (hdr ∷ [])) * size < 2 ^ 63
    → (q r : Pager) × (d : Bytes) × (t : ℕ) × (hdr' : Page) × (session ops
          (calm_pager (initial (calm_file [] 0) cap size) [] s)
        ≡ done (trace size ops (hdr ∷ [])) (calm_pager q d t))
      × (open_pager (calm_pager (initial (calm_file [] 0) cap' size) d t)
          ≡ done tt (calm_pager r d t))
      × Stores size r d (set (final size ops (hdr ∷ [])) 0 hdr')
session-open_pager size cap cap' s hdr ops big put asks small =
    let some_size : 0 < size = omega arith in
    let (n, t, e, k) = open_pager-new size cap s hdr big put in
    let (p, d, t', f, k') =
      run-Stores size some_size ops (fresh_pager size cap n) hdr t (hdr ∷ []) k asks small in
    let some_page : 0 < length (final size ops (hdr ∷ [])) =
      omega (arith, shortest size some_size ops (hdr ∷ [])) in
    let (q, r, d', t'', hdr', g, again, _, k'') =
      close-open_pager size cap' p d t' (final size ops (hdr ∷ [])) k' big some_page small in
    (
      q,
      r,
      d',
      t'',
      hdr',
      session-steps size cap ops (fresh_pager size cap n) p (calm_pager q d' t'') [] hdr d s t t' _
          e f g,
      again,
      k'',
    )
