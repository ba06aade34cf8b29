-- ===== src/Pager/Reopen.antt =====
-- `Close` of the pager and `Open` of the file that it leaves.
use db_index_performance_eva.Base.{
  ℕ, ◌*◌, ◌^◌, ◌≤◌, ◌<◌, ◌≡◌, refl, sym, ap, ◌∙◌, List, [], arith, length, length-set,
  length-replicate, set, replicate, inl, inr, Bool-cases, ltb, lt→ltb, if◌then◌else◌,
}
use native.Mathlib.Nat.{mul-le-mul_left}
use db_index_performance_eva.Base.Go.{ok}
use db_index_performance_eva.Base.State.{done, pure, wrap, or_zero}
use db_index_performance_eva.Bytes.{Bytes, get_uint, put_uint, copy_at}
use db_index_performance_eva.Bytes.Frame.{copy_from-ok, length-copy_at}
use db_index_performance_eva.Bytes.Words.{put_uint_lem}
use db_index_performance_eva.BtPage.{Page}
use db_index_performance_eva.Disk.{extend, touch, has_content, next_fault}
use db_index_performance_eva.Disk.Extend.{length-extend_inside}
use db_index_performance_eva.Lru.{lookup}
use db_index_performance_eva.Lru.Refine.{new_lru_cache-IsLru}
use db_index_performance_eva.Pager.{
  Pager, on_file, initial, existing_header, store_page_count, write_page_to_disk, load_page_count,
  open_pager, close,
}
use db_index_performance_eva.Pager.Storage.{
  calm_file, calm_pager, read_page_from_disk-calm, write_page_to_disk-calm,
}
use db_index_performance_eva.Pager.Cached.{IsClean, page_at}
use db_index_performance_eva.Pager.Write.{page_at_written}
use db_index_performance_eva.Pager.Client.{Stores}
use db_index_performance_eva.Pager.Client.Steps.{page_inside, written-view}

pub store_page_count-steps :
    (p : Pager) (d : Bytes) (s : ℕ) (start hdr : Page)
    → (if ltb 1 p.page_count
          then existing_header (replicate p.page_size 0)
          else pure (replicate p.page_size 0))
        (calm_pager p d s)
      ≡ done start (calm_pager p d s)
    → put_uint 8 start 0 p.page_count ≡ ok hdr
    → store_page_count (calm_pager p d s) ≡ write_page_to_disk 0 hdr (calm_pager p d s)
unfolding store_page_count
store_page_count-steps p d s start hdr e put = rw (store_page_count, e, put) refl

module _ (size : ℕ) (big : 8 ≤ size) (p : Pager) (d : Bytes) (s : ℕ) (ps : List Page)
    (k : Stores size p d ps) (some_page : 0 < length ps) (small : length ps * size < 2 ^ 63) where
  few : length ps < 2 ^ 64
  few = let room = mul-le-mul_left (length ps) big in omega (arith, room, small)

  -- The header that is written back, before the number of pages is put into it.
  abbrev StartHeader : Type 0
  StartHeader =
      (hdr : Page) × ((if ltb 1 p.page_count
            then existing_header (replicate p.page_size 0)
            else pure (replicate p.page_size 0))
          (calm_pager p d s)
        ≡ done hdr (calm_pager p d s))
      × (length hdr ≡ size)

  start_header : StartHeader
  unfolding existing_header
  start_header =
      let blank : Page = replicate p.page_size 0 in
      let long : length blank ≡ size = length-replicate {A = ℕ} 0 p.page_size ∙ k.page_size in
      elim (Bool-cases (ltb 1 p.page_count)) [
        | inr one ↦ (blank, rw one refl, long)
        | inl more ↦
            let inside = page_inside size 0 (length ps) some_page in
            let old = page_at d p.page_size 0 in
            let e =
              read_page_from_disk-calm p d s 0 (omega arith)
                (rw k.page_size (omega (arith, inside, k.whole))) in
            (
              copy_at blank 0 old,
              rw (more, existing_header, e, copy_from-ok blank 0 old (omega arith)) refl,
              length-copy_at blank 0 old ∙ long,
            )
      ]

  -- What `writePageCount` leaves.
  abbrev Counted : Type 0
  Counted =
      (hdr : Page) × (n t : ℕ) × (store_page_count (calm_pager p d s)
        ≡ done tt (calm_pager (record p { write_count = n }) (extend d (0 * size) hdr) t))
      × (length hdr ≡ size)
      × (get_uint 8 hdr 0 ≡ ok (length ps))

  counted : Counted
  counted =
      let (start, e, long) = start_header in
      let (hdr, put, same, f) =
        put_uint_lem 8 start 0 p.page_count (omega (arith, long)) (rw k.count few) in
      let (n, t, w) = write_page_to_disk-calm p d s 0 hdr (omega arith) in
      (
        hdr,
        n,
        t,
        store_page_count-steps p d s start hdr e put
            ∙ w
            ∙ ap (λ m. done tt (calm_pager (record p { write_count = n }) (extend d (0 * m) hdr) t))
                k.page_size,
        same.size ∙ long,
        f ∙ ap ok k.count,
      )

-- `Open` of a file that starts with a header page.
open_pager-steps :
    (size cap n : ℕ) (d : Bytes) (s : ℕ)
    → 0 < size
    → size ≤ length d
    → get_uint 8 (page_at d size 0) 0 ≡ ok n
    → open_pager (calm_pager (initial (calm_file [] 0) cap size) d s)
      ≡ done tt (calm_pager (record (initial (calm_file [] 0) cap size) { page_count = n }) d s)
unfolding open_pager load_page_count touch has_content next_fault
open_pager-steps size cap n d s big inside e =
    let q = initial (calm_file [] 0) cap size in
    let load = read_page_from_disk-calm q d s 0 (omega arith) (omega (arith, inside)) in
    rw (open_pager, on_file, wrap, lt→ltb 0 (length d) (omega arith), load_page_count, load, e) refl

close-steps :
    (p q : Pager) (d d' : Bytes) (s t : ℕ)
    → store_page_count (calm_pager p d s) ≡ done tt (calm_pager q d' t)
    → close (calm_pager p d s) ≡ done tt (calm_pager q d' t)
unfolding close touch next_fault
close-steps p q d d' s t e = rw (close, or_zero, e) refl

pub initial-IsClean :
    (size cap n : ℕ) (d : Bytes)
    → IsClean (record (initial (calm_file [] 0) cap size) { page_count = n }) d []
unfolding lookup
initial-IsClean size cap n d = record {
  lru = new_lru_cache-IsLru cap;
  some_bufs = omega arith;
  held = λ id a e. cc;
  inside = λ id a e. cc;
  unshared = λ i j a e f. cc;
}

-- On a file whose calls succeed and that holds exactly the allocated pages, at least the header, of
-- at least 8 bytes each and less than 2 ^ 63 together, with a clean cache, `Close` succeeds; a pager
-- that is opened on the file that it leaves, with a cache of any capacity, has the same number of
-- pages, and stores the same ones, but for the header page, which starts with that number.
pub close-open_pager :
    (size cap : ℕ) (p : Pager) (d : Bytes) (s : ℕ) (ps : List Page)
    → Stores size p d ps
    → 8 ≤ size
    → 0 < length ps
    → length ps * size < 2 ^ 63
    → (q r : Pager) × (d' : Bytes) × (t : ℕ) × (hdr : Page) × (close (calm_pager p d s)
        ≡ done tt (calm_pager q d' t))
      × (open_pager (calm_pager (initial (calm_file [] 0) cap size) d' t)
          ≡ done tt (calm_pager r d' t))
      × (get_uint 8 hdr 0 ≡ ok (length ps))
      × Stores size r d' (set ps 0 hdr)
close-open_pager size cap p d s ps k big some_page small =
    let (hdr, n, t, e, long, f) = counted size big p d s ps k some_page small in
    let d' = extend d (0 * size) hdr in
    let inside = page_inside size 0 (length ps) some_page in
    let same : length d' ≡ length d =
      length-extend_inside d (0 * size) hdr (omega (arith, inside, k.whole, long)) in
    let some_size : 0 < size = omega arith in
    let here : page_at d' size 0 ≡ hdr = page_at_written d size 0 hdr long some_size in
    (
      record p { write_count = n },
      record (initial (calm_file [] 0) cap size) { page_count = length ps },
      d',
      t,
      hdr,
      close-steps p (record p { write_count = n }) d d' s t e,
      open_pager-steps size cap (length ps) d' t some_size (omega (arith, same, inside, k.whole))
          (rw here f),
      f,
      record {
        l = [];
        clean = initial-IsClean size cap (length ps) d';
        page_size = refl;
        count = sym (length-set ps 0 hdr);
        whole = same ∙ k.whole ∙ ap (λ m. m * size) (sym (length-set ps 0 hdr));
        view = written-view size some_size p d s ps k small 0 hdr some_page long;
      },
    )
