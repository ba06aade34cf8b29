-- ===== src/Pager/Write.antt =====
-- `Write` of a buffer that was changed in place, and `Allocate`.
use db_index_performance_eva.Base.{
  ℕ, ◌+◌, ◌*◌, ◌%◌, ◌^◌, ◌≤◌, ◌<◌, ◌≡◌, ◌≢◌, refl, sym, ap, ◌∙◌, some, [], ◌∷◌, ◌++◌, arith, length,
  length-append, take, drop, set, length-set, get_elem?-set_self, get_elem?-set_ne, replicate,
  length-replicate, inl, inr,
}
use native.Mathlib.Nat.{add-mul, mul-le-mul_left}
use db_index_performance_eva.Base.State.{done}
use db_index_performance_eva.Bytes.{Bytes}
use db_index_performance_eva.Bytes.Frame.{Apart}
use db_index_performance_eva.BtPage.{Page}
use db_index_performance_eva.Disk.{extend}
use db_index_performance_eva.Disk.Extend.{extend_self, length-extend, extend_same}
use db_index_performance_eva.Lru.{Items, LruCache, lookup}
use db_index_performance_eva.Lru.Refine.{IsLru, added}
use db_index_performance_eva.Lru.Put.{put-added}
use db_index_performance_eva.Pager.{Pager, write, allocate}
use db_index_performance_eva.Pager.Storage.{
  load_page-ok, calm_pager, write_page_to_disk-calm, pages-Apart,
}
use db_index_performance_eva.Pager.Cached.{
  IsClean, page_at, IsLru-DistinctKeys, lookup-added, cache_put-ok,
}

-- The disk after a page of full size is written.
module _ (d : Bytes) (size id : ℕ) (pg : Page) (full : length pg ≡ size) (big : 0 < size) where
  pub page_at_written : page_at (extend d (id * size) pg) size id ≡ pg
  page_at_written =
      ap (λ n. take n (drop (id * size) (extend d (id * size) pg))) (sym full)
      ∙ extend_self d (id * size) pg

  pub page_at_other :
      (j : ℕ)
      → j ≢ id
      → j * size + size ≤ length d
      → page_at (extend d (id * size) pg) size j ≡ page_at d size j
  page_at_other j ne inside =
      let apart : Apart (j * size) size (id * size) (length pg) =
        rw full (pages-Apart size j id ne) in
      extend_same d (id * size) pg (j * size) size inside apart

-- The pager with a buffer changed in place, and after the write of its page.
abbrev pub changed : Pager → ℕ → Page → Pager
changed p a pg = record p { bufs = set p.bufs a pg }

module _ (p : Pager) (d : Bytes) (l : Items) (id a : ℕ) (pg : Page) (k : IsClean p d l)
    (owner : (j : ℕ) → lookup j l ≡ some a → j ≡ id) (nonnil : a ≢ 0) (there : a < length p.bufs)
    (full : length pg ≡ p.page_size) (big : 0 < p.page_size) where
  written-IsClean :
      (n : ℕ) (c : LruCache)
      → IsLru c (added p.cache.cap id a l)
      → IsClean
          (record (changed p a pg) { cache = c; write_count = n })
          (extend d (id * p.page_size) pg)
          (added p.cache.cap id a l)
  written-IsClean n c r =
      let keys = IsLru-DistinctKeys k.lru in
      let (long, grown) = length-extend d (id * p.page_size) pg (omega arith) in
      record {
        lru = r;
        some_bufs = omega (arith, k.some_bufs, length-set p.bufs a pg);
        held = λ j b e. elim (lookup-added p.cache.cap id a l j b keys e) [
          | inl (same, here) ↦
              rw (← same, ← here)
                (
                  nonnil,
                  get_elem?-set_self p.bufs a pg there
                      ∙ ap some (sym (page_at_written d p.page_size id pg full big)),
                )
          | inr (other, f) ↦
              let (some_page, old) = k.held j b f in
              let ne : a ≢ b = λ eq. other (sym (owner j (rw eq f))) in
              (
                some_page,
                get_elem?-set_ne p.bufs a b pg ne
                    ∙ old
                    ∙ ap some (
                        sym (
                          page_at_other d p.page_size id pg full big j (λ eq. other (sym eq))
                            (k.inside j b f))),
              )
        ];
        inside = λ j b e. elim (lookup-added p.cache.cap id a l j b keys e) [
          | inl (same, here) ↦ rw (← same) (omega (arith, long))
          | inr (other, f) ↦ omega (arith, grown, k.inside j b f)
        ];
        unshared = λ i j b e f.
            let second = lookup-added p.cache.cap id a l j b keys f in
            elim (lookup-added p.cache.cap id a l i b keys e) [
              | inl (same, here) ↦ elim second [
                | inl (same', _) ↦ sym same ∙ same'
                | inr (_, g) ↦ sym same ∙ sym (owner j (rw here g))
              ]
              | inr (other, g) ↦ elim second [
                | inl (same', here) ↦ owner i (rw here g) ∙ same'
                | inr (_, g') ↦ k.unshared i j b g g'
              ]
            ];
      }

  -- On a file whose calls succeed, and with a clean cache, a buffer that holds a page of full size, and
  -- no cached page of another id, is written to the disk under its id, which has an offset below 2 ^ 63;
  -- the file then has the page there, and the cache is clean.
  pub write-IsClean :
      (s : ℕ)
      → id * p.page_size < 2 ^ 63
      → (n t : ℕ) × (c : LruCache) × (l' : Items) × (write id a (calm_pager (changed p a pg) d s)
          ≡ done tt (
              calm_pager
                (record (changed p a pg) { cache = c; write_count = n })
                (extend d (id * p.page_size) pg)
                t))
        × IsClean
            (record (changed p a pg) { cache = c; write_count = n })
            (extend d (id * p.page_size) pg)
            l'
  unfolding write
  write-IsClean s h =
      let (c, e, r, cap) = put-added p.cache l id a k.lru in
      let q = record (changed p a pg) { cache = c } in
      let (n, t, e') = write_page_to_disk-calm q d s id pg h in
      (
        n,
        t,
        c,
        added p.cache.cap id a l,
        rw
            (
              cache_put-ok id a (calm_pager (changed p a pg) d s) c e,
              load_page-ok a (calm_pager q d s) pg (get_elem?-set_self p.bufs a pg there),
            )
            e',
        written-IsClean n c r,
      )

pub extend_end : (d bs : Bytes) → extend d (length d) bs ≡ d ++ bs
unfolding extend
extend_end [] bs = refl
extend_end (x ∷ d) bs = ap (◌∷◌ x) (extend_end d bs)

-- On a file whose calls succeed and that holds exactly the allocated pages, below 2 ^ 63 bytes and of a
-- size above 0, with a clean cache, `Allocate` returns the number of the allocated pages as the new
-- page's number and counts one more; the file then holds that page too, blank, behind the old ones, and
-- the cache stays clean.
pub allocate-IsClean :
    (p : Pager) (d : Bytes) (s : ℕ) (l : Items)
    → IsClean p d l
    → length d ≡ p.page_count * p.page_size
    → 0 < p.page_size
    → p.page_count * p.page_size < 2 ^ 63
    → (n t : ℕ) × (allocate (calm_pager p d s)
        ≡ done p.page_count (
            calm_pager
              (record p { page_count = p.page_count + 1; write_count = n })
              (d ++ replicate p.page_size 0)
              t))
      × IsClean
          (record p { page_count = p.page_count + 1; write_count = n })
          (d ++ replicate p.page_size 0)
          l
      × (length (d ++ replicate p.page_size 0) ≡ (p.page_count + 1) * p.page_size)
      × (page_at (d ++ replicate p.page_size 0) p.page_size p.page_count ≡ replicate p.page_size 0)
unfolding allocate
allocate-IsClean p d s l k size big h =
    let blank : Page = replicate p.page_size 0 in
    let full = length-replicate {A = ℕ} 0 p.page_size in
    let q = record p { page_count = p.page_count + 1 } in
    let (n, t, e) = write_page_to_disk-calm q d s p.page_count blank h in
    let whole : extend d (p.page_count * p.page_size) blank ≡ d ++ blank =
      rw (← size) (extend_end d blank) in
    let few : (p.page_count + 1) % 2 ^ 64 ≡ p.page_count + 1 =
      omega (arith, mul-le-mul_left p.page_count big) in
    let e' = rw whole at e in
    let grown = length-append d blank in
    (
      n,
      t,
      rw (few, e'),
      record {
        lru = k.lru;
        some_bufs = k.some_bufs;
        held = λ j b f.
            let other : j ≢ p.page_count =
              λ eq. absurd (omega (arith, rw eq at (k.inside j b f))) in
            (
              (k.held j b f).0,
              (k.held j b f).1
                  ∙ ap some (
                      rw (← whole) (
                        sym (
                          page_at_other d p.page_size p.page_count blank full big j other
                            (k.inside j b f)))),
            );
        inside = λ j b f. omega (arith, grown, k.inside j b f);
        unshared = k.unshared;
      },
      omega (arith, grown, full, add-mul p.page_count 1 p.page_size),
      rw (← whole) (page_at_written d p.page_size p.page_count blank full big),
    )
