-- ===== src/Pager/Fault.antt =====
-- A read of a page that the operating system fails.
use db_index_performance_eva.Base.{
  ℕ, ◌+◌, ◌*◌, ◌^◌, ◌≤◌, ◌<◌, ◌≡◌, refl, none, some, [], ◌∷◌, length,
}
use db_index_performance_eva.Base.State.{fail, wrap}
use db_index_performance_eva.Bytes.{Bytes}
use db_index_performance_eva.Disk.{io_error, read_page, read_at, next_fault}
use db_index_performance_eva.Lru.{Items, lookup}
use db_index_performance_eva.Lru.Refine.{get-touched}
use db_index_performance_eva.Pager.{Pager, on_file, read_page_from_disk, read}
use db_index_performance_eva.Pager.Storage.{calm_pager, offset-pos}
use db_index_performance_eva.Pager.Cached.{IsClean}
use db_index_performance_eva.Pager.Read.{ReadClean, read-IsClean, cache_get-ok, missed-IsClean}

-- A pager on a file whose next call fails; later calls succeed.
abbrev pub faulty_pager : Pager → Bytes → ℕ → ℕ → Pager
faulty_pager p d s n = record p { file = record { content = d; faults = some n ∷ []; syncs = s } }

read_page_from_disk_fails :
    (p : Pager) (d : Bytes) (s n id : ℕ)
    → id * p.page_size < 2 ^ 63
    → read_page_from_disk id (faulty_pager p d s n)
      ≡ fail (read_page id io_error) (calm_pager p d s)
unfolding read_page_from_disk read_at next_fault
read_page_from_disk_fails p d s n id h = rw (offset-pos p.page_size id h, wrap, on_file) refl

-- If a page lies within the file, at an offset below 2 ^ 63, and is not in the clean cache, and the disk
-- fails the next call and none after it, then `Read` of the page returns that error and caches nothing
-- for it; the cache stays clean, and a second `Read` returns the page as it stands on the disk.
pub read-retry :
    (p : Pager) (d : Bytes) (s n : ℕ) (l : Items) (id : ℕ)
    → IsClean p d l
    → lookup id l ≡ none
    → id * p.page_size < 2 ^ 63
    → id * p.page_size + p.page_size ≤ length d
    → (q : Pager) × (read id (faulty_pager p d s n)
        ≡ fail (read_page id io_error) (calm_pager q d s))
      × IsClean q d l
      × ReadClean q d s id
unfolding read
read-retry p d s n l id k missing h inside =
    let (c, e, r, cap) = get-touched p.cache l id k.lru in
    let q = record p { cache = c } in
    let clean = missed-IsClean p d l id c k missing r in
    (
      q,
      rw (
        cache_get-ok id (faulty_pager p d s n) c (lookup id l) e (λ b f. (k.held id b f).0),
        missing,
        read_page_from_disk_fails q d s n id h,
      ),
      clean,
      read-IsClean q d s l id clean h inside,
    )
