-- ===== src/Pager.antt =====
-- The pager of src/dbms/pager/pager.go: a file of fixed-size pages, a cache, and page allocation.
-- A page in memory is a buffer that several holders share, so it is an address among `bufs`; the
-- buffer at address 0 is the nil slice.
pub mod Storage
pub mod Cached
pub mod Read
pub mod Write
pub mod Fault
pub mod Client
pub mod Reopen
pub mod Durable
use db_index_performance_eva.Base.{
  ℕ, ◌+◌, ◌*◌, ◌%◌, ◌^◌, Option, none, some, List, [], ◌∷◌, ◌++◌, ltb, ◌==◌, if◌then◌else◌, length,
  get_elem?, set, replicate, ℤ, pos, ltb_ℤ, pos_part,
}
use db_index_performance_eva.Base.State.{
  Run, done, fail, panicked, stuck, pure, and_then, ◌>>=◌, ◌>>◌, gets, modify, or_zero, wrap,
  run_go,
}
use db_index_performance_eva.Bytes.{get_uint, put_uint, copy_from, to_i64}
use db_index_performance_eva.BtPage.{Page}
use db_index_performance_eva.Disk.{
  Error, opening, stat_file, read_page_count, write_page_count, read_page, write_page, File, Io,
  success, failure, read_at, write_at, sync, touch, has_content,
}
use db_index_performance_eva.Lru
use db_index_performance_eva.Lru.{LruCache, new_lru_cache}

pub record Pager : Type 0 where
  pub file : File
  pub cache : LruCache
  pub page_count : ℕ
  pub page_size : ℕ
  pub write_count : ℕ
  pub sync_interval : ℤ
  pub bufs : List Page

abbrev pub Code : Type 0 → Type 0
Code A = Pager → Run Error Pager A

abbrev pub nil_page : ℕ
nil_page = 0

-- A call on the file.
abbrev pub on_file : {A : Type 0} → (File → Io A) → Code A
on_file call p = elim (call p.file) [
  | success a f ↦ done a (record p { file = f })
  | failure e f ↦ fail e (record p { file = f })
]

-- `make(Page, n)`, or a buffer that holds `bs`
unfoldable pub new_buffer : Page → Code ℕ
new_buffer bs p = done (length p.bufs) (record p { bufs = p.bufs ++ (bs ∷ []) })

-- What the buffer at `a` holds, and a change of it in place.
unfoldable pub load_page : ℕ → Code Page
load_page a p = elim (get_elem? p.bufs a) [ none ↦ panicked | some bs ↦ done bs p ]

unfoldable pub store_page : ℕ → Page → Code (Unit {0})
store_page a bs = modify λ p. record p { bufs = set p.bufs a bs }

unfoldable pub offset : ℕ → ℕ → ℤ
offset page_size id = to_i64 (id * page_size % 2 ^ 64)

unfoldable pub read_page_from_disk : ℕ → Code Page
read_page_from_disk id p =
    wrap (read_page id) (on_file λ f. read_at f (offset p.page_size id) p.page_size) p

-- The part of `writePageToDisk` behind a successful write.
unfoldable pub count_write : Code (Unit {0})
count_write p =
    let n = p.write_count + 1 in
    let p' : Pager = record p { write_count = n } in
    if ltb_ℤ (pos 0) p.sync_interval
    then (if (n % pos_part p.sync_interval) == 0 then on_file sync p' else done tt p')
    else done tt p

unfoldable pub write_page_to_disk : ℕ → Page → Code (Unit {0})
write_page_to_disk id pg p =
    and_then (wrap (write_page id) (on_file λ f. write_at f (offset p.page_size id) pg) p)
      λ _. count_write

-- `p.cache.get(id)`; a nil page counts as absent.
unfoldable pub cache_get : ℕ → Code (Option ℕ)
cache_get id p = and_then (run_go (Lru.get p.cache id) p) λ (c, found) p.
    done (elim found [ none ↦ none | some a ↦ if a == nil_page then none else some a ])
      (record p { cache = c })

unfoldable pub cache_put : ℕ → ℕ → Code (Unit {0})
cache_put id a p =
    and_then (run_go (Lru.put p.cache id a) p) λ c p. done tt (record p { cache = c })

-- The address of the page's buffer.
unfoldable pub read : ℕ → Code ℕ
read id = do
  cached ← cache_get id
  elim cached [
    | some a ↦ pure a
    | none ↦ do pg ← read_page_from_disk id; a ← new_buffer pg; cache_put id a; pure a
  ]

unfoldable pub write : ℕ → ℕ → Code (Unit {0})
write id a = do cache_put id a; pg ← load_page a; write_page_to_disk id pg

unfoldable pub allocate : Code ℕ
allocate = do
  id ← gets (λ p. p.page_count)
  modify (λ p. record p { page_count = (p.page_count + 1) % 2 ^ 64 })
  size ← gets (λ p. p.page_size)
  write_page_to_disk id (replicate size 0)
  pure id

abbrev pub set_sync_interval : ℤ → Code (Unit {0})
set_sync_interval n = modify λ p. record p { sync_interval = n }

unfoldable pub load_page_count : Code (Unit {0})
load_page_count = do
  pg ← read_page_from_disk 0
  count ← run_go (get_uint 8 pg 0)
  modify λ p. record p { page_count = count }

-- The header page to write: what the file has of it, if that can be read.
unfoldable pub existing_header : Page → Code Page
existing_header hdr p = elim (read_page_from_disk 0 p) [
  | done existing p' ↦ run_go (copy_from hdr 0 existing) p'
  | fail e p' ↦ done hdr p'
  | panicked ↦ panicked
  | stuck ↦ stuck
]

unfoldable pub store_page_count : Code (Unit {0})
store_page_count = do
  size ← gets (λ p. p.page_size)
  count ← gets (λ p. p.page_count)
  hdr ← if ltb 1 count then existing_header (replicate size 0) else pure (replicate size 0)
  hdr ← run_go (put_uint 8 hdr 0 count)
  write_page_to_disk 0 hdr

abbrev pub initial : File → ℕ → ℕ → Pager
initial file cache_pages page_size = record {
  file = file;
  cache = new_lru_cache cache_pages;
  page_count = 0;
  page_size = page_size;
  write_count = 0;
  sync_interval = pos 10000;
  bufs = [] ∷ [];
}

-- The branch of `Open` for a new file.
unfoldable pub create : Code (Unit {0})
create = do modify λ p. record p { page_count = 1 }; wrap write_page_count store_page_count

-- `Open`, run from the pager that `initial` builds: a pager is returned exactly if there is no
-- error. Closing the file on an error leaves its bytes alone.
unfoldable pub open_pager : Code (Unit {0})
open_pager = do
  wrap opening (on_file touch)
  exists ← wrap stat_file (on_file has_content)
  if exists then wrap read_page_count load_page_count else create

unfoldable pub close : Code (Unit {0})
close = do or_zero tt store_page_count; on_file touch
