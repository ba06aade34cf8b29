-- ===== src/Pager/Client.antt =====
-- A client of the pager that reads pages, changes them in their buffers and writes them back, and
-- allocates new ones; and the same on a list of pages, without a file, buffers or a cache.
pub mod Steps
pub mod Sequence
use db_index_performance_eva.Base.{
  ℕ, zero, suc, ◌+◌, ◌*◌, ◌^◌, ◌≤◌, ◌<◌, ◌≡◌, ◌≢◌, refl, sym, ap, ◌∙◌, none, some, List, [], ◌∷◌,
  ◌++◌, arith, length, length-append, length-set, length-replicate, set, get_elem?, get_elem?-lt,
  get_elem?-some, get_elem?-set_self, get_elem?-set_ne, get_elem?-append_one, replicate, ◌⊎◌, inl,
  inr, Bool-cases, ◌==◌,
}
use native.Mathlib.Nat.{add-mul, mul-le-mul_right}
use db_index_performance_eva.Base.State.{Run, done, and_then, ◌>>=◌, ◌>>◌, pure, modify}
use db_index_performance_eva.Bytes.{Bytes}
use db_index_performance_eva.BtPage.{Page}
use db_index_performance_eva.Disk.{extend}
use db_index_performance_eva.Disk.Extend.{length-extend_inside}
use db_index_performance_eva.Lru.{Items, LruCache, lookup}
use db_index_performance_eva.Pager.{Pager, Code, load_page, store_page, read, write, allocate}
use db_index_performance_eva.Pager.Storage.{load_page-ok, calm_pager}
use db_index_performance_eva.Pager.Cached.{IsClean, page_at}
use db_index_performance_eva.Pager.Read.{Returned, read-IsClean}
use db_index_performance_eva.Pager.Write.{
  changed, page_at_written, page_at_other, write-IsClean, allocate-IsClean, extend_end,
}

pub data Op : Type 0 where
  fetch : ℕ → Op
  edit : ℕ → Page → Op
  grow : Op

-- What the client does, and the page that it sees: of an edited page, its old content.
unfoldable pub perform : Op → Code Page
perform (fetch id) = do a ← read id; load_page a
perform (edit id pg) = do a ← read id; old ← load_page a; store_page a pg; write id a; pure old
perform grow = do id ← allocate; a ← read id; load_page a

unfoldable pub run : List Op → Code (List Page)
run [] = pure []
run (op ∷ ops) = do pg ← perform op; pgs ← run ops; pure (pg ∷ pgs)

abbrev pub page_of : List Page → ℕ → Page
page_of ps id = elim (get_elem? ps id) [ none ↦ [] | some pg ↦ pg ]

-- The same on a list of pages of the given size.
module _ (size : ℕ) where
  abbrev pub seen : Op → List Page → Page
  seen (fetch id) ps = page_of ps id
  seen (edit id pg) ps = page_of ps id
  seen grow ps = replicate size 0

  abbrev pub after : Op → List Page → List Page
  after (fetch id) ps = ps
  after (edit id pg) ps = set ps id pg
  after grow ps = ps ++ (replicate size 0 ∷ [])

  abbrev pub trace : List Op → List Page → List Page
  trace [] ps = []
  trace (op ∷ ops) ps = seen op ps ∷ trace ops (after op ps)

  abbrev pub final : List Op → List Page → List Page
  final [] ps = ps
  final (op ∷ ops) ps = final ops (after op ps)

  -- The client asks for pages that there are, and writes pages of full size.
  abbrev pub Asks : Op → List Page → Type 0
  Asks (fetch id) ps = id < length ps
  Asks (edit id pg) ps = (id < length ps) × (length pg ≡ size)
  Asks grow ps = Unit

  abbrev pub AsksAll : List Op → List Page → Type 0
  AsksAll [] ps = Unit
  AsksAll (op ∷ ops) ps = Asks op ps × AsksAll ops (after op ps)

-- The pager stores the pages: its cache is clean, and its file holds them and nothing else.
pub record Stores (size : ℕ) (p : Pager) (d : Bytes) (ps : List Page) : Type 0 where
  pub l : Items
  pub clean : IsClean p d l
  pub page_size : p.page_size ≡ size
  pub count : p.page_count ≡ length ps
  pub whole : length d ≡ length ps * size
  pub view : (i : ℕ) (pg : Page) → get_elem? ps i ≡ some pg → page_at d size i ≡ pg
