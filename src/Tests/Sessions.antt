-- ===== src/Tests/Sessions.antt =====
-- The theorems on the pager's client and on reopened files applied to pages of 8 bytes.
use db_index_performance_eva.Base.{
  ℕ, zero, suc, ◌≡◌, refl, some, List, [], ◌∷◌, ◌++◌, arith, replicate, get_elem?,
}
use db_index_performance_eva.Base.Go.{ok}
use db_index_performance_eva.Base.State.{done}
use db_index_performance_eva.Bytes.{Bytes, put_uint, get_uint, store, copy_at, le_bytes, overlay}
use db_index_performance_eva.BtPage.{Page}
use db_index_performance_eva.Pager.{Pager, initial, open_pager, close}
use db_index_performance_eva.Pager.Storage.{calm_file, calm_pager}
use db_index_performance_eva.Pager.Cached.{page_at}
use db_index_performance_eva.Pager.Client.{Op, fetch, edit, grow, run, Stores}
use db_index_performance_eva.Pager.Client.Sequence.{run-Stores}
use db_index_performance_eva.Pager.Reopen.{close-open_pager}
use db_index_performance_eva.Pager.Durable.{session, session-open_pager}
use db_index_performance_eva.Tests.Trees.{fresh, fresh-IsClean}

abbrev header : Page
header = 1 ∷ 0 ∷ 0 ∷ 0 ∷ 0 ∷ 0 ∷ 0 ∷ 0 ∷ []

abbrev first_page : Page
first_page = 1 ∷ 2 ∷ 3 ∷ 4 ∷ 5 ∷ 6 ∷ 7 ∷ 8 ∷ []

abbrev nines : Page
nines = replicate 8 9

abbrev two_pages : List Page
two_pages = header ∷ first_page ∷ []

abbrev two_paged : Pager
two_paged = record (fresh 8) { page_count = 2 }

two_pages-view :
    (i : ℕ) (pg : Page) → get_elem? two_pages i ≡ some pg → page_at (header ++ first_page) 8 i ≡ pg
two_pages-view zero pg e = cc
two_pages-view (suc zero) pg e = cc
two_pages-view (suc (suc i)) pg e = cc

two_pages-Stores : Stores 8 two_paged (header ++ first_page) two_pages
two_pages-Stores = record {
  l = [];
  clean = fresh-IsClean 8 2 (header ++ first_page);
  page_size = refl;
  count = refl;
  whole = refl;
  view = two_pages-view;
}

-- An edit of the page, a new page, and both read again.
abbrev some_ops : List Op
some_ops = edit 1 nines ∷ grow ∷ fetch 1 ∷ fetch 2 ∷ []

run-Stores_example :
    (q : Pager) × (d : Bytes) × (t : ℕ) × (run some_ops
        (calm_pager two_paged (header ++ first_page) 0)
      ≡ done (first_page ∷ replicate 8 0 ∷ nines ∷ replicate 8 0 ∷ []) (calm_pager q d t))
    × Stores 8 q d (header ∷ nines ∷ replicate 8 0 ∷ [])
run-Stores_example =
    run-Stores 8 (omega arith) some_ops two_paged (header ++ first_page) 0 two_pages
      two_pages-Stores ((omega arith, refl), (tt, (omega arith, (omega arith, tt)))) (omega arith)

close-open_pager_example :
    (q r : Pager) × (d : Bytes) × (t : ℕ) × (hdr : Page) × (close
        (calm_pager two_paged (header ++ first_page) 0)
      ≡ done tt (calm_pager q d t))
    × (open_pager (calm_pager (initial (calm_file [] 0) 4 8) d t) ≡ done tt (calm_pager r d t))
    × (get_uint 8 hdr 0 ≡ ok 2)
    × Stores 8 r d (hdr ∷ first_page ∷ [])
close-open_pager_example =
    close-open_pager 8 4 two_paged (header ++ first_page) 0 two_pages two_pages-Stores (omega arith)
      (omega arith) (omega arith)

header_put : put_uint 8 (replicate 8 0) 0 1 ≡ ok header
unfolding put_uint store copy_at le_bytes overlay
header_put = refl

session-open_pager_example :
    (q r : Pager) × (d : Bytes) × (t : ℕ) × (hdr : Page) × (session
        (grow ∷ edit 1 nines ∷ fetch 1 ∷ [])
        (calm_pager (initial (calm_file [] 0) 2 8) [] 0)
      ≡ done (replicate 8 0 ∷ replicate 8 0 ∷ nines ∷ []) (calm_pager q d t))
    × (open_pager (calm_pager (initial (calm_file [] 0) 1 8) d t) ≡ done tt (calm_pager r d t))
    × Stores 8 r d (hdr ∷ nines ∷ [])
session-open_pager_example =
    session-open_pager 8 2 1 0 header (grow ∷ edit 1 nines ∷ fetch 1 ∷ []) (omega arith) header_put
      (tt, ((omega arith, refl), (omega arith, tt))) (omega arith)
