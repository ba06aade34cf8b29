-- ===== src/Pager/Cached.antt =====
-- What it means that every cached buffer of the pager holds its page as it stands on the disk.
use db_index_performance_eva.Base.{
  ℕ, zero, suc, ◌+◌, ◌*◌, ◌≤◌, ◌<◌, ◌≡◌, ◌≢◌, refl, sym, ◌∙◌, some, List, [], ◌∷◌, ◌++◌, arith,
  length, length-take, length-append, take, drop, get_elem?, get_elem?-lt, get_elem?-append_lt,
  get_elem?-append_length, ◌⊎◌, inl, inr, Option-cases,
}
use db_index_performance_eva.Base.Go.{ok}
use db_index_performance_eva.Base.State.{done}
use db_index_performance_eva.Bytes.{Bytes}
use db_index_performance_eva.BtPage.{Page}
use db_index_performance_eva.Lru
use db_index_performance_eva.Lru.{Items, LruCache, lookup, delete}
use db_index_performance_eva.Lru.Items.{DistinctKeys, lookup-delete}
use db_index_performance_eva.Lru.Chain.{Slot, SeparateBy}
use db_index_performance_eva.Lru.Split.{pages, lookup-pages_absent}
use db_index_performance_eva.Lru.Refine.{IsLru, touched, added}
use db_index_performance_eva.Pager.{Pager, cache_put}

length_rest : (n : ℕ) (d : Bytes) → length d ≤ n + length (drop n d)
length_rest zero d = omega arith
length_rest (suc n) [] = omega arith
length_rest (suc n) (x ∷ d) = omega (arith, length_rest n d)

-- The page as it stands on the disk.
abbrev pub page_at : Bytes → ℕ → ℕ → Page
page_at d size id = take size (drop (id * size) d)

pub length-page_at :
    (d : Bytes) (size id : ℕ) → id * size + size ≤ length d → length (page_at d size id) ≡ size
length-page_at d size id inside =
    length-take size (drop (id * size) d) (omega (arith, length_rest (id * size) d))

-- The cache holds `l`, and each of its buffers, none of them nil or shared by two ids, what the disk
-- has of the page.
pub record IsClean (p : Pager) (d : Bytes) (l : Items) : Type 0 where
  pub lru : IsLru p.cache l
  pub some_bufs : 0 < length p.bufs
  pub held :
      (id a : ℕ)
      → lookup id l ≡ some a
      → (a ≢ 0) × (get_elem? p.bufs a ≡ some (page_at d p.page_size id))
  pub inside : (id a : ℕ) → lookup id l ≡ some a → id * p.page_size + p.page_size ≤ length d
  pub unshared : (i j a : ℕ) → lookup i l ≡ some a → lookup j l ≡ some a → i ≡ j

pages-DistinctKeys : (xs : List Slot) → SeparateBy (λ x. x.id) xs → DistinctKeys (pages xs)
pages-DistinctKeys [] s = tt
pages-DistinctKeys (x ∷ xs) s = (lookup-pages_absent x.id xs s.0, pages-DistinctKeys xs s.1)

pub IsLru-DistinctKeys : {c : LruCache} {l : Items} → IsLru c l → DistinctKeys l
IsLru-DistinctKeys r = rw (← r.view) (pages-DistinctKeys r.xs r.valid.ids)

-- A search moves a page but finds the same afterwards.
pub lookup-touched : (j id : ℕ) (l : Items) → DistinctKeys l → lookup j (touched id l) ≡ lookup j l
unfolding lookup
lookup-touched j id l h = elim (Option-cases (lookup id l)) [
  | inl missing ↦ rw (missing, touched) refl
  | inr (pg, found) ↦ rw (found, touched) (ground (arith, lookup-delete j id l h))
]

-- What is found after an addition is the new page, or was there.
lookup-take : (j n a : ℕ) (l : Items) → lookup j (take n l) ≡ some a → lookup j l ≡ some a
unfolding lookup
lookup-take j zero a l h = cc
lookup-take j (suc n) a [] h = cc
lookup-take j (suc n) a ((i, v) ∷ l) h = ground (arith, lookup-take j n a l)

pub lookup-added :
    (cap id pg : ℕ) (l : Items) (j a : ℕ)
    → DistinctKeys l
    → lookup j (added cap id pg l) ≡ some a
    → ((id ≡ j) × (pg ≡ a)) ⊎ ((id ≢ j) × (lookup j l ≡ some a))
unfolding lookup
lookup-added cap id pg l j a h e =
    let e' = lookup-take j cap a ((id, pg) ∷ delete id l) e in
    ground (arith, lookup-delete j id l h)

pub cache_put-ok :
    (id a : ℕ) (p : Pager) (c : LruCache)
    → Lru.put p.cache id a ≡ ok c
    → cache_put id a p ≡ done tt (record p { cache = c })
unfolding cache_put
cache_put-ok id a p c e = rw e

-- The buffer of a page that is read from the disk joins the others.
pub added-IsClean :
    (p : Pager) (d : Bytes) (l : Items) (id : ℕ) (c : LruCache)
    → IsClean p d l
    → id * p.page_size + p.page_size ≤ length d
    → IsLru c (added p.cache.cap id (length p.bufs) l)
    → IsClean
        (record p { cache = c; bufs = p.bufs ++ (page_at d p.page_size id ∷ []) })
        d
        (added p.cache.cap id (length p.bufs) l)
added-IsClean p d l id c k fits r =
    let keys = IsLru-DistinctKeys k.lru in
    let new = length p.bufs in
    record {
      lru = r;
      some_bufs = omega (arith, k.some_bufs, length-append p.bufs (page_at d p.page_size id ∷ []));
      held = λ j a e. elim (lookup-added p.cache.cap id new l j a keys e) [
        | inl (same, here) ↦
            rw (← same, ← here)
              (
                omega (arith, k.some_bufs),
                get_elem?-append_length p.bufs (page_at d p.page_size id),
              )
        | inr (other, f) ↦
            let (full, there) = k.held j a f in
            (full, get_elem?-append_lt p.bufs _ a (get_elem?-lt p.bufs a _ there) ∙ there)
      ];
      inside = λ j a e. elim (lookup-added p.cache.cap id new l j a keys e) [
        | inl (same, here) ↦ rw (← same) fits
        | inr (other, f) ↦ k.inside j a f
      ];
      unshared = λ i j a e f.
          let second = lookup-added p.cache.cap id new l j a keys f in
          elim (lookup-added p.cache.cap id new l i a keys e) [
            | inl (same, here) ↦ elim second [
              | inl (same', _) ↦ sym same ∙ same'
              | inr (_, g) ↦ absurd (omega (arith, get_elem?-lt p.bufs a _ (k.held j a g).1))
            ]
            | inr (other, g) ↦ elim second [
              | inl (_, here) ↦ absurd (omega (arith, get_elem?-lt p.bufs a _ (k.held i a g).1))
              | inr (_, g') ↦ k.unshared i j a g g'
            ]
          ];
    }
