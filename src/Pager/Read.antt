-- ===== src/Pager/Read.antt =====
-- `Read` of the pager, from the cache or from the disk.
use db_index_performance_eva.Base.{
  ℕ, ◌+◌, ◌*◌, ◌^◌, ◌≤◌, ◌<◌, ◌≡◌, ◌≢◌, refl, sym, ◌∙◌, Option, none, some, [], ◌∷◌, ◌++◌, arith,
  length, get_elem?, get_elem?-lt, get_elem?-append_lt, get_elem?-append_length, ne→eq, inl, inr,
  Option-cases,
}
use db_index_performance_eva.Base.Go.{ok}
use db_index_performance_eva.Base.State.{done}
use db_index_performance_eva.Bytes.{Bytes}
use db_index_performance_eva.Lru
use db_index_performance_eva.Lru.{Items, LruCache, lookup, delete}
use db_index_performance_eva.Lru.Refine.{IsLru, touched, added, get-touched}
use db_index_performance_eva.Lru.Put.{put-added}
use db_index_performance_eva.Pager.{Pager, cache_get, new_buffer, read}
use db_index_performance_eva.Pager.Storage.{calm_pager, read_page_from_disk-calm}
use db_index_performance_eva.Pager.Cached.{
  IsClean, page_at, IsLru-DistinctKeys, lookup-touched, lookup-added, added-IsClean, cache_put-ok,
}

pub cache_get-ok :
    (id : ℕ) (p : Pager) (c : LruCache) (found : Option ℕ)
    → Lru.get p.cache id ≡ ok (c, found)
    → ((a : ℕ) → found ≡ some a → a ≢ 0)
    → cache_get id p ≡ done found (record p { cache = c })
unfolding cache_get
cache_get-ok id p c none e full = rw e
cache_get-ok id p c (some a) e full = rw (e, ne→eq a 0 (full a refl))

-- What a read of a page leaves: the buffer `a` holds the page and is no other cached page's; the cache
-- is clean, and the buffers that were there stay as they are.
pub record Returned (p q : Pager) (d : Bytes) (id a : ℕ) (l : Items) : Type 0 where
  pub clean : IsClean q d l
  pub page : get_elem? q.bufs a ≡ some (page_at d p.page_size id)
  pub full : a ≢ 0
  pub owner : (j : ℕ) → lookup j l ≡ some a → j ≡ id
  pub kept : (b : ℕ) → b < length p.bufs → get_elem? q.bufs b ≡ get_elem? p.bufs b
  pub page_size : q.page_size ≡ p.page_size
  pub page_count : q.page_count ≡ p.page_count

abbrev pub ReadClean : Pager → Bytes → ℕ → ℕ → Type 0
ReadClean p d s id =
    (a : ℕ) × (q : Pager) × (l : Items) × (read id (calm_pager p d s) ≡ done a (calm_pager q d s))
    × Returned p q d id a l

read_hit :
    (p : Pager) (d : Bytes) (s : ℕ) (l : Items) (id a : ℕ)
    → IsClean p d l
    → lookup id l ≡ some a
    → ReadClean p d s id
unfolding read
read_hit p d s l id a k found =
    let (c, e, r, cap) = get-touched p.cache l id k.lru in
    let keys = IsLru-DistinctKeys k.lru in
    (
      a,
      record p { cache = c },
      touched id l,
      rw (cache_get-ok id (calm_pager p d s) c (lookup id l) e (λ b f. (k.held id b f).0), found),
      record {
        clean = record {
          lru = r;
          some_bufs = k.some_bufs;
          held = λ j b f. k.held j b (sym (lookup-touched j id l keys) ∙ f);
          inside = λ j b f. k.inside j b (sym (lookup-touched j id l keys) ∙ f);
          unshared = λ i j b f g.
              k.unshared i j b (sym (lookup-touched i id l keys) ∙ f)
                (sym (lookup-touched j id l keys) ∙ g);
        };
        page = (k.held id a found).1;
        full = (k.held id a found).0;
        owner = λ j f. k.unshared j id a (sym (lookup-touched j id l keys) ∙ f) found;
        kept = λ b f. refl;
        page_size = refl;
        page_count = refl;
      },
    )

-- A search that finds nothing leaves the cache clean.
pub missed-IsClean :
    (p : Pager) (d : Bytes) (l : Items) (id : ℕ) (c : LruCache)
    → IsClean p d l
    → lookup id l ≡ none
    → IsLru c (touched id l)
    → IsClean (record p { cache = c }) d l
missed-IsClean p d l id c k missing r =
    let same : touched id l ≡ l = rw (missing, touched) in
    record {
      lru = rw same at r;
      some_bufs = k.some_bufs;
      held = k.held;
      inside = k.inside;
      unshared = k.unshared;
    }

read_miss :
    (p : Pager) (d : Bytes) (s : ℕ) (l : Items) (id : ℕ)
    → IsClean p d l
    → lookup id l ≡ none
    → id * p.page_size < 2 ^ 63
    → id * p.page_size + p.page_size ≤ length d
    → ReadClean p d s id
unfolding read new_buffer
read_miss p d s l id k missing h inside =
    let (c, e, r, cap) = get-touched p.cache l id k.lru in
    let p1 = record p { cache = c } in
    let k1 = missed-IsClean p d l id c k missing r in
    let (c2, e2, r2, cap2) = put-added c l id (length p.bufs) k1.lru in
    let page = page_at d p.page_size id in
    (
      length p.bufs,
      record p { cache = c2; bufs = p.bufs ++ (page ∷ []) },
      added c.cap id (length p.bufs) l,
      rw (
        cache_get-ok id (calm_pager p d s) c (lookup id l) e (λ b f. (k.held id b f).0),
        missing,
        read_page_from_disk-calm p1 d s id h inside,
        cache_put-ok id (length p.bufs)
            (record (calm_pager p d s) { cache = c; bufs = p.bufs ++ (page ∷ []) }) c2 e2,
      ),
      record {
        clean = added-IsClean p1 d l id c2 k1 inside r2;
        page = get_elem?-append_length p.bufs page;
        full = omega (arith, k.some_bufs);
        owner = λ j f.
            elim (lookup-added c.cap id (length p.bufs) l j (length p.bufs)
              (IsLru-DistinctKeys k.lru) f) [
                | inl (same_id, _) ↦ sym same_id
                | inr (_, g) ↦ absurd (
                    omega
                      (arith, get_elem?-lt p.bufs (length p.bufs) _ (k.held j (length p.bufs) g).1))
              ];
        kept = λ b f. get_elem?-append_lt p.bufs _ b f;
        page_size = refl;
        page_count = refl;
      },
    )

-- A read of a page within a file whose calls succeed returns a buffer that holds the page as it
-- stands on the disk. Whether it comes from the cache or from the disk, the cache stays clean, and
-- the file and the buffers that were there stay as they are.
pub read-IsClean :
    (p : Pager) (d : Bytes) (s : ℕ) (l : Items) (id : ℕ)
    → IsClean p d l
    → id * p.page_size < 2 ^ 63
    → id * p.page_size + p.page_size ≤ length d
    → ReadClean p d s id
read-IsClean p d s l id k h inside = elim (Option-cases (lookup id l)) [
  | inr (a, found) ↦ read_hit p d s l id a k found
  | inl missing ↦ read_miss p d s l id k missing h inside
]
