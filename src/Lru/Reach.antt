-- ===== src/Lru/Reach.antt =====
-- The caches that `newLRUCache`, `get` and `put` can give, one operation after another.
use db_index_performance_eva.Base.{
  ℕ, zero, suc, ◌+◌, ◌≤◌, ◌<◌, ◌≡◌, ◌≢◌, refl, ap, ◌∙◌, Option, some, [], arith, length,
}
use db_index_performance_eva.Base.Go.{ok}
use db_index_performance_eva.Lru.{Items, LruCache, new_lru_cache, get, put, lookup}
use db_index_performance_eva.Lru.Split.{length-pages}
use db_index_performance_eva.Lru.Refine.{IsLru, new_lru_cache-IsLru, touched, added, get-touched}
use db_index_performance_eva.Lru.Put.{put-added}
use db_index_performance_eva.Lru.Recent.{
  Recent, Recent-touched, Recent-added, Recent-new, Recent-lookup,
}

pub data Reaches (cap : ℕ) : LruCache → Type 0 where
  new : Reaches cap (new_lru_cache cap)
  got :
      {c c' : LruCache} (id : ℕ) (found : Option ℕ)
      → Reaches cap c
      → get c id ≡ ok (c', found)
      → Reaches cap c'
  kept : {c c' : LruCache} (id pg : ℕ) → Reaches cap c → put c id pg ≡ ok c' → Reaches cap c'

-- `Others id n c c'`: from `c` to `c'` in `n` operations on other pages than `id`.
pub data Others (id : ℕ) : ℕ → LruCache → LruCache → Type 0 where
  idle : {c : LruCache} → Others id 0 c c
  got_other :
      {n : ℕ} {c c' c'' : LruCache} (j : ℕ) (found : Option ℕ)
      → Others id n c c'
      → j ≢ id
      → get c' j ≡ ok (c'', found)
      → Others id (suc n) c c''
  put_other :
      {n : ℕ} {c c' c'' : LruCache} (j pg : ℕ)
      → Others id n c c'
      → j ≢ id
      → put c' j pg ≡ ok c''
      → Others id (suc n) c c''

pub Reaches-IsLru :
    (cap : ℕ) {c : LruCache} → Reaches cap c → (l : Items) × IsLru c l × (c.cap ≡ cap)
Reaches-IsLru cap new = ([], new_lru_cache-IsLru cap, refl)
Reaches-IsLru cap (got {c} {c'} id found r e) =
    let (l, k, same) = Reaches-IsLru cap r in
    let (c'', e', k', same') = get-touched c l id k in
    let t : c'' ≡ c' = cc in (touched id l, rw (← t) k', rw (← t) (same' ∙ same))
Reaches-IsLru cap (kept {c} {c'} id pg r e) =
    let (l, k, same) = Reaches-IsLru cap r in
    let (c'', e', k', same') = put-added c l id pg k in
    let t : c'' ≡ c' = cc in (added c.cap id pg l, rw (← t) k', rw (← t) (same' ∙ same))

-- From a cache with the page among its first ones on, it stays among the first ones, one place
-- further back for each operation.
Others-Recent :
    (cap id pg first n : ℕ) {c c' : LruCache} (l : Items)
    → Others id n c c'
    → IsLru c l
    → c.cap ≡ cap
    → Recent first id pg l
    → first + n ≤ cap
    → (l' : Items) × IsLru c' l' × (c'.cap ≡ cap) × Recent (first + n) id pg l'
Others-Recent cap id pg first zero l idle k e r h =
    let start : first + 0 ≡ first = omega arith in (l, k, e, rw start r)
Others-Recent cap id pg first (suc n) l (got_other {c = c} {c'} {c''} j found o ne f) k e r h =
    let (l', k', e', r') = Others-Recent cap id pg first n l o k e r (omega arith) in
    let (d, f', k'', e'') = get-touched c' l' j k' in
    let t : d ≡ c'' = cc in
    let next : first + suc n ≡ suc (first + n) = omega arith in
    (
      touched j l',
      rw (← t) k'',
      rw (← t) (e'' ∙ e'),
      rw next (Recent-touched id pg (first + n) j l' ne r'),
    )
Others-Recent cap id pg first (suc n) l (put_other {c = c} {c'} {c''} j v o ne f) k e r h =
    let (l', k', e', r') = Others-Recent cap id pg first n l o k e r (omega arith) in
    let (d, f', k'', e'') = put-added c' l' j v k' in
    let t : d ≡ c'' = cc in
    let next : first + suc n ≡ suc (first + n) = omega arith in
    (
      added c'.cap j v l',
      rw (← t) k'',
      rw (← t) (e'' ∙ e'),
      rw next (Recent-added id pg (first + n) c'.cap j v l' (omega (arith, e')) ne r'),
    )

-- In every cache that can be reached there are no more pages than the capacity, a search and an
-- insertion succeed, and neither leaves the caches that can be reached.
pub Reaches-get-put :
    (cap : ℕ) (c : LruCache) (id pg : ℕ)
    → Reaches cap c
    → (length c.items ≤ cap)
      × ((c' : LruCache) × (found : Option ℕ) × (get c id ≡ ok (c', found)) × Reaches cap c')
      × ((c' : LruCache) × (put c id pg ≡ ok c') × Reaches cap c')
Reaches-get-put cap c id pg r =
    let (l, k, same) = Reaches-IsLru cap r in
    let (c', e, _, _) = get-touched c l id k in
    let (c'', e', _, _) = put-added c l id pg k in
    (
      omega (
        arith,
        ap (λ d. length d.items) k.shape,
        k.valid.count,
        length-pages k.xs,
        ap (λ q. length q) k.view,
        k.bound,
        same,
      ),
      (c', lookup id l, e, got id (lookup id l) r e),
      (c'', e', kept id pg r e'),
    )

-- In every cache that can be reached, a page that is put under an id is found by a search after any
-- searches and insertions of pages under other ids, as long as there are fewer of them than the
-- capacity.
pub put-Others-get :
    (cap n id pg : ℕ) (c c' c'' : LruCache)
    → Reaches cap c
    → put c id pg ≡ ok c'
    → Others id n c' c''
    → n < cap
    → (d : LruCache) × (get c'' id ≡ ok (d, some pg))
put-Others-get cap n id pg c c' c'' r e o h =
    let (l, k, same) = Reaches-IsLru cap r in
    let (d, e', k', same') = put-added c l id pg k in
    let t : d ≡ c' = cc in
    let (l', k'', _, recent) =
      Others-Recent cap id pg 1 n (added c.cap id pg l) o (rw (← t) k') (rw (← t) (same' ∙ same))
        (Recent-new id pg c.cap l (omega (arith, same))) (omega arith) in
    let (d', f, _, _) = get-touched c'' l' id k'' in
    (d', f ∙ ap (λ q. ok (d', q)) (Recent-lookup id pg (1 + n) l' recent))
