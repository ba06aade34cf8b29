-- ===== src/Tests/Caches.antt =====
-- The theorems on the caches that can be reached applied to caches of two pages.
use db_index_performance_eva.Base.{ℕ, ◌≡◌, ◌≤◌, refl, Option, none, some, [], ◌∷◌, arith}
use db_index_performance_eva.Base.Go.{ok}
use db_index_performance_eva.Lru.{
  LruCache, new_lru_cache, get, put, put_new, push_front, update, load, lookup, insert,
}
use db_index_performance_eva.Lru.Reach.{
  Reaches, new, kept, idle, put_other, Reaches-get-put, put-Others-get,
}
use db_index_performance_eva.Tests.Trees.{two_cached}

abbrev one_cached : LruCache
one_cached = record {
  cap = 2;
  items = (4, 0) ∷ [];
  head = some 0;
  tail = some 0;
  heap = record { id = 4; page = 7; prev = none; next = none } ∷ [];
}

first_put : put (new_lru_cache 2) 4 7 ≡ ok one_cached
unfolding put put_new push_front update load lookup insert
first_put = refl

second_put : put one_cached 5 8 ≡ ok two_cached
unfolding put put_new push_front update load lookup insert
second_put = refl

Reaches-get-put_example :
    (2 ≤ 2)
    × ((c : LruCache) × (found : Option ℕ) × (get two_cached 4 ≡ ok (c, found)) × Reaches 2 c)
    × ((c : LruCache) × (put two_cached 4 9 ≡ ok c) × Reaches 2 c)
Reaches-get-put_example =
    Reaches-get-put 2 two_cached 4 9 (kept 5 8 (kept 4 7 new first_put) second_put)

put-Others-get_example : (c : LruCache) × (get two_cached 4 ≡ ok (c, some 7))
put-Others-get_example =
    put-Others-get 2 1 4 7 (new_lru_cache 2) one_cached two_cached new first_put
      (put_other 5 8 idle (omega arith) second_put) (omega arith)
