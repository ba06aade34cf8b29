-- ===== src/Lsm/Store.antt =====
-- What the code relies on of the engine, and the LSM index as a map from keys to values.
use Prim.Native.Nat.{Ordering, Ordering.eq}
use db_index_performance_eva.Base.{
  ◌≡◌, refl, ap, ◌∙◌, Bool, true, false, ◌&&◌, none, some, List, [], ◌∷◌, arith, if◌then◌else◌, ℤ,
  eqb_ℤ, Option-cases, inl, inr,
}
use db_index_performance_eva.Base.State.{done, fail}
use db_index_performance_eva.Bytes.{Bytes}
use db_index_performance_eva.Bytes.Words.{IsInt64}
use db_index_performance_eva.Accessor.{Value, bytes_of}
use db_index_performance_eva.Lsm.{encode_key}
use db_index_performance_eva.Lsm.Order.{
  bytes_compare, bytes_compare-encode_key, KeyOrder, not_lt, is_lt,
}
use db_index_performance_eva.Lsm.Engine.{Pebble, insert, get, delete}

abbrev pub Entries : Type 0
Entries = List (Bytes × Bytes)

abbrev pub is_eq : Ordering → Bool
is_eq eq = true
is_eq _ = false

abbrev pub find : Bytes → Entries → Value
find k [] = none
find k ((j, v) ∷ es) = if is_eq (bytes_compare j k) then some v else find k es

-- The pairs from the lower bound on and before the upper one.
abbrev pub between : Bytes → Bytes → Entries → Entries
between lo hi [] = []
between lo hi ((k, v) ∷ es) =
    let rest = between lo hi es in
    if not_lt (bytes_compare k lo) && is_lt (bytes_compare k hi) then (k, v) ∷ rest else rest

abbrev pub is_some : Entries → Bool
is_some [] = false
is_some (_ ∷ _) = true

-- A database whose calls succeed holds pairs; a write changes what is found under its key alone, a
-- search finds the pair or reports that there is none, and an iterator visits the pairs within its
-- bounds in order.
pub record Reliable {Db Iter E : Type 0} (engine : Pebble Db Iter E) : Type 0 where
  pub entries : Db → Entries
  pub set-ok :
      (k : Bytes) (v : Value) (db : Db)
      → (db' : Db) × (engine.set k v db ≡ done tt db')
        × ((j : Bytes)
            → find j (entries db')
              ≡ (if is_eq (bytes_compare k j) then some (bytes_of v) else find j (entries db)))
  pub delete-ok :
      (k : Bytes) (db : Db)
      → (db' : Db) × (engine.delete k db ≡ done tt db')
        × ((j : Bytes)
            → find j (entries db')
              ≡ (if is_eq (bytes_compare k j) then none else find j (entries db)))
  pub get-found :
      (k v : Bytes) (db : Db) → find k (entries db) ≡ some v → engine.get k db ≡ done v db
  pub get-missing :
      (k : Bytes) (db : Db)
      → find k (entries db) ≡ none
      → (e : E) × (engine.get k db ≡ fail e db) × (engine.is_not_found e ≡ true)
  pub entries-release : (db : Db) → entries (engine.release db) ≡ entries db
  pub rest : Iter → Entries
  pub new_iter-ok :
      (lo hi : Bytes) (db : Db)
      → (it : Iter) × (engine.new_iter lo hi db ≡ done it db)
        × (rest (engine.first it) ≡ between lo hi (entries db))
  pub valid-rest : (it : Iter) → engine.valid it ≡ is_some (rest it)
  pub next-rest :
      (it : Iter) (c : Bytes × Bytes) (cs : Entries)
      → rest it ≡ c ∷ cs
      → (it' : Iter) × (engine.next it ≡ (it', is_some cs)) × (rest it' ≡ cs)
  pub key-rest :
      (it : Iter) (c : Bytes × Bytes) (cs : Entries) → rest it ≡ c ∷ cs → engine.key it ≡ c.0
  pub value-rest :
      (it : Iter) (c : Bytes × Bytes) (cs : Entries) → rest it ≡ c ∷ cs → engine.value it ≡ c.1

is_eq-KeyOrder : (a b : ℤ) → is_eq (KeyOrder a b) ≡ eqb_ℤ a b
is_eq-KeyOrder a b = ground arith

pub same_key :
    (a b : ℤ)
    → IsInt64 a
    → IsInt64 b
    → is_eq (bytes_compare (encode_key a) (encode_key b)) ≡ eqb_ℤ a b
same_key a b h g = ap is_eq (bytes_compare-encode_key a b h g) ∙ is_eq-KeyOrder a b

module _ {Db Iter E : Type 0} (engine : Pebble Db Iter E) (r : Reliable engine) where
  -- The value that the index has under a key.
  abbrev pub content : Db → ℤ → Value
  content db key = find (encode_key key) (r.entries db)

  -- `Get` returns the value under the key, or nil, and keeps what the engine holds.
  pub get-content :
      (key : ℤ) (db : Db)
      → (db' : Db) × (get engine key db ≡ done (content db key) db')
        × (r.entries db' ≡ r.entries db)
  unfolding get
  get-content key db = elim (Option-cases (content db key)) [
    | inr (v, found) ↦ (
      engine.release db,
      rw (get, r.get-found (encode_key key) v db found, found) refl,
      r.entries-release db,
    )
    | inl missing ↦
        let (e, failed, not_found) = r.get-missing (encode_key key) db missing in
        (db, rw (get, failed, not_found, missing) refl, refl)
  ]

  -- On an engine whose calls succeed, after `Insert` of an `int64` key, `Get` returns the bytes of the value under that key, also if it is nil,
  -- and under any other key what the index had there before.
  pub insert-get :
      (key k : ℤ) (value : Value) (db : Db)
      → IsInt64 key
      → IsInt64 k
      → (db' db'' : Db) × (insert engine key value db ≡ done tt db')
        × (get engine k db'
            ≡ done (if eqb_ℤ key k then some (bytes_of value) else content db k) db'')
  unfolding insert
  insert-get key k value db h g =
      let (db', e, after) = r.set-ok (encode_key key) value db in
      let (db'', e', _) = get-content k db' in
      let now = after (encode_key k) in
      (db', db'', rw e refl, e' ∙ ap (λ v. done v db'') (now ∙ rw (same_key key k h g) refl))

  -- On an engine whose calls succeed, after `Delete` of an `int64` key, `Get` returns nil under that key, and under any other key what the index
  -- had there before.
  pub delete-get :
      (key k : ℤ) (db : Db)
      → IsInt64 key
      → IsInt64 k
      → (db' db'' : Db) × (delete engine key db ≡ done tt db')
        × (get engine k db' ≡ done (if eqb_ℤ key k then none else content db k) db'')
  unfolding delete
  delete-get key k db h g =
      let (db', e, after) = r.delete-ok (encode_key key) db in
      let (db'', e', _) = get-content k db' in
      let now = after (encode_key k) in
      (db', db'', rw e refl, e' ∙ ap (λ v. done v db'') (now ∙ rw (same_key key k h g) refl))
