-- ===== src/Lsm/Engine.antt =====
-- The methods of LSM in src/dbms/index/lsm/lsm.go, over the storage engine Pebble, a package of its
-- own, which is a parameter here: a database is a value of `Db`, an iterator over it one of `Iter`,
-- and an error one of `E`. `Levels`, a text for log files, is left out.
use db_index_performance_eva.Base.{
  ℕ, ◌*◌, ◌%◌, ◌^◌, Bool, true, false, Option, none, some, length, ◌==◌, if◌then◌else◌, ℤ, pos,
}
use db_index_performance_eva.Base.State.{Run, done, fail, panicked, stuck, and_then}
use db_index_performance_eva.Bytes.{Bytes, to_u64, to_i64}
use db_index_performance_eva.Accessor.{Value}
use db_index_performance_eva.Lsm.{encode_key, encode_key_exclusive, decode_key}

-- What the code calls of the package. `get` returns bytes that are the engine's until `release`, the
-- closer's `Close`.
pub record Pebble (Db Iter E : Type 0) : Type 0 where
  pub set : Bytes → Value → Db → Run E Db (Unit {0})
  pub get : Bytes → Db → Run E Db Bytes
  pub release : Db → Db
  pub delete : Bytes → Db → Run E Db (Unit {0})
  pub is_not_found : E → Bool
  pub new_iter : Bytes → Bytes → Db → Run E Db Iter
  pub first : Iter → Iter
  pub valid : Iter → Bool
  pub next : Iter → Iter × Bool
  pub key : Iter → Bytes
  pub value : Iter → Bytes
  pub close_iter : Iter → Db → Run E Db (Unit {0})
  pub close : Db → Run E Db (Unit {0})

pub data Error (E : Type 0) : Type 0 where
  plain : E → Error E
  opening : E → Error E
  getting : E → Error E
  deleting : E → Error E
  ranging : E → Error E
  key_length : ℕ → Error E

-- An error of the engine, passed on in another one.
abbrev pub rethrow : {S E A : Type 0} → (E → Error E) → Run E S A → Run (Error E) S A
rethrow f (done a s) = done a s
rethrow f (fail e s) = fail (f e) s
rethrow f panicked = panicked
rethrow f stuck = stuck

-- The options of `pebble.Open` that the code sets.
pub record Options : Type 0 where
  pub disable_wal : Bool
  pub mem_table_size : ℕ

-- `memSize * 1024 * 1024`, which wraps around, as an unsigned number.
unfoldable pub target_size : ℤ → ℕ
target_size mem_size = to_u64 (to_i64 (to_u64 mem_size * 2 ^ 20 % 2 ^ 64))

unfoldable pub open_lsm :
    {S E Db : Type 0} → (Options → S → Run E S Db) → ℤ → S → Run (Error E) S Db
open_lsm open_db mem_size s =
    rethrow opening
      (open_db (record { disable_wal = true; mem_table_size = target_size mem_size }) s)

pub record RangeIterator (Iter E : Type 0) : Type 0 where
  pub iter : Iter
  pub first : Bool
  pub k : ℤ
  pub val : Value
  pub err : Option (Error E)

module _ {Db Iter E : Type 0} (engine : Pebble Db Iter E) where
  unfoldable pub close : Db → Run (Error E) Db (Unit {0})
  close db = rethrow plain (engine.close db)

  unfoldable pub insert : ℤ → Value → Db → Run (Error E) Db (Unit {0})
  insert key value db = rethrow plain (engine.set (encode_key key) value db)

  -- The value is copied before it is released.
  unfoldable pub get : ℤ → Db → Run (Error E) Db Value
  get key db = elim (engine.get (encode_key key) db) [
    | done v db ↦ done (some v) (engine.release db)
    | fail e db ↦ if engine.is_not_found e then done none db else fail (getting e) db
    | panicked ↦ panicked
    | stuck ↦ stuck
  ]

  unfoldable pub delete : ℤ → Db → Run (Error E) Db (Unit {0})
  delete key db = rethrow deleting (engine.delete (encode_key key) db)

  unfoldable pub range : ℤ → ℤ → Db → Run (Error E) Db (RangeIterator Iter E)
  range start end_key db =
      and_then
        (rethrow ranging (engine.new_iter (encode_key start) (encode_key_exclusive end_key) db))
        λ it.
          done (record { iter = engine.first it; first = true; k = pos 0; val = none; err = none })

  -- The engine's iterator after the step that `Next` makes, and whether it has a pair.
  unfoldable pub step : RangeIterator Iter E → Iter × Bool
  step it = if it.first then (it.iter, engine.valid it.iter) else engine.next it.iter

  -- The pair at a valid iterator.
  unfoldable pub take_pair : RangeIterator Iter E → RangeIterator Iter E × Bool
  take_pair it =
      let key = engine.key it.iter in
      if length key == 8
      then (record it { k = decode_key key; val = some (engine.value it.iter) }, true)
      else (record it { err = some (key_length (length key)) }, false)

  unfoldable pub next : RangeIterator Iter E → RangeIterator Iter E × Bool
  next it =
      let (i, valid) = step it in
      let moved = record it { iter = i; first = false } in
      if valid then take_pair moved else (moved, false)

  unfoldable pub close_iterator : RangeIterator Iter E → Db → Run (Error E) Db (Unit {0})
  close_iterator it db = rethrow plain (engine.close_iter it.iter db)
