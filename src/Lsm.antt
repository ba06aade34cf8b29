-- ===== src/Lsm.antt =====
-- The index of src/dbms/index/lsm/lsm.go: the child Engine has its operations, over the storage engine
-- Pebble; here is the key encoding: keys as eight bytes, the highest first, which the
-- engine compares byte by byte.
pub mod Order
pub mod Engine
pub mod Store
pub mod Scan
use db_index_performance_eva.Base.{ℕ, zero, suc, ◌+◌, ◌*◌, ◌/◌, ◌%◌, ◌^◌, [], ◌∷◌, ◌++◌, ℤ}
use db_index_performance_eva.Bytes.{Bytes, to_u64, to_i64}

-- The `k` bytes of a number, the lowest last; higher ones are dropped.
unfoldable pub be_bytes : ℕ → ℕ → Bytes
be_bytes zero v = []
be_bytes (suc k) v = be_bytes k (v / 256) ++ (v % 256 ∷ [])

unfoldable pub be_value : ℕ → Bytes → ℕ
be_value acc [] = acc
be_value acc (b ∷ bs) = be_value (acc * 256 + b) bs

unfoldable pub encode_key : ℤ → Bytes
encode_key k = be_bytes 8 (to_u64 k)

-- `k + 1` of an `int64`, which wraps around.
unfoldable pub add_one : ℤ → ℤ
add_one k = to_i64 ((to_u64 k + 1) % 2 ^ 64)

unfoldable pub encode_key_exclusive : ℤ → Bytes
encode_key_exclusive k = encode_key (add_one k)

-- What `Next` makes of an eight-byte key.
unfoldable pub decode_key : Bytes → ℤ
decode_key bs = to_i64 (be_value 0 bs)
