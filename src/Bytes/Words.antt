-- ===== src/Bytes/Words.antt =====
-- Little-endian words: what is written is read back, and conversions of signed integers.
use native.Mathlib.Nat.{pow-suc}
use db_index_performance_eva.Base.{
  ℕ, zero, suc, ◌+◌, ◌-◌, ◌/◌, ◌^◌, ◌≤◌, ◌<◌, ◌≡◌, refl, ap, arith, length, ℤ, pos, negsuc, ◌≤ℤ◌,
  ◌<ℤ◌,
}
use db_index_performance_eva.Base.Go.{ok}
use db_index_performance_eva.Bytes.{
  Bytes, copy_at, le_bytes, le_value, get_uint, put_uint, to_u16, to_u64, to_i64,
}
use db_index_performance_eva.Bytes.Frame.{
  Apart, SameOutside, SameOutside-copy_at, slice-copy_at_self, store-ok,
}

pub length-le_bytes : (k v : ℕ) → length (le_bytes k v) ≡ k
unfolding le_bytes
length-le_bytes zero v = refl
length-le_bytes (suc k) v = ap suc (length-le_bytes k (v / 256))

pub le_value-le_bytes : (k v : ℕ) → v < 256 ^ k → le_value (le_bytes k v) ≡ v
unfolding le_bytes le_value
le_value-le_bytes zero v h = omega arith
le_value-le_bytes (suc k) v h =
    omega (arith, le_value-le_bytes k (v / 256) (omega (arith, pow-suc 256 k)))

-- A word outside the region that changed is as it was.
pub get_uint-same :
    {p p' : Bytes} {w m : ℕ} (n o : ℕ)
    → SameOutside p p' w m
    → Apart o n w m
    → get_uint n p' o ≡ get_uint n p o
unfolding get_uint
get_uint-same n o s h = rw (s.same o n h)

-- A write of a word within the slice changes the word alone, and it is read back.
pub put_uint_lem :
    (n : ℕ) (p : Bytes) (o v : ℕ)
    → o + n ≤ length p
    → v < 256 ^ n
    → (p' : Bytes) × (put_uint n p o v ≡ ok p') × SameOutside p p' o n × (get_uint n p' o ≡ ok v)
unfolding put_uint get_uint
put_uint_lem n p o v h b =
    let size : length (le_bytes n v) ≡ n = length-le_bytes n v in
    let fits : o + length (le_bytes n v) ≤ length p = omega arith in
    (
      copy_at p o (le_bytes n v),
      store-ok p o (le_bytes n v) fits,
      rw size at (SameOutside-copy_at p o (le_bytes n v)),
      rw (slice-copy_at_self p o n (le_bytes n v) size h) (ap ok (le_value-le_bytes n v b)),
    )

abbrev pub IsInt64 : ℤ → Type 0
IsInt64 k = (negsuc (2 ^ 63 - 1) ≤ℤ k) × (k <ℤ pos (2 ^ 63))

pub to_u64-lt : (k : ℤ) → to_u64 k < 2 ^ 64
unfolding to_u64
to_u64-lt k = ground arith

-- An int64 survives the conversion to uint64 and back.
pub to_i64-to_u64 : (k : ℤ) → IsInt64 k → to_i64 (to_u64 k) ≡ k
unfolding to_u64 to_i64
to_i64-to_u64 k h = ground arith

pub to_u16-pos : (n : ℕ) → n < 2 ^ 16 → to_u16 (pos n) ≡ n
unfolding to_u16
to_u16-pos n h = omega arith
