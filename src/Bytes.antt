-- ===== src/Bytes.antt =====
-- Byte slices as lists of numbers, and the parts of encoding/binary that the repository calls.
-- A read or write of `p[o : o+n]` panics beyond the end of the slice; `copy` stops there.
pub mod Frame
pub mod Words
use db_index_performance_eva.Base.{
  ℕ, zero, suc, ◌+◌, ◌-◌, ◌*◌, ◌/◌, ◌%◌, ◌^◌, List, [], ◌∷◌, ◌++◌, ltb, leb, if◌then◌else◌, length,
  take, drop, ℤ, pos, negsuc,
}
use db_index_performance_eva.Base.Go.{Go, ok, panic, ◌>>=◌}

abbrev pub Bytes : Type 0
Bytes = List ℕ

-- `copy(p, bs)`
unfoldable pub overlay : Bytes → Bytes → Bytes
overlay [] bs = []
overlay (x ∷ p) [] = x ∷ p
overlay (x ∷ p) (b ∷ bs) = b ∷ overlay p bs

-- `copy(p[o:], bs)`, for `o` within `p`
unfoldable pub copy_at : Bytes → ℕ → Bytes → Bytes
copy_at p zero bs = overlay p bs
copy_at [] (suc o) bs = []
copy_at (x ∷ p) (suc o) bs = x ∷ copy_at p o bs

-- `p[o : o+n]`
unfoldable pub slice : Bytes → ℕ → ℕ → Go Bytes
slice p o n = if leb (o + n) (length p) then ok (take n (drop o p)) else panic

-- A write of all of `bs` to `p[o : o+len(bs)]`
unfoldable pub store : Bytes → ℕ → Bytes → Go Bytes
store p o bs = if leb (o + length bs) (length p) then ok (copy_at p o bs) else panic

-- `copy(p[o:], bs)`
unfoldable pub copy_from : Bytes → ℕ → Bytes → Go Bytes
copy_from p o bs = if leb o (length p) then ok (copy_at p o bs) else panic

-- The `k` bytes of a number, the lowest first; higher ones are dropped.
unfoldable pub le_bytes : ℕ → ℕ → Bytes
le_bytes zero v = []
le_bytes (suc k) v = v % 256 ∷ le_bytes k (v / 256)

unfoldable pub le_value : Bytes → ℕ
le_value [] = 0
le_value (b ∷ bs) = b + 256 * le_value bs

-- `binary.LittleEndian.Uint16(p[o:o+2])` and its like for `n` bytes
unfoldable pub get_uint : ℕ → Bytes → ℕ → Go ℕ
get_uint n p o = do bs ← slice p o n; ok (le_value bs)

-- `binary.LittleEndian.PutUint16(p[o:o+2], v)` and its like for `n` bytes
unfoldable pub put_uint : ℕ → Bytes → ℕ → ℕ → Go Bytes
put_uint n p o v = store p o (le_bytes n v)

-- The conversions of an `int` to `uint16` and of an `int64` to `uint64`, which keep the low bits.
unfoldable pub to_u16 : ℤ → ℕ
to_u16 (pos n) = n % 2 ^ 16
to_u16 (negsuc n) = 2 ^ 16 - 1 - n % 2 ^ 16

unfoldable pub to_u64 : ℤ → ℕ
to_u64 (pos n) = n % 2 ^ 64
to_u64 (negsuc n) = 2 ^ 64 - 1 - n % 2 ^ 64

-- The conversion of a `uint64` to `int64`.
unfoldable pub to_i64 : ℕ → ℤ
to_i64 w = if ltb w (2 ^ 63) then pos w else negsuc (2 ^ 64 - 1 - w)
