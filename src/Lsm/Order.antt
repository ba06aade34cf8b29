-- ===== src/Lsm/Order.antt =====
-- How the encoded keys compare.
use Prim.Native.Nat.{compare, Ordering, Ordering.lt, Ordering.eq, Ordering.gt}
use db_index_performance_eva.Base.{
  ℕ, zero, suc, ◌+◌, ◌*◌, ◌/◌, ◌%◌, ◌^◌, ◌<◌, ◌≡◌, ◌∙◌, sym, refl, ap, ◌&&◌, Bool, true, false, [],
  ◌∷◌, ◌++◌, arith, length, length-append, ℤ, pos, negsuc, leb_ℤ, ◌≤ℤ◌, ◌<ℤ◌,
}
use native.Mathlib.Nat.{pow-suc}
use db_index_performance_eva.Bytes.{Bytes, to_u64, to_i64}
use db_index_performance_eva.Bytes.Words.{IsInt64, to_u64-lt, to_i64-to_u64}
use db_index_performance_eva.Lsm.{
  be_bytes, be_value, encode_key, add_one, encode_key_exclusive, decode_key,
}

-- `bytes.Compare`: the first byte that differs decides, and a proper prefix comes first.
unfoldable pub bytes_compare : Bytes → Bytes → Ordering
bytes_compare [] [] = eq
bytes_compare [] (b ∷ bs) = lt
bytes_compare (a ∷ as_) [] = gt
bytes_compare (a ∷ as_) (b ∷ bs) =
    let rest = bytes_compare as_ bs in elim (compare a b) [ lt ↦ lt | eq ↦ rest | gt ↦ gt ]

abbrev and_then : Ordering → Ordering → Ordering
and_then lt o = lt
and_then eq o = o
and_then gt o = gt

bytes_compare-append_one :
    (xs ys : Bytes) (a b : ℕ)
    → length xs ≡ length ys
    → bytes_compare (xs ++ (a ∷ [])) (ys ++ (b ∷ [])) ≡ and_then (bytes_compare xs ys) (compare a b)
unfolding bytes_compare
bytes_compare-append_one [] [] a b h = ground arith
bytes_compare-append_one [] (y ∷ ys) a b h = absurd (omega arith)
bytes_compare-append_one (x ∷ xs) [] a b h = absurd (omega arith)
bytes_compare-append_one (x ∷ xs) (y ∷ ys) a b h =
    ground (arith, bytes_compare-append_one xs ys a b (omega arith))

pub length-be_bytes : (k v : ℕ) → length (be_bytes k v) ≡ k
unfolding be_bytes
length-be_bytes zero v = refl
length-be_bytes (suc k) v =
    omega (arith, length-append (be_bytes k (v / 256)) (v % 256 ∷ []), length-be_bytes k (v / 256))

compare_digits :
    (a b : ℕ) → and_then (compare (a / 256) (b / 256)) (compare (a % 256) (b % 256)) ≡ compare a b
compare_digits a b = ground arith

-- Big-endian bytes compare as the numbers that they encode.
bytes_compare-be_bytes :
    (k a b : ℕ)
    → a < 256 ^ k
    → b < 256 ^ k
    → bytes_compare (be_bytes k a) (be_bytes k b) ≡ compare a b
unfolding be_bytes
bytes_compare-be_bytes zero a b h g = unfold bytes_compare in ground arith
bytes_compare-be_bytes (suc k) a b h g =
    bytes_compare-append_one (be_bytes k (a / 256)) (be_bytes k (b / 256)) (a % 256) (b % 256)
      (length-be_bytes k (a / 256) ∙ sym (length-be_bytes k (b / 256)))
    ∙ ap (λ o. and_then o (compare (a % 256) (b % 256)))
        (bytes_compare-be_bytes k (a / 256) (b / 256) (omega (arith, pow-suc 256 k))
          (omega (arith, pow-suc 256 k)))
    ∙ compare_digits a b

-- The order of numbers, but with the negative ones behind the others.
abbrev pub KeyOrder : ℤ → ℤ → Ordering
KeyOrder (pos a) (pos b) = compare a b
KeyOrder (pos a) (negsuc b) = lt
KeyOrder (negsuc a) (pos b) = gt
KeyOrder (negsuc a) (negsuc b) = compare b a

compare-to_u64 : (a b : ℤ) → IsInt64 a → IsInt64 b → compare (to_u64 a) (to_u64 b) ≡ KeyOrder a b
unfolding to_u64
compare-to_u64 (pos a) (pos b) h g = ground arith
compare-to_u64 (pos a) (negsuc b) h g = ground arith
compare-to_u64 (negsuc a) (pos b) h g = ground arith
compare-to_u64 (negsuc a) (negsuc b) h g = ground arith

bytes_compare-unsigned :
    (a b : ℤ) → bytes_compare (encode_key a) (encode_key b) ≡ compare (to_u64 a) (to_u64 b)
unfolding encode_key
bytes_compare-unsigned a b =
    bytes_compare-be_bytes 8 (to_u64 a) (to_u64 b) (to_u64-lt a) (to_u64-lt b)

-- The encodings of two `int64` keys compare like the keys if both are negative or neither is, and a
-- negative key's encoding comes behind that of any other key.
pub bytes_compare-encode_key :
    (a b : ℤ) → IsInt64 a → IsInt64 b → bytes_compare (encode_key a) (encode_key b) ≡ KeyOrder a b
bytes_compare-encode_key a b h g = bytes_compare-unsigned a b ∙ compare-to_u64 a b h g

be_value-append :
    (xs : Bytes) (b acc : ℕ) → be_value acc (xs ++ (b ∷ [])) ≡ be_value acc xs * 256 + b
unfolding be_value
be_value-append [] b acc = refl
be_value-append (x ∷ xs) b acc = be_value-append xs b (acc * 256 + x)

be_value-be_bytes : (k v : ℕ) → v < 256 ^ k → be_value 0 (be_bytes k v) ≡ v
unfolding be_bytes
be_value-be_bytes zero v h = unfold be_value in omega arith
be_value-be_bytes (suc k) v h =
    be_value-append (be_bytes k (v / 256)) (v % 256) 0
    ∙ omega (arith, be_value-be_bytes k (v / 256) (omega (arith, pow-suc 256 k)))

-- The iterator decodes the key that an insertion encoded.
pub decode_key-encode_key : (k : ℤ) → IsInt64 k → decode_key (encode_key k) ≡ k
unfolding decode_key encode_key
decode_key-encode_key k h = rw (be_value-be_bytes 8 (to_u64 k) (to_u64-lt k)) (to_i64-to_u64 k h)

abbrev pub not_lt : Ordering → Bool
not_lt lt = false
not_lt _ = true

abbrev pub is_lt : Ordering → Bool
is_lt lt = true
is_lt _ = false

-- Whether an encoded key lies between the bounds that `Range` hands to the storage engine, the lower
-- one included and the upper one not, in the order of bytes.
abbrev pub in_bounds : ℤ → ℤ → ℤ → Bool
in_bounds start end_key k =
    not_lt (bytes_compare (encode_key k) (encode_key start))
    && is_lt (bytes_compare (encode_key k) (encode_key_exclusive end_key))

visits : ℤ → ℤ → ℤ → Bool
visits start end_key k =
    not_lt (compare (to_u64 k) (to_u64 start))
    && is_lt (compare (to_u64 k) (to_u64 (add_one end_key)))

in_bounds-visits : (start end_key k : ℤ) → in_bounds start end_key k ≡ visits start end_key k
unfolding visits encode_key_exclusive
in_bounds-visits start end_key k =
    rw (bytes_compare-unsigned k start, bytes_compare-unsigned k (add_one end_key))

-- If neither end of a range is negative, the keys between its encoded bounds are exactly the `int64`
-- keys from the one end to the other, both included; so also where the end is the largest `int64`
-- and the bound wraps around.
pub in_bounds-nonneg :
    (start end_key k : ℤ)
    → IsInt64 start
    → IsInt64 end_key
    → IsInt64 k
    → pos 0 ≤ℤ start
    → pos 0 ≤ℤ end_key
    → in_bounds start end_key k ≡ (leb_ℤ start k && leb_ℤ k end_key)
in_bounds-nonneg (pos a) (pos b) (pos c) h g f p q =
    in_bounds-visits (pos a) (pos b) (pos c) ∙ unfold visits add_one to_u64 to_i64 in ground arith
in_bounds-nonneg (pos a) (pos b) (negsuc c) h g f p q =
    in_bounds-visits (pos a) (pos b) (negsuc c)
    ∙ unfold visits add_one to_u64 to_i64 in ground arith
in_bounds-nonneg (negsuc a) b c h g f p q = absurd (omega arith)
in_bounds-nonneg a (negsuc b) c h g f p q = absurd (omega arith)

-- For a range from a negative key to a key of at least -1, no `int64` key lies between the encoded
-- bounds, not even those in the range.
pub in_bounds-mixed :
    (start end_key k : ℤ)
    → IsInt64 start
    → IsInt64 end_key
    → IsInt64 k
    → start <ℤ pos 0
    → negsuc 0 ≤ℤ end_key
    → in_bounds start end_key k ≡ false
in_bounds-mixed start end_key k h g f p q =
    in_bounds-visits start end_key k ∙ unfold visits add_one to_u64 to_i64 in ground arith
