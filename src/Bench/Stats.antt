-- ===== src/Bench/Stats.antt =====
-- The statistics of src/bench/tests.go: `avg` and `pct`, over response times.
use db_index_performance_eva.Base.{
  ℕ, zero, suc, ◌+◌, ◌-◌, ◌*◌, ◌/◌, ◌%◌, ◌^◌, ◌≤◌, ◌<◌, ◌≡◌, refl, some, List, [], ◌∷◌, arith, All,
  length, get_elem?, ap, Bool, le→leb, lt→leb, ◌⊎◌, inl, inr, ltb_ℤ, leb_ℤ, get_elem?-some, ◌==◌,
  if◌then◌else◌, ℤ, pos, negsuc, ◌≤ℤ◌,
}
use native.Mathlib.Decide.{dec_le}
use native.Mathlib.Nat.{mul-le-mul_right}
use db_index_performance_eva.Base.Go.{Go, ok, panic}
use db_index_performance_eva.Bytes.{to_u64, to_i64}
use db_index_performance_eva.Bench.Dataset.{elem_at}
use db_index_performance_eva.Bench.Keys.{IsSorted}

-- The sum of `int64` numbers, which wraps around.
unfoldable pub sum_from : ℤ → List ℤ → ℤ
sum_from s [] = s
sum_from s (v ∷ vs) = sum_from (to_i64 ((to_u64 s + to_u64 v) % 2 ^ 64)) vs

-- Division by a number that is not zero rounds towards zero.
abbrev pub divide : ℤ → ℕ → ℤ
divide (pos a) n = pos (a / n)
divide (negsuc a) n = let q = (a + 1) / n in if q == 0 then pos 0 else negsuc (q - 1)

unfoldable pub avg : List ℤ → Go ℤ
avg xs = if length xs == 0 then panic else ok (divide (sum_from (pos 0) xs) (length xs))

-- An index below 0 is out of range.
abbrev pub int_at : List ℤ → ℤ → Go ℤ
int_at xs (pos i) = elem_at xs i
int_at xs (negsuc i) = panic

-- A length minus one.
abbrev pub pred_ℤ : ℕ → ℤ
pred_ℤ zero = negsuc 0
pred_ℤ (suc n) = pos n

-- The index of `pct`, whose product wraps around.
unfoldable pub pct_index : ℕ → ℤ → ℤ
pct_index n p =
    let i = divide (to_i64 (to_u64 p * n % 2 ^ 64)) 100 in if leb_ℤ (pos n) i then pred_ℤ n else i

unfoldable pub pct : List ℤ → ℤ → Go ℤ
pct xs p = int_at xs (pct_index (length xs) p)

All-get :
    (x : ℤ) (xs : List ℤ) (j : ℕ) (w : ℤ) → All (λ k. x ≤ℤ k) xs → get_elem? xs j ≡ some w → x ≤ℤ w
All-get x [] j w a e = cc
All-get x (y ∷ xs) zero w a e = ground (arith, a.0)
All-get x (y ∷ xs) (suc j) w a e = All-get x xs j w a.1 e

-- How many of the times are below `v`, and how many are not above it.
abbrev pub below : ℤ → List ℤ → ℕ
below v [] = 0
below v (x ∷ xs) = let n = below v xs in if ltb_ℤ x v then suc n else n

abbrev pub up_to : ℤ → List ℤ → ℕ
up_to v [] = 0
up_to v (x ∷ xs) = let n = up_to v xs in if leb_ℤ x v then suc n else n

below-All : (v : ℤ) (xs : List ℤ) → All (λ k. v ≤ℤ k) xs → below v xs ≡ 0
below-All v [] a = refl
below-All v (x ∷ xs) a = ground (arith, a.0, below-All v xs a.1)

below-le : (xs : List ℤ) (i : ℕ) (v : ℤ) → IsSorted xs → get_elem? xs i ≡ some v → below v xs ≤ i
below-le [] i v s e = cc
below-le (x ∷ xs) zero v s e = ground (arith, below-All x xs s.0)
below-le (x ∷ xs) (suc i) v s e = ground (arith, below-le xs i v s.1 e)

up_to-lt : (xs : List ℤ) (i : ℕ) (v : ℤ) → IsSorted xs → get_elem? xs i ≡ some v → i < up_to v xs
up_to-lt [] i v s e = cc
up_to-lt (x ∷ xs) zero v s e = ground arith
up_to-lt (x ∷ xs) (suc i) v s e = ground (arith, up_to-lt xs i v s.1 e, All-get x xs i v s.0 e)

up_to-le : (v : ℤ) (xs : List ℤ) → up_to v xs ≤ length xs
up_to-le v [] = omega arith
up_to-le v (x ∷ xs) = ground (arith, up_to-le v xs)

int_at-ok : (xs : List ℤ) (i : ℕ) (v : ℤ) → get_elem? xs i ≡ some v → int_at xs (pos i) ≡ ok v
int_at-ok xs i v h = rw (elem_at, h) refl

-- One of the times, such that at most `p` per cent of them are below it, and more than `p` per cent,
-- or from 100 on all of them, are not above it.
abbrev pub IsPercentile : List ℤ → ℕ → ℤ → Type 0
IsPercentile xs p v =
    (below v xs < up_to v xs)
    × (below v xs * 100 ≤ p * length xs)
    × ((p * length xs < up_to v xs * 100) ⊎ ((100 ≤ p) × (up_to v xs ≡ length xs)))

unwrapped : (n p : ℕ) → 0 < n → p * n < 2 ^ 63 → to_u64 (pos p) * n % 2 ^ 64 ≡ p * n
unfolding to_u64
unwrapped n p some_times small =
    let le : p ≤ p * n = grind arith in
    let same : p % 2 ^ 64 ≡ p = omega arith in rw same (omega arith)

divide-to_i64 : (m : ℕ) → m < 2 ^ 63 → divide (to_i64 m) 100 ≡ pos (m / 100)
unfolding to_i64
divide-to_i64 m small = ground arith

hundred : (n p : ℕ) → 0 < n → n * 100 ≤ p * n → 100 ≤ p
hundred n p some_times h = elim (dec_le 100 p) [
  | yes le ↦ le
  | no less ↦ let small : p * n ≤ 99 * n = mul-le-mul_right n (omega arith) in absurd (omega arith)
]

-- Without an overflow the index is the quotient, or the last one.
pct_index-pos :
    (n p : ℕ)
    → 0 < n
    → p * n < 2 ^ 63
    → (i : ℕ) × (pct_index n (pos p) ≡ pos i)
      × (i < n)
      × (i * 100 ≤ p * n)
      × ((p * n < (i + 1) * 100) ⊎ ((100 ≤ p) × (suc i ≡ n)))
unfolding pct_index
pct_index-pos zero p some_times small = absurd (omega arith)
pct_index-pos (suc m) p some_times small =
    let n = suc m in
    rw (unwrapped n p some_times small, divide-to_i64 (p * n) small)
      (elim (dec_le n (p * n / 100)) [
        | yes past ↦ (
          m,
          ap (λ (b : Bool). if b then pos m else pos (p * n / 100))
              (le→leb (n + 0) (p * n / 100 + 0) (omega arith)),
          omega arith,
          omega arith,
          inr (hundred n p some_times (omega arith), refl),
        )
        | no within ↦ (
          p * n / 100,
          ap (λ (b : Bool). if b then pos m else pos (p * n / 100))
              (lt→leb (n + 0) (p * n / 100 + 0) (omega arith)),
          omega arith,
          omega arith,
          inl (omega arith),
        )
      ])

-- On sorted times that are not empty, and for a percentage whose product with their number is below
-- 2 ^ 63, `pct` returns one of the times: at most that percentage of them are below it, and more than
-- that percentage, or from 100 on all of them, are not above it.
pub pct-IsPercentile :
    (xs : List ℤ) (p : ℕ)
    → IsSorted xs
    → 0 < length xs
    → p * length xs < 2 ^ 63
    → (v : ℤ) × (pct xs (pos p) ≡ ok v) × IsPercentile xs p v
unfolding pct
pct-IsPercentile xs p s some_times small =
    let (i, e, inside, low, high) = pct_index-pos (length xs) p some_times small in
    let (v, f) = get_elem?-some xs i inside in
    let under = below-le xs i v s f in
    let over = up_to-lt xs i v s f in
    (
      v,
      rw e (int_at-ok xs i v f),
      (
        omega arith,
        omega arith,
        elim high [
          | inl more ↦ inl (omega arith)
          | inr (full, last) ↦ inr (full, omega (arith, up_to-le v xs))
        ],
      ),
    )
