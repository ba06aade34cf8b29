-- ===== src/Bench/RangeSizes.antt =====
-- The sizes and the ends of the range queries of RunBenchmarkT2 in src/bench/tests.go.
use db_index_performance_eva.Base.{
  ℕ, zero, suc, ◌+◌, ◌-◌, ◌*◌, ◌/◌, ◌≤◌, ◌<◌, ◌≡◌, refl, ap, ◌∙◌, ◌&&◌, some, true, false,
  Bool-cases, inl, inr, List, [], ◌∷◌, arith, All, get_elem?, leb, ℤ, pos,
}
use db_index_performance_eva.Base.Go.{Go, ok, out_of_fuel, ◌>>=◌}
use db_index_performance_eva.Bench.Dataset.{ordered_keys, elem_at}

-- The loop that doubles the size, from the size `s` on; `n` is the number of keys, below 2 ^ 62, so that
-- the doubled size of a query does not wrap around.
unfoldable pub range_sizes : ℕ → ℕ → ℕ → ℕ → Go (List ℕ)
range_sizes zero s max n = out_of_fuel
range_sizes (suc fuel) s max n =
    let rest = range_sizes fuel (s * 2) max n in
    elim (leb s max && leb s n) [ true ↦ rest >>= (λ sizes. ok (s ∷ sizes)) | false ↦ ok [] ]

-- The ends of the query of a size, in the middle of the keys.
unfoldable pub range_ends : List ℤ → ℕ → ℕ → Go (ℤ × ℤ)
range_ends sorted n size = do
  let mid = (n - size) / 2
  start_key ← elem_at sorted mid
  end_key ← elem_at sorted (mid + size - 1)
  ok (start_key, end_key)

get-ordered_keys : (n i j : ℕ) → j < n → get_elem? (ordered_keys n i) j ≡ some (pos (i + j + 1))
unfolding ordered_keys
get-ordered_keys zero i j h = absurd (omega arith)
get-ordered_keys (suc n) i zero h = ap (λ k. some (pos k)) (omega arith)
get-ordered_keys (suc n) i (suc j) h =
    get-ordered_keys n (i + 1) j (omega arith) ∙ ap (λ k. some (pos k)) (omega arith)

range_ends-ordered_keys :
    (n size : ℕ)
    → 0 < size
    → size ≤ n
    → range_ends (ordered_keys n 0) n size
      ≡ ok (pos ((n - size) / 2 + 1), pos ((n - size) / 2 + size))
unfolding range_ends
range_ends-ordered_keys n size some_keys h =
    let mid = (n - size) / 2 in
    let last : 0 + (mid + size - 1) + 1 ≡ mid + size = omega arith in
    let first : 0 + mid + 1 ≡ mid + 1 = omega arith in
    rw
      (
        range_ends,
        elem_at,
        get-ordered_keys n 0 mid (omega arith),
        elem_at,
        get-ordered_keys n 0 (mid + size - 1) (omega arith),
        last,
        first,
      )
      refl

-- Every size of a loop that starts above 0 is met by a query of just that many keys.
abbrev pub IsQuery : ℕ → ℕ → Type 0
IsQuery n size =
    (0 < size)
    × (range_ends (ordered_keys n 0) n size
        ≡ ok (pos ((n - size) / 2 + 1), pos ((n - size) / 2 + size)))

range_sizes_go :
    (fuel s max n : ℕ)
    → 0 < s
    → n < fuel + s
    → (sizes : List ℕ) × (range_sizes (suc fuel) s max n ≡ ok sizes) × All (IsQuery n) sizes
unfolding range_sizes
range_sizes_go zero s max n p h =
    let out : (leb s max && leb s n) ≡ false = ground arith in ([], rw (range_sizes, out) refl, tt)
range_sizes_go (suc fuel) s max n p h = elim (Bool-cases (leb s max && leb s n)) [
  | inr out ↦ ([], rw (range_sizes, out) refl, tt)
  | inl inside ↦
      let le : s ≤ n = ground arith in
      let (sizes, e, queries) = range_sizes_go fuel (s * 2) max n (omega arith) (omega arith) in
      (
        s ∷ sizes,
        rw (range_sizes, inside, e) refl,
        ((p, range_ends-ordered_keys n s p le), queries),
      )
]

-- If the first size is above 0, the loop ends, within one round more than there are keys; for each
-- size the query on the keys from 1 to n has its ends within them, and that many keys between them.
pub range_sizes-IsQuery :
    (s max n : ℕ)
    → 0 < s
    → (sizes : List ℕ) × (range_sizes (suc n) s max n ≡ ok sizes) × All (IsQuery n) sizes
range_sizes-IsQuery s max n p = range_sizes_go n s max n p (omega arith)

-- From a first size of 0, the loop never ends.
range_sizes_zero : (fuel max n : ℕ) → range_sizes fuel 0 max n ≡ out_of_fuel
unfolding range_sizes
range_sizes_zero zero max n = refl
range_sizes_zero (suc fuel) max n = ground (arith, range_sizes_zero fuel max n)
