-- ===== src/Bench/Shuffle.antt =====
-- The swaps of keys that `rng.Shuffle` makes in `NewDataset` of src/bench/dataset.go.
use db_index_performance_eva.Base.{
  ℕ, zero, suc, ◌+◌, ◌<◌, ◌≡◌, refl, ◌∙◌, some, List, [], ◌∷◌, arith, All, length, length-set, set,
  get_elem?, get_elem?-some, if◌then◌else◌, ℤ, eqb_ℤ,
}
use db_index_performance_eva.Base.Go.{ok}
use db_index_performance_eva.Bench.Dataset.{swap_keys, shuffle_keys, elem_at}

abbrev pub count : ℤ → List ℤ → ℕ
count k [] = 0
count k (x ∷ xs) = let n = count k xs in if eqb_ℤ x k then suc n else n

-- The number of times that `k` is in a list of the one element `x`.
abbrev one : ℤ → ℤ → ℕ
one k x = if eqb_ℤ x k then 1 else 0

count-set :
    (k : ℤ) (xs : List ℤ) (i : ℕ) (a b : ℤ)
    → get_elem? xs i ≡ some b
    → count k (set xs i a) + one k b ≡ count k xs + one k a
count-set k [] i a b h = cc
count-set k (x ∷ xs) zero a b h = ground arith
count-set k (x ∷ xs) (suc i) a b h = ground (arith, count-set k xs i a b h)

-- A place still has its element after a write of the same element.
get_elem?-set_same :
    (xs : List ℤ) (i j : ℕ) (a : ℤ) → get_elem? xs j ≡ some a → get_elem? (set xs i a) j ≡ some a
get_elem?-set_same [] i j a h = h
get_elem?-set_same (x ∷ xs) zero zero a h = refl
get_elem?-set_same (x ∷ xs) zero (suc j) a h = h
get_elem?-set_same (x ∷ xs) (suc i) zero a h = h
get_elem?-set_same (x ∷ xs) (suc i) (suc j) a h = get_elem?-set_same xs i j a h

swap_keys-count :
    (i j : ℕ) (keys : List ℤ)
    → i < length keys
    → j < length keys
    → (keys' : List ℤ) × (swap_keys i j keys ≡ ok keys')
      × (length keys' ≡ length keys)
      × ((k : ℤ) → count k keys' ≡ count k keys)
unfolding swap_keys
swap_keys-count i j keys h g =
    let (b, e) = get_elem?-some keys i h in
    let (a, f) = get_elem?-some keys j g in
    let put = set keys i a in
    let kept = get_elem?-set_same keys i j a f in
    (
      set put j b,
      rw (elem_at, f, elem_at, e) refl,
      length-set put j b ∙ length-set keys i a,
      λ k. omega (arith, count-set k keys i a b e, count-set k put j b a kept),
    )

-- The calls of the function that swaps two keys are for indices below the number of keys.
abbrev pub AreSwaps : ℕ → List (ℕ × ℕ) → Type 0
AreSwaps n swaps = All (λ s. (s.0 < n) × (s.1 < n)) swaps

pub shuffle_keys-count :
    (swaps : List (ℕ × ℕ)) (keys : List ℤ)
    → AreSwaps (length keys) swaps
    → (keys' : List ℤ) × (shuffle_keys swaps keys ≡ ok keys')
      × (length keys' ≡ length keys)
      × ((k : ℤ) → count k keys' ≡ count k keys)
unfolding shuffle_keys
shuffle_keys-count [] keys a = (keys, refl, refl, λ k. refl)
shuffle_keys-count ((i, j) ∷ swaps) keys a =
    let (keys', e, size, same) = swap_keys-count i j keys a.0.0 a.0.1 in
    let (keys'', e', size', same') = shuffle_keys-count swaps keys' (rw size a.1) in
    (keys'', rw e e', size' ∙ size, λ k. same' k ∙ same k)
