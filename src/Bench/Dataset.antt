-- ===== src/Bench/Dataset.antt =====
-- src/bench/dataset.go. The generator of math/rand and the sort of package slices are parameters.
use db_index_performance_eva.Base.{
  ℕ, zero, suc, ◌+◌, ◌-◌, none, some, List, [], ◌∷◌, get_elem?, set, replicate, ℤ, pos,
}
use db_index_performance_eva.Base.Go.{Go, ok, panic, ◌>>=◌}
use db_index_performance_eva.Bytes.{Bytes, put_uint, copy_from, to_u64}

-- The calls `swap(i, j)` that `Shuffle` of a number of elements makes one after another, and the bytes
-- of the generator's `Read` number `i` into a slice of the given length.
pub record Random : Type 0 where
  pub shuffle : ℕ → List (ℕ × ℕ)
  pub read : ℕ → ℕ → Bytes

pub record Dataset : Type 0 where
  pub keys : List ℤ
  pub values : List Bytes

-- The keys `i + 1`, `i + 2`, …
unfoldable pub ordered_keys : ℕ → ℕ → List ℤ
ordered_keys zero i = []
ordered_keys (suc n) i = pos (i + 1) ∷ ordered_keys n (i + 1)

abbrev pub elem_at : {A : Type 0} → List A → ℕ → Go A
elem_at xs i = elim (get_elem? xs i) [ none ↦ panic | some x ↦ ok x ]

-- `keys[i], keys[j] = keys[j], keys[i]`, the function that `NewDataset` hands to `Shuffle`.
unfoldable pub swap_keys : ℕ → ℕ → List ℤ → Go (List ℤ)
swap_keys i j keys = do a ← elem_at keys j; b ← elem_at keys i; ok (set (set keys i a) j b)

unfoldable pub shuffle_keys : List (ℕ × ℕ) → List ℤ → Go (List ℤ)
shuffle_keys [] keys = ok keys
shuffle_keys ((i, j) ∷ swaps) keys = swap_keys i j keys >>= shuffle_keys swaps

unfoldable pub new_value : Random → ℕ → ℕ → ℤ → Go Bytes
new_value rng value_size i key = do
  v ← put_uint 8 (replicate value_size 0) 0 (to_u64 key)
  copy_from v 8 (rng.read i (value_size - 8))

-- The loop over the values, which are as many as the keys.
unfoldable pub new_values : Random → ℕ → ℕ → List ℤ → Go (List Bytes)
new_values rng value_size i [] = ok []
new_values rng value_size i (key ∷ keys) = do
  v ← new_value rng value_size i key
  vs ← new_values rng value_size (i + 1) keys
  ok (v ∷ vs)

unfoldable pub new_dataset : Random → ℕ → ℕ → Go Dataset
new_dataset rng n value_size = do
  keys ← shuffle_keys (rng.shuffle n) (ordered_keys n 0)
  values ← new_values rng value_size 0 keys
  ok (record { keys = keys; values = values })

-- `slices.Sort` on a copy of the keys.
unfoldable pub sorted_keys : (List ℤ → List ℤ) → Dataset → List ℤ
sorted_keys sort d = sort d.keys

-- The loop of `RandomKeys` from index `i` on.
unfoldable pub pick_keys : ℕ → ℕ → List ℕ → List ℤ → Go (List ℤ)
pick_keys zero i perm keys = ok []
pick_keys (suc rounds) i perm keys = do
  j ← elem_at perm i
  k ← elem_at keys j
  ks ← pick_keys rounds (i + 1) perm keys
  ok (k ∷ ks)

-- `perm` is the permutation that the generator returns.
unfoldable pub random_keys : ℕ → List ℕ → Dataset → Go (List ℤ)
random_keys m perm d = pick_keys m 0 perm d.keys
