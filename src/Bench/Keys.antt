-- ===== src/Bench/Keys.antt =====
-- The keys and the values of a dataset that `NewDataset` of src/bench/dataset.go makes.
use db_index_performance_eva.Base.{
  ℕ, zero, suc, ◌+◌, ◌-◌, ◌≤◌, ◌<◌, ◌≡◌, refl, ap, ◌∙◌, Bool, ◌&&◌, List, [], ◌∷◌, arith, All,
  length, length-replicate, replicate, if◌then◌else◌, ℤ, pos, leb_ℤ, ◌≤ℤ◌, lt→leb,
}
use db_index_performance_eva.Base.Go.{ok, panic}
use db_index_performance_eva.Bytes.{Bytes, put_uint, store, get_uint, copy_at, to_u64, le_bytes}
use db_index_performance_eva.Bytes.Frame.{Apart, copy_from-ok, SameOutside-copy_at}
use db_index_performance_eva.Bytes.Words.{put_uint_lem, get_uint-same, to_u64-lt, length-le_bytes}
use db_index_performance_eva.Bench.Dataset.{
  Random, Dataset, ordered_keys, shuffle_keys, new_value, new_values, new_dataset,
}
use db_index_performance_eva.Bench.Shuffle.{count, AreSwaps, shuffle_keys-count}

abbrev pub IsSorted : List ℤ → Type 0
IsSorted [] = Unit
IsSorted (x ∷ xs) = All (λ k. x ≤ℤ k) xs × IsSorted xs

-- A function that changes the order of a list at most.
pub record Reorders (f : List ℤ → List ℤ) : Type 0 where
  pub same_length : (xs : List ℤ) → length (f xs) ≡ length xs
  pub same_count : (k : ℤ) (xs : List ℤ) → count k (f xs) ≡ count k xs

abbrev pub once : Bool → ℕ
once b = if b then 1 else 0

count-ordered_keys :
    (k : ℤ) (n i : ℕ)
    → count k (ordered_keys n i) ≡ once (leb_ℤ (pos (i + 1)) k && leb_ℤ k (pos (i + n)))
unfolding ordered_keys
count-ordered_keys k zero i = ground arith
count-ordered_keys k (suc n) i = ground (arith, count-ordered_keys k n (i + 1))

pub count-all_keys :
    (k : ℤ) (n : ℕ) → count k (ordered_keys n 0) ≡ once (leb_ℤ (pos 1) k && leb_ℤ k (pos n))
count-all_keys k n = ground (arith, count-ordered_keys k n 0)

length-ordered_keys : (n i : ℕ) → length (ordered_keys n i) ≡ n
unfolding ordered_keys
length-ordered_keys zero i = refl
length-ordered_keys (suc n) i = ap suc (length-ordered_keys n (i + 1))

-- A value is of the given size and starts with its key.
abbrev pub IsValue : ℕ → ℤ → Bytes → Type 0
IsValue size key v = (length v ≡ size) × (get_uint 8 v 0 ≡ ok (to_u64 key))

new_value-IsValue :
    (rng : Random) (size i : ℕ) (key : ℤ)
    → 8 ≤ size
    → (v : Bytes) × (new_value rng size i key ≡ ok v) × IsValue size key v
unfolding new_value
new_value-IsValue rng size i key h =
    let blank : Bytes = replicate size 0 in
    let long : length blank ≡ size = length-replicate {A = ℕ} 0 size in
    let fits : 0 + 8 ≤ length blank = omega (arith, long) in
    let (v, e, s, got) = put_uint_lem 8 blank 0 (to_u64 key) fits (to_u64-lt key) in
    let bytes = rng.read i (size - 8) in
    let t = SameOutside-copy_at v 8 bytes in
    let before : Apart 0 8 8 (length bytes) = omega arith in
    (
      copy_at v 8 bytes,
      rw e (copy_from-ok v 8 bytes (omega (arith, s.size))),
      (t.size ∙ s.size ∙ long, get_uint-same 8 0 t before ∙ got),
    )

-- The values of a list of keys, one for each.
abbrev pub AreValues : ℕ → List ℤ → List Bytes → Type 0
AreValues size [] [] = Unit
AreValues size (k ∷ ks) (v ∷ vs) = IsValue size k v × AreValues size ks vs
AreValues size [] (v ∷ vs) = ⊥
AreValues size (k ∷ ks) [] = ⊥

new_values-AreValues :
    (rng : Random) (size i : ℕ) (keys : List ℤ)
    → 8 ≤ size
    → (vs : List Bytes) × (new_values rng size i keys ≡ ok vs) × AreValues size keys vs
unfolding new_values
new_values-AreValues rng size i [] h = ([], refl, tt)
new_values-AreValues rng size i (k ∷ ks) h =
    let (v, e, is) = new_value-IsValue rng size i k h in
    let (vs, e', are) = new_values-AreValues rng size (i + 1) ks h in
    (v ∷ vs, rw (e, e') refl, (is, are))

shuffled :
    (rng : Random) (n : ℕ)
    → AreSwaps n (rng.shuffle n)
    → (keys : List ℤ) × (shuffle_keys (rng.shuffle n) (ordered_keys n 0) ≡ ok keys)
      × (length keys ≡ n)
      × ((k : ℤ) → count k keys ≡ count k (ordered_keys n 0))
shuffled rng n r =
    let long = length-ordered_keys n 0 in
    let (keys, e, size, same) = shuffle_keys-count (rng.shuffle n) (ordered_keys n 0) (rw long r) in
    (keys, e, size ∙ long, same)

-- With values of 8 bytes or more, and a shuffle that swaps keys at indices below n, NewDataset returns
-- a dataset that has each key from 1 to n once and no other, and for each key a value of the given size that starts with it.
pub new_dataset-AreValues :
    (rng : Random) (n size : ℕ)
    → AreSwaps n (rng.shuffle n)
    → 8 ≤ size
    → (d : Dataset) × (new_dataset rng n size ≡ ok d)
      × (length d.keys ≡ n)
      × ((k : ℤ) → count k d.keys ≡ once (leb_ℤ (pos 1) k && leb_ℤ k (pos n)))
      × AreValues size d.keys d.values
unfolding new_dataset
new_dataset-AreValues rng n size r h =
    let (keys, f, long, same) = shuffled rng n r in
    let (vs, e, are) = new_values-AreValues rng size 0 keys h in
    (
      record { keys = keys; values = vs },
      rw (f, e) refl,
      long,
      λ k. same k ∙ count-all_keys k n,
      are,
    )

new_value_short :
    (rng : Random) (size i : ℕ) (key : ℤ) → size < 8 → new_value rng size i key ≡ panic
unfolding new_value put_uint store le_bytes
new_value_short rng size i key h =
    let out =
      lt→leb (length (le_bytes 8 (to_u64 key))) (length (replicate {A = ℕ} size 0))
        (omega (arith, length-replicate {A = ℕ} 0 size, length-le_bytes 8 (to_u64 key))) in
    rw out refl

new_values_short :
    (rng : Random) (size : ℕ) (keys : List ℤ)
    → 0 < length keys
    → size < 8
    → new_values rng size 0 keys ≡ panic
unfolding new_values
new_values_short rng size [] some_keys h = absurd (omega arith)
new_values_short rng size (k ∷ ks) some_keys h = rw (new_value_short rng size 0 k h) refl

-- With values of fewer than 8 bytes, NewDataset panics, unless there are none.
new_dataset_short :
    (rng : Random) (n size : ℕ)
    → AreSwaps n (rng.shuffle n)
    → 0 < n
    → size < 8
    → new_dataset rng n size ≡ panic
unfolding new_dataset
new_dataset_short rng n size r some_keys h =
    let (keys, f, long, _) = shuffled rng n r in
    rw (f, new_values_short rng size keys (omega arith) h) refl
