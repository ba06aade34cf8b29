-- ===== src/Bench/Sample.antt =====
-- `SortedKeys` and `RandomKeys` of src/bench/dataset.go.
use db_index_performance_eva.Base.{
  ℕ, zero, suc, ◌+◌, ◌≤◌, ◌<◌, ◌≡◌, refl, sym, ap, ◌∙◌, some, List, [], ◌∷◌, arith, All, length,
  get_elem?, get_elem?-some, get_elem?-lt, ℤ, pos, ◌≤ℤ◌, eq_of_parts, Option-cases, inl, inr,
}
use db_index_performance_eva.Base.Go.{ok, panic}
use db_index_performance_eva.Bench.Dataset.{
  Random, Dataset, ordered_keys, new_dataset, sorted_keys, elem_at, pick_keys, random_keys,
}
use db_index_performance_eva.Bench.Keys.{IsSorted, Reorders, new_dataset-AreValues, count-all_keys}
use db_index_performance_eva.Bench.Shuffle.{count, AreSwaps}

-- Two sorted lists with the same elements are the same.
some_count : (x : ℤ) (xs : List ℤ) → 0 < count x (x ∷ xs)
some_count x xs = ground arith

count-least : (x k : ℤ) (xs : List ℤ) → All (λ j. x ≤ℤ j) xs → 0 < count k xs → x ≤ℤ k
count-least x k [] all h = absurd (omega arith)
count-least x k (y ∷ xs) all h = ground (arith, count-least x k xs all.1, all.0)

sorted_same :
    (xs ys : List ℤ) → IsSorted xs → IsSorted ys → ((k : ℤ) → count k xs ≡ count k ys) → xs ≡ ys
sorted_same [] [] a b h = refl
sorted_same [] (y ∷ ys) a b h = absurd (omega (arith, h y, some_count y ys))
sorted_same (x ∷ xs) [] a b h = absurd (omega (arith, h x, some_count x xs))
sorted_same (x ∷ xs) (y ∷ ys) a b h =
    let le = least y x ys b (omega (arith, h x, some_count x xs)) in
    let ge = least x y xs a (omega (arith, h y, some_count y ys)) in
    let same : x ≡ y = eq_of_parts x y (omega arith) in
    let rest : (k : ℤ) → count k xs ≡ count k ys = λ k. tail k same (h k) in
    rw (same, sorted_same xs ys a.1 b.1 rest) refl
  where
    least : (x k : ℤ) (xs : List ℤ) → IsSorted (x ∷ xs) → 0 < count k (x ∷ xs) → x ≤ℤ k
    least x k xs a h = count-least x k (x ∷ xs) (omega arith, a.0) h

    tail : (k : ℤ) → x ≡ y → count k (x ∷ xs) ≡ count k (y ∷ ys) → count k xs ≡ count k ys
    tail k same e = let e' = rw same at e in ground arith

ordered_keys-IsSorted : (n i : ℕ) → IsSorted (ordered_keys n i)
unfolding ordered_keys
ordered_keys-IsSorted zero i = tt
ordered_keys-IsSorted (suc n) i = (above n i (i + 1) (omega arith), ordered_keys-IsSorted n (i + 1))
  where
    above : (n i j : ℕ) → i ≤ j → All (λ k. pos (i + 1) ≤ℤ k) (ordered_keys n j)
    above zero i j h = tt
    above (suc n) i j h = (omega arith, above n i (j + 1) (omega arith))

-- On a dataset that NewDataset returns, SortedKeys returns the keys from 1 to n in order, given a sort
-- that changes the order of the keys alone and brings them into order.
sorted_keys-ordered_keys :
    (rng : Random) (n size : ℕ) (sort : List ℤ → List ℤ)
    → AreSwaps n (rng.shuffle n)
    → Reorders sort
    → ((xs : List ℤ) → IsSorted (sort xs))
    → 8 ≤ size
    → (d : Dataset) × (new_dataset rng n size ≡ ok d) × (sorted_keys sort d ≡ ordered_keys n 0)
unfolding sorted_keys
sorted_keys-ordered_keys rng n size sort r t sorted h =
    let (d, e, _, once, _) = new_dataset-AreValues rng n size r h in
    (
      d,
      e,
      sorted_same (sort d.keys) (ordered_keys n 0) (sorted d.keys) (ordered_keys-IsSorted n 0)
          (λ k. t.same_count k d.keys ∙ once k ∙ sym (count-all_keys k n)),
    )

-- The keys at the given places.
abbrev pub AtPlaces : List ℤ → List ℕ → ℕ → List ℤ → Type 0
AtPlaces keys perm i [] = Unit
AtPlaces keys perm i (k ∷ ks) =
    ((j : ℕ) × (get_elem? perm i ≡ some j) × (get_elem? keys j ≡ some k))
    × AtPlaces keys perm (i + 1) ks

-- Each number of the list is an index of the keys.
abbrev pub AreIndices : List ℕ → List ℤ → Type 0
AreIndices perm keys = (i j : ℕ) → get_elem? perm i ≡ some j → j < length keys

pick_keys-AtPlaces :
    (rounds i : ℕ) (perm : List ℕ) (keys : List ℤ)
    → AreIndices perm keys
    → i + rounds ≤ length perm
    → (ks : List ℤ) × (pick_keys rounds i perm keys ≡ ok ks)
      × (length ks ≡ rounds)
      × AtPlaces keys perm i ks
unfolding pick_keys
pick_keys-AtPlaces zero i perm keys a h = ([], refl, refl, tt)
pick_keys-AtPlaces (suc rounds) i perm keys a h =
    let (j, e) = get_elem?-some perm i (omega arith) in
    let (k, g) = get_elem?-some keys j (a i j e) in
    let (ks, f, size, places) = pick_keys-AtPlaces rounds (i + 1) perm keys a (omega arith) in
    (k ∷ ks, rw (pick_keys, elem_at, e, elem_at, g, f) refl, ap suc size, ((j, e, g), places))

pick_keys_past :
    (rounds i : ℕ) (perm : List ℕ) (keys : List ℤ)
    → AreIndices perm keys
    → i ≤ length perm
    → length perm < i + rounds
    → pick_keys rounds i perm keys ≡ panic
unfolding pick_keys
pick_keys_past zero i perm keys a l h = absurd (omega arith)
pick_keys_past (suc rounds) i perm keys a l h = elim (Option-cases (get_elem? perm i)) [
  | inl none_left ↦ rw (pick_keys, elem_at, none_left) refl
  | inr (j, e) ↦
      let (k, g) = get_elem?-some keys j (a i j e) in
      let rest =
        pick_keys_past rounds (i + 1) perm keys a (omega (arith, get_elem?-lt perm i j e))
          (omega arith) in
      rw (pick_keys, elem_at, e, elem_at, g, rest) refl
]

-- Given a permutation of the indices, RandomKeys returns as many keys as it is asked for, those at the
-- first places of the permutation, if the dataset has so many.
random_keys-AtPlaces :
    (m : ℕ) (perm : List ℕ) (d : Dataset)
    → length perm ≡ length d.keys
    → AreIndices perm d.keys
    → m ≤ length d.keys
    → (ks : List ℤ) × (random_keys m perm d ≡ ok ks) × (length ks ≡ m) × AtPlaces d.keys perm 0 ks
unfolding random_keys
random_keys-AtPlaces m perm d size a h = pick_keys-AtPlaces m 0 perm d.keys a (omega arith)

-- It panics if it is asked for more keys than the dataset has.
random_keys_past :
    (m : ℕ) (perm : List ℕ) (d : Dataset)
    → length perm ≡ length d.keys
    → AreIndices perm d.keys
    → length d.keys < m
    → random_keys m perm d ≡ panic
unfolding random_keys
random_keys_past m perm d size a h = pick_keys_past m 0 perm d.keys a (omega arith) (omega arith)
