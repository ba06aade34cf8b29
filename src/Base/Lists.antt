-- ===== src/Base/Lists.antt =====
-- Lists measured and indexed by native numbers, under the library's names.
use Prim.Native.Nat.{ℕ, zero, suc, ◌+◌, ◌≤◌, ◌<◌}
use mathlib.Core.Path.{◌≡◌, refl, ap}
use mathlib.Core.Logic.{◌≢◌, ◌⊎◌, inl, inr}
use mathlib.Core.List.{List, [], ◌∷◌, ◌++◌}
use mathlib.Core.Option.{Option, none, some}
use native.Mathlib.Omega.{arith}

module _ {ℓ} {A : Type ℓ} where
  abbrev pub length : List A → ℕ
  length [] = 0
  length (x ∷ xs) = suc (length xs)

  abbrev pub get_elem? : List A → ℕ → Option A
  get_elem? [] i = none
  get_elem? (x ∷ xs) zero = some x
  get_elem? (x ∷ xs) (suc i) = get_elem? xs i

  -- A write out of bounds changes nothing.
  abbrev pub set : List A → ℕ → A → List A
  set [] i v = []
  set (x ∷ xs) zero v = v ∷ xs
  set (x ∷ xs) (suc i) v = x ∷ set xs i v

  abbrev pub take : ℕ → List A → List A
  take zero xs = []
  take (suc n) [] = []
  take (suc n) (x ∷ xs) = x ∷ take n xs

  abbrev pub drop : ℕ → List A → List A
  drop zero xs = xs
  drop (suc n) [] = []
  drop (suc n) (x ∷ xs) = drop n xs

  -- `x` put at place `n`, or behind the end.
  abbrev pub insert_at : ℕ → A → List A → List A
  insert_at zero x xs = x ∷ xs
  insert_at (suc n) x [] = x ∷ []
  insert_at (suc n) x (y ∷ xs) = y ∷ insert_at n x xs

  abbrev pub remove_at : ℕ → List A → List A
  remove_at n [] = []
  remove_at zero (x ∷ xs) = xs
  remove_at (suc n) (x ∷ xs) = x ∷ remove_at n xs

  abbrev pub replicate : ℕ → A → List A
  replicate zero a = []
  replicate (suc n) a = a ∷ replicate n a

  abbrev pub All {κ} : (A → Type κ) → List A → Type κ
  All P [] = Unit
  All P (x ∷ xs) = P x × All P xs

module _ {ℓ} {A : Type ℓ} where
  pub length-append : (xs ys : List A) → length (xs ++ ys) ≡ length xs + length ys
  length-append [] ys = omega arith
  length-append (x ∷ xs) ys = omega (arith, length-append xs ys)

  pub length-set : (xs : List A) (i : ℕ) (v : A) → length (set xs i v) ≡ length xs
  length-set [] i v = refl
  length-set (x ∷ xs) zero v = refl
  length-set (x ∷ xs) (suc i) v = ap suc (length-set xs i v)

  pub get_elem?-set_self :
      (xs : List A) (i : ℕ) (v : A) → i < length xs → get_elem? (set xs i v) i ≡ some v
  get_elem?-set_self [] i v h = elim h [ ]
  get_elem?-set_self (x ∷ xs) zero v h = refl
  get_elem?-set_self (x ∷ xs) (suc i) v h = get_elem?-set_self xs i v (omega arith)

  pub get_elem?-set_ne :
      (xs : List A) (i j : ℕ) (v : A) → i ≢ j → get_elem? (set xs i v) j ≡ get_elem? xs j
  get_elem?-set_ne [] i j v h = refl
  get_elem?-set_ne (x ∷ xs) zero zero v h = absurd (h refl)
  get_elem?-set_ne (x ∷ xs) zero (suc j) v h = refl
  get_elem?-set_ne (x ∷ xs) (suc i) zero v h = refl
  get_elem?-set_ne (x ∷ xs) (suc i) (suc j) v h = get_elem?-set_ne xs i j v (λ e. h (ap suc e))

  pub length-take : (n : ℕ) (xs : List A) → n ≤ length xs → length (take n xs) ≡ n
  length-take zero xs h = refl
  length-take (suc n) [] h = absurd (omega arith)
  length-take (suc n) (x ∷ xs) h = ap suc (length-take n xs (omega arith))

  pub take-append : (xs ys : List A) (n : ℕ) → length xs ≡ n → take n (xs ++ ys) ≡ xs
  take-append [] ys zero h = refl
  take-append [] ys (suc n) h = absurd (omega arith)
  take-append (x ∷ xs) ys zero h = absurd (omega arith)
  take-append (x ∷ xs) ys (suc n) h = ap (◌∷◌ x) (take-append xs ys n (omega arith))

  pub take-length : (xs : List A) → take (length xs) xs ≡ xs
  take-length [] = refl
  take-length (x ∷ xs) = ap (◌∷◌ x) (take-length xs)

  pub get_elem?-lt : (xs : List A) (i : ℕ) (x : A) → get_elem? xs i ≡ some x → i < length xs
  get_elem?-lt [] i x h = cc
  get_elem?-lt (y ∷ xs) zero x h = omega arith
  get_elem?-lt (y ∷ xs) (suc i) x h = omega (arith, get_elem?-lt xs i x h)

  -- What stands in a list with one element put behind.
  pub get_elem?-append_one :
      (xs : List A) (y : A) (i : ℕ) (x : A)
      → get_elem? (xs ++ (y ∷ [])) i ≡ some x
      → (get_elem? xs i ≡ some x) ⊎ ((i ≡ length xs) × (y ≡ x))
  get_elem?-append_one [] y zero x h = inr (refl, ground arith)
  get_elem?-append_one [] y (suc i) x h = cc
  get_elem?-append_one (z ∷ xs) y zero x h = inl h
  get_elem?-append_one (z ∷ xs) y (suc i) x h = elim (get_elem?-append_one xs y i x h) [
    | inl e ↦ inl e
    | inr (e, f) ↦ inr (ap suc e, f)
  ]

  pub get_elem?-some : (xs : List A) (i : ℕ) → i < length xs → (x : A) × (get_elem? xs i ≡ some x)
  get_elem?-some [] i h = absurd (omega arith)
  get_elem?-some (x ∷ xs) zero h = (x, refl)
  get_elem?-some (x ∷ xs) (suc i) h = get_elem?-some xs i (omega arith)

module _ {ℓ} {A : Type ℓ} (a : A) where
  pub length-replicate : (n : ℕ) → length (replicate n a) ≡ n
  length-replicate zero = refl
  length-replicate (suc n) = ap suc (length-replicate n)

  take-replicate : (k n : ℕ) → k ≤ n → take k (replicate n a) ≡ replicate k a
  take-replicate zero n h = refl
  take-replicate (suc k) zero h = absurd (omega arith)
  take-replicate (suc k) (suc n) h = ap (◌∷◌ a) (take-replicate k n (omega arith))

  pub take-drop-replicate :
      (o k n : ℕ) → o + k ≤ n → take k (drop o (replicate n a)) ≡ replicate k a
  take-drop-replicate zero k n h = take-replicate k n (omega arith)
  take-drop-replicate (suc o) k zero h = absurd (omega arith)
  take-drop-replicate (suc o) k (suc n) h = take-drop-replicate o k n (omega arith)

module _ {ℓ} {A : Type ℓ} where
  pub length-insert_at : (n : ℕ) (y : A) (xs : List A) → length (insert_at n y xs) ≡ suc (length xs)
  length-insert_at zero y xs = refl
  length-insert_at (suc n) y [] = refl
  length-insert_at (suc n) y (x ∷ xs) = ap suc (length-insert_at n y xs)

  pub get_elem?-insert_at_self :
      (n : ℕ) (y : A) (xs : List A) → n ≤ length xs → get_elem? (insert_at n y xs) n ≡ some y
  get_elem?-insert_at_self zero y xs h = refl
  get_elem?-insert_at_self (suc n) y [] h = absurd (omega arith)
  get_elem?-insert_at_self (suc n) y (x ∷ xs) h = get_elem?-insert_at_self n y xs (omega arith)

  -- An element stands before the new one, or is it, or stood one place further to the front.
  pub get_elem?-insert_at :
      (n : ℕ) (y : A) (xs : List A) (i : ℕ) (x : A)
      → n ≤ length xs
      → get_elem? (insert_at n y xs) i ≡ some x
      → ((i < n) × (get_elem? xs i ≡ some x))
        ⊎ ((i ≡ n) × (y ≡ x))
        ⊎ ((j : ℕ) × (i ≡ j + 1) × (n ≤ j) × (get_elem? xs j ≡ some x))
  get_elem?-insert_at zero y xs zero x h e = inr (inl (refl, cc))
  get_elem?-insert_at zero y xs (suc i) x h e = inr (inr (i, omega arith, omega arith, e))
  get_elem?-insert_at (suc n) y [] i x h e = absurd (omega arith)
  get_elem?-insert_at (suc n) y (z ∷ xs) zero x h e = inl (omega arith, e)
  get_elem?-insert_at (suc n) y (z ∷ xs) (suc i) x h e =
      elim (get_elem?-insert_at n y xs i x (omega arith) e) [
        | inl (b, f) ↦ inl (omega arith, f)
        | inr (inl (b, f)) ↦ inr (inl (ap suc b, f))
        | inr (inr (j, b, c, f)) ↦ inr (inr (suc j, omega arith, omega arith, f))
      ]

  pub length-remove_at :
      (n : ℕ) (xs : List A) → n < length xs → suc (length (remove_at n xs)) ≡ length xs
  length-remove_at n [] h = absurd (omega arith)
  length-remove_at zero (x ∷ xs) h = refl
  length-remove_at (suc n) (x ∷ xs) h = ap suc (length-remove_at n xs (omega arith))

  -- An element that is left stands before the removed one, or stood one place further to the back.
  pub get_elem?-remove_at :
      (n : ℕ) (xs : List A) (i : ℕ) (x : A)
      → get_elem? (remove_at n xs) i ≡ some x
      → ((i < n) × (get_elem? xs i ≡ some x)) ⊎ ((n ≤ i) × (get_elem? xs (i + 1) ≡ some x))
  get_elem?-remove_at n [] i x e = cc
  get_elem?-remove_at zero (y ∷ xs) i x e =
      let next : i + 1 ≡ suc i = omega arith in inr (omega arith, rw next e)
  get_elem?-remove_at (suc n) (y ∷ xs) zero x e = inl (omega arith, e)
  get_elem?-remove_at (suc n) (y ∷ xs) (suc i) x e = elim (get_elem?-remove_at n xs i x e) [
    | inl (b, f) ↦ inl (omega arith, f)
    | inr (b, f) ↦ let next : suc i + 1 ≡ suc (i + 1) = omega arith in inr (omega arith, rw next f)
  ]

  pub get_elem?-append_lt :
      (xs ys : List A) (i : ℕ) → i < length xs → get_elem? (xs ++ ys) i ≡ get_elem? xs i
  get_elem?-append_lt [] ys i h = absurd (omega arith)
  get_elem?-append_lt (x ∷ xs) ys zero h = refl
  get_elem?-append_lt (x ∷ xs) ys (suc i) h = get_elem?-append_lt xs ys i (omega arith)

  pub get_elem?-append_length :
      (xs : List A) (y : A) → get_elem? (xs ++ (y ∷ [])) (length xs) ≡ some y
  get_elem?-append_length [] y = refl
  get_elem?-append_length (x ∷ xs) y = get_elem?-append_length xs y
