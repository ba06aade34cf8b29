-- ===== src/ListIndex/Scan.antt =====
-- The scan of the list index by its iterator.
use db_index_performance_eva.Base.{
  ℕ, zero, suc, ◌+◌, ◌<◌, ◌≡◌, ◌∙◌, sym, refl, ap, ◌⊎◌, inl, inr, true, false, Bool-cases, some,
  List, [], ◌∷◌, arith, if◌then◌else◌, length, drop, get_elem?, ℤ, pos, negsuc, ltb_ℤ,
}
use db_index_performance_eva.Base.Go.{Go, ok, out_of_fuel, ◌>>=◌}
use db_index_performance_eva.ListIndex.{
  Data, ListIterator, range, next_index, in_range, seek, next, data_at, current,
}

-- `for it.Next() { use it.Key(), it.Value() }`, collecting the pairs.
unfoldable pub collect : ℕ → ListIterator → Go (List Data)
collect zero it = out_of_fuel
collect (suc fuel) it =
    let (it', more) = next it in
    elim more [ false ↦ ok [] | true ↦ current it' >>= λ d. collect fuel it' >>= λ ds. ok (d ∷ ds) ]

-- The pairs of a list without those whose keys are below the start or above the end.
unfoldable pub select : ℤ → ℤ → List Data → List Data
select start end_key [] = []
select start end_key (d ∷ ds) =
    let rest = select start end_key ds in
    if ltb_ℤ d.key start then rest else if ltb_ℤ end_key d.key then rest else d ∷ rest

module _ {A : Type 0} where
  drop-nil : (n : ℕ) → drop {A = A} n [] ≡ []
  drop-nil zero = refl
  drop-nil (suc n) = refl

  drop-add : (i m : ℕ) (xs : List A) → drop (i + m) xs ≡ drop m (drop i xs)
  drop-add zero m xs = ap (λ n. drop n xs) (omega arith)
  drop-add (suc i) m [] = drop-nil (suc i + m) ∙ sym (drop-nil m)
  drop-add (suc i) m (x ∷ xs) =
      let e : suc i + m ≡ suc (i + m) = omega arith in ap (λ n. drop n (x ∷ xs)) e ∙ drop-add i m xs

  length-drop_cons :
      (m : ℕ) (xs : List A) (x : A) (rest : List A) → drop m xs ≡ x ∷ rest → length rest < length xs
  length-drop_cons zero xs x rest h = omega (arith, ap length h)
  length-drop_cons (suc m) [] x rest h = cc
  length-drop_cons (suc m) (y ∷ xs) x rest h = omega (arith, length-drop_cons m xs x rest h)

  get_elem?-drop :
      (n : ℕ) (xs : List A) (x : A) (rest : List A)
      → drop n xs ≡ x ∷ rest
      → (get_elem? xs n ≡ some x) × (drop (suc n) xs ≡ rest)
  get_elem?-drop zero [] x rest h = cc
  get_elem?-drop zero (y ∷ xs) x rest h = ground arith
  get_elem?-drop (suc n) [] x rest h = cc
  get_elem?-drop (suc n) (y ∷ xs) x rest h = get_elem?-drop n xs x rest h

data_at-ok :
    (items : List Data) (n : ℕ) (d : Data)
    → get_elem? items n ≡ some d
    → data_at items (pos n) ≡ ok d
unfolding data_at
data_at-ok items n d h = rw (h, data_at)

module _ (start end_key : ℤ) (d : Data) (ds : List Data) where
  select-inside :
      in_range start end_key d ≡ true → select start end_key (d ∷ ds) ≡ d ∷ select start end_key ds
  unfolding in_range select
  select-inside h = ground arith

  select-outside :
      in_range start end_key d ≡ false → select start end_key (d ∷ ds) ≡ select start end_key ds
  unfolding in_range select
  select-outside h = ground arith

module _ (start end_key : ℤ) where
  seek-cases :
      (ds : List Data) (i : ℕ)
      → ((seek start end_key ds i).1 ≡ false) × (select start end_key ds ≡ [])
        ⊎ ((m : ℕ) × (d : Data) × (rest : List Data) × (seek start end_key ds i ≡ (i + m, true))
            × (drop m ds ≡ d ∷ rest)
            × (select start end_key ds ≡ d ∷ select start end_key rest))
  unfolding seek select
  seek-cases [] i = inl (refl, refl)
  seek-cases (d ∷ ds) i = elim (Bool-cases (in_range start end_key d)) [
    | inl here ↦ inr (
      0,
      d,
      ds,
      rw here (ap (λ (n : ℕ). (n, true)) (omega arith)),
      refl,
      select-inside start end_key d ds here,
    )
    | inr not_here ↦ elim (seek-cases ds (i + 1)) [
      | inl (e, f) ↦ inl (rw not_here e, select-outside start end_key d ds not_here ∙ f)
      | inr (m, x, rest, e, f, g) ↦ inr (
        suc m,
        x,
        rest,
        rw not_here (e ∙ ap (λ (n : ℕ). (n, true)) (omega arith)),
        f,
        select-outside start end_key d ds not_here ∙ g,
      )
    ]
  ]

  collect-select :
      (fuel : ℕ) (items : List Data) (cur : ℤ)
      → length (drop (next_index cur) items) < fuel
      → collect fuel (record { items = items; cur = cur; start = start; end_key = end_key })
        ≡ ok (select start end_key (drop (next_index cur) items))
  unfolding collect next
  collect-select zero items cur fits = absurd (omega arith)
  collect-select (suc fuel) items cur fits =
      elim (seek-cases (drop (next_index cur) items) (next_index cur)) [
        | inl (e, f) ↦ rw (e, f, collect)
        | inr (m, d, rest, e, f, g) ↦
            let i = next_index cur in
            let (here, behind) = get_elem?-drop (i + m) items d rest (drop-add i m items ∙ f) in
            let fewer = length-drop_cons m (drop i items) d rest f in
            let later = collect-select fuel items (pos (i + m)) (rw behind (omega arith)) in
            rw (e, collect) (rw e (rw (data_at-ok items (i + m) d here, later, behind, g)))
      ]

-- Between `Range` and the first `Next` that returns false, the iterator yields the pairs whose keys
-- are neither below the start nor above the end, each once and in the order of the slice; a round for each pair and one
-- more are enough.
pub range-select :
    (start end_key : ℤ) (items : List Data)
    → collect (length items + 1) (range start end_key items) ≡ ok (select start end_key items)
unfolding range
range-select start end_key items =
    collect-select start end_key (length items + 1) items (negsuc 0) (omega arith)
