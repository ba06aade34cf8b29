-- ===== src/Node/Between.antt =====
-- The cells with keys in an interval, in a list of cells that are in order.
use db_index_performance_eva.Node.Order.{Below, AtLeast, InOrder}
use db_index_performance_eva.Base.{
  ◌≡◌, refl, ap, true, false, Bool-cases, inl, inr, List, [], ◌∷◌, ◌++◌, arith, if◌then◌else◌, ℤ,
  ltb_ℤ, ◌<ℤ◌,
}
use db_index_performance_eva.Accessor.{Cell}

module _ {A : Type 0} (pair : Cell → A) where
  -- The pairs up to the first key behind the end.
  abbrev pub until : ℤ → List Cell → List A
  until end_key [] = []
  until end_key (c ∷ cs) =
      let rest = until end_key cs in if ltb_ℤ end_key c.key then [] else pair c ∷ rest

  -- The pairs whose keys are not below `start` and not behind `end_key`.
  abbrev pub between : ℤ → ℤ → List Cell → List A
  between start end_key [] = []
  between start end_key (c ∷ cs) =
      let rest = between start end_key cs in
      if ltb_ℤ c.key start then rest else if ltb_ℤ end_key c.key then rest else pair c ∷ rest

  module _ (start end_key : ℤ) where
    pub between-Below :
        (xs ys : List Cell)
        → Below start xs
        → between start end_key (xs ++ ys) ≡ between start end_key ys
    between-Below [] ys b = refl
    between-Below (x ∷ xs) ys b =
        let low : ltb_ℤ x.key start ≡ true = ground (arith, b.0) in rw low (between-Below xs ys b.1)

    between-behind :
        (k : ℤ) (es : List Cell) → AtLeast k es → end_key <ℤ k → between start end_key es ≡ []
    between-behind k [] a h = refl
    between-behind k (e ∷ es) a h =
        let high : ltb_ℤ end_key e.key ≡ true = ground (arith, a.0) in
        elim (Bool-cases (ltb_ℤ e.key start)) [
          | inl low ↦ rw low (between-behind k es a.1 h)
          | inr low ↦ rw (low, high) (between-behind k es a.1 h)
        ]

    pub between-until :
        (es : List Cell)
        → AtLeast start es
        → InOrder es
        → between start end_key es ≡ until end_key es
    between-until [] a o = refl
    between-until (e ∷ es) a o =
        let low : ltb_ℤ e.key start ≡ false = ground (arith, a.0) in
        elim (Bool-cases (ltb_ℤ end_key e.key)) [
          | inl behind ↦ rw (low, behind) (between-behind e.key es o.0 (ground arith))
          | inr within ↦ rw (low, within) (ap (λ l. pair e ∷ l) (between-until es a.1 o.1))
        ]
