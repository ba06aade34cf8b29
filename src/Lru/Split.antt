-- ===== src/Lru/Split.antt =====
-- Taking an entry out of the middle of a list, and what that leaves.
use db_index_performance_eva.Base.{
  ℕ, suc, ◌≡◌, refl, ap, ◌∙◌, ◌||◌, true, false, Bool-cases, inl, inr, Option, none, some, List, [],
  ◌∷◌, ◌++◌, arith, ◌==◌, if◌then◌else◌, length,
}
use db_index_performance_eva.Lru.{lookup, delete}
use db_index_performance_eva.Lru.Chain.{Slot, last, has_by, SeparateBy}

module _ (f : Slot → ℕ) where
  pub has_by-append :
      (a : ℕ) (xs ys : List Slot) → has_by f a (xs ++ ys) ≡ (has_by f a xs || has_by f a ys)
  has_by-append a [] ys = refl
  has_by-append a (x ∷ xs) ys = ground (arith, has_by-append a xs ys)

  -- The entries are separate, and none of them is like `x`.
  pub SeparateBy-middle :
      (xs : List Slot) (x : Slot) (ys : List Slot)
      → SeparateBy f (xs ++ (x ∷ ys))
      → (has_by f (f x) xs ≡ false)
        × (has_by f (f x) ys ≡ false)
        × SeparateBy f xs
        × SeparateBy f ys
        × SeparateBy f (xs ++ ys)
  SeparateBy-middle [] x ys s = (refl, s.0, tt, s.1, s.1)
  SeparateBy-middle (w ∷ xs) x ys s =
      let (a, b, c, d, e) = SeparateBy-middle xs x ys s.1 in
      let h = has_by-append (f w) xs (x ∷ ys) in
      let h' = has_by-append (f w) xs ys in
      (ground (arith, s.0), b, (ground (arith, s.0), c), d, (ground (arith, s.0), e))

  pub SeparateBy-front :
      (xs : List Slot) (x : Slot) (ys : List Slot)
      → SeparateBy f (xs ++ (x ∷ ys))
      → SeparateBy f (x ∷ (xs ++ ys))
  SeparateBy-front xs x ys s =
      let (a, b, c, d, e) = SeparateBy-middle xs x ys s in
      (has_by-append (f x) xs ys ∙ rw (a, b), e)

  -- What stands behind is not in front.
  pub SeparateBy-append :
      (xs ys : List Slot) (a : ℕ)
      → SeparateBy f (xs ++ ys)
      → has_by f a ys ≡ true
      → has_by f a xs ≡ false
  SeparateBy-append [] ys a s i = refl
  SeparateBy-append (x ∷ xs) ys a s i =
      ground (arith, SeparateBy-append xs ys a s.1, has_by-append (f x) xs ys, s.0)

pub last-append : (xs ys : List Slot) (o : Option ℕ) → last (xs ++ ys) o ≡ last ys (last xs o)
last-append [] ys o = refl
last-append (x ∷ xs) ys o = last-append xs ys (some x.addr)

-- The address of the entry of a page.
abbrev pub addr_of : ℕ → List Slot → Option ℕ
addr_of id [] = none
addr_of id (x ∷ xs) = if x.id == id then some x.addr else addr_of id xs

-- The pages in the order of the list, each with its id.
abbrev pub pages : List Slot → List (ℕ × ℕ)
pages [] = []
pages (x ∷ xs) = (x.id, x.page) ∷ pages xs

pub length-pages : (xs : List Slot) → length (pages xs) ≡ length xs
length-pages [] = refl
length-pages (x ∷ xs) = ap suc (length-pages xs)

-- A page is in the list, or it is not.
pub data Found (id : ℕ) (zs : List Slot) : Type 0 where
  absent : addr_of id zs ≡ none → has_by (λ x. x.id) id zs ≡ false → Found id zs
  present :
      (xs : List Slot) (x : Slot) (ys : List Slot) → zs ≡ xs ++ (x ∷ ys) → x.id ≡ id → Found id zs

pub find : (id : ℕ) (zs : List Slot) → Found id zs
find id [] = absent refl refl
find id (z ∷ zs) = elim (Bool-cases (z.id == id)) [
  | inl here ↦ present [] z zs refl (ground arith)
  | inr there ↦ elim (find id zs) [
    | absent a b ↦ absent (rw there a) (rw there b)
    | present xs x ys e same ↦ present (z ∷ xs) x ys (ap (◌∷◌ z) e) same
  ]
]

pub addr_of-middle :
    (id : ℕ) (xs : List Slot) (x : Slot) (ys : List Slot)
    → SeparateBy (λ y. y.id) (xs ++ (x ∷ ys))
    → addr_of id (xs ++ (x ∷ ys)) ≡ addr_of id (x ∷ (xs ++ ys))
addr_of-middle id [] x ys s = refl
addr_of-middle id (w ∷ xs) x ys s =
    let h = has_by-append (λ y. y.id) w.id xs (x ∷ ys) in
    ground (arith, addr_of-middle id xs x ys s.1, s.0)

-- The same of the pages: the one that is sought, and the others in their order.
pub lookup-pages :
    (xs : List Slot) (x : Slot) (ys : List Slot)
    → has_by (λ y. y.id) x.id xs ≡ false
    → lookup x.id (pages (xs ++ (x ∷ ys))) ≡ some x.page
unfolding lookup
lookup-pages [] x ys o = ground arith
lookup-pages (w ∷ xs) x ys o = ground (arith, lookup-pages xs x ys)

pub delete-pages :
    (xs : List Slot) (x : Slot) (ys : List Slot)
    → has_by (λ y. y.id) x.id xs ≡ false
    → delete x.id (pages (xs ++ (x ∷ ys))) ≡ pages (xs ++ ys)
unfolding delete
delete-pages [] x ys o = ground arith
delete-pages (w ∷ xs) x ys o = ground (arith, delete-pages xs x ys)

pub lookup-pages_absent :
    (id : ℕ) (xs : List Slot) → has_by (λ y. y.id) id xs ≡ false → lookup id (pages xs) ≡ none
unfolding lookup
lookup-pages_absent id [] o = refl
lookup-pages_absent id (x ∷ xs) o = ground (arith, lookup-pages_absent id xs)

pub delete-pages_absent :
    (id : ℕ) (xs : List Slot) → has_by (λ y. y.id) id xs ≡ false → delete id (pages xs) ≡ pages xs
unfolding delete
delete-pages_absent id [] o = refl
delete-pages_absent id (x ∷ xs) o = ground (arith, delete-pages_absent id xs)
