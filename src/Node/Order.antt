-- ===== src/Node/Order.antt =====
-- Cells in the order of their keys, and bounds on the keys.
use db_index_performance_eva.Base.{
  ℕ, zero, suc, ◌≡◌, refl, some, List, [], ◌∷◌, ◌++◌, arith, All, get_elem?, ℤ, ◌≤ℤ◌, ◌<ℤ◌,
}
use db_index_performance_eva.Accessor.{Cell}
use db_index_performance_eva.Node.Search.{IsSorted}

abbrev pub Below : ℤ → List Cell → Type 0
Below k es = All (λ c. c.key <ℤ k) es

abbrev pub AtLeast : ℤ → List Cell → Type 0
AtLeast k es = All (λ c. k ≤ℤ c.key) es

-- Keys do not fall.
abbrev pub InOrder : List Cell → Type 0
InOrder [] = Unit
InOrder (c ∷ cs) = AtLeast c.key cs × InOrder cs

AtLeast-get :
    (k : ℤ) (cs : List Cell) (j : ℕ) (d : Cell)
    → AtLeast k cs
    → get_elem? cs j ≡ some d
    → k ≤ℤ d.key
AtLeast-get k [] j d a e = cc
AtLeast-get k (c ∷ cs) zero d a e = let same : c ≡ d = cc in rw (← same) a.0
AtLeast-get k (c ∷ cs) (suc j) d a e = AtLeast-get k cs j d a.1 e

AtLeast-prefix : (k : ℤ) (xs ys : List Cell) → AtLeast k (xs ++ ys) → AtLeast k xs
AtLeast-prefix k [] ys a = tt
AtLeast-prefix k (x ∷ xs) ys a = (a.0, AtLeast-prefix k xs ys a.1)

pub AtLeast-append :
    (k : ℤ) (xs ys : List Cell) → AtLeast k xs → AtLeast k ys → AtLeast k (xs ++ ys)
AtLeast-append k [] ys a b = b
AtLeast-append k (x ∷ xs) ys a b = (a.0, AtLeast-append k xs ys a.1 b)

pub AtLeast-trans : (k key : ℤ) (es : List Cell) → AtLeast k es → key ≤ℤ k → AtLeast key es
AtLeast-trans k key [] a h = tt
AtLeast-trans k key (e ∷ es) a h = (omega (arith, a.0), AtLeast-trans k key es a.1 h)

pub InOrder-prefix : (xs ys : List Cell) → InOrder (xs ++ ys) → InOrder xs
InOrder-prefix [] ys o = tt
InOrder-prefix (x ∷ xs) ys o = (AtLeast-prefix x.key xs ys o.0, InOrder-prefix xs ys o.1)

pub InOrder-suffix : (xs ys : List Cell) → InOrder (xs ++ ys) → InOrder ys
InOrder-suffix [] ys o = o
InOrder-suffix (x ∷ xs) ys o = InOrder-suffix xs ys o.1

pub InOrder-IsSorted : (cs : List Cell) → InOrder cs → IsSorted cs
InOrder-IsSorted [] o i j c d e f h = cc
InOrder-IsSorted (x ∷ cs) o zero zero c d e f h =
    let a : x ≡ c = cc in let b : x ≡ d = cc in rw (← a, ← b) (omega arith)
InOrder-IsSorted (x ∷ cs) o zero (suc j) c d e f h =
    let a : x ≡ c = cc in rw (← a) (AtLeast-get x.key cs j d o.0 f)
InOrder-IsSorted (x ∷ cs) o (suc i) zero c d e f h = absurd (omega arith)
InOrder-IsSorted (x ∷ cs) o (suc i) (suc j) c d e f h =
    InOrder-IsSorted cs o.1 i j c d e f (omega arith)

pub Below-append :
    (key : ℤ) (xs ys : List Cell) → Below key xs → Below key ys → Below key (xs ++ ys)
Below-append key [] ys a b = b
Below-append key (x ∷ xs) ys a b = (a.0, Below-append key xs ys a.1 b)

get-AtLeast :
    (k : ℤ) (cs : List Cell)
    → ((j : ℕ) (d : Cell) → get_elem? cs j ≡ some d → k ≤ℤ d.key)
    → AtLeast k cs
get-AtLeast k [] h = tt
get-AtLeast k (c ∷ cs) h = (h 0 c refl, get-AtLeast k cs (λ j d e. h (suc j) d e))

pub IsSorted-InOrder : (cs : List Cell) → IsSorted cs → InOrder cs
IsSorted-InOrder [] s = tt
IsSorted-InOrder (x ∷ cs) s = (
  get-AtLeast x.key cs (λ j d e. s 0 (suc j) x d refl e (omega arith)),
  IsSorted-InOrder cs (λ i j c d e f h. s (suc i) (suc j) c d e f (omega arith)),
)
