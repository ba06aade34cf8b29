-- ===== src/Base/Go.antt =====
-- The outcomes of Go code that may panic: a slice out of range, a division by zero. `out_of_fuel`
-- is no outcome of Go code; it marks a loop whose fuel was too small.
use mathlib.Core.Path.{◌≡◌, refl}

pub data Go {ℓ} (A : Type ℓ) : Type ℓ where
  ok : A → Go A
  panic : Go A
  out_of_fuel : Go A

infixl 5 ◌>>=◌
abbrev pub ◌>>=◌ {ℓ κ} : {A : Type ℓ} {B : Type κ} → Go A → (A → Go B) → Go B
ok a >>= f = f a
panic >>= f = panic
out_of_fuel >>= f = out_of_fuel

-- A sequence of steps that succeeds has a first step that does.
pub first_step {ℓ κ} :
    {A : Type ℓ} {B : Type κ} {b : B} (rest : A → Go B) (m : Go A)
    → (m >>= rest) ≡ ok b
    → (x : A) × (rest x ≡ ok b) × (m ≡ ok x)
first_step rest out_of_fuel e = cc
first_step rest panic e = cc
first_step rest (ok x) e = (x, e, refl)
