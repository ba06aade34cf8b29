-- ===== src/Base/State.antt =====
-- Go code that changes a state and may return an error, panic, or exhaust the fuel of the model.
use db_index_performance_eva.Base.Go.{Go, ok, panic, out_of_fuel}

-- An error is returned beside the state that the code left behind.
pub data Run {ℓ} (E S A : Type ℓ) : Type ℓ where
  done : A → S → Run E S A
  fail : E → S → Run E S A
  panicked : Run E S A
  stuck : Run E S A

module _ {ℓ} {E S : Type ℓ} where
  abbrev pub pure : {A : Type ℓ} → A → S → Run E S A
  pure a s = done a s

  abbrev pub and_then : {A B : Type ℓ} → Run E S A → (A → S → Run E S B) → Run E S B
  and_then (done a s) k = k a s
  and_then (fail e s) k = fail e s
  and_then panicked k = panicked
  and_then stuck k = stuck

  infixl 5 ◌>>=◌ ◌>>◌
  abbrev pub ◌>>=◌ : {A B : Type ℓ} → (S → Run E S A) → (A → S → Run E S B) → S → Run E S B
  ◌>>=◌ m k s = and_then (m s) k

  abbrev pub ◌>>◌ : {A B : Type ℓ} → (S → Run E S A) → (S → Run E S B) → S → Run E S B
  ◌>>◌ m k s = and_then (m s) (λ _. k)

  abbrev pub throw : {A : Type ℓ} → E → S → Run E S A
  throw e s = fail e s

  abbrev pub gets : {A : Type ℓ} → (S → A) → S → Run E S A
  gets f s = done (f s) s

  abbrev pub modify : (S → S) → S → Run E S Unit
  modify f s = done tt (f s)

  -- `x, _ := e`: an error is dropped, and `x` is the zero value `z`.
  abbrev pub or_zero : {A : Type ℓ} → A → (S → Run E S A) → S → Run E S A
  or_zero z m s = elim (m s) [
    | done a s ↦ done a s
    | fail e s ↦ done z s
    | panicked ↦ panicked
    | stuck ↦ stuck
  ]

  -- `fmt.Errorf("…: %w", err)`
  abbrev pub wrap : {A : Type ℓ} → (E → E) → (S → Run E S A) → S → Run E S A
  wrap f m s = elim (m s) [
    | done a s ↦ done a s
    | fail e s ↦ fail (f e) s
    | panicked ↦ panicked
    | stuck ↦ stuck
  ]

  -- Code that changes no state and may panic.
  abbrev pub run_go : {A : Type ℓ} → Go A → S → Run E S A
  run_go (ok a) s = done a s
  run_go panic s = panicked
  run_go out_of_fuel s = stuck

-- An error of another type in place of an error.
abbrev pub map_error {ℓ} : {E F S A : Type ℓ} → (E → F) → (S → Run E S A) → S → Run F S A
map_error f m s = elim (m s) [
  | done a s ↦ done a s
  | fail e s ↦ fail (f e) s
  | panicked ↦ panicked
  | stuck ↦ stuck
]
