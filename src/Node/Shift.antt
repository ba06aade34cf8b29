-- ===== src/Node/Shift.antt =====
-- The loops by which `doInsert` and `DeleteCell` move the pointers behind a cell by one place.
use db_index_performance_eva.Base.{
  ℕ, zero, suc, ◌+◌, ◌*◌, ◌^◌, ◌≤◌, ◌<◌, ◌≡◌, refl, ◌∙◌, arith, length,
}
use native.Mathlib.Decide.{dec_lt}
use db_index_performance_eva.Base.Go.{ok}
use db_index_performance_eva.Bytes.Frame.{
  SameOutside, SameOutside-refl, SameOutside-widen, SameOutside-trans,
}
use db_index_performance_eva.BtPage.{Page, cell_ptr}
use db_index_performance_eva.BtPage.Fields.{set_cell_ptr_lem, cell_ptr-same}
use db_index_performance_eva.Node.{shift_up, shift_down}

-- Pointer `j` is there, and has room in its two bytes.
abbrev pub IsPtr : Page → ℕ → Type 0
IsPtr p j = (o : ℕ) × (cell_ptr p j ≡ ok o) × (o < 2 ^ 16)

-- The pointers from `idx` on move up by one place, and nothing else changes.
pub shift_up_lem :
    (rounds idx : ℕ) (p : Page)
    → 13 + (idx + rounds + 1) * 2 ≤ length p
    → ((j : ℕ) → idx ≤ j → j < idx + rounds → IsPtr p j)
    → (p' : Page) × (shift_up rounds idx p ≡ ok p')
      × SameOutside p p' (13 + (idx + 1) * 2) (rounds * 2)
      × ((j : ℕ) → idx ≤ j → j < idx + rounds → cell_ptr p' (j + 1) ≡ cell_ptr p j)
unfolding shift_up
shift_up_lem zero idx p room ptrs = (p, refl, SameOutside-refl p _ _, λ j a b. absurd (omega arith))
shift_up_lem (suc r) idx p room ptrs =
    let (o, e, small) = ptrs (idx + r) (omega arith) (omega arith) in
    let (q, f, s, g) = set_cell_ptr_lem p (idx + r + 1) o (omega arith) small in
    let (p', f', s', g') = shift_up_lem r idx q (omega (arith, s.size)) (λ j a b.
      let (o', e', small') = ptrs j a (omega arith) in
      (o', cell_ptr-same s j (omega arith) ∙ e', small')) in
    (
      p',
      rw (e, f) f',
      SameOutside-trans
          (SameOutside-widen (13 + (idx + 1) * 2) (suc r * 2) s (omega arith) (omega arith))
          (SameOutside-widen (13 + (idx + 1) * 2) (suc r * 2) s' (omega arith) (omega arith)),
      λ j a b. elim (dec_lt j (idx + r)) [
        | yes below ↦ g' j a below ∙ cell_ptr-same s j (omega arith)
        | no last ↦
            let here : j ≡ idx + r = omega arith in
            rw here (cell_ptr-same s' (idx + r + 1) (omega arith) ∙ rw (g, e))
      ],
    )

-- The pointers behind `j` move down by one place, and nothing else changes.
pub shift_down_lem :
    (rounds j : ℕ) (p : Page)
    → 13 + (j + rounds + 1) * 2 ≤ length p
    → ((i : ℕ) → j < i → i ≤ j + rounds → IsPtr p i)
    → (p' : Page) × (shift_down rounds j p ≡ ok p')
      × SameOutside p p' (13 + j * 2) (rounds * 2)
      × ((i : ℕ) → j ≤ i → i < j + rounds → cell_ptr p' i ≡ cell_ptr p (i + 1))
unfolding shift_down
shift_down_lem zero j p room ptrs = (p, refl, SameOutside-refl p _ _, λ i a b. absurd (omega arith))
shift_down_lem (suc r) j p room ptrs =
    let (o, e, small) = ptrs (j + 1) (omega arith) (omega arith) in
    let (q, f, s, g) = set_cell_ptr_lem p j o (omega arith) small in
    let (p', f', s', g') = shift_down_lem r (j + 1) q (omega (arith, s.size)) (λ i a b.
      let (o', e', small') = ptrs i (omega arith) (omega arith) in
      (o', cell_ptr-same s i (omega arith) ∙ e', small')) in
    (
      p',
      rw (e, f) f',
      SameOutside-trans (SameOutside-widen (13 + j * 2) (suc r * 2) s (omega arith) (omega arith))
          (SameOutside-widen (13 + j * 2) (suc r * 2) s' (omega arith) (omega arith)),
      λ i a b. elim (dec_lt j i) [
        | yes behind ↦ g' i (omega arith) (omega arith) ∙ cell_ptr-same s (i + 1) (omega arith)
        | no first ↦
            let here : i ≡ j = omega arith in rw here (cell_ptr-same s' j (omega arith) ∙ rw (g, e))
      ],
    )
