-- ===== src/Node/Child.antt =====
-- The child pointer that `ChildAt` reads at an index of an internal node.
use db_index_performance_eva.Base.{
  ℕ, zero, suc, ◌≤◌, ◌≡◌, refl, ap, Bool, false, some, List, [], ◌∷◌, arith, length, get_elem?,
  get_elem?-some, ne→eq, eq_refl,
}
use native.Mathlib.Decide.{dec_lt}
use db_index_performance_eva.Base.Go.{ok}
use db_index_performance_eva.BtPage.{Page, rightmost}
use db_index_performance_eva.Accessor.{Cell, Accessor}
use db_index_performance_eva.Accessor.Laws.{AccessorLaws}
use db_index_performance_eva.Node.{child_at}
use db_index_performance_eva.Node.Layout.{Holds, read_cell-CellAt}

-- The child left of a cell, or the last one.
abbrev pub child_of : List Cell → ℕ → ℕ → ℕ
child_of [] idx last = last
child_of (c ∷ cs) zero last = c.left_child
child_of (c ∷ cs) (suc idx) last = child_of cs idx last

child_of-some :
    (cs : List Cell) (idx : ℕ) (c : Cell) (last : ℕ)
    → get_elem? cs idx ≡ some c
    → c.left_child ≡ child_of cs idx last
child_of-some [] idx c last e = cc
child_of-some (d ∷ cs) zero c last e = let same : d ≡ c = cc in rw same refl
child_of-some (d ∷ cs) (suc idx) c last e = child_of-some cs idx c last e

child_of-none : (cs : List Cell) (last : ℕ) → last ≡ child_of cs (length cs) last
child_of-none [] last = refl
child_of-none (d ∷ cs) last = child_of-none cs last

module _ (acc : Accessor) (laws : AccessorLaws acc) (pg : Page) (leaf : Bool) (cs : List Cell)
    (lo : ℕ) (h : Holds acc laws pg leaf cs lo) where
  pub child_at-Holds :
      (idx last : ℕ)
      → leaf ≡ false
      → idx ≤ length cs
      → rightmost pg ≡ ok last
      → child_at acc pg idx (length cs) ≡ ok (child_of cs idx last)
  unfolding child_at
  child_at-Holds idx last internal within e = elim (dec_lt idx (length cs)) [
    | yes inside ↦
        let (c, g) = get_elem?-some cs idx inside in
        let read = read_cell-CellAt acc laws (h.cells idx c g) in
        rw (ne→eq idx (length cs) (omega arith), rw internal at read)
          (ap ok (child_of-some cs idx c last g))
    | no outside ↦
        let end : idx ≡ length cs = omega arith in
        rw (end, eq_refl (length cs), e) (ap ok (child_of-none cs last))
  ]
