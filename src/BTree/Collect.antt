-- ===== src/BTree/Collect.antt =====
-- The pairs that a range iterator of a B-tree gives until it ends.
use db_index_performance_eva.Base.{
  ℕ, zero, suc, ◌+◌, ◌<◌, ◌≡◌, refl, ap, ◌∙◌, Bool, true, false, not, Bool-cases, inl, inr, List,
  [], ◌∷◌, arith, length, ℤ, ltb_ℤ,
}
use db_index_performance_eva.Base.State.{done, stuck, ◌>>=◌, pure}
use db_index_performance_eva.Bytes.{Bytes}
use db_index_performance_eva.Accessor.{Value, Cell}
use db_index_performance_eva.Pager.{Pager}
use db_index_performance_eva.Tree.{Tree, Code}
use db_index_performance_eva.BTree.Get.{tree_on}
use db_index_performance_eva.BTree.{RangeIterator, next}
use db_index_performance_eva.Node.Between.{until}
use db_index_performance_eva.BTree.Visit.{Placed}
use db_index_performance_eva.BTree.Enter.{next-Placed}
use db_index_performance_eva.BpTree.Reading.{IsReader}

-- `for it.Next() { use it.Key(), it.Value() }`, collecting the pairs; `fuel` is for each call of `Next`.
unfoldable pub collect : ℕ → ℕ → RangeIterator → Code (List (ℤ × Value))
collect fuel zero it = λ _. stuck
collect fuel (suc rounds) it = next fuel it >>= λ (it', more). elim more [
  | false ↦ pure []
  | true ↦ collect fuel rounds it' >>= λ pairs. pure ((it'.k, it'.v) ∷ pairs)
]

abbrev pub pair : Cell → ℤ × Value
pair c = (c.key, c.value)

collect_end :
    (fuel rounds : ℕ) (it it' : RangeIterator) (t t' : Tree) (more : Bool)
    → next fuel it t ≡ done (it', more) t'
    → more ≡ false
    → collect fuel (suc rounds) it t ≡ done [] t'
unfolding collect
collect_end fuel rounds it it' t t' more e stop = rw (collect, e, stop) refl

collect_more :
    (fuel rounds : ℕ) (it it' : RangeIterator) (t t' t'' : Tree) (pairs : List (ℤ × Value))
    (more : Bool)
    → next fuel it t ≡ done (it', more) t'
    → more ≡ true
    → collect fuel rounds it' t' ≡ done pairs t''
    → collect fuel (suc rounds) it t ≡ done ((it'.k, it'.v) ∷ pairs) t''
unfolding collect
collect_more fuel rounds it it' t t' t'' pairs more e go f = rw (collect, e, go, f) refl

until_more :
    (end_key : ℤ) (c : Cell) (cs : List Cell)
    → ltb_ℤ end_key c.key ≡ false
    → (end' k : ℤ) (v : Value) → end' ≡ end_key
    → k ≡ c.key
    → v ≡ c.value
    → (k, v) ∷ until pair end' cs ≡ until pair end_key (c ∷ cs)
until_more end_key c cs within end' k v e f g = rw (e, f, g, within) refl

module _ (d : Bytes) (size s r : ℕ) where
  pub collect-Placed :
      (rem : List Cell) (rounds bound fuel : ℕ) (p : Pager) (it : RangeIterator)
      → IsReader p d size
      → Placed d size s r bound it.stack rem
      → length rem < rounds
      → bound + bound + 1 < fuel
      → (q : Pager) × (collect fuel rounds it (tree_on p d s r)
          ≡ done (until pair it.end_key rem) (tree_on q d s r))
        × IsReader q d size
  collect-Placed rem zero bound fuel p it k placed h g = absurd (omega arith)
  collect-Placed [] (suc rounds) bound fuel p it k placed h g =
      let (q, it', more, e, k', stop) = next-Placed d size s r bound fuel p it [] k placed g in
      (q, collect_end fuel rounds it it' _ _ more e stop, k')
  collect-Placed (c ∷ cs) (suc rounds) bound fuel p it k placed h g =
      let (q, it', more, e, k', yields) =
        next-Placed d size s r bound fuel p it (c ∷ cs) k placed g in
      elim (Bool-cases (ltb_ℤ it.end_key c.key)) [
        | inl behind ↦
            let stop : more ≡ false = yields.0 ∙ ap not behind in
            (
              q,
              collect_end fuel rounds it it' _ _ more e stop
                  ∙ ap (λ l. done l (tree_on q d s r)) (rw behind refl),
              k',
            )
        | inr within ↦
            let go : more ≡ true = yields.0 ∙ ap not within in
            let (same, key, value, placed') = yields.1 go in
            let (q', e', k'') =
              collect-Placed cs rounds bound fuel q it' k' placed' (omega arith) g in
            (
              q',
              collect_more fuel rounds it it' _ _ _ _ more e go e'
                  ∙ ap (λ l. done l (tree_on q' d s r))
                      (until_more it.end_key c cs within it'.end_key it'.k it'.v same key value),
              k'',
            )
      ]
