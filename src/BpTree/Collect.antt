-- ===== src/BpTree/Collect.antt =====
-- The pairs that a range iterator of a B+ tree gives until it ends.
use db_index_performance_eva.Accessor.{Cell, bytes_of}
use db_index_performance_eva.BTree.Get.{tree_on}
use db_index_performance_eva.Base.{
  Bool, Bool-cases, List, [], ap, arith, false, inl, inr, length, ltb_ℤ, not, refl, suc, true, zero,
  ℕ, ℤ, ◌<◌, ◌∙◌, ◌∷◌, ◌≡◌,
}
use db_index_performance_eva.Base.State.{done, pure, stuck, ◌>>=◌}
use db_index_performance_eva.BpTree.{RangeIterator, next}
use db_index_performance_eva.BpTree.Position.{Position, next-Position}
use db_index_performance_eva.BpTree.Reading.{IsReader}
use db_index_performance_eva.Bytes.{Bytes}
use db_index_performance_eva.Pager.{Pager}
use db_index_performance_eva.Node.Between.{until}
use db_index_performance_eva.Tree.{Code, Tree}

-- `for it.Next() { use it.Key(), it.Value() }`, collecting the pairs; `fuel` is for each call of `Next`.
unfoldable pub collect : ℕ → ℕ → RangeIterator → Code (List (ℤ × Bytes))
collect fuel zero it = λ _. stuck
collect fuel (suc rounds) it = next fuel it >>= λ (it', more). elim more [
  | false ↦ pure []
  | true ↦ collect fuel rounds it' >>= λ pairs. pure ((it'.k, it'.v) ∷ pairs)
]

abbrev pub pair : Cell → ℤ × Bytes
pair c = (c.key, bytes_of c.value)

pub collect_end :
    (fuel rounds : ℕ) (it it' : RangeIterator) (t t' : Tree) (more : Bool)
    → next fuel it t ≡ done (it', more) t'
    → more ≡ false
    → collect fuel (suc rounds) it t ≡ done [] t'
unfolding collect
collect_end fuel rounds it it' t t' more e stop = rw (collect, e, stop) refl

pub collect_more :
    (fuel rounds : ℕ) (it it' : RangeIterator) (t t' t'' : Tree) (pairs : List (ℤ × Bytes))
    (more : Bool)
    → next fuel it t ≡ done (it', more) t'
    → more ≡ true
    → collect fuel rounds it' t' ≡ done pairs t''
    → collect fuel (suc rounds) it t ≡ done ((it'.k, it'.v) ∷ pairs) t''
unfolding collect
collect_more fuel rounds it it' t t' t'' pairs more e go f = rw (collect, e, go, f) refl

pub until_more :
    (end_key : ℤ) (c : Cell) (cs : List Cell)
    → ltb_ℤ end_key c.key ≡ false
    → (end' k : ℤ) (v : Bytes) → end' ≡ end_key
    → k ≡ c.key
    → v ≡ bytes_of c.value
    → (k, v) ∷ until pair end' cs ≡ until pair end_key (c ∷ cs)
until_more end_key c cs within end' k v e f g = rw (e, f, g, within) refl

module _ (d : Bytes) (size s r : ℕ) where
  -- Collected from there on, the entries come in order, up to the first one behind the end.
  pub collect-Position :
      (rem : List Cell) (rounds bound : ℕ) (p : Pager) (it : RangeIterator)
      → Position d size s r bound p it rem
      → length rem < rounds
      → (q : Pager) × (collect bound rounds it (tree_on p d s r)
          ≡ done (until pair it.end_key rem) (tree_on q d s r))
        × IsReader q d size
  collect-Position rem zero bound p it pos h = absurd (omega arith)
  collect-Position [] (suc rounds) bound p it pos h =
      let (q, it', more, e, k, stop) =
        next-Position d size s r pos.later bound bound p it [] pos refl pos.few in
      (q, collect_end bound rounds it it' _ _ more e stop, k)
  collect-Position (c ∷ cs) (suc rounds) bound p it pos h =
      let (q, it', more, e, k, yields) =
        next-Position d size s r pos.later bound bound p it (c ∷ cs) pos refl pos.few in
      elim (Bool-cases (ltb_ℤ it.end_key c.key)) [
        | inl behind ↦
            let stop : more ≡ false = yields.0 ∙ ap not behind in
            (
              q,
              collect_end bound rounds it it' _ _ more e stop
                  ∙ ap (λ l. done l (tree_on q d s r)) (rw behind refl),
              k,
            )
        | inr within ↦
            let go : more ≡ true = yields.0 ∙ ap not within in
            let (same, key, value, pos') = yields.1 go in
            let (q', e', k') = collect-Position cs rounds bound q it' pos' (omega arith) in
            (
              q',
              collect_more bound rounds it it' _ _ _ _ more e go e'
                  ∙ ap (λ l. done l (tree_on q' d s r))
                      (until_more it.end_key c cs within it'.end_key it'.k it'.v same key value),
              k',
            )
      ]
