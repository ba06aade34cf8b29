-- ===== src/BpTree/Position.antt =====
-- Where a range iterator of a B+ tree stands, and how `Next` goes on from there.
use db_index_performance_eva.Base.{
  ℕ, zero, suc, ◌+◌, ◌≤◌, ◌<◌, ◌≡◌, refl, ap, ◌∙◌, Bool, true, false, not, Bool-cases, ◌⊎◌, inl,
  inr, none, some, List, [], ◌∷◌, ◌++◌, arith, length, All, drop, get_elem?, get_elem?-some, ne→eq,
  ℤ, ltb_ℤ,
}
use native.Mathlib.Decide.{dec_lt}
use db_index_performance_eva.Base.Go.{ok}
use db_index_performance_eva.Base.State.{done}
use db_index_performance_eva.Bytes.{Bytes}
use db_index_performance_eva.BtPage.{invalid_page, next_leaf}
use db_index_performance_eva.Accessor.{Cell, bytes_of}
use db_index_performance_eva.Pager.{Pager}
use db_index_performance_eva.Pager.Cached.{page_at}
use db_index_performance_eva.Tree.{on_pager}
use db_index_performance_eva.BTree.Get.{Within, tree_on}
use db_index_performance_eva.BpTree.{RangeIterator, current_page, next}
use db_index_performance_eva.BpTree.Reading.{IsReader, read-IsReader}
use db_index_performance_eva.BpTree.Stored.{Leaf, entries, first_id, LeafAt, Linked}
use db_index_performance_eva.BpTree.Scan.{
  drop-inside, drop-outside, next_on_page-inside, next_on_page-outside,
}

module _ (d : Bytes) (size s r : ℕ) where
  -- The iterator stands in a leaf that holds `cells`, with the leaves `later` behind it, and `rem` are
  -- the entries that it has not passed. It holds a buffer with the leaf's page, or none.
  pub record Position (fuel : ℕ) (p : Pager) (it : RangeIterator) (rem : List Cell) : Type 0 where
    pub cells : List Cell
    pub later : List Leaf
    pub leaf : LeafAt (page_at d size) (Within size d) (record { id = it.leaf_id; cells = cells })
    pub stored : All (LeafAt (page_at d size) (Within size d)) later
    pub onward : next_leaf (page_at d size it.leaf_id) ≡ ok (first_id later)
    pub linked : Linked (page_at d size) (Within size d) later
    pub left : rem ≡ drop it.idx cells ++ entries later
    pub pinned :
        (it.curr_pg ≡ none)
        ⊎ ((a : ℕ) × (it.curr_pg ≡ some a)
            × (get_elem? p.bufs a ≡ some (page_at d size it.leaf_id)))
    pub few : length later + 1 < fuel
    pub reader : IsReader p d size

  -- What a call of `Next` gives: the next entry, unless there is none or its key is behind the end.
  abbrev pub Yields : ℕ → ℤ → List Cell → Pager → RangeIterator → Bool → Type 0
  Yields fuel end_key [] q it more = more ≡ false
  Yields fuel end_key (c ∷ cs) q it more =
      (more ≡ not (ltb_ℤ end_key c.key))
      × (more ≡ true
          → (it.end_key ≡ end_key)
            × (it.k ≡ c.key)
            × (it.v ≡ bytes_of c.value)
            × Position fuel q it cs)

  abbrev pub NextYields : ℕ → ℕ → Pager → RangeIterator → List Cell → Type 0
  NextYields fuel bound p it rem =
      (q : Pager) × (it' : RangeIterator) × (more : Bool) × (next fuel it (tree_on p d s r)
        ≡ done (it', more) (tree_on q d s r))
      × IsReader q d size
      × Yields bound it.end_key rem q it' more

  current_page-Position :
      (fuel : ℕ) (p : Pager) (it : RangeIterator) (rem : List Cell)
      → Position fuel p it rem
      → (a : ℕ) × (q : Pager) × (current_page it (tree_on p d s r) ≡ done a (tree_on q d s r))
        × (get_elem? q.bufs a ≡ some (page_at d size it.leaf_id))
        × IsReader q d size
  unfolding current_page
  current_page-Position fuel p it rem pos = elim pos.pinned [
    | inr (a, e, there) ↦ (a, p, rw (current_page, e) refl, there, pos.reader)
    | inl e ↦
        let (a, q, step, there, k, _) =
          read-IsReader p d s size it.leaf_id pos.reader pos.leaf.there in
        (a, q, rw (current_page, e, on_pager, step) refl, there, k)
  ]

  -- An entry in the current leaf.
  next-inside :
      (fuel bound : ℕ) (p : Pager) (it : RangeIterator) (rem : List Cell)
      (pos : Position bound p it rem)
      → it.idx < length pos.cells
      → NextYields (suc fuel) bound p it rem
  unfolding next
  next-inside fuel bound p it rem pos inside =
      let (a, q, e, there, k) = current_page-Position bound p it rem pos in
      let (c, g) = get_elem?-some pos.cells it.idx inside in
      let round =
        next_on_page-inside it a (tree_on q d s r) _ pos.cells pos.leaf.lo there pos.leaf.holds c g
          inside in
      let rest = drop (it.idx + 1) pos.cells ++ entries pos.later in
      let shape : rem ≡ c ∷ rest =
        pos.left ∙ ap (λ l. l ++ entries pos.later) (drop-inside it.idx pos.cells c g) in
      elim (Bool-cases (ltb_ℤ it.end_key c.key)) [
        | inl behind ↦ (
          q,
          record it { curr_pg = some a },
          false,
          rw (next, ne→eq it.leaf_id invalid_page pos.leaf.real, e, round, behind) refl,
          k,
          rw (shape, behind) (refl, λ f. absurd (cc)),
        )
        | inr within ↦
            let it' = record it {
              curr_pg = some a;
              k = c.key;
              v = bytes_of c.value;
              idx = it.idx + 1;
            } in
            let pos' : Position bound q it' rest = record {
              cells = pos.cells;
              later = pos.later;
              leaf = pos.leaf;
              stored = pos.stored;
              onward = pos.onward;
              linked = pos.linked;
              left = refl;
              pinned = inr (a, refl, there);
              few = pos.few;
              reader = k;
            } in
            (
              q,
              it',
              true,
              rw (next, ne→eq it.leaf_id invalid_page pos.leaf.real, e, round, within) refl,
              k,
              rw (shape, within) (refl, λ f. (refl, refl, refl, pos')),
            )
      ]

  -- No entry is left in the current leaf: the round goes on to the next one.
  next-outside :
      (fuel bound : ℕ) (p : Pager) (it : RangeIterator) (rem : List Cell)
      (pos : Position bound p it rem)
      → length pos.cells ≤ it.idx
      → (q : Pager) × (next (suc fuel) it (tree_on p d s r)
          ≡ next fuel
              (record it { leaf_id = first_id pos.later; curr_pg = none; idx = 0 })
              (tree_on q d s r))
        × IsReader q d size
  unfolding next
  next-outside fuel bound p it rem pos outside =
      let (a, q, e, there, k) = current_page-Position bound p it rem pos in
      let round =
        next_on_page-outside it a (tree_on q d s r) _ pos.cells pos.leaf.lo there pos.leaf.holds
          (first_id pos.later) pos.onward outside in
      (q, rw (next, ne→eq it.leaf_id invalid_page pos.leaf.real, e, round) refl, k)

  -- The iterator at the start of the next leaf.
  moved-Position :
      (bound : ℕ) (p q : Pager) (it : RangeIterator) (rem : List Cell) (y : Leaf) (ys : List Leaf)
      (pos : Position bound p it rem)
      → pos.later ≡ y ∷ ys
      → length pos.cells ≤ it.idx
      → IsReader q d size
      → Position bound q (record it { leaf_id = y.id; curr_pg = none; idx = 0 }) rem
  moved-Position bound p q it rem y ys pos e outside k =
      let stored = rw e at pos.stored in
      let linked = rw e at pos.linked in
      record {
        cells = y.cells;
        later = ys;
        leaf = stored.0;
        stored = stored.1;
        onward = linked.0;
        linked = linked.1;
        left =
            pos.left
            ∙ ap (λ l. l ++ entries pos.later) (drop-outside it.idx pos.cells outside)
            ∙ ap entries e;
        pinned = inl refl;
        few = omega (arith, pos.few, ap length e);
        reader = k;
      }

  pub next-Position :
      (later : List Leaf) (fuel bound : ℕ) (p : Pager) (it : RangeIterator) (rem : List Cell)
      (pos : Position bound p it rem)
      → pos.later ≡ later
      → length later + 1 < fuel
      → NextYields fuel bound p it rem
  unfolding moved-Position
  next-Position later zero bound p it rem pos e h = absurd (omega arith)
  next-Position later (suc zero) bound p it rem pos e h = absurd (omega arith)
  next-Position [] (suc (suc fuel)) bound p it rem pos e h =
      elim (dec_lt it.idx (length pos.cells)) [
        | yes inside ↦ next-inside (suc fuel) bound p it rem pos inside
        | no outside ↦
            let (q, step, k) = next-outside (suc fuel) bound p it rem pos (omega arith) in
            let none_left : rem ≡ [] =
              pos.left
              ∙ ap (λ l. l ++ entries pos.later) (drop-outside it.idx pos.cells (omega arith))
              ∙ ap entries e in
            let it' = record it { leaf_id = invalid_page; curr_pg = none; idx = 0 } in
            let end : first_id pos.later ≡ invalid_page = ap first_id e in
            let stop : next (suc fuel) it' (tree_on q d s r) ≡ done (it', false) (tree_on q d s r) =
              unfold next in refl in
            (
              q,
              it',
              false,
              step
                  ∙ ap
                      (λ id.
                        next (suc fuel) (record it { leaf_id = id; curr_pg = none; idx = 0 })
                          (tree_on q d s r))
                      end
                  ∙ stop,
              k,
              rw none_left refl,
            )
      ]
  next-Position (y ∷ ys) (suc (suc fuel)) bound p it rem pos e h =
      elim (dec_lt it.idx (length pos.cells)) [
        | yes inside ↦ next-inside (suc fuel) bound p it rem pos inside
        | no outside ↦
            let (q, step, k) = next-outside (suc fuel) bound p it rem pos (omega arith) in
            let it' = record it { leaf_id = y.id; curr_pg = none; idx = 0 } in
            let pos' = moved-Position bound p q it rem y ys pos e (omega arith) k in
            let (q', it'', more, run, k', yields) =
              next-Position ys (suc fuel) bound q it' rem pos' refl (omega arith) in
            (
              q',
              it'',
              more,
              step
                  ∙ ap
                      (λ id.
                        next (suc fuel) (record it { leaf_id = id; curr_pg = none; idx = 0 })
                          (tree_on q d s r))
                      (ap first_id e)
                  ∙ run,
              k',
              yields,
            )
      ]
