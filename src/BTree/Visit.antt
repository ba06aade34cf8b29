-- ===== src/BTree/Visit.antt =====
-- `Next` of the B-tree's range iterator, in a tree that is stored on the disk.
use db_index_performance_eva.Base.{
  ℕ, zero, suc, ◌+◌, ◌≤◌, ◌<◌, ◌≡◌, refl, ap, ◌∙◌, Bool, true, false, not, Bool-cases, ◌⊎◌, inl,
  inr, List, [], ◌∷◌, ◌++◌, arith, length, drop, get_elem?-some, if◌then◌else◌, ℤ, ltb_ℤ,
}
use native.Mathlib.Decide.{dec_lt}
use db_index_performance_eva.Base.State.{done}
use db_index_performance_eva.Bytes.{Bytes}
use db_index_performance_eva.Accessor.{Cell}
use db_index_performance_eva.Pager
use db_index_performance_eva.Pager.{Pager}
use db_index_performance_eva.Pager.Storage.{calm_pager}
use db_index_performance_eva.Pager.Cached.{page_at}
use db_index_performance_eva.BTree.Stored.{Stored}
use db_index_performance_eva.BTree.Get.{Within, tree_on}
use db_index_performance_eva.BTree.{
  Frame, RangeIterator, yield, finish, again, pop_frame, next_round, next,
}
use db_index_performance_eva.BTree.Stack.{
  From, Behind-cell, Behind-end, InternalNode, Settled, Waiting,
}
use db_index_performance_eva.BTree.Rounds.{
  leaf-inside, leaf-outside, internal-inside, internal-outside, next-again, next-yield, next-finish,
}
use db_index_performance_eva.BpTree.Reading.{IsReader, read-IsReader}
use db_index_performance_eva.BpTree.Scan.{drop-inside, drop-outside}

module _ (d : Bytes) (size s r : ℕ) where
  -- The top frame is a leaf's, or its child was visited.
  abbrev pub Ready : ℕ → Frame → List Cell → Type 0
  Ready zero f rem = Settled (page_at d size) (Within size d) zero f.id f.idx rem
  Ready (suc height) f rem =
      (f.subtree_done ≡ true) × Settled (page_at d size) (Within size d) (suc height) f.id f.idx rem

  -- The top frame's child at its index was not visited yet.
  abbrev pub Entering : ℕ → Frame → List Cell → Type 0
  Entering zero f rem = ⊥
  Entering (suc height) f rem =
      (f.subtree_done ≡ false)
      × ((cs : List Cell) × (last : ℕ) × InternalNode (page_at d size) (Within size d) f.id cs last
          × From (Stored (page_at d size) (Within size d) height) cs last f.idx rem)

  -- The stack has the entries `rem` left; `bound` is on the rounds of a call of `Next`.
  abbrev pub Placed : ℕ → List Frame → List Cell → Type 0
  Placed bound [] rem = rem ≡ []
  Placed bound (f ∷ fs) rem =
      (height : ℕ) × (here later : List Cell) × (rem ≡ here ++ later)
      × (Ready height f here ⊎ Entering height f here)
      × Waiting (page_at d size) (Within size d) height fs later
      × (height + length fs ≤ bound)

  -- What a call of `Next` gives: the next entry, unless there is none or its key is behind the end.
  abbrev pub Yields : ℕ → ℤ → List Cell → RangeIterator → Bool → Type 0
  Yields bound end_key [] it more = more ≡ false
  Yields bound end_key (c ∷ cs) it more =
      (more ≡ not (ltb_ℤ end_key c.key))
      × (more ≡ true
          → (it.end_key ≡ end_key) × (it.k ≡ c.key) × (it.v ≡ c.value) × Placed bound it.stack cs)

  abbrev pub NextYields : ℕ → ℕ → Pager → RangeIterator → List Cell → Type 0
  NextYields bound fuel p it rem =
      (q : Pager) × (it' : RangeIterator) × (more : Bool) × (next fuel it (tree_on p d s r)
        ≡ done (it', more) (tree_on q d s r))
      × IsReader q d size
      × Yields bound it.end_key rem it' more

  -- A round that comes to a cell.
  at_cell :
      (bound fuel a : ℕ) (p q : Pager) (it : RangeIterator) (f : Frame) (fs : List Frame) (c : Cell)
      (stack : List Frame) (rem : List Cell)
      → it.stack ≡ f ∷ fs
      → Pager.read f.id (calm_pager p d s) ≡ done a (calm_pager q d s)
      → IsReader q d size
      → next_round it.end_key a f fs (tree_on q d s r)
        ≡ done (if ltb_ℤ it.end_key c.key then finish else yield c stack) (tree_on q d s r)
      → Placed bound stack rem
      → NextYields bound (suc fuel) p it (c ∷ rem)
  at_cell bound fuel a p q it f fs c stack rem top step k round placed =
      elim (Bool-cases (ltb_ℤ it.end_key c.key)) [
        | inl behind ↦
            let stops = rw behind at round in
            (
              q,
              record it { stack = f ∷ fs },
              false,
              next-finish fuel a r it f fs p q d s top step stops,
              k,
              rw behind (refl, λ e. absurd (cc)),
            )
        | inr within ↦
            let goes = rw within at round in
            (
              q,
              record it { stack = stack; k = c.key; v = c.value },
              true,
              next-yield fuel a r it f fs p q d s top step c stack goes,
              k,
              rw within (refl, λ e. (refl, refl, refl, placed)),
            )
      ]

  -- The round at a frame that is ready: it comes to a cell, or pops the frame.
  abbrev TopRound : ℕ → Pager → ℤ → Frame → List Frame → List Cell → List Cell → Type 0
  TopRound bound p end_key f fs here later =
      (a : ℕ) × (q : Pager) × (Pager.read f.id (calm_pager p d s) ≡ done a (calm_pager q d s))
      × IsReader q d size
      × (((c : Cell) × (rem : List Cell) × (stack : List Frame) × (here ≡ c ∷ rem)
            × (next_round end_key a f fs (tree_on q d s r)
                ≡ done (if ltb_ℤ end_key c.key then finish else yield c stack) (tree_on q d s r))
            × Placed bound stack (rem ++ later))
          ⊎ ((here ≡ [])
              × (next_round end_key a f fs (tree_on q d s r)
                  ≡ done (again (pop_frame fs)) (tree_on q d s r))))

  top_round :
      (bound height : ℕ) (p : Pager) (end_key : ℤ) (f : Frame) (fs : List Frame)
      (here later : List Cell)
      → IsReader p d size
      → Ready height f here
      → Waiting (page_at d size) (Within size d) height fs later
      → height + length fs ≤ bound
      → TopRound bound p end_key f fs here later
  top_round bound zero p end_key f fs here later k (cs, (there, (lo, holds)), e) wait b =
      let (a, q, step, load, k', _) = read-IsReader p d s size f.id k there in
      let t = tree_on q d s r in
      (
        a,
        q,
        step,
        k',
        elim (dec_lt f.idx (length cs)) [
          | yes inside ↦
              let (c, g) = get_elem?-some cs f.idx inside in
              inl (
                c,
                drop (f.idx + 1) cs,
                record f { idx = f.idx + 1 } ∷ fs,
                e ∙ drop-inside f.idx cs c g,
                leaf-inside t a _ load end_key f fs cs lo holds c g inside,
                (
                  0,
                  drop (f.idx + 1) cs,
                  later,
                  refl,
                  inl (cs, (there, (lo, holds)), refl),
                  wait,
                  b,
                ),
              )
          | no outside ↦ inr (
            e ∙ drop-outside f.idx cs (omega arith),
            leaf-outside t a _ load end_key f fs cs lo holds (omega arith),
          )
        ],
      )
  top_round bound (suc height) p end_key f fs here later k
        (visited, (cs, last, (there, (lo, holds), right), behind)) wait b =
      let (a, q, step, load, k', _) = read-IsReader p d s size f.id k there in
      let t = tree_on q d s r in
      let Child = Stored (page_at d size) (Within size d) height in
      (
        a,
        q,
        step,
        k',
        elim (dec_lt f.idx (length cs)) [
          | yes inside ↦
              let (c, rem, g, e, from) = Behind-cell Child cs last f.idx here inside behind in
              inl (
                c,
                rem,
                record f { idx = f.idx + 1; subtree_done = false } ∷ fs,
                e,
                internal-inside t a _ load end_key f fs cs lo holds c visited g inside,
                (
                  suc height,
                  rem,
                  later,
                  refl,
                  inr (refl, (cs, last, (there, (lo, holds), right), from)),
                  wait,
                  b,
                ),
              )
          | no outside ↦ inr (
            Behind-end Child cs last f.idx here (omega arith) behind,
            internal-outside t a _ load end_key f fs cs lo holds visited (omega arith),
          )
        ],
      )

  -- From a frame that is ready, the stack is popped up to the next cell.
  pub ascend :
      (fs : List Frame) (bound fuel height : ℕ) (f : Frame) (p : Pager) (it : RangeIterator)
      (here later : List Cell)
      → it.stack ≡ f ∷ fs
      → IsReader p d size
      → Ready height f here
      → Waiting (page_at d size) (Within size d) height fs later
      → height + length fs ≤ bound
      → length fs + 1 < fuel
      → NextYields bound fuel p it (here ++ later)
  ascend fs bound zero height f p it here later top k ready wait b h = absurd (omega arith)
  ascend fs bound (suc zero) height f p it here later top k ready wait b h = absurd (omega arith)
  ascend [] bound (suc (suc fuel)) height f p it here later top k ready wait b h =
      let (a, q, step, k', round) =
        top_round bound height p it.end_key f [] here later k ready wait b in
      elim round [
        | inl (c, rem, stack, e, cell, placed) ↦
            let shape : here ++ later ≡ c ∷ (rem ++ later) = ap (λ l. l ++ later) e in
            rw shape (
              at_cell bound (suc fuel) a p q it f [] c stack (rem ++ later) top step k' cell placed)
        | inr (e, popped) ↦
            let none_left : here ++ later ≡ [] = ap (λ l. l ++ later) e ∙ wait in
            let stop : next (suc fuel) (record it { stack = [] }) (tree_on q d s r)
                ≡ done (record it { stack = [] }, false) (tree_on q d s r) =
              unfold next in refl in
            (
              q,
              record it { stack = [] },
              false,
              next-again (suc fuel) a r it f [] p q d s top step [] popped ∙ stop,
              k',
              rw none_left refl,
            )
      ]
  ascend (g ∷ gs) bound (suc (suc fuel)) height f p it here later top k ready wait b h =
      let (a, q, step, k', round) =
        top_round bound height p it.end_key f (g ∷ gs) here later k ready wait b in
      elim round [
        | inl (c, rem, stack, e, cell, placed) ↦
            let shape : here ++ later ≡ c ∷ (rem ++ later) = ap (λ l. l ++ later) e in
            rw shape (
              at_cell bound (suc fuel) a p q it f (g ∷ gs) c stack (rem ++ later) top step k' cell
                placed)
        | inr (e, popped) ↦
            let (here', later', e', settled, wait') = wait in
            let shape : here ++ later ≡ here' ++ later' = ap (λ l. l ++ later) e ∙ e' in
            let stack = record g { subtree_done = true } ∷ gs in
            let (q', it', more, run, k'', yields) =
              ascend gs bound (suc fuel) (suc height) (record g { subtree_done = true }) q
                (record it { stack = stack }) here' later' refl k' (refl, settled) wait'
                (omega arith) (omega arith) in
            (
              q',
              it',
              more,
              next-again (suc fuel) a r it f (g ∷ gs) p q d s top step stack popped ∙ run,
              k'',
              rw shape yields,
            )
      ]
