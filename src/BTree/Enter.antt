-- ===== src/BTree/Enter.antt =====
-- `Next` of the B-tree's range iterator on its way down, and from any place.
use db_index_performance_eva.Base.{
  ℕ, zero, suc, ◌+◌, ◌≤◌, ◌<◌, ◌≡◌, refl, ap, ◌∙◌, false, inl, inr, List, [], ◌∷◌, ◌++◌,
  append_assoc, arith, length,
}
use db_index_performance_eva.Bytes.{Bytes}
use db_index_performance_eva.Accessor.{Cell}
use db_index_performance_eva.Node.Child.{child_of}
use db_index_performance_eva.Pager.{Pager}
use db_index_performance_eva.Pager.Cached.{page_at}
use db_index_performance_eva.BTree.Stored.{Stored}
use db_index_performance_eva.BTree.Get.{Within, tree_on}
use db_index_performance_eva.BTree.{Frame, RangeIterator}
use db_index_performance_eva.BTree.Stack.{From-child, Waiting}
use db_index_performance_eva.BTree.Rounds.{internal-down, next-again, next-empty}
use db_index_performance_eva.BpTree.Reading.{IsReader, read-IsReader}
use db_index_performance_eva.BTree.Visit.{Entering, Placed, NextYields, ascend}

module _ (d : Bytes) (size s r : ℕ) where
  -- The frame of a node that is entered.
  abbrev entered : ℕ → Frame
  entered id = record { id = id; idx = 0; subtree_done = false }

  -- A round that goes down to a child, given what the rounds from the child on do.
  down :
      (height bound fuel : ℕ) (f : Frame) (fs : List Frame) (p : Pager) (it : RangeIterator)
      (here later : List Cell)
      → it.stack ≡ f ∷ fs
      → IsReader p d size
      → Entering d size s r (suc height) f here
      → Waiting (page_at d size) (Within size d) (suc height) fs later
      → ((q : Pager) (it' : RangeIterator) (id : ℕ) (sub rest : List Cell)
          → it'.stack ≡ entered id ∷ (f ∷ fs)
          → IsReader q d size
          → Stored (page_at d size) (Within size d) height id sub
          → Waiting (page_at d size) (Within size d) height (f ∷ fs) rest
          → NextYields d size s r bound fuel q it' (sub ++ rest))
      → NextYields d size s r bound (suc fuel) p it (here ++ later)
  down height bound fuel f fs p it here later top k
        (fresh, (cs, last, (there, (lo, holds), right), from)) wait onward =
      let Child = Stored (page_at d size) (Within size d) height in
      let (a, q, step, load, k', _) = read-IsReader p d s size f.id k there in
      let (sub, rest, e, child, behind, within) = From-child Child cs last f.idx here from in
      let stack = entered (child_of cs f.idx last) ∷ (f ∷ fs) in
      let round =
        internal-down (tree_on q d s r) a _ load it.end_key f fs cs lo holds last fresh within
          right in
      let shape : here ++ later ≡ sub ++ (rest ++ later) =
        ap (λ l. l ++ later) e ∙ append_assoc sub rest later in
      let (q', it', more, run, k'', yields) =
        onward q (record it { stack = stack }) (child_of cs f.idx last) sub (rest ++ later) refl k'
          child (rest, later, refl, (cs, last, (there, (lo, holds), right), behind), wait) in
      (
        q',
        it',
        more,
        next-again fuel a r it f fs p q d s top step stack round ∙ run,
        k'',
        rw shape yields,
      )

  -- From a node that is entered, the stack grows down to a leaf.
  enter :
      (height bound fuel id : ℕ) (fs : List Frame) (p : Pager) (it : RangeIterator)
      (es later : List Cell)
      → it.stack ≡ entered id ∷ fs
      → IsReader p d size
      → Stored (page_at d size) (Within size d) height id es
      → Waiting (page_at d size) (Within size d) height fs later
      → height + length fs ≤ bound
      → height + (length fs + height) + 1 < fuel
      → NextYields d size s r bound fuel p it (es ++ later)
  enter zero bound fuel id fs p it es later top k (there, _, leaf) wait b h =
      ascend d size s r fs bound fuel 0 (entered id) p it es later top k (es, (there, leaf), refl)
        wait b (omega arith)
  enter (suc height) bound zero id fs p it es later top k node wait b h = absurd (omega arith)
  enter (suc height) bound (suc fuel) id fs p it es later top k
        (there, (cs, lo, last, holds, _, right, spread)) wait b h =
      down height bound fuel (entered id) fs p it es later top k
        (refl, (cs, last, (there, (lo, holds), right), spread)) wait
        (λ q it' id' sub rest top' k' child wait'.
          enter height bound fuel id' (entered id ∷ fs) q it' sub rest top' k' child wait'
            (omega arith) (omega arith))

  descend :
      (height bound fuel : ℕ) (f : Frame) (fs : List Frame) (p : Pager) (it : RangeIterator)
      (here later : List Cell)
      → it.stack ≡ f ∷ fs
      → IsReader p d size
      → Entering d size s r height f here
      → Waiting (page_at d size) (Within size d) height fs later
      → height + length fs ≤ bound
      → height + (length fs + height) + 1 < fuel
      → NextYields d size s r bound fuel p it (here ++ later)
  descend zero bound fuel f fs p it here later top k entering wait b h = elim entering [ ]
  descend (suc height) bound zero f fs p it here later top k entering wait b h =
      absurd (omega arith)
  descend (suc height) bound (suc fuel) f fs p it here later top k entering wait b h =
      down height bound fuel f fs p it here later top k entering wait
        (λ q it' id' sub rest top' k' child wait'.
          enter height bound fuel id' (f ∷ fs) q it' sub rest top' k' child wait' (omega arith)
            (omega arith))

  -- A call of `Next` from any place, with enough fuel for the way up and down again.
  pub next-Placed :
      (bound fuel : ℕ) (p : Pager) (it : RangeIterator) (rem : List Cell)
      → IsReader p d size
      → Placed d size s r bound it.stack rem
      → bound + bound + 1 < fuel
      → NextYields d size s r bound fuel p it rem
  next-Placed bound fuel p it rem k placed h = from_stack it.stack refl placed
    where
      from_stack :
          (stack : List Frame)
          → it.stack ≡ stack
          → Placed d size s r bound stack rem
          → NextYields d size s r bound fuel p it rem
      from_stack [] e none_left =
          let ended = next-empty fuel it (tree_on p d s r) e (omega arith) in
          (p, record it { stack = [] }, false, ended, k, rw none_left refl)
      from_stack (f ∷ fs) e (height, here, later, shape, inl ready, wait, b) =
          rw shape (
            ascend d size s r fs bound fuel height f p it here later e k ready wait b (omega arith))
      from_stack (f ∷ fs) e (height, here, later, shape, inr entering, wait, b) =
          rw shape
            (descend height bound fuel f fs p it here later e k entering wait b (omega arith))
