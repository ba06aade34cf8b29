-- ===== src/BTree/Rounds.antt =====
-- A round of `Next` of the B-tree's range iterator, on a page that is read.
use db_index_performance_eva.Base.{
  ℕ, zero, suc, ◌+◌, ◌≤◌, ◌<◌, ◌≡◌, refl, ap, true, false, some, List, [], ◌∷◌, arith, length,
  get_elem?, lt→ltb, le→ltb, if◌then◌else◌, ℤ, ltb_ℤ,
}
use db_index_performance_eva.Base.Go.{ok}
use db_index_performance_eva.Base.State.{done}
use db_index_performance_eva.Bytes.{Bytes}
use db_index_performance_eva.BtPage.{Page, rightmost}
use db_index_performance_eva.Accessor.{Cell}
use db_index_performance_eva.Accessor.BTree.{btree_acc}
use db_index_performance_eva.Accessor.BTree.RoundTrip.{btree_laws}
use db_index_performance_eva.Node.Child.{child_of, child_at-Holds}
use db_index_performance_eva.Node.Layout.{Holds, read_cell-CellAt}
use db_index_performance_eva.Pager
use db_index_performance_eva.Pager.{Pager}
use db_index_performance_eva.Pager.Storage.{load_page-ok, calm_pager}
use db_index_performance_eva.Tree.{Tree, on_pager, on_page}
use db_index_performance_eva.BTree.Get.{tree_on}
use db_index_performance_eva.BTree.{
  Frame, RangeIterator, yield, finish, again, pop_frame, yield_cell, next_leaf_round,
  next_internal_round, next_round, next,
}

module _ (t : Tree) (a : ℕ) (pg : Page) (there : get_elem? t.pg.bufs a ≡ some pg) (end_key : ℤ)
    (f : Frame) (rest : List Frame) (cs : List Cell) (lo : ℕ) where
  module _ (h : Holds btree_acc btree_laws pg true cs lo) where
    pub leaf-inside :
        (c : Cell)
        → get_elem? cs f.idx ≡ some c
        → f.idx < length cs
        → next_round end_key a f rest t
          ≡ done
              (if ltb_ℤ end_key c.key
                then finish
                else yield c (record f { idx = f.idx + 1 } ∷ rest))
              t
    unfolding next_round next_leaf_round
    leaf-inside c e inside =
        let load = load_page-ok a t.pg pg there in
        let read = read_cell-CellAt btree_acc btree_laws (h.cells f.idx c e) in
        rw
          (
            next_round,
            on_page,
            on_pager,
            load,
            h.count,
            on_page,
            on_pager,
            load,
            h.kind,
            next_leaf_round,
            lt→ltb f.idx (length cs) inside,
            on_page,
            on_pager,
            load,
            read,
          )
          refl

    pub leaf-outside :
        length cs ≤ f.idx → next_round end_key a f rest t ≡ done (again (pop_frame rest)) t
    unfolding next_round next_leaf_round
    leaf-outside outside =
        let load = load_page-ok a t.pg pg there in
        rw
          (
            next_round,
            on_page,
            on_pager,
            load,
            h.count,
            on_page,
            on_pager,
            load,
            h.kind,
            next_leaf_round,
            le→ltb f.idx (length cs) outside,
          )
          refl

  module _ (h : Holds btree_acc btree_laws pg false cs lo) where
    pub internal-inside :
        (c : Cell)
        → f.subtree_done ≡ true
        → get_elem? cs f.idx ≡ some c
        → f.idx < length cs
        → next_round end_key a f rest t ≡ done (yield_cell end_key c f rest) t
    unfolding next_round next_internal_round
    internal-inside c visited e inside =
        let load = load_page-ok a t.pg pg there in
        let read = read_cell-CellAt btree_acc btree_laws (h.cells f.idx c e) in
        rw
          (
            next_round,
            on_page,
            on_pager,
            load,
            h.count,
            on_page,
            on_pager,
            load,
            h.kind,
            next_internal_round,
            visited,
            lt→ltb f.idx (length cs) inside,
            on_page,
            on_pager,
            load,
            read,
          )
          refl

    pub internal-outside :
        f.subtree_done ≡ true
        → length cs ≤ f.idx
        → next_round end_key a f rest t ≡ done (again (pop_frame rest)) t
    unfolding next_round next_internal_round
    internal-outside visited outside =
        let load = load_page-ok a t.pg pg there in
        rw
          (
            next_round,
            on_page,
            on_pager,
            load,
            h.count,
            on_page,
            on_pager,
            load,
            h.kind,
            next_internal_round,
            visited,
            le→ltb f.idx (length cs) outside,
          )
          refl

    pub internal-down :
        (last : ℕ)
        → f.subtree_done ≡ false
        → f.idx ≤ length cs
        → rightmost pg ≡ ok last
        → next_round end_key a f rest t
          ≡ done
              (again (
                record { id = child_of cs f.idx last; idx = 0; subtree_done = false } ∷ (f ∷ rest)))
              t
    unfolding next_round next_internal_round
    internal-down last visited within e =
        let load = load_page-ok a t.pg pg there in
        let child = child_at-Holds btree_acc btree_laws pg false cs lo h f.idx last refl within e in
        rw
          (
            next_round, on_page, on_pager, load, h.count, on_page, on_pager, load, h.kind,
            next_internal_round, visited, on_page, on_pager, load, child,
          )
          refl

-- What `Next` makes of its first round.
module _ (fuel a r : ℕ) (it : RangeIterator) (f : Frame) (rest : List Frame) (p q : Pager)
    (d : Bytes) (s : ℕ) (top : it.stack ≡ f ∷ rest)
    (step : Pager.read f.id (calm_pager p d s) ≡ done a (calm_pager q d s)) where
  pub next-again :
      (stack : List Frame)
      → next_round it.end_key a f rest (tree_on q d s r) ≡ done (again stack) (tree_on q d s r)
      → next (suc fuel) it (tree_on p d s r)
        ≡ next fuel (record it { stack = stack }) (tree_on q d s r)
  unfolding next
  next-again stack round = rw (next, top, on_pager, step, round) refl

  pub next-yield :
      (c : Cell) (stack : List Frame)
      → next_round it.end_key a f rest (tree_on q d s r) ≡ done (yield c stack) (tree_on q d s r)
      → next (suc fuel) it (tree_on p d s r)
        ≡ done (record it { stack = stack; k = c.key; v = c.value }, true) (tree_on q d s r)
  unfolding next
  next-yield c stack round = rw (next, top, on_pager, step, round) refl

  pub next-finish :
      next_round it.end_key a f rest (tree_on q d s r) ≡ done finish (tree_on q d s r)
      → next (suc fuel) it (tree_on p d s r)
        ≡ done (record it { stack = f ∷ rest }, false) (tree_on q d s r)
  unfolding next
  next-finish round =
      rw (next, top, on_pager, step, round)
        (ap (λ stack. done (record it { stack = stack }, false) (tree_on q d s r)) top)

pub next-empty :
    (fuel : ℕ) (it : RangeIterator) (t : Tree)
    → it.stack ≡ []
    → 0 < fuel
    → next fuel it t ≡ done (record it { stack = [] }, false) t
unfolding next
next-empty zero it t empty h = absurd (omega arith)
next-empty (suc fuel) it t empty h =
    rw (next, empty) (ap (λ stack. done (record it { stack = stack }, false) t) empty)
