-- ===== src/BpTree/Scan.antt =====
-- A round of `Next` of a B+ tree's range iterator, in a leaf that is in memory.
use db_index_performance_eva.Base.{
  ℕ, zero, suc, ◌+◌, ◌≤◌, ◌<◌, ◌≡◌, refl, sym, ap, ◌∙◌, true, false, inl, inr, if◌then◌else◌, none,
  some, List, [], ◌∷◌, arith, length, drop, get_elem?, lt→ltb, le→ltb, ltb_ℤ,
}
use db_index_performance_eva.Base.Go.{ok}
use db_index_performance_eva.Base.State.{done}
use db_index_performance_eva.BtPage.{Page, next_leaf}
use db_index_performance_eva.Accessor.{Cell, bytes_of}
use db_index_performance_eva.Accessor.BpTree.{bptree_acc}
use db_index_performance_eva.Accessor.BpTree.RoundTrip.{bptree_laws, read_cell_zero_copy-read_cell}
use db_index_performance_eva.Node.Layout.{Holds, read_cell-CellAt}
use db_index_performance_eva.Pager.Storage.{load_page-ok}
use db_index_performance_eva.Tree.{Tree, on_pager, on_page}
use db_index_performance_eva.BpTree.{RangeIterator, next_on_page}

module _ {A : Type 0} where
  pub drop-inside :
      (i : ℕ) (xs : List A) (x : A) → get_elem? xs i ≡ some x → drop i xs ≡ x ∷ drop (i + 1) xs
  drop-inside i [] x e = cc
  drop-inside zero (y ∷ xs) x e = let same : y ≡ x = cc in rw same refl
  drop-inside (suc i) (y ∷ xs) x e =
      let down : suc i + 1 ≡ suc (i + 1) = omega arith in
      drop-inside i xs x e ∙ ap (λ n. x ∷ drop n (y ∷ xs)) (sym down)

  pub drop-outside : (i : ℕ) (xs : List A) → length xs ≤ i → drop i xs ≡ []
  drop-outside zero [] h = refl
  drop-outside zero (x ∷ xs) h = absurd (omega arith)
  drop-outside (suc i) [] h = refl
  drop-outside (suc i) (x ∷ xs) h = drop-outside i xs (omega arith)

-- One round of `Next` on an addressed page.
module _ (it : RangeIterator) (a : ℕ) (t : Tree) (pg : Page) (cs : List Cell) (lo : ℕ)
    (there : get_elem? t.pg.bufs a ≡ some pg) (h : Holds bptree_acc bptree_laws pg true cs lo) where
  pub next_on_page-inside :
      (c : Cell)
      → get_elem? cs it.idx ≡ some c
      → it.idx < length cs
      → next_on_page it a t
        ≡ done
            (inl (
              if ltb_ℤ it.end_key c.key then (record it { curr_pg = some a }, false) else (
                record it { curr_pg = some a; k = c.key; v = bytes_of c.value; idx = it.idx + 1 },
                true,
              )))
            t
  unfolding next_on_page
  next_on_page-inside c e inside =
      let load = load_page-ok a t.pg pg there in
      let read =
        read_cell_zero_copy-read_cell pg it.idx c
          (read_cell-CellAt bptree_acc bptree_laws (h.cells it.idx c e)) in
      rw
        (
          next_on_page,
          on_page,
          on_pager,
          load,
          h.count,
          lt→ltb it.idx (length cs) inside,
          on_page,
          on_pager,
          load,
          read,
        )
        refl

  pub next_on_page-outside :
      (following : ℕ)
      → next_leaf pg ≡ ok following
      → length cs ≤ it.idx
      → next_on_page it a t
        ≡ done (inr (record it { leaf_id = following; curr_pg = none; idx = 0 })) t
  unfolding next_on_page
  next_on_page-outside following e outside =
      let load = load_page-ok a t.pg pg there in
      rw
        (
          next_on_page,
          on_page,
          on_pager,
          load,
          h.count,
          le→ltb it.idx (length cs) outside,
          on_page,
          on_pager,
          load,
          e,
        )
        refl
