-- ===== src/Node/Init.antt =====
-- `InitPage` makes an empty page of the given type.
use db_index_performance_eva.Base.{
  ℕ, ◌%◌, ◌^◌, ◌≤◌, ◌<◌, ◌≡◌, ◌∙◌, refl, ap, [], ◌∷◌, arith, length, replicate, length-replicate,
  take-drop-replicate, le→leb, ◌==◌,
}
use db_index_performance_eva.Base.Go.{ok}
use db_index_performance_eva.Bytes.{copy_at, slice, get_uint, le_value}
use db_index_performance_eva.Bytes.Frame.{SameOutside-copy_at, store-ok, slice-copy_at_self}
use db_index_performance_eva.BtPage.{
  Page, type_leaf, invalid_page, page_type, rightmost, next_leaf, init_page,
}
use db_index_performance_eva.BtPage.Fields.{
  set_num_cells_lem, set_cell_content_lem, set_next_leaf_lem, page_type-same, num_cells-same,
  cell_content-same, rightmost-same,
}
use db_index_performance_eva.Accessor.{Accessor}
use db_index_performance_eva.Accessor.Laws.{AccessorLaws}
use db_index_performance_eva.Node.{is_leaf}
use db_index_performance_eva.Node.Layout.{Holds}

rightmost-replicate : (n : ℕ) → 13 ≤ n → rightmost (replicate n 0) ≡ ok 0
unfolding rightmost get_uint slice le_value
rightmost-replicate n h = rw (
  length-replicate {A = ℕ} 0 n,
  le→leb 9 n (omega arith),
  take-drop-replicate {A = ℕ} 0 5 4 n (omega arith),
)

page_type-copy_at : (p : Page) (pt : ℕ) → 1 ≤ length p → page_type (copy_at p 0 (pt ∷ [])) ≡ ok pt
unfolding page_type get_uint le_value
page_type-copy_at p pt h =
    rw (slice-copy_at_self p 0 1 (pt ∷ []) refl (omega arith)) (ap ok (omega arith))

module _ (acc : Accessor) (laws : AccessorLaws acc) where
  -- On a page with room for the header and below 2 ^ 16 bytes the call succeeds, whatever the page
  -- held: no cells, the whole of the page free, no rightmost child and no next leaf.
  init_page-Holds :
      (p : Page) (pt : ℕ)
      → 13 ≤ length p
      → length p < 2 ^ 16
      → (p' : Page) × (init_page p pt ≡ ok p')
        × Holds acc laws p' (pt == type_leaf) [] (length p)
        × (page_type p' ≡ ok pt)
        × (rightmost p' ≡ ok 0)
        × (next_leaf p' ≡ ok invalid_page)
        × (length p' ≡ length p)
  unfolding init_page is_leaf
  init_page-Holds p pt h small =
      let n = length p in
      let blank : Page = replicate n 0 in
      let size : length blank ≡ n = length-replicate {A = ℕ} 0 n in
      let p0 = copy_at blank 0 (pt ∷ []) in
      let s0 = SameOutside-copy_at blank 0 (pt ∷ []) in
      let (p1, e1, s1, r1) = set_num_cells_lem p0 0 (omega (arith, s0.size)) (omega arith) in
      let (p2, e2, s2, r2) = set_cell_content_lem p1 n (omega (arith, s0.size, s1.size)) small in
      let (p3, e3, s3, r3) =
        set_next_leaf_lem p2 invalid_page (omega (arith, s0.size, s1.size, s2.size))
          (omega arith) in
      let kind : page_type p3 ≡ ok pt =
        page_type-same s3 (omega arith)
        ∙ page_type-same s2 (omega arith)
        ∙ page_type-same s1 (omega arith)
        ∙ page_type-copy_at blank pt (omega arith) in
      let wrapped : length p1 % 2 ^ 16 ≡ n = omega (arith, s0.size, s1.size) in
      (
        p3,
        rw (store-ok blank 0 (pt ∷ []) (omega arith), e1, wrapped, e2) e3,
        record {
          small = omega (arith, s0.size, s1.size, s2.size, s3.size);
          kind = rw kind;
          count = num_cells-same s3 (omega arith) ∙ num_cells-same s2 (omega arith) ∙ r1;
          top = cell_content-same s3 (omega arith) ∙ r2;
          room = h;
          bound = omega (arith, s0.size, s1.size, s2.size, s3.size);
          cells = λ i c e. cc;
        },
        kind,
        rightmost-same s3 (omega arith)
            ∙ rightmost-same s2 (omega arith)
            ∙ rightmost-same s1 (omega arith)
            ∙ rightmost-same s0 (omega arith)
            ∙ rightmost-replicate n h,
        r3,
        omega (arith, s0.size, s1.size, s2.size, s3.size),
      )
