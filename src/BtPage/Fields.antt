-- ===== src/BtPage/Fields.antt =====
-- The fields of a page: a write of one is read back, and changes no byte outside it.
use db_index_performance_eva.Base.{ℕ, ◌+◌, ◌-◌, ◌*◌, ◌^◌, ◌≤◌, ◌<◌, ◌≡◌, arith, length, le→leb, pos}
use db_index_performance_eva.Base.Go.{ok}
use db_index_performance_eva.Bytes.Frame.{Apart, SameOutside}
use db_index_performance_eva.Bytes.Words.{get_uint-same, put_uint_lem, to_u16-pos}
use db_index_performance_eva.BtPage.{
  Page, page_type, num_cells, set_num_cells, cell_content, set_cell_content, rightmost,
  set_rightmost, next_leaf, set_next_leaf, cell_ptr, set_cell_ptr, alloc_cell,
}

pub set_num_cells_lem :
    (p : Page) (n : ℕ)
    → 3 ≤ length p
    → n < 2 ^ 16
    → (p' : Page) × (set_num_cells p (pos n) ≡ ok p') × SameOutside p p' 1 2 × (num_cells p' ≡ ok n)
unfolding set_num_cells num_cells
set_num_cells_lem p n h b = rw (to_u16-pos n b) (put_uint_lem 2 p 1 n h b)

pub set_cell_content_lem :
    (p : Page) (v : ℕ)
    → 5 ≤ length p
    → v < 2 ^ 16
    → (p' : Page) × (set_cell_content p v ≡ ok p') × SameOutside p p' 3 2 × (cell_content p' ≡ ok v)
unfolding set_cell_content cell_content
set_cell_content_lem p v h b = put_uint_lem 2 p 3 v h b

pub set_rightmost_lem :
    (p : Page) (id : ℕ)
    → 9 ≤ length p
    → id < 2 ^ 32
    → (p' : Page) × (set_rightmost p id ≡ ok p') × SameOutside p p' 5 4 × (rightmost p' ≡ ok id)
unfolding set_rightmost rightmost
set_rightmost_lem p id h b = put_uint_lem 4 p 5 id h b

pub set_next_leaf_lem :
    (p : Page) (id : ℕ)
    → 13 ≤ length p
    → id < 2 ^ 32
    → (p' : Page) × (set_next_leaf p id ≡ ok p') × SameOutside p p' 9 4 × (next_leaf p' ≡ ok id)
unfolding set_next_leaf next_leaf
set_next_leaf_lem p id h b = put_uint_lem 4 p 9 id h b

pub set_cell_ptr_lem :
    (p : Page) (i off : ℕ)
    → 13 + i * 2 + 2 ≤ length p
    → off < 2 ^ 16
    → (p' : Page) × (set_cell_ptr p i off ≡ ok p')
      × SameOutside p p' (13 + i * 2) 2
      × (cell_ptr p' i ≡ ok off)
unfolding set_cell_ptr cell_ptr
set_cell_ptr_lem p i off h b = put_uint_lem 2 p (13 + i * 2) off h b

-- Room taken from the cell area: the new offset is returned, and stored as the area's start.
pub alloc_cell_lem :
    (p : Page) (size lo : ℕ)
    → cell_content p ≡ ok lo
    → size ≤ lo
    → lo < 2 ^ 16
    → 5 ≤ length p
    → (p' : Page) × (alloc_cell p size ≡ ok (pos (lo - size), p'))
      × SameOutside p p' 3 2
      × (cell_content p' ≡ ok (lo - size))
unfolding alloc_cell cell_content set_cell_content
alloc_cell_lem p size lo e h b l =
    let (q, e', s, r) = put_uint_lem 2 p 3 (lo - size) l (omega arith) in
    (q, rw (e, le→leb size lo h, to_u16-pos (lo - size) (omega arith), e'), s, r)

module _ {p p' : Page} {w m : ℕ} (s : SameOutside p p' w m) where
  pub page_type-same : Apart 0 1 w m → page_type p' ≡ page_type p
  unfolding page_type
  page_type-same = get_uint-same 1 0 s

  pub num_cells-same : Apart 1 2 w m → num_cells p' ≡ num_cells p
  unfolding num_cells
  num_cells-same = get_uint-same 2 1 s

  pub cell_content-same : Apart 3 2 w m → cell_content p' ≡ cell_content p
  unfolding cell_content
  cell_content-same = get_uint-same 2 3 s

  pub rightmost-same : Apart 5 4 w m → rightmost p' ≡ rightmost p
  unfolding rightmost
  rightmost-same = get_uint-same 4 5 s

  pub next_leaf-same : Apart 9 4 w m → next_leaf p' ≡ next_leaf p
  unfolding next_leaf
  next_leaf-same = get_uint-same 4 9 s

  pub cell_ptr-same : (i : ℕ) → Apart (13 + i * 2) 2 w m → cell_ptr p' i ≡ cell_ptr p i
  unfolding cell_ptr
  cell_ptr-same i = get_uint-same 2 (13 + i * 2) s
