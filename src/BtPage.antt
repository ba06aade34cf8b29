-- ===== src/BtPage.antt =====
-- src/dbms/index/btpage/page.go: the header fields, the cell pointers and the cell area of a page.
pub mod Fields
use db_index_performance_eva.Base.{ℕ, ◌+◌, ◌*◌, ◌%◌, ◌^◌, [], ◌∷◌, length, replicate, ℤ, pos, sub_ℕ}
use db_index_performance_eva.Base.Go.{Go, ok, ◌>>=◌}
use db_index_performance_eva.Bytes.{Bytes, store, get_uint, put_uint, to_u16}

abbrev pub Page : Type 0
Page = Bytes

abbrev pub type_internal : ℕ
type_internal = 0

abbrev pub type_leaf : ℕ
type_leaf = 1

abbrev pub off_type : ℕ
off_type = 0

abbrev pub off_num_cells : ℕ
off_num_cells = 1

abbrev pub off_cell_content : ℕ
off_cell_content = 3

abbrev pub off_rightmost : ℕ
off_rightmost = 5

abbrev pub off_next_leaf : ℕ
off_next_leaf = 9

abbrev pub off_cell_ptrs : ℕ
off_cell_ptrs = 13

abbrev pub cell_ptr_size : ℕ
cell_ptr_size = 2

abbrev pub invalid_page : ℕ
invalid_page = 0xFFFFFFFF

-- `p[OffType]`
unfoldable pub page_type : Page → Go ℕ
page_type p = get_uint 1 p off_type

unfoldable pub num_cells : Page → Go ℕ
num_cells p = get_uint 2 p off_num_cells

-- The argument is an `int`, of which the low 16 bits are stored.
unfoldable pub set_num_cells : Page → ℤ → Go Page
set_num_cells p n = put_uint 2 p off_num_cells (to_u16 n)

unfoldable pub cell_content : Page → Go ℕ
cell_content p = get_uint 2 p off_cell_content

unfoldable pub set_cell_content : Page → ℕ → Go Page
set_cell_content p v = put_uint 2 p off_cell_content v

unfoldable pub rightmost : Page → Go ℕ
rightmost p = get_uint 4 p off_rightmost

unfoldable pub set_rightmost : Page → ℕ → Go Page
set_rightmost p id = put_uint 4 p off_rightmost id

unfoldable pub next_leaf : Page → Go ℕ
next_leaf p = get_uint 4 p off_next_leaf

unfoldable pub set_next_leaf : Page → ℕ → Go Page
set_next_leaf p id = put_uint 4 p off_next_leaf id

unfoldable pub cell_ptr : Page → ℕ → Go ℕ
cell_ptr p i = get_uint 2 p (off_cell_ptrs + i * cell_ptr_size)

unfoldable pub set_cell_ptr : Page → ℕ → ℕ → Go Page
set_cell_ptr p i off = put_uint 2 p (off_cell_ptrs + i * cell_ptr_size) off

-- Zeroes the page in place, then writes the type and the three header fields.
unfoldable pub init_page : Page → ℕ → Go Page
init_page p pt = do
  let blank = replicate (length p) 0
  p ← store blank off_type (pt ∷ [])
  p ← set_num_cells p (pos 0)
  p ← set_cell_content p (length p % 2 ^ 16)
  set_next_leaf p invalid_page

-- A signed number: the cell pointers may reach past the cell area.
unfoldable pub free_space : Page → ℕ → Go ℤ
free_space p n = do content ← cell_content p; ok (sub_ℕ content (off_cell_ptrs + n * cell_ptr_size))

-- The offset is a signed number too: nothing checks that the cell fits.
unfoldable pub alloc_cell : Page → ℕ → Go (ℤ × Page)
alloc_cell p size = do
  content ← cell_content p
  let top = sub_ℕ content size
  p ← set_cell_content p (to_u16 top)
  ok (top, p)
