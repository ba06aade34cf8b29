-- ===== src/Accessor/Laws.antt =====
-- What the engine relies on in an accessor: a cell that is written within the page is read back
-- through a pointer to it, and only its own bytes change.
use db_index_performance_eva.Base.{ℕ, ◌+◌, ◌*◌, ◌^◌, ◌≤◌, ◌<◌, ◌≡◌, ◌∙◌, Bool, true, length, pos}
use db_index_performance_eva.Base.Go.{Go, ok, ◌>>=◌}
use db_index_performance_eva.Bytes.Frame.{Apart, SameOutside}
use db_index_performance_eva.Bytes.Words.{IsInt64}
use db_index_performance_eva.BtPage.{Page, next_leaf, cell_ptr}
use db_index_performance_eva.BtPage.Fields.{cell_ptr-same}
use db_index_performance_eva.Accessor.{len, Cell, Accessor}

-- The fields of the cell have room in their encodings.
pub record Fits (c : Cell) : Type 0 where
  pub key : IsInt64 c.key
  pub value : len c.value < 2 ^ 16
  pub left_child : c.left_child < 2 ^ 32

pub record AccessorLaws (acc : Accessor) : Type 0 where
  -- The cell at an offset, and what of a cell its encoding keeps.
  pub decode : Page → ℕ → Bool → Go Cell
  pub stored : Bool → Cell → Cell
  pub key-stored : (leaf : Bool) (c : Cell) → (stored leaf c).key ≡ c.key
  pub cell_size-stored :
      (leaf : Bool) (c : Cell)
      → acc.cell_size leaf (stored leaf c).value ≡ acc.cell_size leaf c.value
  pub read_cell-decode :
      (p : Page) (i : ℕ) (leaf : Bool)
      → acc.read_cell p i leaf ≡ (cell_ptr p i >>= λ off. decode p off leaf)
  pub decode-same :
      (p p' : Page) (off w m : ℕ) (leaf : Bool) (c : Cell)
      → SameOutside p p' w m
      → Apart off (acc.cell_size leaf c.value) w m
      → decode p off leaf ≡ ok c
      → decode p' off leaf ≡ ok c
  pub write_cell-stored :
      (p : Page) (off : ℕ) (c : Cell) (leaf : Bool)
      → off + acc.cell_size leaf c.value ≤ length p
      → Fits c
      → (p' : Page) × (acc.write_cell p (pos off) c.key c.value c.left_child leaf ≡ ok p')
        × SameOutside p p' off (acc.cell_size leaf c.value)
        × (decode p' off leaf ≡ ok (stored leaf c))
  pub link_leaves-ok :
      (left right : Page) (new_id old_next : ℕ)
      → 13 ≤ length left
      → 13 ≤ length right
      → new_id < 2 ^ 32
      → old_next < 2 ^ 32
      → (left' right' : Page) × (acc.link_leaves left right new_id old_next ≡ ok (left', right'))
        × SameOutside left left' 9 4
        × SameOutside right right' 9 4
        × (acc.copy_up_leaves ≡ true
            → (next_leaf left' ≡ ok new_id) × (next_leaf right' ≡ ok old_next))

-- A cell that is written within the page, and off the pointer that leads to it, is read back.
pub read_cell-write_cell :
    (acc : Accessor) (laws : AccessorLaws acc) (p : Page) (i off : ℕ) (c : Cell) (leaf : Bool)
    → cell_ptr p i ≡ ok off
    → Apart (13 + i * 2) 2 off (acc.cell_size leaf c.value)
    → off + acc.cell_size leaf c.value ≤ length p
    → Fits c
    → (p' : Page) × (acc.write_cell p (pos off) c.key c.value c.left_child leaf ≡ ok p')
      × (acc.read_cell p' i leaf ≡ ok (laws.stored leaf c))
read_cell-write_cell acc laws p i off c leaf ptr apart inside fits =
    let (q, e, s, r) = laws.write_cell-stored p off c leaf inside fits in
    (q, e, laws.read_cell-decode q i leaf ∙ rw (cell_ptr-same s i apart, ptr, r))
