-- ===== src/Accessor.antt =====
-- The interface NodeAccessor of src/dbms/index/shared/tree.go, and what a value and a cell are.
pub mod BTree
pub mod BpTree
pub mod Laws
pub mod Values
use db_index_performance_eva.Base.{ℕ, Bool, Option, none, some, [], length, ℤ, pos, negsuc}
use db_index_performance_eva.Base.Go.{Go, panic}
use db_index_performance_eva.Bytes.{Bytes}
use db_index_performance_eva.BtPage.{Page}

-- A `[]byte` that may be nil.
abbrev pub Value : Type 0
Value = Option Bytes

-- The bytes of a value; nil has none.
abbrev pub bytes_of : Value → Bytes
bytes_of none = []
bytes_of (some bs) = bs

-- `len(value)`
abbrev pub len : Value → ℕ
len v = length (bytes_of v)

-- The struct CellData, which is also what `ReadCell` returns.
pub record Cell : Type 0 where
  pub key : ℤ
  pub value : Value
  pub left_child : ℕ

-- `p[off:]` and its like for an `int` offset: a negative one panics.
abbrev pub at_offset {ℓ} : {A : Type ℓ} → ℤ → (ℕ → Go A) → Go A
at_offset (pos o) f = f o
at_offset (negsuc _) f = panic

pub record Accessor : Type 0 where
  pub cell_size : Bool → Value → ℕ
  pub read_cell : Page → ℕ → Bool → Go Cell
  pub write_cell : Page → ℤ → ℤ → Value → ℕ → Bool → Go Page
  pub overwrite_value : Page → ℕ → Value → Bool → Go Page
  pub copy_up_leaves : Bool
  pub link_leaves : Page → Page → ℕ → ℕ → Go (Page × Page)
