-- ===== src/Index.antt =====
-- The interfaces of src/dbms/index/index.go: an index whose state is an `S` and whose errors are an
-- `E`, and the iterators `It` that its `Range` gives. The children are the implementations.
pub mod Lists
pub mod Stores
pub mod Trees
use db_index_performance_eva.Base.{◌≡◌, some, Option, Bool, if◌then◌else◌, ℤ, eqb_ℤ}
use db_index_performance_eva.Base.Go.{Go}
use db_index_performance_eva.Base.State.{Run, done}
use db_index_performance_eva.Bytes.{Bytes}
use db_index_performance_eva.Bytes.Words.{IsInt64}
use db_index_performance_eva.Accessor.{Value}

pub record Index (S E It : Type 0) : Type 0 where
  pub insert : ℤ → Value → S → Run E S (Unit {0})
  pub get : ℤ → S → Run E S Value
  pub delete : ℤ → S → Run E S (Unit {0})
  pub range : ℤ → ℤ → S → Run E S It
  pub close : S → Run E S (Unit {0})

pub record Iterator (S E It : Type 0) : Type 0 where
  pub next : It → S → Run E S (It × Bool)
  pub key : It → Go ℤ
  pub value : It → Go Value
  pub error : It → Option E
  pub close : It → S → Run E S (Unit {0})

-- What a client may rely on, for values that are not nil: `Insert` sets what the index has under the
-- key alone, and `Get` returns what it has, and changes none of it.
pub record IsMap {S E It : Type 0} (index : Index S E It) : Type 0 where
  pub content : S → ℤ → Value
  pub insert-content :
      (k : ℤ) (v : Bytes) (s : S)
      → IsInt64 k
      → (s' : S) × (index.insert k (some v) s ≡ done tt s')
        × ((j : ℤ) → IsInt64 j → content s' j ≡ (if eqb_ℤ k j then some v else content s j))
  pub get-content :
      (k : ℤ) (v : Bytes) (s : S)
      → content s k ≡ some v
      → (s' : S) × (index.get k s ≡ done (some v) s') × ((j : ℤ) → content s' j ≡ content s j)
