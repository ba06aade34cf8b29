-- ===== src/Tests/Fills.antt =====
-- The theorem on filled indices applied to the LSM index over a storage engine in memory.
use db_index_performance_eva.Base.{
  ℕ, zero, suc, ◌≡◌, refl, some, none, List, [], ◌∷◌, arith, get_elem?, ℤ, pos, Bool,
}
use db_index_performance_eva.Base.State.{done}
use db_index_performance_eva.Bytes.{Bytes}
use db_index_performance_eva.Bytes.Words.{IsInt64}
use db_index_performance_eva.Lsm.Store.{Entries}
use db_index_performance_eva.Index.Stores.{lsm_index, lsm_index-IsMap}
use db_index_performance_eva.Bench.Dataset.{Dataset}
use db_index_performance_eva.Bench.Fill.{fill_index, IsDataset, KeepsMembers, fill_index-get}
use db_index_performance_eva.Tests.Engine.{in_memory, in_memory_laws}

abbrev two_keys : Dataset
two_keys = record { keys = pos 7 ∷ pos 4 ∷ []; values = (1 ∷ []) ∷ (2 ∷ 3 ∷ []) ∷ [] }

two_keys-IsDataset : IsDataset two_keys
two_keys-IsDataset = record { values = refl; keys = are_int64; distinct = apart }
  where
    are_int64 : (i : ℕ) (k : ℤ) → get_elem? two_keys.keys i ≡ some k → IsInt64 k
    are_int64 zero k e = let same : pos 7 ≡ k = cc in rw (← same) (omega arith)
    are_int64 (suc zero) k e = let same : pos 4 ≡ k = cc in rw (← same) (omega arith)
    are_int64 (suc (suc i)) k e = cc

    apart :
        (i j : ℕ) (k : ℤ)
        → get_elem? two_keys.keys i ≡ some k
        → get_elem? two_keys.keys j ≡ some k
        → i ≡ j
    apart zero zero k e f = refl
    apart (suc zero) (suc zero) k e f = refl
    apart zero (suc zero) k e f = ground arith
    apart (suc zero) zero k e f = ground arith
    apart (suc (suc i)) j k e f = cc
    apart i (suc (suc j)) k e f = cc

unsorted : (ℕ → ℕ → Bool) → List ℕ → List ℕ
unsorted less is = is

unsorted-KeepsMembers : KeepsMembers unsorted
unfolding unsorted
unsorted-KeepsMembers = record { same_members = λ less i is. refl }

fill_index-get_example :
    (db : Entries) × (fill_index (lsm_index in_memory) none unsorted two_keys [] ≡ done tt db)
    × ((i : ℕ) (k : ℤ) (v : Bytes)
        → get_elem? two_keys.keys i ≡ some k
        → get_elem? two_keys.values i ≡ some v
        → (db' : Entries) × ((lsm_index in_memory).get k db ≡ done (some v) db'))
fill_index-get_example =
    fill_index-get (lsm_index in_memory) (lsm_index-IsMap in_memory in_memory_laws) two_keys
      two_keys-IsDataset none unsorted [] unsorted-KeepsMembers
