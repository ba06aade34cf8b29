-- ===== src/Bench/Suite.antt =====
-- The suite of src/bench/benchmark.go: the configuration, the indexes that are compared, and how each
-- of them is opened. Counts and sizes, which are signed in the source, are natural numbers.
use Prim.Native.String.{String}
use db_index_performance_eva.Base.{ℕ, Bool, true, List, [], ◌∷◌, ℤ, pos}

pub record Config : Type 0 where
  pub seed : ℤ
  pub out_dir : String
  pub data_dir : String
  pub cache_pages : ℕ
  pub dataset_size : ℕ
  pub point_query_count : ℕ
  pub write_ops_total : ℕ
  pub write_ops_window : ℕ
  pub mixed_ops_total : ℕ
  pub log_interval : ℕ
  pub value_size : ℕ
  pub t2_start_size : ℕ
  pub t2_max_size : ℕ
  pub cleanup_data : Bool

-- The call that opens an index: of the B-tree or the B+ tree with the number of cached pages and the
-- page size, or of the LSM index with the size of its memory table.
pub data Opening : Type 0 where
  open_btree : ℕ → ℕ → Opening
  open_bptree : ℕ → ℕ → Opening
  open_lsm : ℤ → Opening

pub record IndexDef : Type 0 where
  pub name : String
  pub new_func : Opening

unfoldable pub indexes : Config → List IndexDef
indexes cfg =
    record { name = "btree_4k"; new_func = open_btree cfg.cache_pages 4096 }
    ∷ record { name = "btree_8k"; new_func = open_btree cfg.cache_pages 8192 }
    ∷ record { name = "btree_16k"; new_func = open_btree cfg.cache_pages 16384 }
    ∷ record { name = "bptree_4k"; new_func = open_bptree cfg.cache_pages 4096 }
    ∷ record { name = "bptree_8k"; new_func = open_bptree cfg.cache_pages 8192 }
    ∷ record { name = "bptree_16k"; new_func = open_bptree cfg.cache_pages 16384 }
    ∷ record { name = "lsm_pebble_16m"; new_func = open_lsm (pos 16) }
    ∷ record { name = "lsm_pebble_32m"; new_func = open_lsm (pos 32) }
    ∷ record { name = "lsm_pebble_64m"; new_func = open_lsm (pos 64) }
    ∷ []

-- The configuration of src/main.go when no flag is given.
unfoldable pub default_config : Config
default_config = record {
  seed = pos 42;
  out_dir = "./out/results";
  data_dir = "./out/data";
  cache_pages = 4096;
  dataset_size = 5000000;
  point_query_count = 1000000;
  write_ops_total = 1000000;
  write_ops_window = 10000;
  mixed_ops_total = 1000000;
  log_interval = 1000;
  value_size = 128;
  t2_start_size = 4096;
  t2_max_size = 5000000;
  cleanup_data = true;
}
