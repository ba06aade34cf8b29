-- ===== src/Bench/Runner.antt =====
-- `RunBenchmarks` of src/bench/benchmark.go and `PlotAll` of src/bench/plotter.go: the order of their
-- steps, over the file system and the single benchmarks and plots, which are parameters. `W` is the
-- state of the file system and the terminal.
use Prim.Native.String.{String}
use db_index_performance_eva.Base.{Bool, List, [], ◌∷◌, if◌then◌else◌}
use db_index_performance_eva.Base.State.{Run, pure, ◌>>◌, map_error}
use db_index_performance_eva.Bench.Suite.{Config, IndexDef, indexes}

pub data RunError (E : Type 0) : Type 0 where
  making_data_dir : E → RunError E
  making_results_dir : E → RunError E
  running : E → RunError E

pub data Benchmark : Type 0 where
  t1 t2 t3 t4 t5 : Benchmark

-- `os.MkdirAll`, `os.Stat` with `os.IsNotExist`, `filepath.Join`, and what prints a skipped plot.
pub record System (W E : Type 0) : Type 0 where
  pub make_dir : String → W → Run E W (Unit {0})
  pub is_missing : String → W → Bool
  pub join : String → String → String
  pub report_skipped : Benchmark → W → W

pub record PlotDef : Type 0 where
  pub file : String
  pub label : Benchmark

-- The plots in their order.
unfoldable pub plots : List PlotDef
plots =
    record { file = "t1_point_query.csv"; label = t1 }
    ∷ record { file = "t2_range_query.csv"; label = t2 }
    ∷ record { file = "t3_write_throughput.csv"; label = t3 }
    ∷ record { file = "t4_read_heavy.csv"; label = t4 }
    ∷ record { file = "t5_write_heavy.csv"; label = t5 }
    ∷ []

module _ {W E : Type 0} (system : System W E) where
  -- The runs T1 to T3 are commented out.
  unfoldable pub run_benchmarks :
      (Benchmark → List IndexDef → Config → W → Run E W (Unit {0}))
      → Config
      → W
      → Run (RunError E) W (Unit {0})
  run_benchmarks run cfg = do
    map_error making_data_dir (system.make_dir cfg.data_dir)
    map_error making_results_dir (system.make_dir cfg.out_dir)
    map_error running (run t4 (indexes cfg) cfg)
    map_error running (run t5 (indexes cfg) cfg)

  unfoldable pub plot_each :
      (Benchmark → String → W → Run E W (Unit {0})) → String → List PlotDef → W → Run E W (Unit {0})
  plot_each plot out_dir [] = pure tt
  plot_each plot out_dir (p ∷ ps) = λ w.
      if system.is_missing (system.join out_dir p.file) w
      then plot_each plot out_dir ps (system.report_skipped p.label w)
      else (plot p.label out_dir >> plot_each plot out_dir ps) w

  unfoldable pub plot_all :
      (Benchmark → String → W → Run E W (Unit {0})) → String → W → Run E W (Unit {0})
  plot_all plot out_dir = plot_each plot out_dir plots
