-- ===== src/Tests/Suites.antt =====
-- Runs of the suite and of the plots, with a list of the benchmarks that were run as the state.
use text.Mathlib.Text.{◌==◌}
use db_index_performance_eva.Base.{◌≡◌, refl, List, [], ◌∷◌, ◌++◌}
use db_index_performance_eva.Base.State.{done, fail}
use db_index_performance_eva.Bench.Suite.{default_config}
use db_index_performance_eva.Bench.Runner.{
  System, Benchmark, t1, t3, t4, t5, running, run_benchmarks, plots, plot_each, plot_all,
}

-- A file system without the results of T2.
abbrev no_t2 : System (List Benchmark) (Unit {0})
no_t2 = record {
  make_dir = λ dir w. done tt w;
  is_missing = λ file w. file == "t2_range_query.csv";
  join = λ dir file. file;
  report_skipped = λ b w. w;
}

plotted :
    plot_all no_t2 (λ b dir w. done tt (w ++ (b ∷ []))) "results" []
    ≡ done tt (t1 ∷ t3 ∷ t4 ∷ t5 ∷ [])
unfolding plot_all plot_each plots
plotted = refl

stopped :
    run_benchmarks no_t2 (λ b ds cfg w. fail tt (w ++ (b ∷ []))) default_config []
    ≡ fail (running tt) (t4 ∷ [])
unfolding run_benchmarks
stopped = refl
