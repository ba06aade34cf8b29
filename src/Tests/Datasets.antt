-- ===== src/Tests/Datasets.antt =====
-- The theorems on datasets, statistics and colours applied to a small generator and lists.
use Prim.Native.String.{String}
use db_index_performance_eva.Base.{
  ℕ, ◌+◌, ◌%◌, ◌≡◌, ◌&&◌, some, List, [], ◌∷◌, arith, All, length, replicate, get_elem?, take, ℤ,
  pos, leb_ℤ,
}
use db_index_performance_eva.Base.Go.{ok}
use db_index_performance_eva.Bench.Dataset.{Random, Dataset, new_dataset}
use db_index_performance_eva.Bench.Keys.{IsSorted, once, AreValues, new_dataset-AreValues}
use db_index_performance_eva.Bench.Shuffle.{count, AreSwaps}
use db_index_performance_eva.Bench.Stats.{pct, IsPercentile, pct-IsPercentile}
use db_index_performance_eva.Bench.Plotter.{codes, color_key, pick_colors}
use db_index_performance_eva.Bench.Colors.{shade, count_key, pick_colors-shade}
use db_index_performance_eva.Bench.RangeSizes.{range_sizes, IsQuery, range_sizes-IsQuery}

-- A generator whose shuffle of three elements exchanges the last with the first, then the first two.
abbrev swapper : Random
swapper = record { shuffle = λ n. (2, 0) ∷ (1, 0) ∷ []; read = λ i n. replicate n i }

swapper-AreSwaps : AreSwaps 3 (swapper.shuffle 3)
swapper-AreSwaps = ((omega arith, omega arith), ((omega arith, omega arith), tt))

new_dataset_example :
    (d : Dataset) × (new_dataset swapper 3 10 ≡ ok d)
    × (length d.keys ≡ 3)
    × ((k : ℤ) → count k d.keys ≡ once (leb_ℤ (pos 1) k && leb_ℤ k (pos 3)))
    × AreValues 10 d.keys d.values
new_dataset_example = new_dataset-AreValues swapper 3 10 swapper-AreSwaps (omega arith)

abbrev times : List ℤ
times = pos 2 ∷ pos 5 ∷ pos 5 ∷ pos 8 ∷ []

times-IsSorted : IsSorted times
times-IsSorted = (
  (omega arith, (omega arith, (omega arith, tt))),
  ((omega arith, (omega arith, tt)), ((omega arith, tt), (tt, tt))),
)

pct_example : (v : ℤ) × (pct times (pos 50) ≡ ok v) × IsPercentile times 50 v
pct_example = pct-IsPercentile times 50 times-IsSorted (omega arith) (omega arith)

abbrev two_names : List (List ℕ)
two_names = codes "btree_4k" ∷ codes "btree_8k" ∷ []

pick_colors_example :
    (colors : List String) × (pick_colors (λ n. n) two_names (λ k. 0) ≡ ok colors)
    × (length colors ≡ 2)
    × ((i : ℕ) (name : List ℕ)
        → get_elem? two_names i ≡ some name
        → get_elem? colors i
          ≡ some (
              shade
                (color_key (λ n. n) name)
                ((0 + count_key (λ n. n) (color_key (λ n. n) name) (take i two_names)) % 3)))
pick_colors_example = pick_colors-shade (λ n. n) two_names (λ k. 0)

range_sizes_example : (sizes : List ℕ) × (range_sizes 11 2 9 10 ≡ ok sizes) × All (IsQuery 10) sizes
range_sizes_example = range_sizes-IsQuery 2 9 10 (omega arith)
