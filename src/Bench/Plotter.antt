-- ===== src/Bench/Plotter.antt =====
-- The colours of src/bench/plotter.go: `colorKey` and `pickColor`. `strings.ToLower` is a parameter.
use Prim.Native.Char.{code}
use Prim.Native.String.{String}
use db_index_performance_eva.Base.{
  ℕ, ◌+◌, ◌%◌, Bool, true, false, ◌||◌, ◌&&◌, List, [], ◌∷◌, length, leb, ◌==◌, if◌then◌else◌,
}
use db_index_performance_eva.Base.Go.{Go, ok, ◌>>=◌}
use db_index_performance_eva.Bench.Dataset.{elem_at}

-- The bytes of an ASCII text.
abbrev pub codes : String → List ℕ
codes String.[] = []
codes (String.◌∷◌ c s) = code c ∷ codes s

-- `indexColorHex`
unfoldable pub index_color_hex : List String
index_color_hex =
    "#9ecae1" ∷ "#4292c6" ∷ "#084594" ∷ "#a1d99b" ∷ "#41ab5d" ∷ "#00441b" ∷ "#fc9272" ∷ "#ef3b2c"
    ∷ "#67000d" ∷ []

-- The keys of the colours, which the source has as texts.
pub data ColorKey : Type 0 where
  btree : ColorKey
  bptree : ColorKey
  lsm : ColorKey

-- `colorBaseIndex`
abbrev pub color_base_index : ColorKey → ℕ
color_base_index btree = 0
color_base_index bptree = 3
color_base_index lsm = 6

-- `strings.HasPrefix`
abbrev pub has_prefix : List ℕ → List ℕ → Bool
has_prefix s [] = true
has_prefix [] (b ∷ bs) = false
has_prefix (a ∷ s) (b ∷ bs) = let rest = has_prefix s bs in (a == b) && rest

unfoldable pub color_key : (List ℕ → List ℕ) → List ℕ → ColorKey
color_key to_lower name =
    let n = to_lower name in
    if has_prefix n (codes "bptree") || has_prefix n (codes "b+")
    then bptree
    else if has_prefix n (codes "btree") || has_prefix n (codes "b-")
    then btree
    else if has_prefix n (codes "lsm") || has_prefix n (codes "pebble")
    then lsm
    else btree

abbrev pub same_key : ColorKey → ColorKey → Bool
same_key btree btree = true
same_key bptree bptree = true
same_key lsm lsm = true
same_key _ _ = false

-- The map of counters; a key that is missing counts 0.
abbrev pub Counters : Type 0
Counters = ColorKey → ℕ

abbrev pub bump : ColorKey → Counters → Counters
bump key counters k = if same_key key k then counters k + 1 else counters k

unfoldable pub color_index : ColorKey → Counters → ℕ
color_index key counters =
    let base = color_base_index key in
    let idx = base + counters key % 3 in if leb (length index_color_hex) idx then base else idx

unfoldable pub pick_color : (List ℕ → List ℕ) → List ℕ → Counters → Go (String × Counters)
pick_color to_lower name counters = do
  let key = color_key to_lower name
  color ← elem_at index_color_hex (color_index key counters)
  ok (color, bump key counters)

-- The colours of a plot's rows, as the plotters pick them one after another.
unfoldable pub pick_colors : (List ℕ → List ℕ) → List (List ℕ) → Counters → Go (List String)
pick_colors to_lower [] counters = ok []
pick_colors to_lower (name ∷ names) counters = do
  (color, counters) ← pick_color to_lower name counters
  colors ← pick_colors to_lower names counters
  ok (color ∷ colors)
