-- ===== src/Bench/Colors.antt =====
-- The colours that `pickColor` of src/bench/plotter.go gives to a sequence of names.
use Prim.Native.String.{String}
use db_index_performance_eva.Base.{
  ℕ, zero, suc, ◌+◌, ◌%◌, ◌<◌, ◌≡◌, refl, some, List, [], ◌∷◌, arith, get_elem?, length, take, ap,
  ◌∙◌, if◌then◌else◌,
}
use native.Mathlib.Nat.{mod-lt}
use db_index_performance_eva.Base.Go.{ok}
use db_index_performance_eva.Bench.Dataset.{elem_at}
use db_index_performance_eva.Bench.Plotter.{
  ColorKey, btree, bptree, lsm, color_base_index, color_key, same_key, Counters, bump, color_index,
  index_color_hex, pick_color, pick_colors,
}

-- The three shades of an index type.
abbrev pub shade : ColorKey → ℕ → String
shade btree zero = "#9ecae1"
shade btree (suc zero) = "#4292c6"
shade btree _ = "#084594"
shade bptree zero = "#a1d99b"
shade bptree (suc zero) = "#41ab5d"
shade bptree _ = "#00441b"
shade lsm zero = "#fc9272"
shade lsm (suc zero) = "#ef3b2c"
shade lsm _ = "#67000d"

color_index-base :
    (key : ColorKey) (counters : Counters)
    → color_index key counters ≡ color_base_index key + counters key % 3
unfolding color_index index_color_hex
color_index-base btree counters = ground arith
color_index-base bptree counters = ground arith
color_index-base lsm counters = ground arith

shade_at :
    (key : ColorKey) (i : ℕ)
    → i < 3
    → get_elem? index_color_hex (color_base_index key + i) ≡ some (shade key i)
unfolding index_color_hex
shade_at btree zero h = refl
shade_at btree (suc zero) h = refl
shade_at btree (suc (suc zero)) h = refl
shade_at bptree zero h = refl
shade_at bptree (suc zero) h = refl
shade_at bptree (suc (suc zero)) h = refl
shade_at lsm zero h = refl
shade_at lsm (suc zero) h = refl
shade_at lsm (suc (suc zero)) h = refl
shade_at key (suc (suc (suc i))) h = absurd (omega arith)

-- How many of the names are of the index type.
abbrev pub count_key : (List ℕ → List ℕ) → ColorKey → List (List ℕ) → ℕ
count_key to_lower key [] = 0
count_key to_lower key (name ∷ names) =
    let n = count_key to_lower key names in
    if same_key (color_key to_lower name) key then suc n else n

pick_color-shade :
    (to_lower : List ℕ → List ℕ) (name : List ℕ) (counters : Counters)
    → pick_color to_lower name counters
      ≡ ok (
        shade (color_key to_lower name) (counters (color_key to_lower name) % 3),
        bump (color_key to_lower name) counters,
      )
unfolding pick_color
pick_color-shade to_lower name counters =
    let key = color_key to_lower name in
    let there = shade_at key (counters key % 3) (mod-lt (counters key) (omega arith)) in
    rw (pick_color, color_index-base key counters, elem_at, there) refl

-- The plotters never run out of colours: for any names of indexes, each gets the shade of its index
-- type that is next in turn, by the number of names of the type before it.
pub pick_colors-shade :
    (to_lower : List ℕ → List ℕ) (names : List (List ℕ)) (counters : Counters)
    → (colors : List String) × (pick_colors to_lower names counters ≡ ok colors)
      × (length colors ≡ length names)
      × ((i : ℕ) (name : List ℕ)
          → get_elem? names i ≡ some name
          → get_elem? colors i
            ≡ some (
                shade (color_key to_lower name) (
                  (counters (color_key to_lower name)
                    + count_key to_lower (color_key to_lower name) (take i names))
                  % 3)))
unfolding pick_colors
pick_colors-shade to_lower [] counters = ([], refl, refl, λ i name e. cc)
pick_colors-shade to_lower (n ∷ names) counters =
    let key = color_key to_lower n in
    let here = pick_color-shade to_lower n counters in
    let (colors, e, size, shades) = pick_colors-shade to_lower names (bump key counters) in
    (
      shade key (counters key % 3) ∷ colors,
      rw (here, e) refl,
      ap suc size,
      λ i name g. turn i name colors shades g,
    )
  where
    turn :
        (i : ℕ) (name : List ℕ) (colors : List String)
        → ((i : ℕ) (name : List ℕ)
            → get_elem? names i ≡ some name
            → get_elem? colors i
              ≡ some (
                  shade (color_key to_lower name) (
                    (bump (color_key to_lower n) counters (color_key to_lower name)
                      + count_key to_lower (color_key to_lower name) (take i names))
                    % 3)))
        → get_elem? (n ∷ names) i ≡ some name
        → get_elem? (shade (color_key to_lower n) (counters (color_key to_lower n) % 3) ∷ colors) i
          ≡ some (
              shade (color_key to_lower name) (
                (counters (color_key to_lower name)
                  + count_key to_lower (color_key to_lower name) (take i (n ∷ names)))
                % 3))
    turn zero name colors shades g =
        let same : n ≡ name = cc in
        rw same (ap (λ k. some (shade (color_key to_lower name) (k % 3))) (omega arith))
    turn (suc i) name colors shades g =
        shades i name g ∙ ap (λ k. some (shade (color_key to_lower name) (k % 3))) (ground arith)
