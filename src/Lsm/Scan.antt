-- ===== src/Lsm/Scan.antt =====
-- The scan of the LSM index by its range iterator.
use db_index_performance_eva.Base.{
  ℕ, zero, suc, ◌≤◌, ◌<◌, ◌≡◌, refl, ap, ◌∙◌, Bool, true, false, Bool-cases, inl, inr, ◌&&◌, none,
  some, List, [], ◌∷◌, arith, length, map, if◌then◌else◌, ℤ, pos, leb_ℤ, ◌≤ℤ◌, All,
}
use db_index_performance_eva.Base.Go.{Go, ok, out_of_fuel, ◌>>=◌}
use db_index_performance_eva.Base.State.{done}
use db_index_performance_eva.Bytes.{Bytes}
use db_index_performance_eva.Bytes.Words.{IsInt64}
use db_index_performance_eva.Accessor.{Value}
use db_index_performance_eva.Lsm.{encode_key, encode_key_exclusive}
use db_index_performance_eva.Lsm.Order.{
  in_bounds, in_bounds-nonneg, decode_key-encode_key, length-be_bytes,
}
use db_index_performance_eva.Lsm.Engine.{Pebble, RangeIterator, range, next, step, take_pair}
use db_index_performance_eva.Lsm.Store.{Entries, between, is_some, Reliable}

-- A pair of the index, and as the engine stores it.
abbrev pub Pair : Type 0
Pair = ℤ × Bytes

abbrev pub stored : Pair → Bytes × Bytes
stored (k, v) = (encode_key k, v)

-- The pairs that satisfy a test on the key.
abbrev pub select : (ℤ → Bool) → List Pair → List Pair
select test [] = []
select test (p ∷ ps) = let rest = select test ps in if test p.0 then p ∷ rest else rest

length-encode_key : (k : ℤ) → length (encode_key k) ≡ 8
unfolding encode_key
length-encode_key k = length-be_bytes 8 _

between-stored :
    (start end_key : ℤ) (ps : List Pair)
    → between (encode_key start) (encode_key_exclusive end_key) (map stored ps)
      ≡ map stored (select (in_bounds start end_key) ps)
between-stored start end_key [] = refl
between-stored start end_key (p ∷ ps) =
    let rest = between-stored start end_key ps in
    elim (Bool-cases (in_bounds start end_key p.0)) [
      | inl inside ↦ rw (inside, rest) refl
      | inr outside ↦ rw (outside, rest) refl
    ]

select_same :
    (f g : ℤ → Bool) (ps : List Pair)
    → ((k : ℤ) → IsInt64 k → f k ≡ g k)
    → All (λ p. IsInt64 p.0) ps
    → select f ps ≡ select g ps
select_same f g [] same all = refl
select_same f g (p ∷ ps) same all = rw (same p.0 all.0, select_same f g ps same all.1) refl

select-All :
    (f : ℤ → Bool) (ps : List Pair)
    → All (λ p. IsInt64 p.0) ps
    → All (λ p. IsInt64 p.0) (select f ps)
select-All f [] all = tt
select-All f (p ∷ ps) all = elim (Bool-cases (f p.0)) [
  | inl taken ↦ rw taken (all.0, select-All f ps all.1)
  | inr skipped ↦ rw skipped (select-All f ps all.1)
]

length-select : (f : ℤ → Bool) (ps : List Pair) → length (select f ps) ≤ length ps
length-select f [] = omega arith
length-select f (p ∷ ps) = ground (arith, length-select f ps)

module _ {Db Iter E : Type 0} (engine : Pebble Db Iter E) (r : Reliable engine) where
  -- `for it.Next() { use it.Key(), it.Value() }`, collecting the pairs.
  unfoldable pub collect : ℕ → RangeIterator Iter E → Go (List (ℤ × Value))
  collect zero it = out_of_fuel
  collect (suc fuel) it =
      let (it', more) = next engine it in
      elim more [ false ↦ ok [] | true ↦ collect fuel it' >>= λ ps. ok ((it'.k, it'.val) ∷ ps) ]

  abbrev pub shown : Pair → ℤ × Value
  shown (k, v) = (k, some v)

  -- `Next` on an iterator whose step leads to the given pairs.
  next-none :
      (it : RangeIterator Iter E) (i : Iter)
      → step engine it ≡ (i, false)
      → next engine it ≡ (record it { iter = i; first = false }, false)
  unfolding next
  next-none it i e = rw (next, e) refl

  next-some :
      (it : RangeIterator Iter E) (i : Iter) (p : Pair) (cs : Entries)
      → step engine it ≡ (i, true)
      → r.rest i ≡ stored p ∷ cs
      → IsInt64 p.0
      → next engine it ≡ (record it { iter = i; first = false; k = p.0; val = some p.1 }, true)
  unfolding next take_pair
  next-some it i p cs e at small =
      rw
        (
          next,
          e,
          take_pair,
          r.key-rest i (stored p) cs at,
          length-encode_key p.0,
          decode_key-encode_key p.0 small,
          r.value-rest i (stored p) cs at,
        )
        refl

  collect_rest :
      (ps : List Pair) (fuel : ℕ) (it : RangeIterator Iter E) (i : Iter)
      → All (λ p. IsInt64 p.0) ps
      → step engine it ≡ (i, is_some (map stored ps))
      → r.rest i ≡ map stored ps
      → length ps < fuel
      → collect fuel it ≡ ok (map shown ps)
  unfolding collect
  collect_rest ps zero it i all e at h = absurd (omega arith)
  collect_rest [] (suc fuel) it i all e at h = rw (collect, next-none it i e) refl
  collect_rest (p ∷ ps) (suc fuel) it i all e at h =
      let (i', e', at') = r.next-rest i (stored p) (map stored ps) at in
      let it' : RangeIterator Iter E = record it {
        iter = i;
        first = false;
        k = p.0;
        val = some p.1;
      } in
      let rest = collect_rest ps fuel it' i' all.1 (unfold step in e') at' (omega arith) in
      let now = next-some it i p (map stored ps) e at all.0 in rw (collect, now, now, rest) refl

  -- On an engine whose calls succeed and that holds pairs under encoded `int64` keys, `Range` between
  -- two keys that are not negative returns an iterator; run to the first `Next` that returns false, it
  -- yields exactly the pairs whose keys lie between the two, both included, with their values and in
  -- the order of the engine, within one round more than there are pairs.
  pub collect-range :
      (start end_key : ℤ) (ps : List Pair) (db : Db)
      → IsInt64 start
      → IsInt64 end_key
      → pos 0 ≤ℤ start
      → pos 0 ≤ℤ end_key
      → All (λ p. IsInt64 p.0) ps
      → r.entries db ≡ map stored ps
      → (it : RangeIterator Iter E) × (range engine start end_key db ≡ done it db)
        × (collect (suc (length ps)) it
            ≡ ok (map shown (select (λ k. leb_ℤ start k && leb_ℤ k end_key) ps)))
  unfolding range
  collect-range start end_key ps db h g f k all held =
      let inside : ℤ → Bool = λ k. leb_ℤ start k && leb_ℤ k end_key in
      let chosen = select inside ps in
      let (i, e, at) = r.new_iter-ok (encode_key start) (encode_key_exclusive end_key) db in
      let it : RangeIterator Iter E = record {
        iter = engine.first i;
        first = true;
        k = pos 0;
        val = none;
        err = none;
      } in
      let same =
        select_same (in_bounds start end_key) inside ps
          (λ j small. in_bounds-nonneg start end_key j h g small f k) all in
      let there : r.rest (engine.first i) ≡ map stored chosen =
        at
        ∙ ap (between (encode_key start) (encode_key_exclusive end_key)) held
        ∙ between-stored start end_key ps
        ∙ ap (map stored) same in
      let valid = r.valid-rest (engine.first i) ∙ ap is_some there in
      (
        it,
        rw e refl,
        collect_rest chosen (suc (length ps)) it (engine.first i) (select-All inside ps all)
            (unfold step in ap (λ v. (engine.first i, v)) valid) there
            (omega (arith, length-select inside ps)),
      )
