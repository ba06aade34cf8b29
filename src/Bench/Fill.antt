-- ===== src/Bench/Fill.antt =====
-- `fillIndex` of src/bench/tests.go, over any index; the sort of package sort is a parameter.
use db_index_performance_eva.Base.{
  ℕ, zero, suc, ◌+◌, ◌<◌, ◌≡◌, refl, sym, ap, ◌∙◌, Bool, true, false, Bool-cases, inl, inr, none,
  some, Option, List, [], ◌∷◌, arith, All, get_elem?, get_elem?-some, get_elem?-lt, length, ◌≤◌,
  if◌then◌else◌, ◌==◌, ℤ, ltb_ℤ, eqb_ℤ, eqb→≡,
}
use db_index_performance_eva.Base.State.{Run, done, and_then, run_go, map_error}
use db_index_performance_eva.Bytes.{Bytes}
use db_index_performance_eva.Bytes.Words.{IsInt64}
use db_index_performance_eva.Index.{Index, IsMap}
use db_index_performance_eva.Bench.Dataset.{Dataset, elem_at}

-- `fmt.Errorf("insert key %d: %w", k, err)`
pub data FillError (E : Type 0) : Type 0 where
  insert_key : ℤ → E → FillError E

-- `indices[i] = i` for the indices from `i` on
unfoldable pub indices_from : ℕ → ℕ → List ℕ
indices_from zero i = []
indices_from (suc n) i = i ∷ indices_from n (i + 1)

-- The order of the indices for the sort; both are indices of keys.
unfoldable pub key_below : Dataset → ℕ → ℕ → Bool
key_below d i j = elim (get_elem? d.keys i) [
  | none ↦ false
  | some a ↦ elim (get_elem? d.keys j) [ none ↦ false | some b ↦ ltb_ℤ a b ]
]

module _ {S E It : Type 0} (index : Index S E It) where
  -- The loop of insertions.
  unfoldable pub insert_all : Dataset → List ℕ → S → Run (FillError E) S (Unit {0})
  insert_all d [] s = done tt s
  insert_all d (i ∷ is) s = and_then (run_go (elem_at d.keys i) s) λ k s.
      and_then (run_go (elem_at d.values i) s) λ v s.
        and_then (map_error (insert_key k) (index.insert k (some v)) s) λ _ s. insert_all d is s

  -- `no_sync` is the index's `SetSyncInterval(0)`, if it has one.
  unfoldable pub fill_index :
      Option (S → S)
      → ((ℕ → ℕ → Bool) → List ℕ → List ℕ)
      → Dataset
      → S
      → Run (FillError E) S (Unit {0})
  fill_index no_sync sort d s =
      insert_all d (sort (key_below d) (indices_from (length d.keys) 0))
        (elim no_sync [ none ↦ s | some set ↦ set s ])

if_same : {A : Type 0} (b : Bool) (x : A) → (if b then x else x) ≡ x
if_same true x = refl
if_same false x = refl

differ : (b : Bool) → (b ≡ true → ⊥) → b ≡ false
differ true n = absurd (n refl)
differ false n = refl

abbrev pub member : ℕ → List ℕ → Bool
member i [] = false
member i (j ∷ js) = if j == i then true else member i js

-- A dataset with a value for each key, and no key twice.
pub record IsDataset (d : Dataset) : Type 0 where
  pub values : length d.values ≡ length d.keys
  pub keys : (i : ℕ) (k : ℤ) → get_elem? d.keys i ≡ some k → IsInt64 k
  pub distinct :
      (i j : ℕ) (k : ℤ) → get_elem? d.keys i ≡ some k → get_elem? d.keys j ≡ some k → i ≡ j

module _ {S E It : Type 0} (index : Index S E It) (r : IsMap index) (d : Dataset)
    (h : IsDataset d) where
  -- What the index has of the dataset after the insertions: the values at their indices, and what
  -- it had under the other keys.
  abbrev Filled : List ℕ → S → S → Type 0
  Filled is s s' =
      (i : ℕ) (k : ℤ) (v : Bytes)
      → get_elem? d.keys i ≡ some k
      → get_elem? d.values i ≡ some v
      → r.content s' k ≡ (if member i is then some v else r.content s k)

  insert_all-step :
      (i : ℕ) (is : List ℕ) (k : ℤ) (v : Bytes) (s s' t : S)
      → get_elem? d.keys i ≡ some k
      → get_elem? d.values i ≡ some v
      → index.insert k (some v) s ≡ done tt s'
      → insert_all index d is s' ≡ done tt t
      → insert_all index d (i ∷ is) s ≡ done tt t
  unfolding insert_all
  insert_all-step i is k v s s' t e f g run =
      rw (insert_all, elem_at, e, elem_at, f, map_error, g) run

  Filled-step :
      (i : ℕ) (is : List ℕ) (k : ℤ) (v : Bytes) (s s' t : S)
      → get_elem? d.keys i ≡ some k
      → get_elem? d.values i ≡ some v
      → ((j : ℤ) → IsInt64 j → r.content s' j ≡ (if eqb_ℤ k j then some v else r.content s j))
      → Filled is s' t
      → Filled (i ∷ is) s t
  Filled-step i is k v s s' t e f after filled j k' v' e' f' =
      let later = filled j k' v' e' f' in
      let now = after k' (h.keys j k' e') in
      elim (Bool-cases (i == j)) [
        | inl eq ↦
            let same : i ≡ j = ground arith in
            let key : k ≡ k' = let g = rw same at e in cc in
            let value : v ≡ v' = let g = rw same at f in cc in
            let equal : eqb_ℤ k k' ≡ true = rw key (ground arith) in
            let here : r.content s' k' ≡ some v' = now ∙ rw equal (ap some value) in
            later ∙ rw (here, eq) (if_same (member j is) (some v'))
        | inr eq ↦
            let other : eqb_ℤ k k' ≡ false = differ (eqb_ℤ k k') λ equal.
              let g : get_elem? d.keys j ≡ some k = rw (eqb→≡ k k' equal) e' in
              let ij = h.distinct i j k e g in ground arith in
            let here : r.content s' k' ≡ r.content s k' = now ∙ rw other refl in
            later ∙ rw (here, eq) refl
      ]

  insert_all-Filled :
      (is : List ℕ) (s : S)
      → All (λ i. i < length d.keys) is
      → (s' : S) × (insert_all index d is s ≡ done tt s') × Filled is s s'
  unfolding insert_all
  insert_all-Filled [] s a = (s, refl, λ i k v e f. refl)
  insert_all-Filled (i ∷ is) s a =
      let (k, e) = get_elem?-some d.keys i a.0 in
      let (v, f) = get_elem?-some d.values i (omega (arith, a.0, h.values)) in
      let (s', g, after) = r.insert-content k v s (h.keys i k e) in
      let (t, run, filled) = insert_all-Filled is s' a.1 in
      (t, insert_all-step i is k v s s' t e f g run, Filled-step i is k v s s' t e f after filled)

-- A sort changes the order of a list at most.
pub record KeepsMembers (sort : (ℕ → ℕ → Bool) → List ℕ → List ℕ) : Type 0 where
  pub same_members :
      (less : ℕ → ℕ → Bool) (i : ℕ) (is : List ℕ) → member i (sort less is) ≡ member i is

member-indices_from :
    (n start i : ℕ) → start ≤ i → i < start + n → member i (indices_from n start) ≡ true
unfolding indices_from
member-indices_from zero start i h g = absurd (omega arith)
member-indices_from (suc n) start i h g = elim (Bool-cases (start == i)) [
  | inl same ↦ rw same refl
  | inr other ↦
      let above : start + 1 ≤ i = ground arith in
      rw other (member-indices_from n (start + 1) i above (omega arith))
]

indices_from-below : (n start i : ℕ) → member i (indices_from n start) ≡ true → i < start + n
unfolding indices_from
indices_from-below zero start i e = cc
indices_from-below (suc n) start i e = elim (Bool-cases (start == i)) [
  | inl same ↦ ground arith
  | inr other ↦
      let later : member i (indices_from n (start + 1)) ≡ true = rw other at e in
      let below = indices_from-below n (start + 1) i later in omega arith
]

members-All : (n : ℕ) (is : List ℕ) → ((i : ℕ) → member i is ≡ true → i < n) → All (λ i. i < n) is
members-All n [] h = tt
members-All n (j ∷ is) h = (
  h j (let same : (j == j) ≡ true = ground arith in rw same refl),
  members-All n is (λ i e. h i (member_tail (j == i) (member i is) e)),
)
  where
    member_tail : (b m : Bool) → m ≡ true → (if b then true else m) ≡ true
    member_tail true m e = refl
    member_tail false m e = e

module _ {S E It : Type 0} (index : Index S E It) (r : IsMap index) (d : Dataset)
    (h : IsDataset d) where
  -- On an index that keeps what is inserted, and a dataset of int64 keys, none of them twice, with a
  -- value each, `fillIndex` succeeds, given a sort that changes the order of the indices at most; and
  -- after it `Get` of each key of the dataset returns the key's value.
  pub fill_index-get :
      (no_sync : Option (S → S)) (sort : (ℕ → ℕ → Bool) → List ℕ → List ℕ) (s : S)
      → KeepsMembers sort
      → (s' : S) × (fill_index index no_sync sort d s ≡ done tt s')
        × ((i : ℕ) (k : ℤ) (v : Bytes)
            → get_elem? d.keys i ≡ some k
            → get_elem? d.values i ≡ some v
            → (s'' : S) × (index.get k s' ≡ done (some v) s''))
  unfolding fill_index
  fill_index-get no_sync sort s keeps =
      let n = length d.keys in
      let order = sort (key_below d) (indices_from n 0) in
      let inside = members-All n order (λ i e.
        let there = sym (keeps.same_members (key_below d) i (indices_from n 0)) ∙ e in
        let below = indices_from-below n 0 i there in omega arith) in
      let (s', run, filled) =
        insert_all-Filled index r d h order (elim no_sync [ none ↦ s | some set ↦ set s ]) inside in
      (
        s',
        run,
        λ i k v e f.
            let there : member i order ≡ true =
              keeps.same_members (key_below d) i (indices_from n 0)
              ∙ member-indices_from n 0 i (omega arith)
                  (omega (arith, get_elem?-lt d.keys i k e)) in
            let now : r.content s' k ≡ some v = filled i k v e f ∙ rw there refl in
            let (s'', g, _) = r.get-content k v s' now in (s'', g),
      )
