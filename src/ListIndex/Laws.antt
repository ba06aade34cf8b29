-- ===== src/ListIndex/Laws.antt =====
-- `Insert`, `Get` and `Delete` of the list index as operations on a map.
use db_index_performance_eva.Base.{
  ◌≡◌, refl, inl, inr, false, Bool-cases, List, [], ◌∷◌, arith, if◌then◌else◌, All, ℤ, eqb_ℤ, eqb→≡,
}
use db_index_performance_eva.Accessor.{Value}
use db_index_performance_eva.ListIndex.{Data, Found, found, not_found, insert, get, delete, keep}

-- After `Insert` of a key, `Get` finds the value under that key, and under any other key what it
-- found before.
pub get-insert :
    (j k : ℤ) (v : Value) (ds : List Data)
    → get j (insert k v ds) ≡ (if eqb_ℤ k j then found v else get j ds)
unfolding get insert
get-insert j k v [] = refl
get-insert j k v (d ∷ ds) = ground (arith, get-insert j k v ds)

-- No key occurs twice.
abbrev pub Distinct : List Data → Type 0
Distinct [] = Unit
Distinct (d ∷ ds) = All (λ e. eqb_ℤ e.key d.key ≡ false) ds × Distinct ds

insert-All :
    (a k : ℤ) (v : Value) (ds : List Data)
    → eqb_ℤ k a ≡ false
    → All (λ e. eqb_ℤ e.key a ≡ false) ds
    → All (λ e. eqb_ℤ e.key a ≡ false) (insert k v ds)
unfolding insert
insert-All a k v [] ne h = (ne, tt)
insert-All a k v (e ∷ ds) ne h = elim (Bool-cases (eqb_ℤ e.key k)) [
  | inl same ↦ rw same (h.0, h.1)
  | inr other ↦ rw other (h.0, insert-All a k v ds ne h.1)
]

-- `Insert` keeps the keys distinct.
insert-Distinct : (k : ℤ) (v : Value) (ds : List Data) → Distinct ds → Distinct (insert k v ds)
unfolding insert
insert-Distinct k v [] h = (tt, tt)
insert-Distinct k v (d ∷ ds) h = elim (Bool-cases (eqb_ℤ d.key k)) [
  | inl same ↦ rw same (h.0, h.1)
  | inr other ↦ rw other (insert-All d.key k v ds (ground arith) h.0, insert-Distinct k v ds h.1)
]

get-All : (a : ℤ) (ds : List Data) → All (λ e. eqb_ℤ e.key a ≡ false) ds → get a ds ≡ not_found
unfolding get
get-All a [] h = refl
get-All a (d ∷ ds) h = rw (h.0) (get-All a ds h.1)

-- What a deletion leaves: without the key, or nothing new if the key was not there.
abbrev pub Deleted : ℤ → ℤ → List Data → Found (List Data) → Type 0
Deleted j k ds (found rest) = get j rest ≡ (if eqb_ℤ k j then not_found else get j ds)
Deleted j k ds not_found = get k ds ≡ not_found

Deleted-keep :
    (j k : ℤ) (d : Data) (ds : List Data) (r : Found (List Data))
    → eqb_ℤ d.key k ≡ false
    → Deleted j k ds r
    → Deleted j k (d ∷ ds) (keep d r)
unfolding get
Deleted-keep j k d ds (found rest) ne h = ground arith
Deleted-keep j k d ds not_found ne h = ground arith

-- On an index with distinct keys, a `Delete` that succeeds leaves an index in which `Get` misses
-- the key and finds under any other key what it found before; and `Delete` reports "key not found"
-- only if `Get` does.
pub delete-Deleted : (j k : ℤ) (ds : List Data) → Distinct ds → Deleted j k ds (delete k ds)
unfolding delete get
delete-Deleted j k [] h = refl
delete-Deleted j k (d ∷ ds) h = elim (Bool-cases (eqb_ℤ d.key k)) [
  | inl same ↦ rw same (ground (arith, get-All d.key ds h.0, eqb→≡ d.key k, eqb→≡ k j))
  | inr other ↦ rw other (Deleted-keep j k d ds (delete k ds) other (delete-Deleted j k ds h.1))
]
