-- ===== src/Lru/Items.antt =====
-- The cache's map from page ids to entries, as an association list without double keys.
use db_index_performance_eva.Base.{
  ℕ, suc, ◌≡◌, refl, ◌∙◌, Bool-cases, inl, inr, none, some, [], ◌∷◌, arith, ◌==◌, if◌then◌else◌,
  length,
}
use db_index_performance_eva.Lru.{Items, lookup, insert, delete}

abbrev pub DistinctKeys : Items → Type 0
DistinctKeys [] = Unit
DistinctKeys ((k, v) ∷ m) = (lookup k m ≡ none) × DistinctKeys m

pub lookup-insert :
    (j k v : ℕ) (m : Items) → lookup j (insert k v m) ≡ (if k == j then some v else lookup j m)
unfolding lookup insert
lookup-insert j k v [] = refl
lookup-insert j k v ((i, w) ∷ m) = ground (arith, lookup-insert j k v m)

pub lookup-delete :
    (j k : ℕ) (m : Items)
    → DistinctKeys m
    → lookup j (delete k m) ≡ (if k == j then none else lookup j m)
unfolding lookup delete
lookup-delete j k [] h = ground arith
lookup-delete j k ((i, w) ∷ m) h = ground (arith, lookup-delete j k m h.1, h.0)

pub insert-DistinctKeys : (k v : ℕ) (m : Items) → DistinctKeys m → DistinctKeys (insert k v m)
unfolding insert lookup
insert-DistinctKeys k v [] h = (refl, tt)
insert-DistinctKeys k v ((i, w) ∷ m) h = elim (Bool-cases (i == k)) [
  | inl same ↦ let e : i ≡ k = ground arith in rw same (rw e at h)
  | inr other ↦ rw other (lookup-insert i k v m ∙ ground arith, insert-DistinctKeys k v m h.1)
]

pub delete-DistinctKeys : (k : ℕ) (m : Items) → DistinctKeys m → DistinctKeys (delete k m)
unfolding delete
delete-DistinctKeys k [] h = tt
delete-DistinctKeys k ((i, w) ∷ m) h = elim (Bool-cases (i == k)) [
  | inl same ↦ rw same h.1
  | inr other ↦ rw other (lookup-delete i k m h.1 ∙ ground arith, delete-DistinctKeys k m h.1)
]

pub length-insert :
    (k v : ℕ) (m : Items) → lookup k m ≡ none → length (insert k v m) ≡ suc (length m)
unfolding lookup insert
length-insert k v [] h = refl
length-insert k v ((i, w) ∷ m) h = ground (arith, length-insert k v m)

pub length-delete :
    (k v : ℕ) (m : Items) → lookup k m ≡ some v → suc (length (delete k m)) ≡ length m
unfolding lookup delete
length-delete k v [] h = cc
length-delete k v ((i, w) ∷ m) h = ground (arith, length-delete k v m)
