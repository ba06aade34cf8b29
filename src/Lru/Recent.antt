-- ===== src/Lru/Recent.antt =====
-- How far behind the front a page stands in the cache's list, after further operations.
use db_index_performance_eva.Base.{
  ℕ, zero, suc, ◌≤◌, ◌≡◌, ◌≢◌, some, [], ◌∷◌, arith, take, inl, inr, Option-cases,
}
use db_index_performance_eva.Lru.{Items, lookup, delete}
use db_index_performance_eva.Lru.Refine.{touched, added}

-- The page is one of the first `n`.
abbrev pub Recent : ℕ → ℕ → ℕ → Items → Type 0
Recent n id pg l = lookup id (take n l) ≡ some pg

module _ (id pg : ℕ) where
  Recent-suc : (n : ℕ) (l : Items) → Recent n id pg l → Recent (suc n) id pg l
  unfolding lookup
  Recent-suc zero l r = cc
  Recent-suc (suc n) [] r = cc
  Recent-suc (suc n) ((i, v) ∷ l) r = ground (arith, Recent-suc n l)

  Recent-delete : (n j : ℕ) (l : Items) → j ≢ id → Recent n id pg l → Recent n id pg (delete j l)
  unfolding lookup delete
  Recent-delete zero j l ne r = r
  Recent-delete (suc n) j [] ne r = r
  Recent-delete (suc n) j ((i, v) ∷ l) ne r = ground (arith, Recent-delete n j l ne, Recent-suc n l)

  Recent-front :
      (n j v : ℕ) (l : Items)
      → j ≢ id
      → Recent n id pg l
      → Recent (suc n) id pg ((j, v) ∷ delete j l)
  unfolding lookup
  Recent-front n j v l ne r = ground (arith, Recent-delete n j l ne r)

  Recent-take : (n cap : ℕ) (l : Items) → n ≤ cap → Recent n id pg l → Recent n id pg (take cap l)
  unfolding lookup
  Recent-take zero cap l h r = r
  Recent-take (suc n) zero l h r = absurd (omega arith)
  Recent-take (suc n) (suc cap) [] h r = r
  Recent-take (suc n) (suc cap) ((i, v) ∷ l) h r = ground (arith, Recent-take n cap l)

  pub Recent-lookup : (n : ℕ) (l : Items) → Recent n id pg l → lookup id l ≡ some pg
  unfolding lookup
  Recent-lookup zero l r = cc
  Recent-lookup (suc n) [] r = cc
  Recent-lookup (suc n) ((i, v) ∷ l) r = ground (arith, Recent-lookup n l)

  -- A use of another page moves the page back by one place at most.
  pub Recent-touched :
      (n j : ℕ) (l : Items) → j ≢ id → Recent n id pg l → Recent (suc n) id pg (touched j l)
  Recent-touched n j l ne r = elim (Option-cases (lookup j l)) [
    | inl missing ↦ rw (missing, touched) (Recent-suc n l r)
    | inr (v, found) ↦ rw (found, touched) (Recent-front n j v l ne r)
  ]

  pub Recent-added :
      (n cap j v : ℕ) (l : Items)
      → suc n ≤ cap
      → j ≢ id
      → Recent n id pg l
      → Recent (suc n) id pg (added cap j v l)
  Recent-added n cap j v l h ne r =
      Recent-take (suc n) cap ((j, v) ∷ delete j l) h (Recent-front n j v l ne r)

  pub Recent-new : (cap : ℕ) (l : Items) → 1 ≤ cap → Recent 1 id pg (added cap id pg l)
  unfolding lookup
  Recent-new zero l h = absurd (omega arith)
  Recent-new (suc cap) l h = ground arith
