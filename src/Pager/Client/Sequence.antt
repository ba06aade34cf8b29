-- ===== src/Pager/Client/Sequence.antt =====
-- The operations of a pager's client, one after another.
use db_index_performance_eva.Base.{
  ℕ, ◌*◌, ◌^◌, ◌≤◌, ◌<◌, ◌≡◌, refl, List, [], ◌∷◌, arith, length, length-set, replicate,
}
use native.Mathlib.Nat.{mul-le-mul_right}
use db_index_performance_eva.Base.State.{done}
use db_index_performance_eva.Bytes.{Bytes}
use db_index_performance_eva.BtPage.{Page}
use db_index_performance_eva.Pager.{Pager}
use db_index_performance_eva.Pager.Storage.{calm_pager}
use db_index_performance_eva.Pager.Client.{
  Op, fetch, edit, grow, perform, run, seen, after, trace, final, Asks, AsksAll, Stores,
}
use db_index_performance_eva.Pager.Client.Steps.{fetched, edited, grown, append_one}

module _ (size : ℕ) (big : 0 < size) where
  shorter : (op : Op) (ps : List Page) → length ps ≤ length (after size op ps)
  shorter (fetch id) ps = omega arith
  shorter (edit id pg) ps = omega (arith, length-set ps id pg)
  shorter grow ps = omega (arith, append_one ps (replicate size 0))

  pub shortest : (ops : List Op) (ps : List Page) → length ps ≤ length (final size ops ps)
  shortest [] ps = omega arith
  shortest (op ∷ ops) ps = omega (arith, shorter op ps, shortest ops (after size op ps))

  perform-Stores :
      (op : Op) (p : Pager) (d : Bytes) (s : ℕ) (ps : List Page)
      → Stores size p d ps
      → Asks size op ps
      → length (after size op ps) * size < 2 ^ 63
      → (q : Pager) × (d' : Bytes) × (t : ℕ) × (perform op (calm_pager p d s)
          ≡ done (seen size op ps) (calm_pager q d' t))
        × Stores size q d' (after size op ps)
  perform-Stores (fetch id) p d s ps k a h = fetched size big p d s ps k h id a
  perform-Stores (edit id pg) p d s ps k a h =
      edited size big p d s ps k (rw (length-set ps id pg) at h) id pg a.0 a.1
  perform-Stores grow p d s ps k a h =
      grown size big p d s ps k (rw (append_one ps (replicate size 0)) at h)

  -- On a file whose calls succeed and that holds exactly the allocated pages, with a clean cache, a
  -- client that reads pages, changes them in their buffers and writes them back, and allocates new
  -- ones, sees what it would see on a plain list of the pages, and leaves a file with the list's
  -- pages and a clean cache, as long as it asks for pages that there are, and writes pages of full
  -- size, and the file stays below 2 ^ 63 bytes.
  pub run-Stores :
      (ops : List Op) (p : Pager) (d : Bytes) (s : ℕ) (ps : List Page)
      → Stores size p d ps
      → AsksAll size ops ps
      → length (final size ops ps) * size < 2 ^ 63
      → (q : Pager) × (d' : Bytes) × (t : ℕ) × (run ops (calm_pager p d s)
          ≡ done (trace size ops ps) (calm_pager q d' t))
        × Stores size q d' (final size ops ps)
  unfolding run
  run-Stores [] p d s ps k a h = (p, d, s, refl, k)
  run-Stores (op ∷ ops) p d s ps k a h =
      let room = mul-le-mul_right size (shortest ops (after size op ps)) in
      let (q, d', t, e, k') = perform-Stores op p d s ps k a.0 (omega (arith, room, h)) in
      let (q', d'', t', e', k'') = run-Stores ops q d' t (after size op ps) k' a.1 h in
      (q', d'', t', rw (e, e') refl, k'')
