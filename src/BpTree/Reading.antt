-- ===== src/BpTree/Reading.antt =====
-- Reads of pages one after another, from a file that stays as it is.
use db_index_performance_eva.Base.{ℕ, ◌≡◌, ap, ◌∙◌, some, get_elem?, get_elem?-lt, List}
use db_index_performance_eva.Base.State.{done}
use db_index_performance_eva.Bytes.{Bytes}
use db_index_performance_eva.Lru.{Items}
use db_index_performance_eva.Pager
use db_index_performance_eva.Pager.{Pager}
use db_index_performance_eva.Pager.Storage.{calm_pager}
use db_index_performance_eva.Pager.Cached.{IsClean, page_at}
use db_index_performance_eva.Pager.Read.{read-IsClean}
use db_index_performance_eva.BTree.Get.{Within}

-- A pager with pages of the given size, whose cache is clean.
abbrev pub IsReader : Pager → Bytes → ℕ → Type 0
IsReader p d size = (l : Items) × IsClean p d l × (p.page_size ≡ size)

-- A buffer keeps its page from one pager to another.
abbrev pub Keeps : Pager → Pager → Type 0
Keeps p q = (b : ℕ) (pg : List ℕ) → get_elem? p.bufs b ≡ some pg → get_elem? q.bufs b ≡ some pg

pub read-IsReader :
    (p : Pager) (d : Bytes) (s size id : ℕ)
    → IsReader p d size
    → Within size d id
    → (a : ℕ) × (q : Pager) × (Pager.read id (calm_pager p d s) ≡ done a (calm_pager q d s))
      × (get_elem? q.bufs a ≡ some (page_at d size id))
      × IsReader q d size
      × Keeps p q
read-IsReader p d s size id (l, clean, e) (small, inside) =
    let (a, q, l', step, ret) = read-IsClean p d s l id clean (rw e small) (rw e inside) in
    (
      a,
      q,
      step,
      ret.page ∙ ap (λ n. some (page_at d n id)) e,
      (l', ret.clean, ret.page_size ∙ e),
      λ b pg f. ret.kept b (get_elem?-lt p.bufs b pg f) ∙ f,
    )
