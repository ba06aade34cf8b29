-- ===== src/Pager/Client/Steps.antt =====
-- Each operation of a pager's client, on a pager that stores a list of pages.
use db_index_performance_eva.Base.{
  ℕ, zero, suc, ◌+◌, ◌*◌, ◌^◌, ◌≤◌, ◌<◌, ◌≡◌, ◌≢◌, refl, sym, ap, ◌∙◌, some, List, [], ◌∷◌, ◌++◌,
  arith, length, length-append, length-set, length-replicate, set, get_elem?, get_elem?-lt,
  get_elem?-set_self, get_elem?-set_ne, get_elem?-append_one, replicate, inl, inr, Bool-cases, ◌==◌,
}
use native.Mathlib.Nat.{add-mul, mul-le-mul_right}
use db_index_performance_eva.Base.State.{done}
use db_index_performance_eva.Bytes.{Bytes}
use db_index_performance_eva.BtPage.{Page}
use db_index_performance_eva.Disk.{extend}
use db_index_performance_eva.Disk.Extend.{length-extend_inside}
use db_index_performance_eva.Lru.{lookup}
use db_index_performance_eva.Pager.{Pager, store_page, read, allocate}
use db_index_performance_eva.Pager.Storage.{load_page-ok, calm_pager}
use db_index_performance_eva.Pager.Cached.{page_at}
use db_index_performance_eva.Pager.Read.{read-IsClean}
use db_index_performance_eva.Pager.Write.{
  changed, page_at_written, page_at_other, write-IsClean, allocate-IsClean, extend_end,
}
use db_index_performance_eva.Pager.Client.{
  Op, fetch, edit, grow, perform, page_of, seen, after, Stores,
}

-- A page of the list lies within the file.
pub page_inside : (size id n : ℕ) → id < n → id * size + size ≤ n * size
page_inside size id n h =
    let next : suc id ≤ n = omega arith in
    omega (arith, mul-le-mul_right size next, add-mul id 1 size)

-- What the client finds when it reads a page: a buffer of its own with the page.
abbrev pub Opened : ℕ → Pager → Bytes → ℕ → List Page → ℕ → Page → Type 0
Opened size p d s ps id pg =
    (a : ℕ) × (q : Pager) × (k : Stores size q d ps) × (read id (calm_pager p d s)
      ≡ done a (calm_pager q d s))
    × (get_elem? q.bufs a ≡ some pg)
    × (a ≢ 0)
    × ((j : ℕ) → lookup j k.l ≡ some a → j ≡ id)

page_of-some : (ps : List Page) (id : ℕ) → id < length ps → get_elem? ps id ≡ some (page_of ps id)
page_of-some [] id h = absurd (omega arith)
page_of-some (x ∷ ps) zero h = refl
page_of-some (x ∷ ps) (suc id) h = page_of-some ps id (omega arith)

module _ (size : ℕ) (big : 0 < size) (p : Pager) (d : Bytes) (s : ℕ) (ps : List Page)
    (k : Stores size p d ps) (small : length ps * size < 2 ^ 63) where
  opened : (id : ℕ) → id < length ps → Opened size p d s ps id (page_of ps id)
  opened id h =
      let inside = page_inside size id (length ps) h in
      let (a, q, l, e, ret) =
        read-IsClean p d s k.l id k.clean (rw k.page_size (omega (arith, inside, small)))
          (rw k.page_size (omega (arith, inside, k.whole))) in
      let stored : Stores size q d ps = record {
        l = l;
        clean = ret.clean;
        page_size = ret.page_size ∙ k.page_size;
        count = ret.page_count ∙ k.count;
        whole = k.whole;
        view = k.view;
      } in
      (
        a,
        q,
        stored,
        e,
        ret.page
            ∙ ap (λ n. some (page_at d n id)) k.page_size
            ∙ ap some (k.view id (page_of ps id) (page_of-some ps id h)),
        ret.full,
        ret.owner,
      )

  -- What an operation gives and leaves.
  abbrev pub Performed : Op → Type 0
  Performed op =
      (q : Pager) × (d' : Bytes) × (t : ℕ) × (perform op (calm_pager p d s)
        ≡ done (seen size op ps) (calm_pager q d' t))
      × Stores size q d' (after size op ps)

  pub fetched : (id : ℕ) → id < length ps → Performed (fetch id)
  unfolding perform
  fetched id h =
      let (a, q, k', e, there, _, _) = opened id h in
      (q, d, s, rw (perform, e) (load_page-ok a (calm_pager q d s) _ there), k')

  pub written-view :
      (id : ℕ) (pg : Page)
      → id < length ps
      → length pg ≡ size
      → (i : ℕ) (pg' : Page) → get_elem? (set ps id pg) i ≡ some pg'
      → page_at (extend d (id * size) pg) size i ≡ pg'
  written-view id pg h full i pg' e = elim (Bool-cases (i == id)) [
    | inl eq ↦
        let same : i ≡ id = ground arith in
        let here : pg ≡ pg' = let g = get_elem?-set_self ps id pg h in let f = rw same at e in cc in
        rw same (page_at_written d size id pg full big ∙ here)
    | inr eq ↦
        let other : i ≢ id = ground arith in
        let there = sym (get_elem?-set_ne ps id i pg (λ f. other (sym f))) ∙ e in
        let inside = page_inside size i (length ps) (get_elem?-lt ps i pg' there) in
        page_at_other d size id pg full big i other (omega (arith, inside, k.whole))
        ∙ k.view i pg' there
  ]

  pub edited : (id : ℕ) (pg : Page) → id < length ps → length pg ≡ size → Performed (edit id pg)
  unfolding perform store_page
  edited id pg h full =
      let (a, q, k', e, there, nonnil, owner) = opened id h in
      let inside = page_inside size id (length ps) h in
      let (n, t, c, l', w, clean) =
        write-IsClean q d k'.l id a pg k'.clean owner nonnil (get_elem?-lt q.bufs a _ there)
          (full ∙ sym k'.page_size) (rw k'.page_size big) s
          (rw k'.page_size (omega (arith, inside, small))) in
      let q' = record (changed q a pg) { cache = c; write_count = n } in
      let where_to : extend d (id * q.page_size) pg ≡ extend d (id * size) pg =
        rw k'.page_size refl in
      (
        q',
        extend d (id * size) pg,
        t,
        rw (perform, e, load_page-ok a (calm_pager q d s) _ there, w, where_to) refl,
        record {
          l = l';
          clean = rw where_to at clean;
          page_size = k'.page_size;
          count = k'.count ∙ sym (length-set ps id pg);
          whole =
              length-extend_inside d (id * size) pg (omega (arith, inside, k.whole, full))
              ∙ k.whole
              ∙ ap (λ m. m * size) (sym (length-set ps id pg));
          view = written-view id pg h full;
        },
      )

grow_steps :
    (p q q' : Pager) (d d₁ d₂ : Bytes) (s t : ℕ) {id id' a : ℕ} {pg pg' : Page}
    → allocate (calm_pager p d s) ≡ done id (calm_pager q d₁ t)
    → id ≡ id'
    → d₁ ≡ d₂
    → read id' (calm_pager q d₂ t) ≡ done a (calm_pager q' d₂ t)
    → get_elem? q'.bufs a ≡ some pg
    → pg ≡ pg'
    → perform grow (calm_pager p d s) ≡ done pg' (calm_pager q' d₂ t)
unfolding perform
grow_steps p q q' d d₁ d₂ s t {a = a} {pg} e same there f load seen_page =
    rw (perform, e, same, there, f, load_page-ok a (calm_pager q' d₂ t) pg load, seen_page) refl

pub append_one : (ps : List Page) (pg : Page) → length (ps ++ (pg ∷ [])) ≡ length ps + 1
append_one ps pg = length-append ps (pg ∷ [])

page_of-append_one : (ps : List Page) (pg : Page) → page_of (ps ++ (pg ∷ [])) (length ps) ≡ pg
page_of-append_one [] pg = refl
page_of-append_one (x ∷ ps) pg = page_of-append_one ps pg

module _ (size : ℕ) (big : 0 < size) (p : Pager) (d : Bytes) (s : ℕ) (ps : List Page)
    (k : Stores size p d ps) (small : (length ps + 1) * size < 2 ^ 63) where
  grown-view :
      (i : ℕ) (pg : Page)
      → get_elem? (ps ++ (replicate size 0 ∷ [])) i ≡ some pg
      → page_at (d ++ replicate size 0) size i ≡ pg
  grown-view i pg e =
      let blank : Page = replicate size 0 in
      let full : length blank ≡ size = length-replicate {A = ℕ} 0 size in
      let behind : extend d (length ps * size) blank ≡ d ++ blank =
        rw (← k.whole) (extend_end d blank) in
      elim (get_elem?-append_one ps blank i pg e) [
        | inl there ↦
            let inside = page_inside size i (length ps) (get_elem?-lt ps i pg there) in
            let other : i ≢ length ps = let h = get_elem?-lt ps i pg there in omega arith in
            rw (← behind) (
              page_at_other d size (length ps) blank full big i other
                (omega (arith, inside, k.whole)))
            ∙ k.view i pg there
        | inr (last, same) ↦
            rw (← behind, last) (page_at_written d size (length ps) blank full big) ∙ same
      ]

  pub grown : Performed size big p d s ps k (omega (arith, small, add-mul (length ps) 1 size)) grow
  unfolding perform
  grown =
      let ps' = ps ++ (replicate size 0 ∷ []) in
      let room : length ps * size < 2 ^ 63 = omega (arith, small, add-mul (length ps) 1 size) in
      let (n, t, e, clean, long, _) =
        allocate-IsClean p d s k.l k.clean (k.whole ∙ rw (k.count, k.page_size) refl)
          (rw k.page_size big) (rw (k.count, k.page_size) room) in
      let q = record p { page_count = p.page_count + 1; write_count = n } in
      let same : d ++ replicate p.page_size 0 ≡ d ++ replicate size 0 = rw k.page_size refl in
      let stored : Stores size q (d ++ replicate size 0) ps' = record {
        l = k.l;
        clean = rw same at clean;
        page_size = k.page_size;
        count = ap (λ m. m + 1) k.count ∙ sym (append_one ps (replicate size 0));
        whole =
            ap (λ l. length l) (sym same)
            ∙ long
            ∙ rw (k.page_size, k.count, append_one ps (replicate size 0)) refl;
        view = grown-view;
      } in
      let (a, q', k', f, there, _, _) =
        opened size big q (d ++ replicate size 0) t ps' stored
          (rw (append_one ps (replicate size 0)) small) (length ps)
          (omega (arith, append_one ps (replicate size 0))) in
      (
        q',
        d ++ replicate size 0,
        t,
        grow_steps p q q' d _ _ s t e k.count same f there
            (page_of-append_one ps (replicate size 0)),
        k',
      )
