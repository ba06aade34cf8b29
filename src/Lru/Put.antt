-- ===== src/Lru/Put.antt =====
-- `put`, which brings a page to the front and keeps the capacity.
use db_index_performance_eva.Base.{
  ℕ, zero, suc, le→ltb, lt→ltb, ◌≤◌, ◌≡◌, refl, sym, ap, ◌∙◌, false, Option, none, some, List, [],
  ◌∷◌, ◌++◌, arith, length, length-append, take, take-append,
}
use native.Mathlib.Decide.{dec_lt}
use db_index_performance_eva.Base.Go.{ok}
use db_index_performance_eva.Lru.{
  Heap, Items, LruCache, lookup, insert, delete, put, put_new, evict,
}
use db_index_performance_eva.Lru.Chain.{Slot, first, last, has_by}
use db_index_performance_eva.Lru.Split.{
  SeparateBy-middle, pages, length-pages, absent, present, find, delete-pages, delete-pages_absent,
}
use db_index_performance_eva.Lru.Moves.{linked}
use db_index_performance_eva.Lru.Valid.{
  Valid, move_to_front-Valid, push_front-Valid, evict-Valid, set_page-Valid,
}
use db_index_performance_eva.Lru.Refine.{IsLru, added, addr_of_front, length_moved}

same_ends :
    (page : ℕ) (xs : List Slot) (x : Slot) (ys : List Slot) (o : Option ℕ)
    → (first (xs ++ (record x { page = page } ∷ ys)) o ≡ first (xs ++ (x ∷ ys)) o)
      × (last (xs ++ (record x { page = page } ∷ ys)) o ≡ last (xs ++ (x ∷ ys)) o)
same_ends page [] x ys o = (refl, refl)
same_ends page (w ∷ xs) x ys o = (refl, (same_ends page xs x ys (some w.addr)).1)

put-present :
    (cap page : ℕ) (m : Items) (h : Heap) (xs : List Slot) (x : Slot) (ys : List Slot)
    → Valid m h (xs ++ (x ∷ ys))
    → (k : Heap) × (put (linked cap m h (xs ++ (x ∷ ys))) x.id page
        ≡ ok (linked cap m k (record x { page = page } ∷ (xs ++ ys))))
      × Valid m k (record x { page = page } ∷ (xs ++ ys))
unfolding put lookup
put-present cap page m h xs x ys v =
    let (g, e, v') = set_page-Valid page m h xs x ys v in
    let (k, e', v'') = move_to_front-Valid cap m g xs (record x { page = page }) ys v' in
    let (f, l) = same_ends page xs x ys none in
    (k, rw (addr_of_front xs x ys m h v, e) (rw (f, l) at e'), v'')

unsnoc : (x : Slot) (xs : List Slot) → (zs : List Slot) × (t : Slot) × (x ∷ xs ≡ zs ++ (t ∷ []))
unsnoc x [] = ([], x, refl)
unsnoc x (y ∷ ys) = let (zs, t, e) = unsnoc y ys in (x ∷ zs, t, ap (◌∷◌ x) e)

pages-append : (xs ys : List Slot) → pages (xs ++ ys) ≡ pages xs ++ pages ys
pages-append [] ys = refl
pages-append (x ∷ xs) ys = ap (◌∷◌ (x.id, x.page)) (pages-append xs ys)

take_all : (n : ℕ) (l : Items) → length l ≤ n → take n l ≡ l
take_all zero [] h = refl
take_all (suc n) [] h = refl
take_all zero (x ∷ l) h = absurd (omega arith)
take_all (suc n) (x ∷ l) h = ap (◌∷◌ x) (take_all n l (omega arith))

evict-pages :
    (cap : ℕ) (m : Items) (h : Heap) (x : Slot) (xs : List Slot)
    → Valid m h (x ∷ xs)
    → length xs ≡ cap
    → (m' : Items) × (k : Heap) × (zs : List Slot) × (evict (linked cap m h (x ∷ xs))
        ≡ ok (linked cap m' k zs))
      × Valid m' k zs
      × (pages zs ≡ take cap (pages (x ∷ xs)))
evict-pages cap m h x xs v full =
    let (zs, t, s) = unsnoc x xs in
    let (k, e, w) = evict-Valid cap m h zs t (rw s at v) in
    let whole = ap pages s ∙ pages-append zs (t ∷ []) in
    (
      delete t.id m,
      k,
      zs,
      ap (λ q. evict (linked cap m h q)) s ∙ e,
      w,
      sym (
          ap (take cap) whole
          ∙ take-append (pages zs) ((t.id, t.page) ∷ []) cap (
              omega
                (arith, full, length-pages zs, ap (λ q. length q) s, length-append zs (t ∷ [])))),
    )

put-absent :
    (cap id page : ℕ) (m : Items) (h : Heap) (xs : List Slot)
    → Valid m h xs
    → lookup id m ≡ none
    → has_by (λ x. x.id) id xs ≡ false
    → length xs ≤ cap
    → (m' : Items) × (k : Heap) × (zs : List Slot) × (put (linked cap m h xs) id page
        ≡ ok (linked cap m' k zs))
      × Valid m' k zs
      × (pages zs ≡ take cap ((id, page) ∷ pages xs))
unfolding put put_new lookup
put-absent cap id page m h xs v missing out small =
    let x : Slot = record { addr = length h; id = id; page = page } in
    let (g, e, v') = push_front-Valid cap m h xs id page v missing out in
    let size = v'.count in
    elim (dec_lt cap (length (x ∷ xs))) [
      | no fits ↦ (
        insert id (length h) m,
        g,
        x ∷ xs,
        rw (missing, e, le→ltb cap (length (insert id (length h) m)) (omega arith)) refl,
        v',
        sym (take_all cap ((id, page) ∷ pages xs) (omega (arith, length-pages xs))),
      )
      | yes full ↦
          let (m', k, zs, e', w, p) =
            evict-pages cap (insert id (length h) m) g x xs v' (omega arith) in
          (
            m',
            k,
            zs,
            rw (missing, e, lt→ltb cap (length (insert id (length h) m)) (omega arith)) e',
            w,
            p,
          )
    ]

put-Valid :
    (cap id page : ℕ) (m : Items) (h : Heap) (zs : List Slot)
    → Valid m h zs
    → length zs ≤ cap
    → (m' : Items) × (k : Heap) × (zs' : List Slot) × (put (linked cap m h zs) id page
        ≡ ok (linked cap m' k zs'))
      × Valid m' k zs'
      × (pages zs' ≡ added cap id page (pages zs))
put-Valid cap id page m h zs v small = elim (find id zs) [
  | absent a b ↦
      rw (delete-pages_absent id zs b) (put-absent cap id page m h zs v (v.items id ∙ a) b small)
  | present xs x ys e same ↦
      let v0 : Valid m h (xs ++ (x ∷ ys)) = rw e at v in
      let (out, _, _, _, _) = SeparateBy-middle (λ y. y.id) xs x ys v0.ids in
      let (k, g, v') = put-present cap page m h xs x ys v0 in
      let gone = delete-pages xs x ys out in
      let room : length ((x.id, page) ∷ pages (xs ++ ys)) ≤ cap =
        omega (
          arith,
          small,
          ap (λ q. length q) e,
          length_moved xs x ys,
          length-pages (xs ++ (x ∷ ys)),
        ) in
      (
        m,
        k,
        record x { page = page } ∷ (xs ++ ys),
        rw (e, ← same) g,
        v',
        rw (e, ← same, gone) (sym (take_all cap ((x.id, page) ∷ pages (xs ++ ys)) room)),
      )
]

length-take_le : (n : ℕ) (l : Items) → length (take n l) ≤ n
length-take_le zero l = omega arith
length-take_le (suc n) [] = omega arith
length-take_le (suc n) (x ∷ l) = omega (arith, length-take_le n l)

-- `put` leaves the list with the page in front under its id, in place of any that was there under it,
-- and without the last ones if there are more than the capacity.
pub put-added :
    (c : LruCache) (l : Items) (id page : ℕ)
    → IsLru c l
    → (c' : LruCache) × (put c id page ≡ ok c')
      × IsLru c' (added c.cap id page l)
      × (c'.cap ≡ c.cap)
put-added c l id page r =
    let small : length r.xs ≤ c.cap =
      omega (arith, r.bound, length-pages r.xs, ap (λ q. length q) r.view) in
    let (m, k, zs, e, v, p) = put-Valid c.cap id page r.m r.h r.xs r.valid small in
    (
      linked c.cap m k zs,
      ap (λ d. put d id page) r.shape ∙ e,
      record {
        m = m;
        h = k;
        xs = zs;
        shape = refl;
        valid = v;
        view = p ∙ ap (added c.cap id page) r.view;
        bound = length-take_le c.cap ((id, page) ∷ delete id l);
      },
      refl,
    )
