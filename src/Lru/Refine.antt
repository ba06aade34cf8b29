-- ===== src/Lru/Refine.antt =====
-- The cache as its callers see it: at most `cap` pages, each with its id, in the order of their last
-- use.
use db_index_performance_eva.Base.{
  ℕ, ◌≤◌, ◌≡◌, refl, sym, ap, ◌∙◌, none, some, List, [], ◌∷◌, ◌++◌, arith, length, length-append,
  take,
}
use db_index_performance_eva.Base.Go.{ok}
use db_index_performance_eva.Lru.{Heap, Items, LruCache, new_lru_cache, lookup, delete, get}
use db_index_performance_eva.Lru.Chain.{Slot, load-ok}
use db_index_performance_eva.Lru.Split.{
  SeparateBy-middle, addr_of-middle, pages, length-pages, absent, present, find, lookup-pages,
  delete-pages, lookup-pages_absent,
}
use db_index_performance_eva.Lru.Moves.{linked}
use db_index_performance_eva.Lru.Valid.{Valid, move_to_front-Valid}

-- The cache holds the pages `l`, the most recently used one first.
pub record IsLru (c : LruCache) (l : Items) : Type 0 where
  pub m : Items
  pub h : Heap
  pub xs : List Slot
  pub shape : c ≡ linked c.cap m h xs
  pub valid : Valid m h xs
  pub view : pages xs ≡ l
  pub bound : length l ≤ c.cap

-- What a search for a page leaves: the page in front, if it is there.
abbrev pub touched : ℕ → Items → Items
touched id l = elim (lookup id l) [ none ↦ l | some pg ↦ (id, pg) ∷ delete id l ]

-- What a new page leaves: it stands in front, and the last one makes room if need be.
abbrev pub added : ℕ → ℕ → ℕ → Items → Items
added cap id pg l = take cap ((id, pg) ∷ delete id l)

pub new_lru_cache-IsLru : (cap : ℕ) → IsLru (new_lru_cache cap) []
unfolding lookup
new_lru_cache-IsLru cap = record {
  m = [];
  h = [];
  xs = [];
  shape = refl;
  valid = record { chain = tt; addrs = tt; ids = tt; keys = tt; items = λ id. refl; count = refl };
  view = refl;
  bound = omega arith;
}

get-absent :
    (cap id : ℕ) (m : Items) (h : Heap) (xs : List Slot)
    → lookup id m ≡ none
    → get (linked cap m h xs) id ≡ ok (linked cap m h xs, none)
unfolding get lookup
get-absent cap id m h xs e = rw e

pub addr_of_front :
    (xs : List Slot) (x : Slot) (ys : List Slot) (m : Items) (h : Heap)
    → Valid m h (xs ++ (x ∷ ys))
    → lookup x.id m ≡ some x.addr
addr_of_front xs x ys m h v = v.items x.id ∙ addr_of-middle x.id xs x ys v.ids ∙ ground arith

get-present :
    (cap : ℕ) (m : Items) (h : Heap) (xs : List Slot) (x : Slot) (ys : List Slot)
    → Valid m h (xs ++ (x ∷ ys))
    → (k : Heap) × (get (linked cap m h (xs ++ (x ∷ ys))) x.id
        ≡ ok (linked cap m k (x ∷ (xs ++ ys)), some x.page))
      × Valid m k (x ∷ (xs ++ ys))
unfolding get lookup
get-present cap m h xs x ys v =
    let (k, e, v') = move_to_front-Valid cap m h xs x ys v in
    (k, rw (addr_of_front xs x ys m h v, e, load-ok x.addr _ k v'.chain.0) refl, v')

pub length_moved :
    (xs : List Slot) (x : Slot) (ys : List Slot)
    → length (pages (x ∷ (xs ++ ys))) ≡ length (pages (xs ++ (x ∷ ys)))
length_moved xs x ys = omega (
  arith,
  length-pages (xs ++ ys),
  length-pages (xs ++ (x ∷ ys)),
  length-append xs ys,
  length-append xs (x ∷ ys),
)

touched_absent : (id : ℕ) (l : Items) → lookup id l ≡ none → touched id l ≡ l
touched_absent id l e = rw (e, touched)

touched_present :
    (id pg : ℕ) (l : Items) → lookup id l ≡ some pg → touched id l ≡ (id, pg) ∷ delete id l
touched_present id pg l e = rw (e, touched)

get-Valid :
    (cap id : ℕ) (m : Items) (h : Heap) (zs : List Slot)
    → Valid m h zs
    → (k : Heap) × (zs' : List Slot) × (get (linked cap m h zs) id
        ≡ ok (linked cap m k zs', lookup id (pages zs)))
      × Valid m k zs'
      × (pages zs' ≡ touched id (pages zs))
      × (length (pages zs') ≡ length (pages zs))
get-Valid cap id m h zs v = elim (find id zs) [
  | absent a b ↦
      let missing = lookup-pages_absent id zs b in
      (
        h,
        zs,
        rw missing (get-absent cap id m h zs (v.items id ∙ a)),
        v,
        sym (touched_absent id (pages zs) missing),
        refl,
      )
  | present xs x ys e same ↦
      let v0 : Valid m h (xs ++ (x ∷ ys)) = rw e at v in
      let (out, _, _, _, _) = SeparateBy-middle (λ y. y.id) xs x ys v0.ids in
      let (k, g, v') = get-present cap m h xs x ys v0 in
      let found = lookup-pages xs x ys out in
      let gone = delete-pages xs x ys out in
      (
        k,
        x ∷ (xs ++ ys),
        rw (e, ← same, found) g,
        v',
        rw (e, ← same) (sym (touched_present x.id x.page _ found ∙ ap (◌∷◌ (x.id, x.page)) gone)),
        rw e (length_moved xs x ys),
      )
]

-- `get` finds the page that the list has under the id, or nil, and leaves the list with that page in
-- front.
pub get-touched :
    (c : LruCache) (l : Items) (id : ℕ)
    → IsLru c l
    → (c' : LruCache) × (get c id ≡ ok (c', lookup id l))
      × IsLru c' (touched id l)
      × (c'.cap ≡ c.cap)
get-touched c l id r =
    let (k, zs, e, v, p, n) = get-Valid c.cap id r.m r.h r.xs r.valid in
    let seen = p ∙ ap (touched id) r.view in
    (
      linked c.cap r.m k zs,
      ap (λ d. get d id) r.shape ∙ e ∙ ap (λ q. ok (linked c.cap r.m k zs, lookup id q)) r.view,
      record {
        m = r.m;
        h = k;
        xs = zs;
        shape = refl;
        valid = v;
        view = seen;
        bound = omega (arith, ap (λ q. length q) seen, n, ap (λ q. length q) r.view, r.bound);
      },
      refl,
    )
