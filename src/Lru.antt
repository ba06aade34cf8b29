-- ===== src/Lru.antt =====
-- The page cache of src/dbms/pager/pager.go: a map from page ids to entries, and a doubly linked
-- list of the entries, most recently used first. Entries live in a heap of their own, and a pointer
-- is an address there; nil is `none`. An entry's page is the address of its buffer.
pub mod Items
pub mod Chain
pub mod Split
pub mod Moves
pub mod Valid
pub mod Refine
pub mod Put
pub mod Recent
pub mod Reach
use db_index_performance_eva.Base.{
  ℕ, Bool, false, Option, none, some, List, [], ◌∷◌, ◌++◌, ltb, ◌==◌, if◌then◌else◌, length,
  get_elem?, set,
}
use db_index_performance_eva.Base.Go.{Go, ok, panic, ◌>>=◌}

pub record Entry : Type 0 where
  pub id : ℕ
  pub page : ℕ
  pub prev : Option ℕ
  pub next : Option ℕ

abbrev pub Heap : Type 0
Heap = List Entry

-- A Go map from page ids to pointers.
abbrev pub Items : Type 0
Items = List (ℕ × ℕ)

unfoldable pub lookup : ℕ → Items → Option ℕ
lookup k [] = none
lookup k ((j, v) ∷ m) = if j == k then some v else lookup k m

unfoldable pub insert : ℕ → ℕ → Items → Items
insert k v [] = (k, v) ∷ []
insert k v ((j, w) ∷ m) = if j == k then (k, v) ∷ m else (j, w) ∷ insert k v m

unfoldable pub delete : ℕ → Items → Items
delete k [] = []
delete k ((j, w) ∷ m) = if j == k then m else (j, w) ∷ delete k m

pub record LruCache : Type 0 where
  pub cap : ℕ
  pub items : Items
  pub head : Option ℕ
  pub tail : Option ℕ
  pub heap : Heap

abbrev pub new_lru_cache : ℕ → LruCache
new_lru_cache cap = record { cap = cap; items = []; head = none; tail = none; heap = [] }

unfoldable pub load : ℕ → Heap → Go Entry
load a h = elim (get_elem? h a) [ none ↦ panic | some e ↦ ok e ]

-- `*a = …` through a pointer that may be nil: nothing happens at nil.
unfoldable pub update : Option ℕ → (Entry → Entry) → Heap → Go Heap
update none f h = ok h
update (some a) f h = do e ← load a h; ok (set h a (f e))

abbrev pub points_to : Option ℕ → ℕ → Bool
points_to none a = false
points_to (some b) a = b == a

unfoldable pub push_front : LruCache → ℕ → Go LruCache
push_front c e = do
  h ← update (some e) (λ x. record x { prev = none; next = c.head }) c.heap
  h ← update c.head (λ x. record x { prev = some e }) h
  ok (record c { head = some e; tail = elim c.tail [ none ↦ some e | some t ↦ some t ]; heap = h })

unfoldable pub unlink_to_front : LruCache → ℕ → Go LruCache
unlink_to_front c e = do
  x ← load e c.heap
  h ← update x.prev (λ y. record y { next = x.next }) c.heap
  x ← load e h
  h ← update x.next (λ y. record y { prev = x.prev }) h
  x ← load e h
  let tail' = if points_to c.tail e then x.prev else c.tail
  h ← update (some e) (λ y. record y { prev = none; next = c.head }) h
  h ← update c.head (λ y. record y { prev = some e }) h
  ok (record c { head = some e; tail = tail'; heap = h })

unfoldable pub move_to_front : LruCache → ℕ → Go LruCache
move_to_front c e = if points_to c.head e then ok c else unlink_to_front c e

unfoldable pub evict_tail : LruCache → ℕ → Go LruCache
evict_tail c t = do
  x ← load t c.heap
  h ← update x.prev (λ y. record y { next = none }) c.heap
  ok (record c {
    items = delete x.id c.items;
    heap = h;
    tail = x.prev;
    head = elim x.prev [ none ↦ none | some _ ↦ c.head ];
  })

unfoldable pub evict : LruCache → Go LruCache
evict c = elim c.tail [ none ↦ ok c | some t ↦ evict_tail c t ]

unfoldable pub get : LruCache → ℕ → Go (LruCache × Option ℕ)
get c id = elim (lookup id c.items) [
  | none ↦ ok (c, none)
  | some e ↦ do c ← move_to_front c e; x ← load e c.heap; ok (c, some x.page)
]

unfoldable pub put_new : LruCache → ℕ → ℕ → Go LruCache
put_new c id pg = do
  let e = length c.heap
  let entry : Entry = record { id = id; page = pg; prev = none; next = none }
  c ← push_front (record c { items = insert id e c.items; heap = c.heap ++ (entry ∷ []) }) e
  if ltb c.cap (length c.items) then evict c else ok c

unfoldable pub put : LruCache → ℕ → ℕ → Go LruCache
put c id pg = elim (lookup id c.items) [
  | none ↦ put_new c id pg
  | some e ↦ do
    h ← update (some e) (λ x. record x { page = pg }) c.heap
    move_to_front (record c { heap = h }) e
]
