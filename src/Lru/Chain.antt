-- ===== src/Lru/Chain.antt =====
-- The doubly linked list of the cache: what it means that the heap links a list of entries.
use db_index_performance_eva.Base.{
  ℕ, ◌≡◌, ◌≢◌, refl, ◌∙◌, ◌||◌, Bool, true, false, Option, none, some, List, [], ◌∷◌, ◌++◌, arith,
  ◌==◌, length, get_elem?, set, length-set, get_elem?-set_self, get_elem?-set_ne, get_elem?-lt,
}
use db_index_performance_eva.Base.Go.{ok}
use db_index_performance_eva.Lru.{Entry, Heap, load, update}

-- An entry of the list: its address, and what it holds.
pub record Slot : Type 0 where
  pub addr : ℕ
  pub id : ℕ
  pub page : ℕ

-- The address of the first entry and of the last; `o` if there is none.
abbrev pub first : List Slot → Option ℕ → Option ℕ
first [] o = o
first (x ∷ xs) o = some x.addr

abbrev pub last : List Slot → Option ℕ → Option ℕ
last [] o = o
last (x ∷ xs) o = last xs (some x.addr)

abbrev pub entry : Slot → Option ℕ → Option ℕ → Entry
entry x before after = record { id = x.id; page = x.page; prev = before; next = after }

-- The entries stand on the heap, and their pointers lead from one to the next and back.
abbrev pub Chain : Heap → Option ℕ → List Slot → Option ℕ → Type 0
Chain h before [] after = Unit
Chain h before (x ∷ xs) after =
    (get_elem? h x.addr ≡ some (entry x before (first xs after))) × Chain h (some x.addr) xs after

-- Whether an entry has the given number: its address, or its page id.
abbrev pub has_by : (Slot → ℕ) → ℕ → List Slot → Bool
has_by f a [] = false
has_by f a (x ∷ xs) = (f x == a) || has_by f a xs

abbrev pub SeparateBy : (Slot → ℕ) → List Slot → Type 0
SeparateBy f [] = Unit
SeparateBy f (x ∷ xs) = (has_by f (f x) xs ≡ false) × SeparateBy f xs

abbrev pub has : ℕ → List Slot → Bool
has a xs = has_by (λ x. x.addr) a xs

abbrev pub Separate : List Slot → Type 0
Separate xs = SeparateBy (λ x. x.addr) xs

pub has_ne : (a b : ℕ) (xs : List Slot) → has a xs ≡ false → has b xs ≡ true → a ≢ b
has_ne a b xs o i e = cc

-- A change elsewhere leaves a chain as it is.
pub Chain-same :
    (h g : Heap) (before : Option ℕ) (xs : List Slot) (after : Option ℕ)
    → Chain h before xs after
    → ((a : ℕ) → has a xs ≡ true → get_elem? g a ≡ get_elem? h a)
    → Chain g before xs after
Chain-same h g before [] after c same = tt
Chain-same h g before (x ∷ xs) after c same = (
  same x.addr (ground arith) ∙ c.0,
  Chain-same h g (some x.addr) xs after c.1 (λ a i. same a (ground arith)),
)

-- The chain of two lists one behind the other.
pub Chain-append :
    (h : Heap) (before : Option ℕ) (xs ys : List Slot) (after : Option ℕ)
    → Chain h before xs (first ys after)
    → Chain h (last xs before) ys after
    → Chain h before (xs ++ ys) after
Chain-append h before [] ys after c d = d
Chain-append h before (x ∷ []) ys after c d = (c.0, d)
Chain-append h before (x ∷ (x' ∷ xs)) ys after c d =
    (c.0, Chain-append h (some x.addr) (x' ∷ xs) ys after c.1 d)

pub Chain-split :
    (h : Heap) (before : Option ℕ) (xs ys : List Slot) (after : Option ℕ)
    → Chain h before (xs ++ ys) after
    → Chain h before xs (first ys after) × Chain h (last xs before) ys after
Chain-split h before [] ys after c = (tt, c)
Chain-split h before (x ∷ []) ys after c = ((c.0, tt), c.1)
Chain-split h before (x ∷ (x' ∷ xs)) ys after c =
    let (d, e) = Chain-split h (some x.addr) (x' ∷ xs) ys after c.1 in ((c.0, d), e)

-- A write through a pointer that may be nil.
pub record Updated (xs : List Slot) (h g : Heap) : Type 0 where
  pub size : length g ≡ length h
  pub same : (a : ℕ) → has a xs ≡ false → get_elem? g a ≡ get_elem? h a

pub load-ok : (a : ℕ) (e : Entry) (h : Heap) → get_elem? h a ≡ some e → load a h ≡ ok e
unfolding load
load-ok a e h there = rw (there, load)

-- A write to the entry of a slot succeeds, and changes that entry only.
pub update-ok :
    (a : ℕ) (e : Entry) (f : Entry → Entry) (h : Heap)
    → get_elem? h a ≡ some e
    → (g : Heap) × (update (some a) f h ≡ ok g)
      × (length g ≡ length h)
      × (get_elem? g a ≡ some (f e))
      × ((b : ℕ) → a ≢ b → get_elem? g b ≡ get_elem? h b)
unfolding update
update-ok a e f h there = (
  set h a (f e),
  rw (load-ok a e h there),
  length-set h a (f e),
  get_elem?-set_self h a (f e) (get_elem?-lt h a e there),
  λ b ne. get_elem?-set_ne h a b (f e) ne,
)

-- `prev.next = after`, for the last entry of a chain, if there is one.
pub update-last :
    (xs : List Slot) (h : Heap) (before after after' : Option ℕ)
    → Chain h before xs after
    → Separate xs
    → (g : Heap) × (update (last xs none) (λ y. record y { next = after' }) h ≡ ok g)
      × Chain g before xs after'
      × Updated xs h g
unfolding update
update-last [] h before after after' c s = (h, refl, tt, record { size = refl; same = λ a o. refl })
update-last (x ∷ []) h before after after' c s =
    let (g, e, size, here, same) = update-ok x.addr _ (λ y. record y { next = after' }) h c.0 in
    (g, e, (here, tt), record { size = size; same = λ a o. same a (ground arith) })
update-last (x ∷ (x' ∷ xs)) h before after after' c s =
    let (g, e, d, u) = update-last (x' ∷ xs) h (some x.addr) after after' c.1 s.1 in
    (
      g,
      e,
      (u.same x.addr s.0 ∙ c.0, d),
      record { size = u.size; same = λ a o. u.same a (ground arith) },
    )

-- `next.prev = before`, for the first entry of a chain, if there is one.
pub update-first :
    (xs : List Slot) (h : Heap) (before before' after : Option ℕ)
    → Chain h before xs after
    → Separate xs
    → (g : Heap) × (update (first xs none) (λ y. record y { prev = before' }) h ≡ ok g)
      × Chain g before' xs after
      × Updated xs h g
unfolding update
update-first [] h before before' after c s =
    (h, refl, tt, record { size = refl; same = λ a o. refl })
update-first (x ∷ xs) h before before' after c s =
    let (g, e, size, here, same) = update-ok x.addr _ (λ y. record y { prev = before' }) h c.0 in
    (
      g,
      e,
      (here, Chain-same h g (some x.addr) xs after c.1 (λ a i. same a (has_ne x.addr a xs s.0 i))),
      record { size = size; same = λ a o. same a (ground arith) },
    )
