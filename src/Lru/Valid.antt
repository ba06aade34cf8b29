-- ===== src/Lru/Valid.antt =====
-- The invariant of the cache: the map, the heap and the list agree.
use db_index_performance_eva.Base.{
  ℕ, suc, ◌≡◌, refl, sym, ap, ◌∙◌, false, none, some, List, [], ◌∷◌, ◌++◌, arith, ◌==◌, eq_refl,
  if◌then◌else◌, length, length-append,
}
use db_index_performance_eva.Base.Go.{ok}
use db_index_performance_eva.Lru.{
  Heap, Items, lookup, insert, delete, update, push_front, move_to_front, evict,
}
use db_index_performance_eva.Lru.Items.{
  DistinctKeys, lookup-insert, lookup-delete, insert-DistinctKeys, delete-DistinctKeys,
  length-insert, length-delete,
}
use db_index_performance_eva.Lru.Chain.{
  Slot, first, last, entry, Chain, has_by, has_ne, SeparateBy, Separate, Chain-same, Chain-append,
  Chain-split, update-ok,
}
use db_index_performance_eva.Lru.Split.{
  has_by-append, SeparateBy-middle, SeparateBy-front, addr_of, addr_of-middle,
}
use db_index_performance_eva.Lru.Moves.{linked, unlink_to_front-ok, push_front-ok, evict-ok}

pub record Valid (m : Items) (h : Heap) (xs : List Slot) : Type 0 where
  pub chain : Chain h none xs none
  pub addrs : Separate xs
  pub ids : SeparateBy (λ x. x.id) xs
  pub keys : DistinctKeys m
  pub items : (id : ℕ) → lookup id m ≡ addr_of id xs
  pub count : length m ≡ length xs

-- An entry moves to the front.
pub move_to_front-Valid :
    (cap : ℕ) (items : Items) (h : Heap) (xs : List Slot) (x : Slot) (ys : List Slot)
    → Valid items h (xs ++ (x ∷ ys))
    → (k : Heap) × (move_to_front (linked cap items h (xs ++ (x ∷ ys))) x.addr
        ≡ ok (linked cap items k (x ∷ (xs ++ ys))))
      × Valid items k (x ∷ (xs ++ ys))
unfolding move_to_front
move_to_front-Valid cap items h [] x ys v = (h, rw (eq_refl x.addr) refl, v)
move_to_front-Valid cap items h (w ∷ ws) x ys v =
    let other : (w.addr == x.addr) ≡ false =
      ground (arith, (SeparateBy-middle (λ y. y.addr) (w ∷ ws) x ys v.addrs).0) in
    let (k, e, c) = unlink_to_front-ok cap items h w ws x ys v.chain v.addrs in
    (
      k,
      rw other e,
      record {
        chain = c;
        addrs = SeparateBy-front (λ y. y.addr) (w ∷ ws) x ys v.addrs;
        ids = SeparateBy-front (λ y. y.id) (w ∷ ws) x ys v.ids;
        keys = v.keys;
        items = λ id. v.items id ∙ addr_of-middle id (w ∷ ws) x ys v.ids;
        count = omega (arith, v.count, length-append ws (x ∷ ys), length-append ws ys);
      },
    )

-- A new entry, under an id that the map does not have.
pub push_front-Valid :
    (cap : ℕ) (items : Items) (h : Heap) (xs : List Slot) (id page : ℕ)
    → Valid items h xs
    → lookup id items ≡ none
    → has_by (λ x. x.id) id xs ≡ false
    → let x : Slot = record { addr = length h; id = id; page = page } in
      (k : Heap) × (push_front
          (record {
            cap = cap;
            items = insert id (length h) items;
            head = first xs none;
            tail = last xs none;
            heap = h ++ (entry x none none ∷ []);
          })
          (length h)
        ≡ ok (linked cap (insert id (length h) items) k (x ∷ xs)))
      × Valid (insert id (length h) items) k (x ∷ xs)
push_front-Valid cap items h xs id page v missing out =
    let (k, e, c, off) =
      push_front-ok cap (insert id (length h) items) h xs id page v.chain v.addrs in
    (
      k,
      e,
      record {
        chain = c;
        addrs = (off, v.addrs);
        ids = (out, v.ids);
        keys = insert-DistinctKeys id (length h) items v.keys;
        items = λ j. lookup-insert j id (length h) items ∙ rw (v.items j);
        count = length-insert id (length h) items missing ∙ ap suc v.count;
      },
    )

addr_of_last :
    (id : ℕ) (zs : List Slot) (t : Slot)
    → SeparateBy (λ x. x.id) (zs ++ (t ∷ []))
    → (if t.id == id then none else addr_of id (zs ++ (t ∷ []))) ≡ addr_of id zs
addr_of_last id [] t s = ground arith
addr_of_last id (w ∷ zs) t s =
    ground (arith, addr_of_last id zs t s.1, has_by-append (λ x. x.id) w.id zs (t ∷ []), s.0)

addr_of_end :
    (zs : List Slot) (t : Slot)
    → SeparateBy (λ x. x.id) (zs ++ (t ∷ []))
    → addr_of t.id (zs ++ (t ∷ [])) ≡ some t.addr
addr_of_end [] t s = ground arith
addr_of_end (w ∷ zs) t s =
    ground (arith, addr_of_end zs t s.1, has_by-append (λ x. x.id) w.id zs (t ∷ []), s.0)

-- The last entry leaves.
pub evict-Valid :
    (cap : ℕ) (items : Items) (h : Heap) (zs : List Slot) (t : Slot)
    → Valid items h (zs ++ (t ∷ []))
    → (k : Heap) × (evict (linked cap items h (zs ++ (t ∷ [])))
        ≡ ok (linked cap (delete t.id items) k zs))
      × Valid (delete t.id items) k zs
evict-Valid cap items h zs t v =
    let (k, e, c) = evict-ok cap items h zs t v.chain v.addrs in
    let (_, _, addrs, _, _) = SeparateBy-middle (λ y. y.addr) zs t [] v.addrs in
    let (_, _, ids, _, _) = SeparateBy-middle (λ y. y.id) zs t [] v.ids in
    let less = length-delete t.id t.addr items (v.items t.id ∙ addr_of_end zs t v.ids) in
    (
      k,
      e,
      record {
        chain = c;
        addrs = addrs;
        ids = ids;
        keys = delete-DistinctKeys t.id items v.keys;
        items =
            λ id. lookup-delete id t.id items v.keys ∙ rw (v.items id) (addr_of_last id zs t v.ids);
        count = omega (arith, less, v.count, length-append zs (t ∷ []));
      },
    )

-- An entry that takes another's place under the same id and address.
module _ (f : Slot → ℕ) (x x' : Slot) (same : f x' ≡ f x) where
  has_by_replaced :
      (a : ℕ) (xs ys : List Slot) → has_by f a (xs ++ (x' ∷ ys)) ≡ has_by f a (xs ++ (x ∷ ys))
  has_by_replaced a [] ys = rw same
  has_by_replaced a (w ∷ xs) ys = rw (has_by_replaced a xs ys)

  replaced-SeparateBy :
      (xs ys : List Slot) → SeparateBy f (xs ++ (x ∷ ys)) → SeparateBy f (xs ++ (x' ∷ ys))
  replaced-SeparateBy [] ys s = rw same s
  replaced-SeparateBy (w ∷ xs) ys s =
      (has_by_replaced (f w) xs ys ∙ s.0, replaced-SeparateBy xs ys s.1)

addr_of_replaced :
    (id page : ℕ) (xs : List Slot) (x : Slot) (ys : List Slot)
    → addr_of id (xs ++ (record x { page = page } ∷ ys)) ≡ addr_of id (xs ++ (x ∷ ys))
addr_of_replaced id page [] x ys = refl
addr_of_replaced id page (w ∷ xs) x ys = rw (addr_of_replaced id page xs x ys)

-- The page of an entry is replaced.
pub set_page-Valid :
    (page : ℕ) (items : Items) (h : Heap) (xs : List Slot) (x : Slot) (ys : List Slot)
    → Valid items h (xs ++ (x ∷ ys))
    → (k : Heap) × (update (some x.addr) (λ y. record y { page = page }) h ≡ ok k)
      × Valid items k (xs ++ (record x { page = page } ∷ ys))
set_page-Valid page items h xs x ys v =
    let x' = record x { page = page } in
    let (out, out', _, _, _) = SeparateBy-middle (λ y. y.addr) xs x ys v.addrs in
    let (cx, cy) = Chain-split h none xs (x ∷ ys) none v.chain in
    let (k, e, size, here, same) = update-ok x.addr _ (λ y. record y { page = page }) h cy.0 in
    let dx = Chain-same h k none xs (some x.addr) cx (λ a i. same a (has_ne x.addr a xs out i)) in
    let dy =
      Chain-same h k (some x.addr) ys none cy.1 (λ a i. same a (has_ne x.addr a ys out' i)) in
    (
      k,
      e,
      record {
        chain = Chain-append k none xs (record x { page = page } ∷ ys) none dx (here, dy);
        addrs = replaced-SeparateBy (λ y. y.addr) x (record x { page = page }) refl xs ys v.addrs;
        ids = replaced-SeparateBy (λ y. y.id) x (record x { page = page }) refl xs ys v.ids;
        keys = v.keys;
        items = λ id. v.items id ∙ sym (addr_of_replaced id page xs x ys);
        count = omega (
          arith,
          v.count,
          length-append xs (x ∷ ys),
          length-append xs (record x { page = page } ∷ ys),
        );
      },
    )
