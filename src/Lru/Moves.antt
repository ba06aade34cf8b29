-- ===== src/Lru/Moves.antt =====
-- The operations on the linked list: an entry to the front, a new entry, and the last one out.
use db_index_performance_eva.Base.{
  ℕ, ◌<◌, ◌≡◌, refl, ap, ◌∙◌, true, false, Option, none, some, List, [], ◌∷◌, ◌++◌, arith, ◌==◌,
  length, get_elem?, get_elem?-lt, get_elem?-append_lt, get_elem?-append_length, if◌then◌else◌,
  append-nil, Bool-cases, inl, inr,
}
use db_index_performance_eva.Base.Go.{ok}
use db_index_performance_eva.Lru.{
  Entry, Heap, Items, LruCache, update, points_to, delete, push_front, unlink_to_front, evict_tail,
  evict,
}
use db_index_performance_eva.Lru.Chain.{
  Slot, first, last, entry, Chain, has, has_ne, Separate, Chain-same, Chain-append, Chain-split,
  load-ok, update-ok, update-last, update-first,
}
use db_index_performance_eva.Lru.Split.{
  has_by-append, SeparateBy-middle, SeparateBy-append, last-append,
}

-- A cache whose list holds `xs`.
abbrev pub linked : ℕ → Items → Heap → List Slot → LruCache
linked cap items h xs = record {
  cap = cap;
  items = items;
  head = first xs none;
  tail = last xs none;
  heap = h;
}

-- An entry that is not in the list is put in front of it.
pub link_front :
    (x : Slot) (old : Entry) (xs : List Slot) (h : Heap) (before : Option ℕ)
    → get_elem? h x.addr ≡ some old
    → old.id ≡ x.id
    → old.page ≡ x.page
    → has x.addr xs ≡ false
    → Separate xs
    → Chain h before xs none
    → (g k : Heap) × (update (some x.addr) (λ y. record y { prev = none; next = first xs none }) h
        ≡ ok g)
      × (update (first xs none) (λ y. record y { prev = some x.addr }) g ≡ ok k)
      × Chain k none (x ∷ xs) none
link_front x old xs h before there same_id same_page out apart c =
    let (g, e, size, here, same) =
      update-ok x.addr old (λ y. record y { prev = none; next = first xs none }) h there in
    let c' = Chain-same h g before xs none c (λ a i. same a (has_ne x.addr a xs out i)) in
    let (k, e', d, u) = update-first xs g before (some x.addr) none c' apart in
    (g, k, e, e', (u.same x.addr out ∙ here ∙ rw (same_id, same_page) refl, d))

last_nonempty : (w : Slot) (ws : List Slot) (o : Option ℕ) → (a : ℕ) × (last (w ∷ ws) o ≡ some a)
last_nonempty w [] o = (w.addr, refl)
last_nonempty w (v ∷ ws) o = last_nonempty v ws (some w.addr)

has-last :
    (w : Slot) (ws : List Slot) (o : Option ℕ) (a : ℕ)
    → last (w ∷ ws) o ≡ some a
    → has a (w ∷ ws) ≡ true
has-last w [] o a e = ground arith
has-last w (v ∷ ws) o a e = ground (arith, has-last v ws (some w.addr) a e)

in_front : (a : ℕ) (xs ys : List Slot) → Separate (xs ++ ys) → has a xs ≡ true → has a ys ≡ false
in_front a xs ys s i = elim (Bool-cases (has a ys)) [
  | inr out ↦ out
  | inl j ↦ cc (SeparateBy-append (λ y. y.addr) xs ys a s j)
]

-- The tail after the move: the entry before, if the last one is moved.
tail_moved :
    (xs : List Slot) (x : Slot) (ys : List Slot)
    → has x.addr ys ≡ false
    → (if points_to (last (xs ++ (x ∷ ys)) none) x.addr
        then last xs none
        else last (xs ++ (x ∷ ys)) none)
      ≡ last (xs ++ ys) none
tail_moved xs x [] out = rw (last-append xs (x ∷ []) none, append-nil) (ground arith)
tail_moved xs x (v ∷ vs) out =
    let (a, e) = last_nonempty v vs (some x.addr) in
    let ne : (a == x.addr) ≡ false = ground (arith, has-last v vs (some x.addr) a e) in
    rw (last-append xs (x ∷ (v ∷ vs)) none, last-append xs (v ∷ vs) none) (rw e (rw ne refl))

-- An entry behind others is unlinked and put in front.
pub unlink_to_front-ok :
    (cap : ℕ) (items : Items) (h : Heap) (w : Slot) (ws : List Slot) (x : Slot) (ys : List Slot)
    → Chain h none (w ∷ (ws ++ (x ∷ ys))) none
    → Separate (w ∷ (ws ++ (x ∷ ys)))
    → (k : Heap) × (unlink_to_front (linked cap items h (w ∷ (ws ++ (x ∷ ys)))) x.addr
        ≡ ok (linked cap items k (x ∷ (w ∷ (ws ++ ys)))))
      × Chain k none (x ∷ (w ∷ (ws ++ ys))) none
unfolding unlink_to_front
unlink_to_front-ok cap items h w ws x ys c s =
    let xs = w ∷ ws in
    let (out, out', sx, sy, sxy) = SeparateBy-middle (λ y. y.addr) xs x ys s in
    let behind = λ (a : ℕ) (i : has a ys ≡ true). SeparateBy-append (λ y. y.addr) xs ys a sxy i in
    let (cx, cy) = Chain-split h none xs (x ∷ ys) none c in
    let (h1, e1, cx1, u1) = update-last xs h none (some x.addr) (first ys none) cx sx in
    let x1 = u1.same x.addr out ∙ cy.0 in
    let cy1 = Chain-same h h1 (some x.addr) ys none cy.1 (λ a i. u1.same a (behind a i)) in
    let (h2, e2, cy2, u2) = update-first ys h1 (some x.addr) (last xs none) none cy1 sy in
    let x2 = u2.same x.addr out' ∙ x1 in
    let cx2 =
      Chain-same h1 h2 none xs (first ys none) cx1 (λ a i. u2.same a (in_front a xs ys sxy i)) in
    let both = Chain-append h2 none xs ys none cx2 cy2 in
    let out_both : has x.addr (xs ++ ys) ≡ false =
      has_by-append (λ y. y.addr) x.addr xs ys ∙ rw (out, out') in
    let (h3, h4, e3, e4, c4) = link_front x _ (xs ++ ys) h2 none x2 refl refl out_both sxy both in
    (
      h4,
      rw (
        load-ok x.addr _ h cy.0,
        e1,
        load-ok x.addr _ h1 x1,
        e2,
        load-ok x.addr _ h2 x2,
        tail_moved xs x ys out',
        e3,
        e4,
      ),
      c4,
    )

-- Addresses of a chain lie on the heap, so a new one is none of them.
allocated :
    (h : Heap) (before : Option ℕ) (xs : List Slot) (after : Option ℕ)
    → Chain h before xs after
    → (a : ℕ) → has a xs ≡ true
    → a < length h
allocated h before [] after c a i = cc
allocated h before (x ∷ xs) after c a i = elim (Bool-cases (x.addr == a)) [
  | inl here ↦ let e : x.addr ≡ a = ground arith in rw e at (get_elem?-lt h x.addr _ c.0)
  | inr there ↦ allocated h (some x.addr) xs after c.1 a (rw there at i)
]

fresh :
    (h : Heap) (before : Option ℕ) (xs : List Slot) (after : Option ℕ)
    → Chain h before xs after
    → has (length h) xs ≡ false
fresh h before xs after c = elim (Bool-cases (has (length h) xs)) [
  | inr out ↦ out
  | inl i ↦ absurd (omega (arith, allocated h before xs after c (length h) i))
]

new_tail :
    (xs : List Slot) (a : ℕ)
    → elim (last xs none) as (λ x. Option ℕ) [ none ↦ some a | some t ↦ some t ] ≡ last xs (some a)
new_tail [] a = refl
new_tail (w ∷ ws) a = let (b, e) = last_nonempty w ws none in rw e

-- A new entry at the end of the heap.
pub push_front-ok :
    (cap : ℕ) (items : Items) (h : Heap) (xs : List Slot) (id page : ℕ)
    → Chain h none xs none
    → Separate xs
    → let x : Slot = record { addr = length h; id = id; page = page } in
      (k : Heap) × (push_front
          (record {
            cap = cap;
            items = items;
            head = first xs none;
            tail = last xs none;
            heap = h ++ (entry x none none ∷ []);
          })
          (length h)
        ≡ ok (linked cap items k (x ∷ xs)))
      × Chain k none (x ∷ xs) none
      × (has (length h) xs ≡ false)
unfolding push_front
push_front-ok cap items h xs id page c s =
    let x : Slot = record { addr = length h; id = id; page = page } in
    let h0 = h ++ (entry x none none ∷ []) in
    let out = fresh h none xs none c in
    let c0 =
      Chain-same h h0 none xs none c
        (λ a i. get_elem?-append_lt h _ a (allocated h none xs none c a i)) in
    let (g, k, e, e', d) =
      link_front x _ xs h0 none (get_elem?-append_length h _) refl refl out s c0 in
    (
      k,
      rw (e, e')
          (ap
            (λ o.
              ok (record { cap = cap; items = items; head = some (length h); tail = o; heap = k }))
            (new_tail xs (length h))),
      d,
      out,
    )

head_evicted :
    (xs : List Slot) (t : Slot)
    → elim (last xs none) as (λ x. Option ℕ) [ none ↦ none | some _ ↦ first (xs ++ (t ∷ [])) none ]
      ≡ first xs none
head_evicted [] t = refl
head_evicted (w ∷ ws) t = let (a, e) = last_nonempty w ws none in rw e

-- The last entry is dropped.
pub evict-ok :
    (cap : ℕ) (items : Items) (h : Heap) (xs : List Slot) (t : Slot)
    → Chain h none (xs ++ (t ∷ [])) none
    → Separate (xs ++ (t ∷ []))
    → (k : Heap) × (evict (linked cap items h (xs ++ (t ∷ [])))
        ≡ ok (linked cap (delete t.id items) k xs))
      × Chain k none xs none
unfolding evict evict_tail
evict-ok cap items h xs t c s =
    let (out, out', sx, sy, sxy) = SeparateBy-middle (λ y. y.addr) xs t [] s in
    let (cx, ct) = Chain-split h none xs (t ∷ []) none c in
    let (k, e, d, u) = update-last xs h none (some t.addr) none cx sx in
    (
      k,
      rw (last-append xs (t ∷ []) none) (
          rw (load-ok t.addr _ h ct.0, e)
            (ap
              (λ o. ok (record {
                cap = cap;
                items = delete t.id items;
                head = o;
                tail = last xs none;
                heap = k;
              }))
              (head_evicted xs t))),
      d,
    )
