-- ===== src/Bytes/Frame.antt =====
-- What a read finds after a write elsewhere, or after a write of the same bytes.
use db_index_performance_eva.Base.{
  ℕ, zero, suc, ◌+◌, ◌≤◌, ◌≡◌, refl, ap, ◌⊎◌, inl, inr, ◌∙◌, [], ◌∷◌, arith, length, take, drop,
  le→leb, ◌-◌, length-take,
}
use db_index_performance_eva.Base.Go.{ok}
use db_index_performance_eva.Bytes.{Bytes, overlay, copy_at, slice, store, copy_from}

length-overlay : (p bs : Bytes) → length (overlay p bs) ≡ length p
unfolding overlay
length-overlay [] bs = refl
length-overlay (x ∷ p) [] = refl
length-overlay (x ∷ p) (b ∷ bs) = ap suc (length-overlay p bs)

pub length-copy_at : (p : Bytes) (o : ℕ) (bs : Bytes) → length (copy_at p o bs) ≡ length p
unfolding copy_at
length-copy_at p zero bs = length-overlay p bs
length-copy_at [] (suc o) bs = refl
length-copy_at (x ∷ p) (suc o) bs = ap suc (length-copy_at p o bs)

take-overlay : (p bs : Bytes) → length bs ≤ length p → take (length bs) (overlay p bs) ≡ bs
unfolding overlay
take-overlay p [] h = refl
take-overlay [] (b ∷ bs) h = absurd (omega arith)
take-overlay (x ∷ p) (b ∷ bs) h = ap (◌∷◌ b) (take-overlay p bs (omega arith))

-- The bytes written are read back.
pub take-copy_at_self :
    (p : Bytes) (o : ℕ) (bs : Bytes)
    → o + length bs ≤ length p
    → take (length bs) (drop o (copy_at p o bs)) ≡ bs
unfolding copy_at
take-copy_at_self p zero bs h = take-overlay p bs (omega arith)
take-copy_at_self [] (suc o) bs h = absurd (omega arith)
take-copy_at_self (x ∷ p) (suc o) bs h = take-copy_at_self p o bs (omega arith)

drop-overlay :
    (p bs : Bytes) (o n : ℕ) → length bs ≤ o → take n (drop o (overlay p bs)) ≡ take n (drop o p)
unfolding overlay
drop-overlay [] bs o n h = refl
drop-overlay (x ∷ p) [] o n h = refl
drop-overlay (x ∷ p) (b ∷ bs) zero n h = absurd (omega arith)
drop-overlay (x ∷ p) (b ∷ bs) (suc o) n h = drop-overlay p bs o n (omega arith)

-- Bytes behind the write, or before it, are as they were.
pub take-copy_at_after :
    (p : Bytes) (w : ℕ) (bs : Bytes) (o n : ℕ)
    → w + length bs ≤ o
    → take n (drop o (copy_at p w bs)) ≡ take n (drop o p)
unfolding copy_at
take-copy_at_after p zero bs o n h = drop-overlay p bs o n (omega arith)
take-copy_at_after [] (suc w) bs o n h = refl
take-copy_at_after (x ∷ p) (suc w) bs zero n h = absurd (omega arith)
take-copy_at_after (x ∷ p) (suc w) bs (suc o) n h = take-copy_at_after p w bs o n (omega arith)

pub take-copy_at_before :
    (p : Bytes) (w : ℕ) (bs : Bytes) (o n : ℕ)
    → o + n ≤ w
    → take n (drop o (copy_at p w bs)) ≡ take n (drop o p)
unfolding copy_at
take-copy_at_before p w bs o zero h = refl
take-copy_at_before p zero bs o (suc n) h = absurd (omega arith)
take-copy_at_before [] (suc w) bs o (suc n) h = refl
take-copy_at_before (x ∷ p) (suc w) bs zero (suc n) h =
    ap (◌∷◌ x) (take-copy_at_before p w bs zero n (omega arith))
take-copy_at_before (x ∷ p) (suc w) bs (suc o) (suc n) h =
    take-copy_at_before p w bs o (suc n) (omega arith)

-- The regions `[o, o+n)` and `[w, w+m)` do not meet.
abbrev pub Apart : (o n w m : ℕ) → Type 0
Apart o n w m = (o + n ≤ w) ⊎ (w + m ≤ o)

pub slice-copy_at :
    (p : Bytes) (w : ℕ) (bs : Bytes) (o n : ℕ)
    → Apart o n w (length bs)
    → slice (copy_at p w bs) o n ≡ slice p o n
unfolding slice
slice-copy_at p w bs o n (inl h) = rw (length-copy_at p w bs, take-copy_at_before p w bs o n h)
slice-copy_at p w bs o n (inr h) = rw (length-copy_at p w bs, take-copy_at_after p w bs o n h)

pub slice-copy_at_self :
    (p : Bytes) (o n : ℕ) (bs : Bytes)
    → length bs ≡ n
    → o + n ≤ length p
    → slice (copy_at p o bs) o n ≡ ok bs
unfolding slice
slice-copy_at_self p o n bs e h =
    rw (← e, length-copy_at p o bs, le→leb (o + length bs) (length p) (omega arith))
      (ap ok (take-copy_at_self p o bs (omega arith)))

pub store-ok :
    (p : Bytes) (o : ℕ) (bs : Bytes) → o + length bs ≤ length p → store p o bs ≡ ok (copy_at p o bs)
unfolding store
store-ok p o bs h = rw (le→leb (o + length bs) (length p) h)

pub copy_from-ok :
    (p : Bytes) (o : ℕ) (bs : Bytes) → o ≤ length p → copy_from p o bs ≡ ok (copy_at p o bs)
unfolding copy_from
copy_from-ok p o bs h = rw (le→leb o (length p) h)

-- `p'` is `p` but for the `m` bytes from `w` on.
pub record SameOutside (p p' : Bytes) (w m : ℕ) : Type 0 where
  pub size : length p' ≡ length p
  pub same : (o n : ℕ) → Apart o n w m → slice p' o n ≡ slice p o n

pub SameOutside-refl : (p : Bytes) (w m : ℕ) → SameOutside p p w m
SameOutside-refl p w m = record { size = refl; same = λ o n h. refl }

pub SameOutside-copy_at :
    (p : Bytes) (w : ℕ) (bs : Bytes) → SameOutside p (copy_at p w bs) w (length bs)
SameOutside-copy_at p w bs = record {
  size = length-copy_at p w bs;
  same = λ o n h. slice-copy_at p w bs o n h;
}

pub SameOutside-widen :
    {p p' : Bytes} {w m : ℕ} (v k : ℕ)
    → SameOutside p p' w m
    → v ≤ w
    → w + m ≤ v + k
    → SameOutside p p' v k
SameOutside-widen v k s h e = record { size = s.size; same = λ o n apart. s.same o n (omega arith) }

pub SameOutside-trans :
    {p q r : Bytes} {w m : ℕ} → SameOutside p q w m → SameOutside q r w m → SameOutside p r w m
SameOutside-trans s t = record {
  size = t.size ∙ s.size;
  same = λ o n h. t.same o n h ∙ s.same o n h;
}

pub length-drop : (o : ℕ) (p : Bytes) → length (drop o p) ≡ length p - o
length-drop zero p = omega arith
length-drop (suc o) [] = omega arith
length-drop (suc o) (x ∷ p) = omega (arith, length-drop o p)

pub length-slice : (p : Bytes) (o n : ℕ) (bs : Bytes) → slice p o n ≡ ok bs → length bs ≡ n
unfolding slice
length-slice p o n bs h = ground (arith, length-take n (drop o p), length-drop o p)
