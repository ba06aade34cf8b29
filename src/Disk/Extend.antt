-- ===== src/Disk/Extend.antt =====
-- What is read back from a file after a write.
use db_index_performance_eva.Base.{
  ℕ, zero, suc, ◌+◌, ◌≤◌, ◌<◌, ◌≡◌, refl, ap, [], ◌∷◌, arith, length, take, drop,
}
use db_index_performance_eva.Bytes.{Bytes}
use db_index_performance_eva.Bytes.Frame.{Apart}
use db_index_performance_eva.Disk.{extend}

-- The bytes that were written.
pub extend_self : (d : Bytes) (o : ℕ) (bs : Bytes) → take (length bs) (drop o (extend d o bs)) ≡ bs
unfolding extend
extend_self d o [] = refl
extend_self [] zero (b ∷ bs) = ap (◌∷◌ b) (take_all bs)
  where
    take_all : (xs : Bytes) → take (length xs) xs ≡ xs
    take_all [] = refl
    take_all (x ∷ xs) = ap (◌∷◌ x) (take_all xs)
extend_self [] (suc o) (b ∷ bs) = extend_self [] o (b ∷ bs)
extend_self (x ∷ d) zero (b ∷ bs) = ap (◌∷◌ b) (extend_self d zero bs)
extend_self (x ∷ d) (suc o) (b ∷ bs) = extend_self d o (b ∷ bs)

extend-nil : (d : Bytes) → extend d 0 [] ≡ d
unfolding extend
extend-nil [] = refl
extend-nil (x ∷ d) = refl

-- The file reaches up to the end of what was written, and is no shorter than before.
pub length-extend :
    (d : Bytes) (o : ℕ) (bs : Bytes)
    → 0 < length bs
    → (o + length bs ≤ length (extend d o bs)) × (length d ≤ length (extend d o bs))
unfolding extend
length-extend d o [] h = absurd (omega arith)
length-extend [] zero (b ∷ bs) h = omega arith
length-extend [] (suc o) (b ∷ bs) h = omega (arith, length-extend [] o (b ∷ bs) h)
length-extend (x ∷ d) zero (b ∷ []) h = rw (extend-nil d) (omega arith)
length-extend (x ∷ d) zero (b ∷ (b' ∷ bs)) h =
    omega (arith, length-extend d zero (b' ∷ bs) (omega arith))
length-extend (x ∷ d) (suc o) (b ∷ bs) h = omega (arith, length-extend d o (b ∷ bs) h)

-- Bytes of the old file before or behind what was written.
pub extend_same :
    (d : Bytes) (o : ℕ) (bs : Bytes) (w n : ℕ)
    → w + n ≤ length d
    → Apart w n o (length bs)
    → take n (drop w (extend d o bs)) ≡ take n (drop w d)
unfolding extend
extend_same d o bs w zero h a = refl
extend_same [] o bs w (suc n) h a = absurd (omega arith)
extend_same (x ∷ d) zero [] w (suc n) h a = refl
extend_same (x ∷ d) zero (b ∷ bs) zero (suc n) h a = absurd (omega arith)
extend_same (x ∷ d) zero (b ∷ bs) (suc w) (suc n) h a =
    extend_same d zero bs w (suc n) (omega arith) (omega arith)
extend_same (x ∷ d) (suc o) bs zero (suc n) h a =
    ap (◌∷◌ x) (extend_same d o bs zero n (omega arith) (omega arith))
extend_same (x ∷ d) (suc o) bs (suc w) (suc n) h a =
    extend_same d o bs w (suc n) (omega arith) (omega arith)

-- A write within the file keeps its length.
pub length-extend_inside :
    (d : Bytes) (o : ℕ) (bs : Bytes) → o + length bs ≤ length d → length (extend d o bs) ≡ length d
unfolding extend
length-extend_inside [] zero [] h = refl
length-extend_inside [] (suc o) [] h = refl
length-extend_inside [] o (b ∷ bs) h = absurd (omega arith)
length-extend_inside (x ∷ d) zero [] h = refl
length-extend_inside (x ∷ d) zero (b ∷ bs) h = ap suc (length-extend_inside d 0 bs (omega arith))
length-extend_inside (x ∷ d) (suc o) bs h = ap suc (length-extend_inside d o bs (omega arith))
