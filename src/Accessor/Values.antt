-- ===== src/Accessor/Values.antt =====
-- A value in a cell: two bytes for its length, then its bytes. Both accessors of
-- src/dbms/index/btree/btree.go and src/dbms/index/bptree/bptree.go read and write it so.
use db_index_performance_eva.Base.{ℕ, ◌+◌, ◌%◌, ◌^◌, ◌≤◌, ◌<◌, ◌≡◌, ◌∙◌, refl, arith, length}
use db_index_performance_eva.Base.Go.{Go, ok, ◌>>=◌, first_step}
use db_index_performance_eva.Bytes.{Bytes, slice, copy_from, copy_at, get_uint, put_uint}
use db_index_performance_eva.Bytes.Frame.{
  Apart, SameOutside, SameOutside-copy_at, SameOutside-widen, SameOutside-trans, slice-copy_at_self,
  copy_from-ok, length-slice,
}
use db_index_performance_eva.Bytes.Words.{get_uint-same, put_uint_lem}
use db_index_performance_eva.BtPage.{Page}
use db_index_performance_eva.Accessor.{Value, bytes_of, len}

unfoldable pub value_at : Page → ℕ → Go Bytes
value_at p off = do vl ← get_uint 2 p off; slice p (off + 2) vl

unfoldable pub put_value : Page → ℕ → Value → Go Page
put_value p off value = do
  p ← put_uint 2 p off (len value % 2 ^ 16)
  copy_from p (off + 2) (bytes_of value)

pub value_at-same :
    (p p' : Page) (off w m : ℕ) (bs : Bytes)
    → SameOutside p p' w m
    → Apart off (2 + length bs) w m
    → value_at p off ≡ ok bs
    → value_at p' off ≡ ok bs
unfolding value_at
value_at-same p p' off w m bs s apart h =
    let (vl, f, e) = first_step _ (get_uint 2 p off) h in
    let n : length bs ≡ vl = length-slice p (off + 2) vl bs f in
    rw (get_uint-same 2 off s (omega arith) ∙ e) (s.same (off + 2) vl (omega arith) ∙ f)

-- A value with fewer than 2 ^ 16 bytes that is written within the page is read back.
pub put_value_lem :
    (p : Page) (off : ℕ) (v : Value)
    → off + (2 + len v) ≤ length p
    → len v < 2 ^ 16
    → (p' : Page) × (put_value p off v ≡ ok p')
      × SameOutside p p' off (2 + len v)
      × (value_at p' off ≡ ok (bytes_of v))
unfolding put_value value_at
put_value_lem p off v h b =
    let (q, e, s, r) = put_uint_lem 2 p off (len v) (omega arith) (omega arith) in
    let t = SameOutside-copy_at q (off + 2) (bytes_of v) in
    let small : len v % 2 ^ 16 ≡ len v = omega arith in
    (
      copy_at q (off + 2) (bytes_of v),
      rw (small, e) (copy_from-ok q (off + 2) (bytes_of v) (omega (arith, s.size))),
      SameOutside-trans (SameOutside-widen off (2 + len v) s (omega arith) (omega arith))
          (SameOutside-widen off (2 + len v) t (omega arith) (omega arith)),
      rw (get_uint-same 2 off t (omega arith) ∙ r)
          (slice-copy_at_self q (off + 2) (len v) (bytes_of v) refl (omega (arith, s.size))),
    )
