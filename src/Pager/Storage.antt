-- ===== src/Pager/Storage.antt =====
-- `writePageToDisk` and `readPageFromDisk` on a file whose calls succeed.
use db_index_performance_eva.Base.{
  ℕ, ◌+◌, ◌*◌, ◌%◌, ◌^◌, ◌≤◌, ◌<◌, ◌≡◌, ◌≢◌, refl, sym, ap, ◌∙◌, some, get_elem?, [], arith, length,
  take, drop, le→leb, lt→ltb, pos, Bool-cases, inl, inr, ltb_ℤ, pos_part, ◌==◌,
}
use native.Mathlib.Decide.{dec_lt}
use native.Mathlib.Nat.{add-mul, mul-le-mul_right}
use db_index_performance_eva.Base.State.{done, wrap}
use db_index_performance_eva.Bytes.{Bytes, to_i64}
use db_index_performance_eva.Bytes.Frame.{Apart}
use db_index_performance_eva.BtPage.{Page}
use db_index_performance_eva.Disk.{File, success, next_fault, extend, read_at, write_at, sync}
use db_index_performance_eva.Disk.Extend.{extend_self, length-extend, extend_same}
use db_index_performance_eva.Pager.{
  Pager, load_page, on_file, offset, read_page_from_disk, count_write, write_page_to_disk,
}

pub load_page-ok :
    (a : ℕ) (p : Pager) (pg : Page) → get_elem? p.bufs a ≡ some pg → load_page a p ≡ done pg p
unfolding load_page
load_page-ok a p pg e = rw (e, load_page)

-- A file whose calls succeed, and a pager on it.
abbrev pub calm_file : Bytes → ℕ → File
calm_file d s = record { content = d; faults = []; syncs = s }

abbrev pub calm_pager : Pager → Bytes → ℕ → Pager
calm_pager p d s = record p { file = calm_file d s }

read_at-calm :
    (d : Bytes) (s o n : ℕ)
    → o + n ≤ length d
    → read_at (calm_file d s) (pos o) n ≡ success (take n (drop o d)) (calm_file d s)
unfolding read_at next_fault
read_at-calm d s o n h = rw (le→leb (o + n) (length d) h)

write_at-calm :
    (d : Bytes) (s o : ℕ) (bs : Bytes)
    → write_at (calm_file d s) (pos o) bs ≡ success tt (calm_file (extend d o bs) s)
unfolding write_at next_fault
write_at-calm d s o bs = refl

-- The offset of a page is positive and does not wrap around.
pub offset-pos : (size id : ℕ) → id * size < 2 ^ 63 → offset size id ≡ pos (id * size)
unfolding offset to_i64
offset-pos size id h =
    let small : id * size % 2 ^ 64 ≡ id * size = omega arith in
    rw (small, lt→ltb (id * size) (2 ^ 63) h)

-- A page within the file is read as its bytes.
pub read_page_from_disk-calm :
    (p : Pager) (d : Bytes) (s id : ℕ)
    → id * p.page_size < 2 ^ 63
    → id * p.page_size + p.page_size ≤ length d
    → read_page_from_disk id (calm_pager p d s)
      ≡ done (take p.page_size (drop (id * p.page_size) d)) (calm_pager p d s)
unfolding read_page_from_disk
read_page_from_disk-calm p d s id h inside =
    rw (offset-pos p.page_size id h, wrap, on_file)
      (rw (read_at-calm d s (id * p.page_size) p.page_size inside))

pub count_write-calm :
    (p : Pager) (d : Bytes) (s : ℕ)
    → (n t : ℕ) × (count_write (calm_pager p d s)
        ≡ done tt (calm_pager (record p { write_count = n }) d t))
unfolding count_write sync next_fault
count_write-calm p d s =
    let n = p.write_count + 1 in
    elim (Bool-cases (ltb_ℤ (pos 0) p.sync_interval)) [
      | inr off ↦ (p.write_count, s, rw off)
      | inl on ↦ elim (Bool-cases ((n % pos_part p.sync_interval) == 0)) [
        | inr later ↦ (n, s, rw (on, later))
        | inl now ↦ (n, s + 1, rw (on, now))
      ]
    ]

-- The write of a page of any size.
pub write_page_to_disk-calm :
    (p : Pager) (d : Bytes) (s id : ℕ) (pg : Page)
    → id * p.page_size < 2 ^ 63
    → (n t : ℕ) × (write_page_to_disk id pg (calm_pager p d s)
        ≡ done tt (calm_pager (record p { write_count = n }) (extend d (id * p.page_size) pg) t))
unfolding write_page_to_disk
write_page_to_disk-calm p d s id pg h =
    let (n, t, e) = count_write-calm p (extend d (id * p.page_size) pg) s in
    (
      n,
      t,
      rw (offset-pos p.page_size id h, wrap, on_file)
          (rw (write_at-calm d s (id * p.page_size) pg) e),
    )

-- Pages with different ids do not overlap.
pub pages-Apart : (size a b : ℕ) → a ≢ b → Apart (a * size) size (b * size) size
pages-Apart size a b ne = elim (dec_lt a b) [
  | yes below ↦
      let le : a + 1 ≤ b = omega arith in
      inl (omega (arith, mul-le-mul_right size le, add-mul a 1 size))
  | no above ↦
      let le : b + 1 ≤ a = omega arith in
      inr (omega (arith, mul-le-mul_right size le, add-mul b 1 size))
]

-- A page of the file is read as the bytes that stand there.
read_written :
    (q : Pager) (d : Bytes) (t id size : ℕ) (pg : Page)
    → q.page_size ≡ size
    → id * size < 2 ^ 63
    → id * size + size ≤ length d
    → take size (drop (id * size) d) ≡ pg
    → read_page_from_disk id (calm_pager q d t) ≡ done pg (calm_pager q d t)
read_written q d t id size pg same h inside there =
    let at : take q.page_size (drop (id * q.page_size) d) ≡ pg = rw same there in
    read_page_from_disk-calm q d t id (rw same h) (rw same inside)
    ∙ ap (λ x. done x (calm_pager q d t)) at

-- On a file whose calls succeed, a page of full size that is written is read back, and any other page
-- within the file is read as before the write.
write_page-read_page :
    (p : Pager) (d : Bytes) (s id other : ℕ) (pg : Page)
    → length pg ≡ p.page_size
    → 0 < p.page_size
    → id * p.page_size < 2 ^ 63
    → other ≢ id
    → other * p.page_size < 2 ^ 63
    → other * p.page_size + p.page_size ≤ length d
    → (q : Pager) × (t : ℕ) × (old : Page) × (write_page_to_disk id pg (calm_pager p d s)
        ≡ done tt (calm_pager q (extend d (id * p.page_size) pg) t))
      × (read_page_from_disk id (calm_pager q (extend d (id * p.page_size) pg) t)
          ≡ done pg (calm_pager q (extend d (id * p.page_size) pg) t))
      × (read_page_from_disk other (calm_pager p d s) ≡ done old (calm_pager p d s))
      × (read_page_from_disk other (calm_pager q (extend d (id * p.page_size) pg) t)
          ≡ done old (calm_pager q (extend d (id * p.page_size) pg) t))
write_page-read_page p d s id other pg full big h ne h' inside =
    let d' = extend d (id * p.page_size) pg in
    let (n, t, e) = write_page_to_disk-calm p d s id pg h in
    let q = record p { write_count = n } in
    let (long, grown) = length-extend d (id * p.page_size) pg (omega arith) in
    let apart : Apart (other * p.page_size) p.page_size (id * p.page_size) (length pg) =
      rw full (pages-Apart p.page_size other id ne) in
    (
      q,
      t,
      take p.page_size (drop (other * p.page_size) d),
      e,
      read_written q d' t id p.page_size pg refl h (omega (arith, long)) (
          ap (λ n. take n (drop (id * p.page_size) d')) (sym full)
          ∙ extend_self d (id * p.page_size) pg),
      read_page_from_disk-calm p d s other h' inside,
      read_written q d' t other p.page_size _ refl h' (omega (arith, grown))
          (extend_same d (id * p.page_size) pg (other * p.page_size) p.page_size inside apart),
    )
