-- ===== src/Disk.antt =====
-- The `*os.File` behind src/dbms/pager/pager.go: its bytes, and a schedule of the faults that the
-- operating system is going to report, one entry for each call. An entry `none` lets the call
-- pass; `some n` makes it fail, and a failing write has stored its first `n` bytes.
pub mod Extend
use db_index_performance_eva.Base.{
  ℕ, zero, suc, ◌+◌, Bool, Option, none, some, List, [], ◌∷◌, leb, ltb, if◌then◌else◌, length, take,
  drop, ℤ, pos, negsuc,
}
use db_index_performance_eva.Bytes.{Bytes}

-- `eof` and `negative_offset` come from the os package; the others wrap them.
pub data Error : Type 0 where
  io_error eof negative_offset : Error
  opening stat_file read_page_count write_page_count : Error → Error
  read_page write_page : ℕ → Error → Error

pub record File : Type 0 where
  pub content : Bytes
  pub faults : List (Option ℕ)
  pub syncs : ℕ

-- What the next call meets, and the file with that entry gone.
unfoldable pub next_fault : File → Option ℕ × File
next_fault f = elim f.faults [ [] ↦ (none, f) | x ∷ rest ↦ (x, record f { faults = rest }) ]

-- The bytes after a write at `o`: a gap behind the old end reads as zeros.
unfoldable pub extend : Bytes → ℕ → Bytes → Bytes
extend [] zero bs = bs
extend (x ∷ d) zero [] = x ∷ d
extend (x ∷ d) zero (b ∷ bs) = b ∷ extend d zero bs
extend [] (suc o) [] = []
extend [] (suc o) (b ∷ bs) = 0 ∷ extend [] o (b ∷ bs)
extend (x ∷ d) (suc o) bs = x ∷ extend d o bs

-- The outcome of a call: a result or an error, and the file.
pub data Io (A : Type 0) : Type 0 where
  success : A → File → Io A
  failure : Error → File → Io A

-- `f.ReadAt(buf, off)` with a buffer of `n` bytes
unfoldable pub read_at : File → ℤ → ℕ → Io Bytes
read_at f (negsuc _) n = failure negative_offset f
read_at f (pos o) n =
    let (fault, f') = next_fault f in
    elim fault [
      | some _ ↦ failure io_error f'
      | none ↦
          if leb (o + n) (length f.content)
          then success (take n (drop o f.content)) f'
          else failure eof f'
    ]

-- `f.WriteAt(bs, off)`
unfoldable pub write_at : File → ℤ → Bytes → Io (Unit {0})
write_at f (negsuc _) bs = failure negative_offset f
write_at f (pos o) bs =
    let (fault, f') = next_fault f in
    elim fault [
      | some n ↦ failure io_error (record f' { content = extend f.content o (take n bs) })
      | none ↦ success tt (record f' { content = extend f.content o bs })
    ]

-- `f.Sync()`
unfoldable pub sync : File → Io (Unit {0})
sync f =
    let (fault, f') = next_fault f in
    elim fault [
      | some _ ↦ failure io_error f'
      | none ↦ success tt (record f' { syncs = f'.syncs + 1 })
    ]

-- `os.OpenFile` and `f.Close()` change nothing that is read later.
unfoldable pub touch : File → Io (Unit {0})
touch f =
    let (fault, f') = next_fault f in
    elim fault [ some _ ↦ failure io_error f' | none ↦ success tt f' ]

-- `info.Size() > 0`
unfoldable pub has_content : File → Io Bool
has_content f =
    let (fault, f') = next_fault f in
    elim fault [ some _ ↦ failure io_error f' | none ↦ success (ltb 0 (length f.content)) f' ]
