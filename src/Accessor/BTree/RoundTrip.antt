-- ===== src/Accessor/BTree/RoundTrip.antt =====
-- BTreeAcc meets the laws of an accessor.
use db_index_performance_eva.Base.{ℕ, ◌+◌, ◌*◌, ◌≤◌, ◌≡◌, ◌∙◌, refl, Bool, some, arith, length, pos}
use db_index_performance_eva.Base.Go.{ok}
use db_index_performance_eva.Bytes.{to_u64}
use db_index_performance_eva.Bytes.Frame.{
  Apart, SameOutside, SameOutside-refl, SameOutside-widen, SameOutside-trans,
}
use db_index_performance_eva.Bytes.Words.{get_uint-same, put_uint_lem, to_u64-lt, to_i64-to_u64}
use db_index_performance_eva.BtPage.{Page, cell_ptr}
use db_index_performance_eva.Accessor.{bytes_of, Cell}
use db_index_performance_eva.Accessor.Values.{value_at-same, put_value_lem}
use db_index_performance_eva.Accessor.Laws.{Fits, AccessorLaws, read_cell-write_cell}
use db_index_performance_eva.Accessor.BTree.{cell_size, decode, read_cell, write_cell, btree_acc}

decode-same :
    (p p' : Page) (off w m : ℕ) (leaf : Bool) (c : Cell)
    → SameOutside p p' w m
    → Apart off (cell_size leaf c.value) w m
    → decode p off leaf ≡ ok c
    → decode p' off leaf ≡ ok c
unfolding decode
decode-same p p' off w m leaf c s apart h = ground (
  arith,
  get_uint-same 4 off s (omega arith),
  get_uint-same 8 (off + 4) s (omega arith),
  value_at-same p p' (off + 12) w m (bytes_of c.value) s,
)

abbrev stored : Bool → Cell → Cell
stored leaf c = record c { value = some (bytes_of c.value) }

write_cell-stored :
    (p : Page) (off : ℕ) (c : Cell) (leaf : Bool)
    → off + cell_size leaf c.value ≤ length p
    → Fits c
    → (p' : Page) × (write_cell p (pos off) c.key c.value c.left_child leaf ≡ ok p')
      × SameOutside p p' off (cell_size leaf c.value)
      × (decode p' off leaf ≡ ok (stored leaf c))
unfolding write_cell decode
write_cell-stored p off c leaf h f =
    let (p1, e1, s1, r1) = put_uint_lem 4 p off c.left_child (omega arith) f.left_child in
    let (p2, e2, s2, r2) =
      put_uint_lem 8 p1 (off + 4) (to_u64 c.key) (omega (arith, s1.size)) (to_u64-lt c.key) in
    let (p3, e3, s3, r3) =
      put_value_lem p2 (off + 12) c.value (omega (arith, s1.size, s2.size)) f.value in
    let size = cell_size leaf c.value in
    (
      p3,
      rw (e1, e2, e3),
      SameOutside-trans
          (SameOutside-trans (SameOutside-widen off size s1 (omega arith) (omega arith))
            (SameOutside-widen off size s2 (omega arith) (omega arith)))
          (SameOutside-widen off size s3 (omega arith) (omega arith)),
      rw (
        get_uint-same 4 off s3 (omega arith) ∙ get_uint-same 4 off s2 (omega arith) ∙ r1,
        get_uint-same 8 (off + 4) s3 (omega arith) ∙ r2,
        r3,
        to_i64-to_u64 c.key f.key,
      ),
    )

-- BTreeAcc
pub btree_laws : AccessorLaws btree_acc
unfolding read_cell
btree_laws = record {
  decode = decode;
  stored = stored;
  key-stored = λ leaf c. refl;
  cell_size-stored = λ leaf c. refl;
  read_cell-decode = λ p i leaf. refl;
  decode-same = decode-same;
  write_cell-stored = write_cell-stored;
  link_leaves-ok =
      λ l r a b h k m n. (l, r, refl, SameOutside-refl l 9 4, SameOutside-refl r 9 4, λ e. cc);
}

pub decode-btree_laws :
    (p : Page) (off : ℕ) (leaf : Bool) → btree_laws.decode p off leaf ≡ decode p off leaf
unfolding btree_laws
decode-btree_laws p off leaf = refl

pub stored-btree_laws :
    (leaf : Bool) (c : Cell)
    → btree_laws.stored leaf c ≡ record c { value = some (bytes_of c.value) }
unfolding btree_laws
stored-btree_laws leaf c = refl

-- In a B-tree, a cell that is written within the page, and off the pointer that leads to it, is read
-- back with its key, its left child and the bytes of its value, a nil value as an empty one.
pub btree_read-write :
    (p : Page) (i off : ℕ) (c : Cell) (leaf : Bool)
    → cell_ptr p i ≡ ok off
    → Apart (13 + i * 2) 2 off (cell_size leaf c.value)
    → off + cell_size leaf c.value ≤ length p
    → Fits c
    → (p' : Page) × (write_cell p (pos off) c.key c.value c.left_child leaf ≡ ok p')
      × (read_cell p' i leaf ≡ ok (record c { value = some (bytes_of c.value) }))
unfolding btree_laws
btree_read-write = read_cell-write_cell btree_acc btree_laws
