-- ===== src/Accessor/BpTree/RoundTrip.antt =====
-- BPTreeAcc meets the laws of an accessor.
use db_index_performance_eva.Base.{
  ℤ, ℕ, ◌+◌, ◌*◌, ◌^◌, ◌≤◌, ◌<◌, ◌≡◌, ◌∙◌, refl, Bool, true, false, none, some, arith, length, pos,
  if◌then◌else◌,
}
use db_index_performance_eva.Base.Go.{ok}
use db_index_performance_eva.Bytes.{to_u64}
use db_index_performance_eva.Bytes.Frame.{Apart, SameOutside, SameOutside-widen, SameOutside-trans}
use db_index_performance_eva.Bytes.Words.{get_uint-same, put_uint_lem, to_u64-lt, to_i64-to_u64}
use db_index_performance_eva.BtPage.{Page, next_leaf, cell_ptr}
use db_index_performance_eva.BtPage.Fields.{set_next_leaf_lem}
use db_index_performance_eva.Accessor.{Value, bytes_of, Cell}
use db_index_performance_eva.Accessor.Values.{value_at-same, put_value_lem}
use db_index_performance_eva.Accessor.Laws.{Fits, AccessorLaws, read_cell-write_cell}
use db_index_performance_eva.Accessor.BpTree.{
  cell_size, decode, read_leaf_cell, read_internal_cell, read_cell, read_cell_zero_copy,
  write_leaf_cell, write_internal_cell, write_cell, link_leaves, bptree_acc,
}

decode-same :
    (p p' : Page) (off w m : ℕ) (leaf : Bool) (c : Cell)
    → SameOutside p p' w m
    → Apart off (cell_size leaf c.value) w m
    → decode p off leaf ≡ ok c
    → decode p' off leaf ≡ ok c
unfolding decode read_leaf_cell read_internal_cell
decode-same p p' off w m true c s apart h = ground (
  arith,
  get_uint-same 8 off s (omega arith),
  value_at-same p p' (off + 8) w m (bytes_of c.value) s,
)
decode-same p p' off w m false c s apart h =
    ground (arith, get_uint-same 4 off s (omega arith), get_uint-same 8 (off + 4) s (omega arith))

-- A leaf cell keeps no left child, an internal cell no value.
abbrev stored : Bool → Cell → Cell
stored true c = record c { value = some (bytes_of c.value); left_child = 0 }
stored false c = record c { value = none }

write_cell-stored :
    (p : Page) (off : ℕ) (c : Cell) (leaf : Bool)
    → off + cell_size leaf c.value ≤ length p
    → Fits c
    → (p' : Page) × (write_cell p (pos off) c.key c.value c.left_child leaf ≡ ok p')
      × SameOutside p p' off (cell_size leaf c.value)
      × (decode p' off leaf ≡ ok (stored leaf c))
unfolding write_cell write_leaf_cell write_internal_cell decode read_leaf_cell read_internal_cell
write_cell-stored p off c true h f =
    let size = cell_size true c.value in
    let (p1, e1, s1, r1) = put_uint_lem 8 p off (to_u64 c.key) (omega arith) (to_u64-lt c.key) in
    let (p2, e2, s2, r2) = put_value_lem p1 (off + 8) c.value (omega (arith, s1.size)) f.value in
    (
      p2,
      rw (e1, e2),
      SameOutside-trans (SameOutside-widen off size s1 (omega arith) (omega arith))
          (SameOutside-widen off size s2 (omega arith) (omega arith)),
      rw (get_uint-same 8 off s2 (omega arith) ∙ r1, r2, to_i64-to_u64 c.key f.key),
    )
write_cell-stored p off c false h f =
    let (p1, e1, s1, r1) = put_uint_lem 4 p off c.left_child (omega arith) f.left_child in
    let (p2, e2, s2, r2) =
      put_uint_lem 8 p1 (off + 4) (to_u64 c.key) (omega (arith, s1.size)) (to_u64-lt c.key) in
    (
      p2,
      rw (e1, e2),
      SameOutside-trans (SameOutside-widen off 12 s1 (omega arith) (omega arith))
          (SameOutside-widen off 12 s2 (omega arith) (omega arith)),
      rw (get_uint-same 4 off s2 (omega arith) ∙ r1, r2, to_i64-to_u64 c.key f.key),
    )

key-stored : (leaf : Bool) (c : Cell) → (stored leaf c).key ≡ c.key
key-stored true c = refl
key-stored false c = refl

cell_size-stored :
    (leaf : Bool) (c : Cell) → cell_size leaf (stored leaf c).value ≡ cell_size leaf c.value
cell_size-stored true c = refl
cell_size-stored false c = refl

link_leaves-ok :
    (left right : Page) (new_id old_next : ℕ)
    → 13 ≤ length left
    → 13 ≤ length right
    → new_id < 2 ^ 32
    → old_next < 2 ^ 32
    → (left' right' : Page) × (link_leaves left right new_id old_next ≡ ok (left', right'))
      × SameOutside left left' 9 4
      × SameOutside right right' 9 4
      × (true ≡ true → (next_leaf left' ≡ ok new_id) × (next_leaf right' ≡ ok old_next))
unfolding link_leaves
link_leaves-ok left right new_id old_next h k a b =
    let (l, e, s, r) = set_next_leaf_lem left new_id h a in
    let (l', e', s', r') = set_next_leaf_lem right old_next k b in
    (l, l', rw (e, e'), s, s', λ _. (r, r'))

-- BPTreeAcc
pub bptree_laws : AccessorLaws bptree_acc
unfolding read_cell
bptree_laws = record {
  decode = decode;
  stored = stored;
  key-stored = key-stored;
  cell_size-stored = cell_size-stored;
  read_cell-decode = λ p i leaf. refl;
  decode-same = decode-same;
  write_cell-stored = write_cell-stored;
  link_leaves-ok = link_leaves-ok;
}

pub decode-bptree_laws :
    (p : Page) (off : ℕ) (leaf : Bool) → bptree_laws.decode p off leaf ≡ decode p off leaf
unfolding bptree_laws
decode-bptree_laws p off leaf = refl

pub stored-bptree_laws :
    (key : ℤ) (value : Value)
    → bptree_laws.stored true (record { key = key; value = value; left_child = 0 })
      ≡ record { key = key; value = some (bytes_of value); left_child = 0 }
unfolding bptree_laws
stored-bptree_laws key value = refl

-- In a B+ tree, a cell that is written within the page, and off the pointer that leads to it, is
-- read back: in a leaf with its key and the bytes of its value, in an internal node with its key
-- and its left child.
pub bptree_read-write :
    (p : Page) (i off : ℕ) (c : Cell) (leaf : Bool)
    → cell_ptr p i ≡ ok off
    → Apart (13 + i * 2) 2 off (cell_size leaf c.value)
    → off + cell_size leaf c.value ≤ length p
    → Fits c
    → (p' : Page) × (write_cell p (pos off) c.key c.value c.left_child leaf ≡ ok p')
      × (read_cell p' i leaf
          ≡ ok (
              if leaf
              then record c { value = some (bytes_of c.value); left_child = 0 }
              else record c { value = none }))
unfolding bptree_laws
bptree_read-write p i off c true = read_cell-write_cell bptree_acc bptree_laws p i off c true
bptree_read-write p i off c false = read_cell-write_cell bptree_acc bptree_laws p i off c false

-- `readCellZeroCopy` reads the key and the bytes that `ReadCell` reads from a leaf.
pub read_cell_zero_copy-read_cell :
    (p : Page) (i : ℕ) (c : Cell)
    → read_cell p i true ≡ ok c
    → read_cell_zero_copy p i ≡ ok (c.key, bytes_of c.value)
unfolding read_cell read_cell_zero_copy decode read_leaf_cell
read_cell_zero_copy-read_cell p i c e = ground arith
