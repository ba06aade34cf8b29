-- ===== src/ListIndex.antt =====
-- The in-memory index of src/dbms/index/listindex/listindex.go: a slice of pairs in the order of
-- their first insertion. An iterator is modelled over the slice as `Range` finds it: no call that
-- changes the index stands between `Range` and the last `Next`.
pub mod Laws
pub mod Scan
use db_index_performance_eva.Base.{
  ℕ, suc, ◌+◌, ◌-◌, Bool, true, false, ◌&&◌, Option, none, some, List, [], ◌∷◌, ◌++◌, leb,
  if◌then◌else◌, length, drop, get_elem?, ℤ, pos, negsuc, eqb_ℤ, leb_ℤ,
}
use db_index_performance_eva.Base.Go.{Go, ok, panic}
use db_index_performance_eva.Accessor.{Value}

pub record Data : Type 0 where
  pub key : ℤ
  pub val : Value

-- A result, or the error "key not found".
pub data Found {ℓ} (A : Type ℓ) : Type ℓ where
  found : A → Found A
  not_found : Found A

-- `Insert` overwrites the first pair with the key in place, or appends a pair. It returns no error.
unfoldable pub insert : ℤ → Value → List Data → List Data
insert key value [] = record { key = key; val = value } ∷ []
insert key value (d ∷ ds) =
    if eqb_ℤ d.key key then record d { val = value } ∷ ds else d ∷ insert key value ds

unfoldable pub get : ℤ → List Data → Found Value
get key [] = not_found
get key (d ∷ ds) = if eqb_ℤ d.key key then found d.val else get key ds

abbrev pub keep : Data → Found (List Data) → Found (List Data)
keep d (found ds) = found (d ∷ ds)
keep d not_found = not_found

unfoldable pub delete : ℤ → List Data → Found (List Data)
delete key [] = not_found
delete key (d ∷ ds) = if eqb_ℤ d.key key then found ds else keep d (delete key ds)

pub record ListIterator : Type 0 where
  pub items : List Data
  pub cur : ℤ
  pub start : ℤ
  pub end_key : ℤ

unfoldable pub range : ℤ → ℤ → List Data → ListIterator
range start end_key items = record {
  items = items;
  cur = negsuc 0;
  start = start;
  end_key = end_key;
}

-- `it.cur + 1`, for an index that is -1 or more
abbrev pub next_index : ℤ → ℕ
next_index (pos n) = suc n
next_index (negsuc n) = 0

unfoldable pub in_range : ℤ → ℤ → Data → Bool
in_range start end_key d = leb_ℤ start d.key && leb_ℤ d.key end_key

-- The loop of `Next` from index `cur`, where `ds` is what stands from there on.
unfoldable pub seek : ℤ → ℤ → List Data → ℕ → ℕ × Bool
seek start end_key [] cur = (cur, false)
seek start end_key (d ∷ ds) cur =
    if in_range start end_key d then (cur, true) else seek start end_key ds (cur + 1)

unfoldable pub next : ListIterator → ListIterator × Bool
next it =
    let first = next_index it.cur in
    let (cur, more) = seek it.start it.end_key (drop first it.items) first in
    (record it { cur = pos cur }, more)

unfoldable pub data_at : List Data → ℤ → Go Data
data_at items (pos n) = elim (get_elem? items n) [ none ↦ panic | some d ↦ ok d ]
data_at items (negsuc n) = panic

-- `it.data[it.cur]`, of which `Key` and `Value` return a field.
abbrev pub current : ListIterator → Go Data
current it = data_at it.items it.cur
