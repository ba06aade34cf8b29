-- ===== src/Tests/Trees.antt =====
-- A cache of two pages, small pagers, and a B-tree of two levels on pages of 64 bytes.
use db_index_performance_eva.Base.{
  ℕ, zero, suc, ◌≡◌, refl, Bool, true, false, none, some, [], ◌∷◌, ◌++◌, arith, replicate,
  get_elem?, pos,
}
use db_index_performance_eva.Bytes.{Bytes, slice, get_uint, le_value, to_i64}
use db_index_performance_eva.BtPage.{Page, page_type, num_cells, cell_content, cell_ptr, rightmost}
use db_index_performance_eva.Accessor.{Cell}
use db_index_performance_eva.Accessor.Values.{value_at}
use db_index_performance_eva.Accessor.BTree.{btree_acc, decode}
use db_index_performance_eva.Accessor.BTree.RoundTrip.{btree_laws, decode-btree_laws}
use db_index_performance_eva.Node.{is_leaf}
use db_index_performance_eva.Node.Layout.{CellAt, Holds}
use db_index_performance_eva.Node.Search.{IsSorted}
use db_index_performance_eva.Lru.{LruCache, lookup}
use db_index_performance_eva.Lru.Refine.{IsLru, new_lru_cache-IsLru}
use db_index_performance_eva.Pager.{Pager, initial}
use db_index_performance_eva.Pager.Storage.{calm_file}
use db_index_performance_eva.Pager.Cached.{IsClean, page_at}
use db_index_performance_eva.BTree.Stored.{Stored}
use db_index_performance_eva.BTree.Get.{Within}
use db_index_performance_eva.BTree.Insert.{OneLeaf}
use db_index_performance_eva.Tree.LeafInsert.{Missing}
use db_index_performance_eva.Accessor.Laws.{Fits}
use db_index_performance_eva.Node.Insert.{leaf_cell}

-- Page 5 was used last, page 4 before it.
abbrev pub two_cached : LruCache
two_cached = record {
  cap = 2;
  items = (4, 0) ∷ (5, 1) ∷ [];
  head = some 1;
  tail = some 0;
  heap =
      record { id = 4; page = 7; prev = some 1; next = none }
      ∷ record { id = 5; page = 8; prev = none; next = some 0 }
      ∷ [];
}

pub two_cached-IsLru : IsLru two_cached ((5, 8) ∷ (4, 7) ∷ [])
unfolding lookup
two_cached-IsLru = record {
  m = (4, 0) ∷ (5, 1) ∷ [];
  h = two_cached.heap;
  xs = record { addr = 1; id = 5; page = 8 } ∷ record { addr = 0; id = 4; page = 7 } ∷ [];
  shape = refl;
  valid = record {
    chain = (refl, (refl, tt));
    addrs = (refl, (refl, tt));
    ids = (refl, (refl, tt));
    keys = (refl, (refl, tt));
    items = λ id. ground arith;
    count = refl;
  };
  view = refl;
  bound = omega arith;
}

-- Pagers over files of pages of 4 bytes, and one of pages of 64 bytes.
abbrev pub fresh : ℕ → Pager
fresh size = record (initial (calm_file [] 0) 2 size) { bufs = [] ∷ replicate size 7 ∷ [] }

pub fresh-IsClean : (size n : ℕ) (d : Bytes) → IsClean (record (fresh size) { page_count = n }) d []
unfolding lookup
fresh-IsClean size n d = record {
  lru = new_lru_cache-IsLru 2;
  some_bufs = omega arith;
  held = λ id a e. cc;
  inside = λ id a e. cc;
  unshared = λ i j a e f. cc;
}

-- The root holds the key 5 and the leaves the keys 3 and 9.
abbrev pub cell_low : Cell
cell_low = record { key = pos 3; value = some (7 ∷ []); left_child = 0 }

abbrev pub cell_root : Cell
cell_root = record { key = pos 5; value = some (8 ∷ 6 ∷ []); left_child = 1 }

abbrev pub cell_high : Cell
cell_high = record { key = pos 9; value = some (4 ∷ []); left_child = 0 }

abbrev low_page : Page
low_page =
    (1 ∷ 1 ∷ 0 ∷ 49 ∷ 0 ∷ 0 ∷ 0 ∷ 0 ∷ 0 ∷ 255 ∷ 255 ∷ 255 ∷ 255 ∷ 49 ∷ 0 ∷ [])
    ++ replicate 34 0
    ++ (0 ∷ 0 ∷ 0 ∷ 0 ∷ 3 ∷ 0 ∷ 0 ∷ 0 ∷ 0 ∷ 0 ∷ 0 ∷ 0 ∷ 1 ∷ 0 ∷ 7 ∷ [])

abbrev high_page : Page
high_page =
    (1 ∷ 1 ∷ 0 ∷ 49 ∷ 0 ∷ 0 ∷ 0 ∷ 0 ∷ 0 ∷ 255 ∷ 255 ∷ 255 ∷ 255 ∷ 49 ∷ 0 ∷ [])
    ++ replicate 34 0
    ++ (0 ∷ 0 ∷ 0 ∷ 0 ∷ 9 ∷ 0 ∷ 0 ∷ 0 ∷ 0 ∷ 0 ∷ 0 ∷ 0 ∷ 1 ∷ 0 ∷ 4 ∷ [])

abbrev root_page : Page
root_page =
    (0 ∷ 1 ∷ 0 ∷ 48 ∷ 0 ∷ 2 ∷ 0 ∷ 0 ∷ 0 ∷ 255 ∷ 255 ∷ 255 ∷ 255 ∷ 48 ∷ 0 ∷ [])
    ++ replicate 33 0
    ++ (1 ∷ 0 ∷ 0 ∷ 0 ∷ 5 ∷ 0 ∷ 0 ∷ 0 ∷ 0 ∷ 0 ∷ 0 ∷ 0 ∷ 2 ∷ 0 ∷ 8 ∷ 6 ∷ [])

abbrev pub tree_bytes : Bytes
tree_bytes = root_page ++ low_page ++ high_page

only_cell :
    (p : Page) (leaf : Bool) (lo : ℕ) (c : Cell)
    → CellAt btree_acc btree_laws p leaf lo 0 c
    → (i : ℕ) (d : Cell) → get_elem? (c ∷ []) i ≡ some d
    → CellAt btree_acc btree_laws p leaf lo i d
only_cell p leaf lo c a zero d e = let same : c ≡ d = cc in rw (← same) a
only_cell p leaf lo c a (suc i) d e = cc

pub one-IsSorted : (c : Cell) → IsSorted (c ∷ [])
one-IsSorted c zero zero d e f g h = ground arith
one-IsSorted c (suc i) j d e f g h = cc
one-IsSorted c i (suc j) d e f g h = cc

low_page-Holds : Holds btree_acc btree_laws low_page true (cell_low ∷ []) 49
unfolding is_leaf page_type num_cells cell_content cell_ptr decode value_at get_uint slice le_value
    to_i64
low_page-Holds = record {
  small = omega arith;
  kind = refl;
  count = refl;
  top = refl;
  room = omega arith;
  bound = omega arith;
  cells = only_cell low_page true 49 cell_low (record {
    off = 49;
    ptr = refl;
    above = omega arith;
    inside = omega arith;
    here = decode-btree_laws low_page 49 true;
  });
}

high_page-Holds : Holds btree_acc btree_laws high_page true (cell_high ∷ []) 49
unfolding is_leaf page_type num_cells cell_content cell_ptr decode value_at get_uint slice le_value
    to_i64
high_page-Holds = record {
  small = omega arith;
  kind = refl;
  count = refl;
  top = refl;
  room = omega arith;
  bound = omega arith;
  cells = only_cell high_page true 49 cell_high (record {
    off = 49;
    ptr = refl;
    above = omega arith;
    inside = omega arith;
    here = decode-btree_laws high_page 49 true;
  });
}

root_page-Holds : Holds btree_acc btree_laws root_page false (cell_root ∷ []) 48
unfolding is_leaf page_type num_cells cell_content cell_ptr decode value_at get_uint slice le_value
    to_i64
root_page-Holds = record {
  small = omega arith;
  kind = refl;
  count = refl;
  top = refl;
  room = omega arith;
  bound = omega arith;
  cells = only_cell root_page false 48 cell_root (record {
    off = 48;
    ptr = refl;
    above = omega arith;
    inside = omega arith;
    here = decode-btree_laws root_page 48 false;
  });
}

pub tree_bytes-Stored :
    Stored
      (page_at tree_bytes 64)
      (Within 64 tree_bytes)
      1
      0
      (cell_low ∷ cell_root ∷ cell_high ∷ [])
unfolding rightmost get_uint slice le_value
tree_bytes-Stored = (
  (omega arith, omega arith),
  (
    cell_root ∷ [],
    48,
    2,
    root_page-Holds,
    one-IsSorted cell_root,
    refl,
    (
      cell_low ∷ [],
      cell_high ∷ [],
      refl,
      ((omega arith, omega arith), one-IsSorted cell_low, (49, low_page-Holds)),
      (ground arith, tt),
      (ground arith, tt),
      ((omega arith, omega arith), one-IsSorted cell_high, (49, high_page-Holds)),
    ),
  ),
)

pub low_page-OneLeaf : OneLeaf (fresh 64) tree_bytes 1 (cell_low ∷ []) 16
low_page-OneLeaf = record {
  lo = 49;
  within = (omega arith, omega arith);
  sorted = one-IsSorted cell_low;
  holds = low_page-Holds;
  room = omega arith;
}

pub four-Missing : Missing (pos 4) (cell_low ∷ [])
four-Missing zero c e = let same : cell_low ≡ c = cc in rw (← same) refl
four-Missing (suc i) c e = cc

pub four-Fits : Fits (leaf_cell (pos 4) (some (1 ∷ 2 ∷ [])))
four-Fits = record { key = omega arith; value = omega arith; left_child = omega arith }
