-- ===== src/Node/Layout.antt =====
-- What it means that a page holds a list of cells: pointers, cells and the start of the cell area.
use db_index_performance_eva.Base.{
  ℕ, ◌+◌, ◌*◌, ◌^◌, ◌≤◌, ◌<◌, ◌≡◌, ◌∙◌, Bool, List, some, arith, length, get_elem?, get_elem?-some,
}
use db_index_performance_eva.Base.Go.{ok}
use db_index_performance_eva.Bytes.Frame.{Apart, SameOutside}
use db_index_performance_eva.BtPage.{
  Page, page_type, num_cells, cell_content, rightmost, next_leaf, cell_ptr,
}
use db_index_performance_eva.BtPage.Fields.{
  page_type-same, rightmost-same, next_leaf-same, cell_ptr-same,
}
use db_index_performance_eva.Accessor.{Cell, Accessor}
use db_index_performance_eva.Accessor.Laws.{AccessorLaws}
use db_index_performance_eva.Node.{is_leaf}

-- The links of a page: its type, its rightmost child and the next leaf.
pub record KeepsLinks (p p' : Page) : Type 0 where
  pub size : length p' ≡ length p
  pub kind : page_type p' ≡ page_type p
  pub rightmost : rightmost p' ≡ rightmost p
  pub next_leaf : next_leaf p' ≡ next_leaf p

pub KeepsLinks-trans : {p q r : Page} → KeepsLinks p q → KeepsLinks q r → KeepsLinks p r
KeepsLinks-trans s t = record {
  size = t.size ∙ s.size;
  kind = t.kind ∙ s.kind;
  rightmost = t.rightmost ∙ s.rightmost;
  next_leaf = t.next_leaf ∙ s.next_leaf;
}

-- A change of the counters, or behind the header, keeps the links.
pub KeepsLinks-same :
    {p p' : Page} {w m : ℕ} → SameOutside p p' w m → Apart 0 1 w m → Apart 5 8 w m → KeepsLinks p p'
KeepsLinks-same s h k = record {
  size = s.size;
  kind = page_type-same s h;
  rightmost = rightmost-same s (omega arith);
  next_leaf = next_leaf-same s (omega arith);
}

pub is_leaf-same : (p p' : Page) → page_type p' ≡ page_type p → is_leaf p' ≡ is_leaf p
unfolding is_leaf
is_leaf-same p p' e = rw e

module _ (acc : Accessor) (laws : AccessorLaws acc) where
  -- Pointer `i` leads to the cell `c`, which lies within the page and not below `lo`.
  pub record CellAt (p : Page) (leaf : Bool) (lo i : ℕ) (c : Cell) : Type 0 where
    pub off : ℕ
    pub ptr : cell_ptr p i ≡ ok off
    pub above : lo ≤ off
    pub inside : off + acc.cell_size leaf c.value ≤ length p
    pub here : laws.decode p off leaf ≡ ok c

  -- The cell is read by its index.
  pub read_cell-CellAt :
      {p : Page} {leaf : Bool} {lo i : ℕ} {c : Cell}
      → CellAt p leaf lo i c
      → acc.read_cell p i leaf ≡ ok c
  read_cell-CellAt {p} {leaf} {i} a = laws.read_cell-decode p i leaf ∙ rw (a.ptr, a.here)

  -- It stays where it is if the page changes below the cell area and off its pointer.
  pub CellAt-same :
      {p p' : Page} {w m : ℕ} {leaf : Bool} {lo i : ℕ} {c : Cell} (lo' : ℕ)
      → CellAt p leaf lo i c
      → SameOutside p p' w m
      → Apart (13 + i * 2) 2 w m
      → w + m ≤ lo
      → lo' ≤ lo
      → CellAt p' leaf lo' i c
  CellAt-same {p} {p'} {w} {m} {leaf} {i} {c} lo' a s h k l = record {
    off = a.off;
    ptr = cell_ptr-same s i h ∙ a.ptr;
    above = omega (arith, a.above);
    inside = omega (arith, a.inside, s.size);
    here = laws.decode-same p p' a.off w m leaf c s (omega (arith, a.above)) a.here;
  }

  -- It is at pointer `j` if that now leads where pointer `i` led.
  pub CellAt-moved :
      {p p' : Page} {w m : ℕ} {leaf : Bool} {lo i j : ℕ} {c : Cell}
      → CellAt p leaf lo i c
      → SameOutside p p' w m
      → cell_ptr p' j ≡ cell_ptr p i
      → w + m ≤ lo
      → CellAt p' leaf lo j c
  CellAt-moved {p} {p'} {w} {m} {leaf} {c = c} a s e k = record {
    off = a.off;
    ptr = e ∙ a.ptr;
    above = a.above;
    inside = omega (arith, a.inside, s.size);
    here = laws.decode-same p p' a.off w m leaf c s (omega (arith, a.above)) a.here;
  }

  -- The page is of the given type and holds the cells in order. Its pointers end at or before `lo`,
  -- where the cell area begins.
  pub record Holds (p : Page) (leaf : Bool) (cs : List Cell) (lo : ℕ) : Type 0 where
    pub small : length p < 2 ^ 16
    pub kind : is_leaf p ≡ ok leaf
    pub count : num_cells p ≡ ok (length cs)
    pub top : cell_content p ≡ ok lo
    pub room : 13 + length cs * 2 ≤ lo
    pub bound : lo ≤ length p
    pub cells : (i : ℕ) (c : Cell) → get_elem? cs i ≡ some c → CellAt p leaf lo i c

  -- The pointers to its cells lie below 2 ^ 16.
  pub Holds-IsPtr :
      {p : Page} {leaf : Bool} {cs : List Cell} {lo : ℕ}
      → Holds p leaf cs lo
      → (j : ℕ) → j < length cs
      → (o : ℕ) × (cell_ptr p j ≡ ok o) × (o < 2 ^ 16)
  Holds-IsPtr {cs = cs} h j inside =
      let (c, e) = get_elem?-some cs j inside in
      let a = h.cells j c e in (a.off, a.ptr, omega (arith, a.inside, h.small))
