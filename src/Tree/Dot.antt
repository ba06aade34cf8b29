-- ===== src/Tree/Dot.antt =====
-- `ExportDOT` of src/dbms/index/shared/tree.go: the drawing of a tree as a list of nodes and edges.
-- A line stands for one call that prints a node or an edge, with what the text of the line is made
-- of; the fixed text and the layout of the labels are left out. A name `node7` is its number.
use db_index_performance_eva.Base.{
  ℕ, zero, suc, ◌+◌, Bool, true, false, ◌&&◌, ◌||◌, Option, none, some, List, [], ◌∷◌, ◌++◌, ltb,
  ◌==◌, if◌then◌else◌, length, take, map, ℤ,
}
use db_index_performance_eva.Base.State.{done, fail, panicked, stuck, pure, and_then, ◌>>=◌, gets}
use db_index_performance_eva.Bytes.{Bytes}
use db_index_performance_eva.BtPage.{invalid_page, num_cells, free_space, next_leaf, rightmost}
use db_index_performance_eva.Accessor.{Value, len, bytes_of, Cell, Accessor}
use db_index_performance_eva.Node.{is_leaf, read_cells}
use db_index_performance_eva.Lru.{Items, lookup, insert}
use db_index_performance_eva.Pager
use db_index_performance_eva.Tree.{Code, on_pager, on_page}

-- The first bytes of a value, and whether there are more.
abbrev preview : Value → Bytes × Bool
preview v = if ltb 3 (len v) then (take 3 (bytes_of v), true) else (bytes_of v, false)

-- The key, the preview and the left child of a cell, as the table of a node shows them.
abbrev shown : Cell → ℤ × (Bytes × Bool) × ℕ
shown c = (c.key, preview c.value, c.left_child)

pub data Line : Type 0 where
  -- name, page, free space, cells, next leaf
  leaf_node : ℕ → ℕ → ℤ → List (ℤ × (Bytes × Bool) × ℕ) → Option ℕ → Line
  -- name, page, free space, cells, rightmost child
  internal_node : ℕ → ℕ → ℤ → List (ℤ × (Bytes × Bool) × ℕ) → ℕ → Line
  -- name, port, name of the child
  child_edge : ℕ → ℕ → ℕ → Line
  -- names
  same_rank : List (Option ℕ) → Line
  next_edge : ℕ → ℕ → Line

-- `nodeMap`, `leafIDs`, `counter`, and the lines written.
pub record Export : Type 0 where
  pub names : Items
  pub leaf_ids : List ℕ
  pub counter : ℕ
  pub lines : List Line

abbrev print : Line → Export → Export
print l x = record x { lines = x.lines ++ (l ∷ []) }

-- A link to a next leaf; 0 and the invalid page are none.
abbrev linked_page : ℕ → Option ℕ
linked_page id = if (id == 0) || (id == invalid_page) then none else some id

-- `nodeMap[id]` for the ids; a missing name is the empty text.
abbrev names_of : Items → List ℕ → List (Option ℕ)
names_of names ids = map (λ id. lookup id names) ids

module _ (acc : Accessor) where
  -- The page that is named, in the buffer at `p`.
  unfoldable pub export_leaf : ℕ → ℕ → ℕ → Export → Code Export
  export_leaf p id name x = do
    n ← on_page p num_cells
    free ← on_page p (λ pg. free_space pg n)
    next ← on_page p next_leaf
    cs ← on_page p (λ pg. read_cells acc n 0 pg true)
    let shown_cells = map shown cs
    let x' = print (leaf_node name id free shown_cells (linked_page next)) x
    pure (record x' { leaf_ids = x'.leaf_ids ++ (id ∷ []) })

  -- The loop over the children, from cell `i` on.
  unfoldable pub export_children :
      (ℕ → Export → Code (ℕ × Export)) → ℕ → ℕ → ℕ → ℕ → Export → Code Export
  export_children recurse zero i p name x = pure x
  export_children recurse (suc rounds) i p name x = do
    c ← on_page p (λ pg. acc.read_cell pg i false)
    (child, x) ← recurse c.left_child x
    export_children recurse rounds (i + 1) p name (print (child_edge name i child) x)

  unfoldable pub export_internal :
      (ℕ → Export → Code (ℕ × Export)) → ℕ → ℕ → ℕ → Export → Code Export
  export_internal recurse p id name x = do
    n ← on_page p num_cells
    free ← on_page p (λ pg. free_space pg n)
    cs ← on_page p (λ pg. read_cells acc n 0 pg false)
    right ← on_page p rightmost
    let shown_cells = map shown cs
    x ← export_children recurse n 0 p name (print (internal_node name id free shown_cells right) x)
    (child, x) ← recurse right x
    pure (print (child_edge name n child) x)

  -- `exportRec`: the name of the page's node. A page that has a name is not drawn again, and one that
  -- cannot be read has a name but no node.
  unfoldable pub export_rec : ℕ → ℕ → Export → Code (ℕ × Export)
  export_rec zero id x t = stuck
  export_rec (suc fuel) id x t = elim (lookup id x.names) [
    | some name ↦ done (name, x) t
    | none ↦
        let name = x.counter in
        let x' = record x { names = insert id name x.names; counter = name + 1 } in
        elim (on_pager (Pager.read id) t) [
          | fail e t' ↦ done (name, x') t'
          | panicked ↦ panicked
          | stuck ↦ stuck
          | done p t' ↦ and_then (on_page p is_leaf t') λ leaf t'.
              and_then
                (if leaf
                  then export_leaf p id name x' t'
                  else export_internal (export_rec fuel) p id name x' t')
                λ x'' t'. done (name, x'') t'
        ]
  ]

  -- The edges between the leaves; a page that cannot be read any more is nil, and `NextLeaf` panics.
  unfoldable pub export_links : List ℕ → Export → Code Export
  export_links [] x t = done x t
  export_links (id ∷ ids) x t = elim (on_pager (Pager.read id) t) [
    | fail e t' ↦ panicked
    | panicked ↦ panicked
    | stuck ↦ stuck
    | done p t' ↦
        and_then (on_page p next_leaf t')
          λ next t'. export_links ids (add_link (lookup id x.names) (linked_page next) x) t'
  ]
    where
      add_link : Option ℕ → Option ℕ → Export → Export
      add_link none next x = x
      add_link (some name) none x = x
      add_link (some name) (some next) x = elim (lookup next x.names) [
        | none ↦ x
        | some target ↦ print (next_edge name target) x
      ]

  unfoldable pub export_dot : ℕ → Code (List Line)
  export_dot fuel = do
    root ← gets (λ t. t.root_id)
    (_, x) ← export_rec fuel root (record { names = []; leaf_ids = []; counter = 0; lines = [] })
    if acc.copy_up_leaves && ltb 1 (length x.leaf_ids)
        then (do
          x ← export_links x.leaf_ids (print (same_rank (names_of x.names x.leaf_ids)) x)
          pure x.lines)
        else pure x.lines
