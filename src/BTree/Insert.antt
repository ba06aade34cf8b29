-- ===== src/BTree/Insert.antt =====
-- `Insert` of a new key into a B-tree that is one leaf with room, through the pager to the disk.
use db_index_performance_eva.Base.{
  ℕ, suc, ◌+◌, ◌*◌, ◌≤◌, ◌<◌, ◌≡◌, refl, ap, ◌∙◌, true, none, some, List, arith, length, insert_at,
  if◌then◌else◌, ℤ, eqb_ℤ,
}
use db_index_performance_eva.Base.State.{done}
use db_index_performance_eva.Bytes.{Bytes}
use db_index_performance_eva.Accessor.{Value, Cell, bytes_of}
use db_index_performance_eva.Accessor.Laws.{Fits}
use db_index_performance_eva.Accessor.BTree.{btree_acc, cell_size}
use db_index_performance_eva.Accessor.BTree.RoundTrip.{btree_laws, stored-btree_laws}
use db_index_performance_eva.Node.Layout.{Holds}
use db_index_performance_eva.Node.Search.{IsSorted}
use db_index_performance_eva.Node.Insert.{leaf_cell}
use db_index_performance_eva.Lru.{Items}
use db_index_performance_eva.Pager.{Pager}
use db_index_performance_eva.Pager.Cached.{IsClean, page_at}
use db_index_performance_eva.Tree
use db_index_performance_eva.Tree.{
  Tree, Code, on_pager, on_page, change_page, do_insert, replace_existing, insert_rec,
}
use db_index_performance_eva.BTree.{get, insert}
use db_index_performance_eva.BTree.Stored.{lookup_value, Stored}
use db_index_performance_eva.BTree.Get.{Within, tree_on, get-Stored}
use db_index_performance_eva.Tree.LeafInsert.{Missing, insert_rec-Grown, lookup_value-insert_at}

-- A B-tree of one leaf, with room for one more entry.
pub record OneLeaf (p : Pager) (d : Bytes) (r : ℕ) (es : List Cell) (size : ℕ) : Type 0 where
  pub lo : ℕ
  pub within : Within p.page_size d r
  pub sorted : IsSorted es
  pub holds : Holds btree_acc btree_laws (page_at d p.page_size r) true es lo
  pub room : 13 + (length es + 1) * 2 + size ≤ lo

insert_rec-OneLeaf :
    (fuel r : ℕ) (key : ℤ) (value : Value) (p : Pager) (d : Bytes) (s : ℕ) (l : Items)
    (es : List Cell)
    → IsClean p d l
    → 0 < p.page_size
    → OneLeaf p d r es (cell_size true value)
    → Missing key es
    → Fits (leaf_cell key value)
    → (q : Pager) × (d' : Bytes) × (t : ℕ) × (l' : Items) × (idx : ℕ) × (insert_rec btree_acc
          (suc fuel)
          r
          key
          value
          (tree_on p d s r)
        ≡ done none (tree_on q d' t r))
      × IsClean q d' l'
      × Stored
          (page_at d' q.page_size)
          (Within q.page_size d')
          0
          r
          (insert_at idx (btree_laws.stored true (leaf_cell key value)) es)
      × (idx ≤ length es)
insert_rec-OneLeaf fuel r key value p d s l es k big one missing fits =
    let (q, d', t, e, g) =
      insert_rec-Grown btree_acc btree_laws fuel r key value p d s l es one.lo k big one.within
        one.sorted one.holds one.room missing fits in
    (q, d', t, g.items, g.idx, e, g.clean, (g.within, g.sorted, (g.lo, g.holds)), g.upto)

-- On a B-tree of one leaf with room for the cell and one more pointer, in a file whose calls succeed and
-- with a clean cache, `Insert` of a key that the tree does not have succeeds, and a `Get` of any key
-- after it returns the bytes of the value under the new key, and under any other key what the tree
-- had there.
pub get_after_insert :
    (fuel r : ℕ) (key k : ℤ) (value : Value) (p : Pager) (d : Bytes) (s : ℕ) (l : Items)
    (es : List Cell)
    → IsClean p d l
    → 0 < p.page_size
    → OneLeaf p d r es (cell_size true value)
    → Missing key es
    → Fits (leaf_cell key value)
    → (t t' : Tree) × (insert (suc fuel) key value (tree_on p d s r) ≡ done tt t)
      × (get (suc fuel) k t
          ≡ done (if eqb_ℤ key k then some (bytes_of value) else lookup_value k es) t')
unfolding insert Tree.insert
get_after_insert fuel r key k value p d s l es clean big one missing fits =
    let (q, d', n, l', idx, e, clean', stored, le) =
      insert_rec-OneLeaf fuel r key value p d s l es clean big one missing fits in
    let (q', l'', found, _, _) =
      get-Stored 0 (suc fuel) r k q d' n l' _ clean' stored (omega arith) in
    let x = leaf_cell key value in
    let same = stored-btree_laws true x in
    (
      tree_on q d' n r,
      tree_on q' d' n r,
      rw e refl,
      found
          ∙ ap (λ v. done v (tree_on q' d' n r))
              (ap (λ c. lookup_value k (insert_at idx c es)) same
                ∙ lookup_value-insert_at k idx (record x { value = some (bytes_of value) }) es
                    missing le),
    )
