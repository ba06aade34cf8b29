-- ===== src/BpTree/Insert.antt =====
-- `Insert` of a new key into a B+ tree that is one leaf with room, and `Get` after it.
use db_index_performance_eva.Base.{
  ℕ, suc, ◌+◌, ◌*◌, ◌≤◌, ◌<◌, ◌≡◌, ◌≢◌, ap, ◌∙◌, refl, true, some, List, [], ◌∷◌, arith, append-nil,
  length, insert_at, if◌then◌else◌, ℤ, eqb_ℤ,
}
use db_index_performance_eva.Base.Go.{ok}
use db_index_performance_eva.Base.State.{done}
use db_index_performance_eva.Bytes.{Bytes}
use db_index_performance_eva.BtPage.{invalid_page, next_leaf}
use db_index_performance_eva.Accessor.{Value, Cell, bytes_of}
use db_index_performance_eva.Accessor.Laws.{Fits}
use db_index_performance_eva.Accessor.BpTree.{bptree_acc, cell_size}
use db_index_performance_eva.Accessor.BpTree.RoundTrip.{bptree_laws, stored-bptree_laws}
use db_index_performance_eva.Node.Insert.{leaf_cell}
use db_index_performance_eva.Node.Layout.{Holds}
use db_index_performance_eva.Node.Search.{IsSorted}
use db_index_performance_eva.Node.Order.{IsSorted-InOrder}
use db_index_performance_eva.Lru.{Items}
use db_index_performance_eva.Pager.{Pager}
use db_index_performance_eva.Pager.Cached.{IsClean, page_at}
use db_index_performance_eva.Tree
use db_index_performance_eva.Tree.{Tree}
use db_index_performance_eva.Tree.LeafInsert.{
  Missing, Grown, insert_rec-Grown, lookup_value-insert_at,
}
use db_index_performance_eva.BTree.Stored.{lookup_value}
use db_index_performance_eva.BTree.Get.{Within, tree_on}
use db_index_performance_eva.BpTree.{get, insert}
use db_index_performance_eva.BpTree.Get.{StoredTree, get-StoredTree}

-- A B+ tree of one leaf, which leads to no other one, with room for one more entry.
pub record OneLeaf (p : Pager) (d : Bytes) (r : ℕ) (es : List Cell) (size : ℕ) : Type 0 where
  pub lo : ℕ
  pub within : Within p.page_size d r
  pub real : r ≢ invalid_page
  pub sorted : IsSorted es
  pub holds : Holds bptree_acc bptree_laws (page_at d p.page_size r) true es lo
  pub last : next_leaf (page_at d p.page_size r) ≡ ok invalid_page
  pub room : 13 + (length es + 1) * 2 + size ≤ lo

-- The leaf with the new entry is again a tree.
Grown-StoredTree :
    (p q : Pager) (d d' : Bytes) (r size : ℕ) (es : List Cell) (x : Cell)
    → OneLeaf p d r es size
    → (g : Grown bptree_acc bptree_laws p q d d' r es x)
    → StoredTree d' q.page_size 0 r (record { id = r; cells = insert_at g.idx x es } ∷ [])
Grown-StoredTree p q d d' r size es x one g =
    let cs = insert_at g.idx x es in
    record {
      shape = (cs, refl, record { there = g.within; real = one.real; lo = g.lo; holds = g.holds });
      linked = (g.next ∙ one.last, tt);
      in_order = rw (append-nil cs) (IsSorted-InOrder cs g.sorted);
    }

-- On a B+ tree of one leaf with room for the cell and one more pointer, in a file whose calls succeed
-- and with a clean cache, `Insert` of a key that the tree does not have succeeds, and a `Get` of any key
-- after it returns the bytes of the value under the new key, and under any other key what the tree
-- had there.
pub get-insert_leaf :
    (fuel depth rounds r : ℕ) (key k : ℤ) (value : Value) (p : Pager) (d : Bytes) (s : ℕ)
    (l : Items) (es : List Cell)
    → IsClean p d l
    → 0 < p.page_size
    → OneLeaf p d r es (cell_size true value)
    → Missing key es
    → Fits (leaf_cell key value)
    → (t t' : Tree) × (insert (suc fuel) key value (tree_on p d s r) ≡ done tt t)
      × (get (suc depth) (suc (suc rounds)) k t
          ≡ done (if eqb_ℤ key k then some (bytes_of value) else lookup_value k es) t')
unfolding insert Tree.insert
get-insert_leaf fuel depth rounds r key k value p d s l es clean big one missing fits =
    let x = leaf_cell key value in
    let (q, d', n, e, g) =
      insert_rec-Grown bptree_acc bptree_laws fuel r key value p d s l es one.lo clean big
        one.within one.sorted one.holds one.room missing fits in
    let stored = Grown-StoredTree p q d d' r _ es _ one g in
    let (q', found, _) =
      get-StoredTree d' q.page_size n r k 0 (suc depth) (suc (suc rounds)) q _
        (g.items, g.clean, refl) stored (omega arith) (omega arith) in
    let same = stored-bptree_laws key value in
    let seen : lookup_value k (insert_at g.idx (bptree_laws.stored true x) es)
        ≡ (if eqb_ℤ key k then some (bytes_of value) else lookup_value k es) =
      ap (λ c. lookup_value k (insert_at g.idx c es)) same
      ∙ lookup_value-insert_at k g.idx (record x { value = some (bytes_of value) }) es missing
          g.upto in
    (
      tree_on q d' n r,
      tree_on q' d' n r,
      rw e refl,
      found ∙ ap (λ v. done v (tree_on q' d' n r)) (ap (lookup_value k) (append-nil _) ∙ seen),
    )
