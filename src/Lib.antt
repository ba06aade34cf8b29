-- ===== src/Lib.antt =====
-- Index structures of a small database: a B-tree and a B+ tree over a shared engine, which keeps
-- slotted pages in a file through a pager with an LRU cache; a list index; and an LSM index over a
-- third-party storage engine.
--
-- The parts, from the bytes up, and the code they model (paths from the repository's root):
--   Base        native numbers, signed numbers, lists, and two result types: Go for a computation
--               that may panic, Run for one that also has a state and returns errors
--   Bytes       slices of bytes: reads and writes with their bounds checks, little-endian words
--   BtPage      src/dbms/index/btpage/page.go: InitPage, NumCells, CellPtr, AllocCell and the others,
--               one function each
--   Accessor    the interface NodeAccessor of src/dbms/index/shared/tree.go, with the laws that the
--               engine relies on (Accessor/Laws); Accessor/BTree and Accessor/BpTree are BTreeAcc of
--               src/dbms/index/btree/btree.go and BPTreeAcc of src/dbms/index/bptree/bptree.go
--   Node        what src/dbms/index/shared/tree.go does on one page: AppendCell, DeleteCell, FindIdx,
--               the insertion of doInsert (insert_cell), the halves of splitNode (gather_cells,
--               split_leaf, split_internal); Node/Layout says when a page holds a list of cells,
--               Node/Order and Node/Between are on cells in order
--   Tree        the methods of Tree in the same file, over the pager; Tree/Dot is ExportDOT,
--               Tree/LeafInsert is on insertRec where the root is a leaf
--   BTree, BpTree  the two index types and their range iterators; BTree/Stored says when the pages of
--               a disk form a B-tree with given entries, BTree/Descend and BTree/Get are on its search,
--               BTree/Insert on a leaf that takes a new key, BTree/Stack, Rounds, Visit, Enter, Collect
--               and Range on its iterator; BpTree/Stored and BpTree/Order say
--               when the pages form a B+ tree with given leaves, BpTree/FindLeaf and BpTree/Get are
--               on its search, BpTree/Insert on a leaf that takes a new key, BpTree/Scan, Position, Collect and Range on its iterator
--   Lru         lruCache of src/dbms/pager/pager.go; Lru/Chain, Lru/Split and Lru/Moves are on the
--               linked list alone, Lru/Valid on the list and the map, Lru/Refine and Lru/Put on the
--               cache as a list of pages in the order of their last use, Lru/Reach on the caches
--               that its operations can give, as a relation on states
--   Pager, Disk  Pager of the same file, and the file under it; Pager/Cached says when the cached
--               buffers are clean, which Pager/Read, Pager/Write and Pager/Fault are about;
--               Pager/Client is a program that works on pages, and the same on a list of pages,
--               Pager/Reopen and Pager/Durable are on closed files that are opened again
--   ListIndex   src/dbms/index/listindex/listindex.go
--   Lsm         src/dbms/index/lsm/lsm.go: the key encoding, and in Lsm/Engine the index over the
--               storage engine Pebble, a parameter; Lsm/Store states what the code relies on of it
--   Index       src/dbms/index/index.go: the interfaces as records, with the laws that a client relies
--               on; Index/Lists, Index/Stores and Index/Trees are the four implementations
--   Bench       src/bench: Dataset (dataset.go), Plotter (the colours of plotter.go), Stats and
--               RangeSizes (avg, pct and the sizes of the range queries, tests.go), Suite
--               (benchmark.go and the defaults of src/main.go), Runner (RunBenchmarks and PlotAll),
--               Fill (fillIndex of tests.go over any index); the other children are proofs
--
-- A page in memory is a buffer that the cache, the engine and an iterator share; Pager keeps the
-- buffers in a list and hands out addresses, so a change in place is seen by every holder. The file
-- is a list of bytes with a schedule of the calls that fail. An int is an unbounded number where the
-- code computes sizes and indices from 16-bit fields; a conversion to a width is written out.
--
-- Fuel: FindIdx runs on one unit more than the page has cells. The walks from page to page (Get,
-- Insert, FindLeaf, Height, CountLeaves, the iterators) take fuel for the pages on their way, since
-- a file may hold a cycle of pages; a run that is out of it ends as `stuck`, never as a result.
--
-- Tests/Runs runs both trees from an empty file; the other children of
-- Tests apply the theorems to concrete pages and states.
--
-- Parameters: Pebble, the generator of math/rand, the sorts of packages slices and sort,
-- strings.ToLower, and the file system of the benchmarks.
--
-- Not modelled: the text of DOT files, the measurements and CSV files of the benchmarks, and the
-- charts, which only pass data on to packages; Levels, a text about Pebble.
pub mod Base
pub mod Bytes
pub mod BtPage
pub mod Accessor
pub mod Node
pub mod ListIndex
pub mod Lru
pub mod Lsm
pub mod Disk
pub mod Pager
pub mod Tree
pub mod BTree
pub mod BpTree
pub mod Index
pub mod Bench
mod Tests
