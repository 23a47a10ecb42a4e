-- ===== src/Lib.antt =====
-- limousine: hybrid key-value stores as stacks of layers, each an ordered sequence of nodes that
-- hold keys and values.
--
-- This library models the containers that every layer is made of, the layers of B-tree nodes in
-- memory and on disk and of learned nodes in memory, and the code that the macro emits for a stack
-- of layers. The files follow the crates:
--
-- * utils/id_allocator/src/lib.rs is IdAllocator: the record has the fields of IDAllocator, and
--   new, clear, allocate, free, is_allocated and iter are the methods. IdAllocator/Pool says what
--   the allocator promises, IdAllocator/Refine that it keeps to it, and IdAllocator/Laws what its
--   callers rely on.
-- * utils/slice_search/src/lib.rs is SliceSearch. SliceSearch/Finds states what the trait Search
--   documents.
-- * utils/sorted_array/src/lib.rs, entry.rs and serde.rs are SortedArray and SortedArray/Serde. The
--   slots are options, `none` where memory is uninitialised, and every raw copy, read and write
--   says what goes wrong out of bounds. SortedArray/Assoc has the finite maps that an array stands
--   for, and SortedArray/Holds the relation between the two.
-- * core/src/classical/node.rs is Node: a sorted array whose capacity is the fanout.
-- * core/src/common/list/memory.rs is MemoryList: the doubly linked list of nodes. MemoryList/Api
--   is what it uses of generational_arena, with the laws that it relies on, and MemoryList/Growing
--   an arena that has them. MemoryList/Links says which sequence of nodes a list stands for.
-- * core/src/common/storage/store.rs is PageStore: the global store and, in PageStore/Local, the
--   local stores with their caches. PageStore/Api is what they use of marble and bincode, with the
--   laws that they rely on. PageStore/Views says what the pages of a store show through its cache.
-- * core/src/common/list/boundary_disk.rs and deep_disk.rs are DiskList: what the two have in
--   common, on a local store, with DiskList/Boundary and DiskList/Deep for the two lists.
--   DiskList/Splice says when the links of a catalog are in order.
-- * core/src/classical/btree_disk (boundary_layer.rs, deep_layer.rs and mod.rs) is DiskBTree, with
--   the layers that keep the parents of the layer below, and the components, in DiskBTree/Parents,
--   and their loading in DiskBTree/Loading. They work on any list with the operations DiskListOps,
--   which DiskBTree/Layers gives for the two lists; DiskBTree/Laws has what they rely on in a list,
--   and fills it in for both. DiskList/Nodes says what the nodes of a list hold.
-- * utils/gapped_array/src/lib.rs is GappedArray with the searches, GappedArray/Writes with the
--   insertions, and GappedArray/Removal with trimming and rescaling. GappedArray/Slots says what an
--   array holds, and GappedArray/Stretch what a stretch of its slots holds, in order.
-- * core/src/classical/btree_memory/layer.rs is BTreeMemory: fill and insert on a list of B-tree
--   nodes.
-- * core/src/classical/btree_memory (layer.rs and mod.rs) and btree_top.rs are BTreeComponents: the
--   layers that keep the parents of the layer below, and the internal, base and top components.
-- * utils/learned_segment/src (point.rs, model.rs and segmentation.rs) is LearnedSegment, over the
--   arithmetic of f64 as the parameter FloatApi, with the laws that the code relies on;
--   LearnedSegment/Whole has an instance on whole numbers. LearnedSegment/Segments says what a
--   division of data is, and LearnedSegment/Slopes what the slopes of a segment fit, with the
--   lemmas on intervals of slopes in LearnedSegment/Intervals.
-- * core/src/learned/node.rs is Learned, and core/src/learned/pgm_memory (layer.rs and mod.rs)
--   Learned/Layer: nodes with a linear model and a gapped array, and the layers of them in memory.
--   Learned/Trained says what a node made of a segment answers, Learned/Filled what a layer that is
--   filled does, and Learned/Grown what an insertion into a node does.
-- * core/src/node_layer.rs and iter.rs are NodeLayer: the operations that layers have in common,
--   and the walk over the nodes between two bounds, whose loop runs on fuel. NodeLayer/Memory makes
--   the list in memory a layer.
-- * derive/src/codegen (mod.rs, memory.rs and disk.rs) is Codegen: the bodies of search and insert
--   that the macro emits, as lists of statements, with the type aliases in Codegen/Aliases and the
--   bodies of empty, build and open in Codegen/Builds. Codegen/Running says what the statements do
--   on components with the methods of core/src/component.rs, and Codegen/Tree what a store is to
--   do.
-- * derive/src/component.rs and layout.rs are Layout: which stacks of layers the macro accepts.
--   Layout/Regions says what a regular layout is, and Layout/Emit has the names of the types
--   emitted and the labels of the checksum.
--
-- A layer is a list of nodes, a node an array, and the array uses the searches. The page ids of the
-- allocator name the pages of the store, which keeps the allocator in its catalog.
--
-- Keys are numbers: the position of a key in the order of its type, of which the least is 0, since
-- the code uses nothing else of them but their size in bytes, the argument `size_of`. Ids are the
-- numbers they hold, and increment wraps at two to the power of the number of bits. Sizes of
-- vectors and slices do not overflow. A panic and a step outside what the language defines are the
-- faults of Prelude/Outcomes; the debug assertions of a debug build are not modelled.
--
-- The loops are structural on the lists that they walk, but for the bisection, whose fuel is the
-- length of the slice: each round shortens the range that is left. move_slots counts its rounds
-- down. The loops of the gapped array have one unit of fuel for each slot, since each round moves
-- to another slot in the same direction; a loop that runs out is a fault, which the theorems
-- exclude. A walk over a list needs fuel for each node and one round more; the loops that build a
-- layer from the one below take their fuel as an argument.
--
-- Not modelled: the token streams around the bodies that the macro in derive emits; the engine,
-- tests and benchmarks have no logic of their own.
pub mod BTreeComponents
pub mod BTreeMemory
pub mod Codegen
pub mod DiskBTree
pub mod DiskList
pub mod GappedArray
pub mod IdAllocator
pub mod Layout
pub mod Learned
pub mod LearnedSegment
pub mod MemoryList
pub mod Node
pub mod NodeLayer
pub mod PageStore
pub mod Prelude
pub mod SliceSearch
pub mod SortedArray
