-- ===== src/DiskBTree/Tests.antt =====
-- Runs of core/src/classical/btree_disk/boundary_layer.rs on a layer of one node, in a store whose
-- pages are their own bytes.
use clearned_immutable.Prelude.{
  ℕ, ◌≡◌, refl, already_loaded, Bool, false, Option, none, some, [], ◌∷◌,
}
use clearned_immutable.SortedArray.{SortedArrayEntry, SortedArray, entry, is_full, get_exact}
use clearned_immutable.SortedArray
use clearned_immutable.SortedArray.Holds.{Holds}
use clearned_immutable.Node.{BTreeNode, min_key, split}
use clearned_immutable.IdAllocator.{allocate}
use clearned_immutable.PageStore.Api.{MarbleApi, Codec}
use clearned_immutable.PageStore.{
  Attempt, done, failed, panicked, LocalStore, Inner, allocate_page, load_local_store,
}
use clearned_immutable.PageStore
use clearned_immutable.DiskBTree.Loading.{load_boundary}
use clearned_immutable.PageStore.Local.{read_page, write_page}
use clearned_immutable.PageStore.Views.{IsTotal}
use clearned_immutable.PageStore.Memory.{memory_marble}
use clearned_immutable.DiskList.{Link, CatalogPage, initialized_list, splice}
use clearned_immutable.DiskList
use clearned_immutable.DiskList.Boundary
use clearned_immutable.DiskList.Boundary.{DiskNodes}
use clearned_immutable.DiskBTree.Laws.{DiskListLaws, boundary_laws}
use clearned_immutable.DiskBTree.{DiskListOps, insert, split_insert, insert_into_node, get_node}
use clearned_immutable.DiskBTree.Parents.{base_insert, base_search}
use clearned_immutable.DiskBTree.Layers.{boundary_ops}
use clearned_immutable.BTreeComponents.{PropagateInsert, single}

data TestBytes : Type 0 where
  node : BTreeNode ℕ → TestBytes
  catalog : CatalogPage Unit → TestBytes

abbrev marble : MarbleApi
marble = memory_marble TestBytes

abbrev node_from : TestBytes → Option (BTreeNode ℕ)
node_from (node n) = some n
node_from (catalog c) = none

abbrev catalog_from : TestBytes → Option (CatalogPage Unit)
catalog_from (node n) = none
catalog_from (catalog c) = some c

abbrev nodes : Codec TestBytes (BTreeNode ℕ)
nodes = record {
  encode = λ n. some (node n);
  decode = node_from;
  decode-encode = λ n b e. let same : b ≡ node n = cc in rw same;
}

abbrev catalogs : Codec TestBytes (CatalogPage Unit)
catalogs = record {
  encode = λ c. some (catalog c);
  decode = catalog_from;
  decode-encode = λ c b e. let same : b ≡ catalog c = cc in rw same;
}

abbrev full : BTreeNode ℕ
full = record { inner = some (entry 2 20) ∷ some (entry 4 40) ∷ []; len = 2 }

abbrev roomy : BTreeNode ℕ
roomy = record { inner = some (entry 2 20) ∷ some (entry 4 40) ∷ none ∷ []; len = 2 }

total : IsTotal marble catalogs nodes
total n = (node n, refl)

abbrev page : CatalogPage Unit
page = record {
  first = 2;
  last = 2;
  links = (2, record { next = none; prev = none; extra = tt }) ∷ [];
  state = initialized_list;
}

abbrev inner : Inner marble
inner = record {
  store = [];
  active_stores = 7 ∷ [];
  catalog = record {
    ids = record { slots = none ∷ none ∷ none ∷ []; next = 3 };
    registry = (7, 1) ∷ [];
  };
}

-- A layer of one node.
abbrev only : BTreeNode ℕ → DiskNodes marble ℕ catalogs nodes
only n = record {
  store = (record { catalog = page; id = 1; ident = 7; cache = (2, some n) ∷ [] }, inner);
  parents = (2, 11) ∷ [];
}

abbrev different : BTreeNode ℕ → BTreeNode ℕ → Bool
different a b = false

-- A full node is split: the upper half goes to the new page 3, of which the layer above is told.
abbrev split_run : Attempt (Option (PropagateInsert ℕ)) × DiskNodes marble ℕ catalogs nodes
split_run =
    base_insert (boundary_ops marble ℕ catalogs nodes 8 full different) 8 2 (only full) 2 5 50

split_reports : split_run.0 ≡ done (some (single 4 3 11))
unfolding base_insert insert split_insert insert_into_node get_node Boundary.get_node
    Boundary.parent Boundary.transform_node Boundary.insert_after DiskList.get_node
    DiskList.transform_node DiskList.insert_after DiskList.get_next splice read_page write_page
    allocate_page allocate split min_key is_full SortedArray.insert
split_reports = refl

split_finds :
    (base_search (boundary_ops marble ℕ catalogs nodes 8 full different) 8 2 split_run.1 3 5).0
    ≡ done (some 50)
unfolding base_search base_insert insert split_insert insert_into_node get_node Boundary.get_node
    Boundary.parent Boundary.transform_node Boundary.insert_after DiskList.get_node
    DiskList.transform_node DiskList.insert_after DiskList.get_next splice read_page write_page
    allocate_page allocate split min_key is_full SortedArray.insert get_exact
split_finds = refl

abbrev ops : DiskListOps (DiskNodes marble ℕ catalogs nodes) (BTreeNode ℕ) ℕ
ops = boundary_ops marble ℕ catalogs nodes 8 roomy different

abbrev laws : DiskListLaws ops
laws = boundary_laws marble ℕ catalogs nodes 8 roomy different total

abbrev fresh : Inner marble
fresh = record {
  store = [];
  active_stores = [];
  catalog = record { ids = record { slots = none ∷ []; next = 1 }; registry = [] };
}

abbrev first_of : Attempt (DiskNodes marble ℕ catalogs nodes) → Option ℕ
first_of (done list) = some (Boundary.first marble ℕ catalogs nodes list)
first_of (failed e) = none
first_of (panicked e) = none

-- A new layer gets a page for its catalog and one for its first node.
loads_new_layer :
    first_of (load_boundary marble ℕ catalogs nodes 8 roomy different fresh 7).0 ≡ some 2
unfolding load_boundary Boundary.load Boundary.first DiskList.load load_local_store write_page
    allocate_page allocate PageStore.page_of PageStore.catalog_at PageStore.read_page
    PageStore.write_page
loads_new_layer = refl

-- A layer that is in use is not loaded again.
loads_once :
    (load_boundary marble ℕ catalogs nodes 8 roomy different inner 7).0 ≡ panicked already_loaded
unfolding load_boundary Boundary.load DiskList.load load_local_store
loads_once = refl
