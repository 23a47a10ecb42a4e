-- ===== src/DiskBTree/Layers.antt =====
-- core/src/classical/btree_disk: the two kinds of layer, over the lists of
-- core/src/common/list/boundary_disk.rs and deep_disk.rs.
use clearned_immutable.Prelude.{ℕ, Bool, Option}
use clearned_immutable.Node.{BTreeNode}
use clearned_immutable.PageStore.Api.{MarbleApi, Codec}
use clearned_immutable.PageStore.{done}
use clearned_immutable.DiskList.{CatalogPage}
use clearned_immutable.DiskList.Boundary
use clearned_immutable.DiskList.Boundary.{DiskNodes}
use clearned_immutable.DiskList.Deep
use clearned_immutable.DiskList.Deep.{DeepDiskList}
use clearned_immutable.DiskBTree.{DiskListOps}

module _ (api : MarbleApi) {V : Type 0} (PA : Type 0) (codec : Codec api.Bytes (CatalogPage Unit))
    (node_codec : Codec api.Bytes (BTreeNode V)) (size_of : ℕ) (default : BTreeNode V)
    (equal : BTreeNode V → BTreeNode V → Bool) where
  abbrev pub boundary_ops : DiskListOps (DiskNodes api PA codec node_codec) (BTreeNode V) PA
  boundary_ops = record {
    is_empty = Boundary.is_empty api PA codec node_codec size_of default equal;
    clear = Boundary.clear api PA codec node_codec size_of default equal;
    get_node = Boundary.get_node api PA codec node_codec;
    transform_node =
        λ T. Boundary.transform_node api PA codec node_codec size_of default equal {T = T};
    insert_after = Boundary.insert_after api PA codec node_codec size_of default equal;
    parent = λ list ptr. done (Boundary.parent api PA codec node_codec list ptr);
  }

module _ (api : MarbleApi) {V PA : Type 0} (codec : Codec api.Bytes (CatalogPage (Option PA)))
    (node_codec : Codec api.Bytes (BTreeNode V)) (size_of : ℕ) (default : BTreeNode V)
    (equal : BTreeNode V → BTreeNode V → Bool) where
  abbrev pub deep_ops : DiskListOps (DeepDiskList api codec node_codec) (BTreeNode V) PA
  deep_ops = record {
    is_empty = Deep.is_empty api codec node_codec size_of default equal;
    clear = Deep.clear api codec node_codec size_of default equal;
    get_node = Deep.get_node api codec node_codec;
    transform_node = λ T. Deep.transform_node api codec node_codec size_of default equal {T = T};
    insert_after = Deep.insert_after api codec node_codec size_of default equal;
    parent = Deep.parent api codec node_codec;
  }
