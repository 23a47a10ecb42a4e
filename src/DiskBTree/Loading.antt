-- ===== src/DiskBTree/Loading.antt =====
-- `load` of core/src/classical/btree_disk: the list of the layer is loaded, and the layer of an internal
-- component is filled from the layer below.
use clearned_immutable.Prelude.{ℕ, Bool, Option}
use clearned_immutable.Node.{BTreeNode}
use clearned_immutable.NodeLayer.{NodeLayer}
use clearned_immutable.PageStore.Api.{MarbleApi, Codec}
use clearned_immutable.PageStore.{StoreError, Attempt, done, failed, panicked, Inner}
use clearned_immutable.PageStore.Local.{drop_local}
use clearned_immutable.DiskList.{CatalogPage}
use clearned_immutable.DiskList.Boundary
use clearned_immutable.DiskList.Boundary.{DiskNodes}
use clearned_immutable.DiskList.Deep
use clearned_immutable.DiskList.Deep.{DeepDiskList}
use clearned_immutable.DiskBTree.Layers.{boundary_ops, deep_ops}
use clearned_immutable.DiskBTree.Parents.{fill_with_parent}

-- What is left of a layer that could not be filled, and is dropped.
abbrev abandoned : {S B L : Type 0} → StoreError → B → Attempt Unit × S → Attempt L × (S × B)
abandoned e base (done _, inner) = (failed e, (inner, base))
abandoned e base (failed e', inner) = (failed e', (inner, base))
abandoned e base (panicked p, inner) = (panicked p, (inner, base))

module _ (api : MarbleApi) {V : Type 0} (PA : Type 0) (codec : Codec api.Bytes (CatalogPage Unit))
    (node_codec : Codec api.Bytes (BTreeNode V)) (size_of : ℕ) (default : BTreeNode V)
    (equal : BTreeNode V → BTreeNode V → Bool) where
  -- `load` of the layer, and of the base component
  unfoldable pub load_boundary :
      Inner api → ℕ → Attempt (DiskNodes api PA codec node_codec) × Inner api
  load_boundary inner ident =
      Boundary.load api PA codec node_codec size_of default equal inner ident

module _ (api : MarbleApi) {B : Type 0} (PA : Type 0) (codec : Codec api.Bytes (CatalogPage Unit))
    (node_codec : Codec api.Bytes (BTreeNode ℕ)) (size_of fanout : ℕ) (default : BTreeNode ℕ)
    (equal : BTreeNode ℕ → BTreeNode ℕ → Bool) (below : NodeLayer B ℕ) where
  abbrev Layer : Type 0
  Layer = DiskNodes api PA codec node_codec

  abbrev boundary_filled : Attempt Unit × (Layer × B) → Attempt Layer × (Inner api × B)
  boundary_filled (done _, (layer, base)) = (done layer, (layer.store.1, base))
  boundary_filled (failed e, (layer, base)) =
      abandoned e base (drop_local api codec node_codec layer.store.0 layer.store.1)
  boundary_filled (panicked e, (layer, base)) = (panicked e, (layer.store.1, base))

  abbrev boundary_loaded : ℕ → B → Attempt Layer × Inner api → Attempt Layer × (Inner api × B)
  boundary_loaded fuel base (failed e, inner) = (failed e, (inner, base))
  boundary_loaded fuel base (panicked e, inner) = (panicked e, (inner, base))
  boundary_loaded fuel base (done layer, inner) = boundary_filled (
      fill_with_parent (boundary_ops api PA codec node_codec size_of default equal) size_of fanout
        below fuel layer base)

  unfoldable internal_load_boundary : ℕ → B → Inner api → ℕ → Attempt Layer × (Inner api × B)
  internal_load_boundary fuel base inner ident =
      boundary_loaded fuel base
        (load_boundary api PA codec node_codec size_of default equal inner ident)

module _ (api : MarbleApi) {V PA : Type 0} (codec : Codec api.Bytes (CatalogPage (Option PA)))
    (node_codec : Codec api.Bytes (BTreeNode V)) (size_of : ℕ) (default : BTreeNode V)
    (equal : BTreeNode V → BTreeNode V → Bool) where
  unfoldable load_deep : Inner api → ℕ → Attempt (DeepDiskList api codec node_codec) × Inner api
  load_deep inner ident = Deep.load api codec node_codec size_of default equal inner ident

module _ (api : MarbleApi) {B PA : Type 0} (codec : Codec api.Bytes (CatalogPage (Option PA)))
    (node_codec : Codec api.Bytes (BTreeNode ℕ)) (size_of fanout : ℕ) (default : BTreeNode ℕ)
    (equal : BTreeNode ℕ → BTreeNode ℕ → Bool) (below : NodeLayer B ℕ) where
  abbrev DeepLayer : Type 0
  DeepLayer = DeepDiskList api codec node_codec

  abbrev deep_filled : Attempt Unit × (DeepLayer × B) → Attempt DeepLayer × (Inner api × B)
  deep_filled (done _, (layer, base)) = (done layer, (layer.store.1, base))
  deep_filled (failed e, (layer, base)) =
      abandoned e base (drop_local api codec node_codec layer.store.0 layer.store.1)
  deep_filled (panicked e, (layer, base)) = (panicked e, (layer.store.1, base))

  abbrev deep_loaded : ℕ → B → Attempt DeepLayer × Inner api → Attempt DeepLayer × (Inner api × B)
  deep_loaded fuel base (failed e, inner) = (failed e, (inner, base))
  deep_loaded fuel base (panicked e, inner) = (panicked e, (inner, base))
  deep_loaded fuel base (done layer, inner) = deep_filled (
      fill_with_parent (deep_ops api codec node_codec size_of default equal) size_of fanout below
        fuel layer base)

  unfoldable internal_load_deep : ℕ → B → Inner api → ℕ → Attempt DeepLayer × (Inner api × B)
  internal_load_deep fuel base inner ident =
      deep_loaded fuel base (load_deep api codec node_codec size_of default equal inner ident)
