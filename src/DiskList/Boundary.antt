-- ===== src/DiskList/Boundary.antt =====
-- `BoundaryDiskList` of core/src/common/list/boundary_disk.rs: the links have no parents, which are kept
-- in memory.
use clearned_immutable.Prelude.{ℕ, Bool, Option, List, []}
use clearned_immutable.PageStore.Api.{MarbleApi, Codec, find}
use clearned_immutable.PageStore.{Attempt, done, failed, panicked, put, Inner}
use clearned_immutable.DiskList.{Link, CatalogPage, Store, Loaded, get_next, get_prev, bound_of}
use clearned_immutable.DiskList

module _ (api : MarbleApi) {N : Type 0} (codec : Codec api.Bytes (CatalogPage Unit))
    (node_codec : Codec api.Bytes N) where
  pub record BoundaryDiskList (PA : Type 0) : Type 0 where
    pub store : Store api codec node_codec
    pub parents : List (ℕ × PA)

module _ (api : MarbleApi) {N : Type 0} (PA : Type 0) (codec : Codec api.Bytes (CatalogPage Unit))
    (node_codec : Codec api.Bytes N) where
  abbrev pub DiskNodes : Type 0
  DiskNodes = BoundaryDiskList api codec node_codec PA

  abbrev pub with_store :
      {A : Type 0} → DiskNodes → Attempt A × Store api codec node_codec → Attempt A × DiskNodes
  with_store list (result, store) = (result, record { store = store; parents = list.parents })

  unfoldable pub first : DiskNodes → ℕ
  first list = list.store.0.catalog.first

  unfoldable pub last : DiskNodes → ℕ
  last list = list.store.0.catalog.last

  unfoldable pub next : DiskNodes → ℕ → Attempt (Option ℕ)
  next list ptr = get_next api codec node_codec list.store ptr

  unfoldable pub prev : DiskNodes → ℕ → Attempt (Option ℕ)
  prev list ptr = get_prev api codec node_codec list.store ptr

  unfoldable pub parent : DiskNodes → ℕ → Option PA
  parent list ptr = find ptr list.parents

  unfoldable pub set_parent : DiskNodes → ℕ → PA → DiskNodes
  set_parent list ptr above = record { store = list.store; parents = put ptr above list.parents }

  unfoldable pub get_node : DiskNodes → ℕ → Attempt (Option N) × DiskNodes
  get_node list ptr = with_store list (DiskList.get_node api codec node_codec list.store ptr)

  -- `bound` is `KeyBounded::lower_bound` of the nodes
  unfoldable pub lower_bound : (N → ℕ) → DiskNodes → ℕ → Attempt ℕ × DiskNodes
  lower_bound bound list ptr =
      let (result, list') = get_node list ptr in (bound_of bound result, list')

  module _ (size_of : ℕ) (default : N) (equal : N → N → Bool) where
    unfoldable pub is_empty : DiskNodes → Attempt (Option ℕ) × DiskNodes
    is_empty list =
        with_store list (DiskList.is_empty api codec node_codec tt size_of default equal list.store)

    unfoldable pub transform_node :
        {T : Type 0} → DiskNodes → ℕ → (N → Attempt (N × T)) → Attempt T × DiskNodes
    transform_node list ptr closure = with_store list (
        DiskList.transform_node api codec node_codec tt size_of default equal list.store ptr
          closure)

    unfoldable pub insert_after : DiskNodes → N → ℕ → Attempt ℕ × DiskNodes
    insert_after list inner ptr =
        with_store list
          (DiskList.insert_after api codec node_codec tt size_of default equal list.store inner ptr)

    unfoldable pub clear : DiskNodes → Attempt ℕ × DiskNodes
    clear list =
        with_store list (DiskList.clear api codec node_codec tt size_of default equal list.store)

    abbrev opened_list :
        Loaded api codec node_codec tt size_of default equal → Attempt DiskNodes × Inner api
    opened_list (failed e, inner) = (failed e, inner)
    opened_list (panicked e, inner) = (panicked e, inner)
    opened_list (done local, inner) =
        (done (record { store = (local, inner); parents = [] }), inner)

    unfoldable pub load : Inner api → ℕ → Attempt DiskNodes × Inner api
    load inner ident =
        opened_list (DiskList.load api codec node_codec tt size_of default equal inner ident)
