-- ===== src/DiskList/Deep.antt =====
-- `DeepDiskList` of core/src/common/list/deep_disk.rs: the parent of a node is in its link, on disk.
use clearned_immutable.Prelude.{ℕ, Bool, Option, none, some, unwrapped_none}
use clearned_immutable.PageStore.Api.{MarbleApi, Codec, find}
use clearned_immutable.PageStore.{Attempt, done, failed, panicked, put, Inner}
use clearned_immutable.DiskList.{Link, CatalogPage, Store, Loaded, get_next, get_prev, bound_of}
use clearned_immutable.DiskList

module _ (api : MarbleApi) {PA N : Type 0} (codec : Codec api.Bytes (CatalogPage (Option PA)))
    (node_codec : Codec api.Bytes N) where
  pub record DeepDiskList : Type 0 where
    pub store : Store api codec node_codec

  abbrev pub with_store :
      {A : Type 0}
      → DeepDiskList
      → Attempt A × Store api codec node_codec
      → Attempt A × DeepDiskList
  with_store list (result, store) = (result, record { store = store })

  unfoldable pub first : DeepDiskList → ℕ
  first list = list.store.0.catalog.first

  unfoldable pub last : DeepDiskList → ℕ
  last list = list.store.0.catalog.last

  unfoldable pub next : DeepDiskList → ℕ → Attempt (Option ℕ)
  next list ptr = get_next api codec node_codec list.store ptr

  unfoldable pub prev : DeepDiskList → ℕ → Attempt (Option ℕ)
  prev list ptr = get_prev api codec node_codec list.store ptr

  unfoldable pub parent : DeepDiskList → ℕ → Attempt (Option PA)
  parent list ptr = elim (find ptr list.store.0.catalog.links) [
    | none ↦ panicked unwrapped_none
    | some link ↦ done link.extra
  ]

  abbrev put_parent : DeepDiskList → ℕ → Link (Option PA) → PA → DeepDiskList
  put_parent list ptr link above =
      let (local, inner) = list.store in
      let page = local.catalog in
      let links = put ptr (record link { extra = some above }) page.links in
      record { store = (record local { catalog = record page { links = links } }, inner) }

  unfoldable pub set_parent : DeepDiskList → ℕ → PA → Attempt Unit × DeepDiskList
  set_parent list ptr above = elim (find ptr list.store.0.catalog.links) [
    | none ↦ (panicked unwrapped_none, list)
    | some link ↦ (done tt, put_parent list ptr link above)
  ]

  unfoldable pub get_node : DeepDiskList → ℕ → Attempt (Option N) × DeepDiskList
  get_node list ptr = with_store list (DiskList.get_node api codec node_codec list.store ptr)

  -- `bound` is `KeyBounded::lower_bound` of the nodes
  unfoldable pub lower_bound : (N → ℕ) → DeepDiskList → ℕ → Attempt ℕ × DeepDiskList
  lower_bound bound list ptr =
      let (result, list') = get_node list ptr in (bound_of bound result, list')

  module _ (size_of : ℕ) (default : N) (equal : N → N → Bool) where
    unfoldable pub is_empty : DeepDiskList → Attempt (Option ℕ) × DeepDiskList
    is_empty list =
        with_store list
          (DiskList.is_empty api codec node_codec none size_of default equal list.store)

    unfoldable pub transform_node :
        {T : Type 0} → DeepDiskList → ℕ → (N → Attempt (N × T)) → Attempt T × DeepDiskList
    transform_node list ptr closure = with_store list (
        DiskList.transform_node api codec node_codec none size_of default equal list.store ptr
          closure)

    unfoldable pub insert_after : DeepDiskList → N → ℕ → Attempt ℕ × DeepDiskList
    insert_after list inner ptr =
        with_store list (
          DiskList.insert_after api codec node_codec none size_of default equal list.store inner
            ptr)

    unfoldable pub clear : DeepDiskList → Attempt ℕ × DeepDiskList
    clear list =
        with_store list (DiskList.clear api codec node_codec none size_of default equal list.store)

    abbrev opened_list :
        Loaded api codec node_codec none size_of default equal → Attempt DeepDiskList × Inner api
    opened_list (failed e, inner) = (failed e, inner)
    opened_list (panicked e, inner) = (panicked e, inner)
    opened_list (done local, inner) = (done (record { store = (local, inner) }), inner)

    unfoldable pub load : Inner api → ℕ → Attempt DeepDiskList × Inner api
    load inner ident =
        opened_list (DiskList.load api codec node_codec none size_of default equal inner ident)
