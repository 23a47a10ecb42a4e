-- ===== src/DiskList.antt =====
-- core/src/common/list/boundary_disk.rs and deep_disk.rs: the doubly linked lists of the nodes of a
-- layer on disk. The nodes are the pages of a local store, and the links are in its catalog. Both
-- files have the same statements but for the parent of a node, which the deep list keeps in the link:
-- here `extra` is what a link has beside its neighbours.
pub mod Boundary
pub mod Deep
pub mod Splice
pub mod Linked
pub mod Inserted
pub mod Nodes
pub mod Starts
mod Tests
use clearned_immutable.Prelude.{
  ℕ, Bool, true, false, ◌&&◌, Option, none, some, List, [], ◌∷◌, ◌==◌, if◌then◌else◌,
  unwrapped_none,
}
use clearned_immutable.PageStore.Api.{MarbleApi, Codec, find}
use clearned_immutable.PageStore.{
  StoreError, Attempt, done, failed, panicked, put, LocalStore, Inner, allocate_page,
  load_local_store,
}
use clearned_immutable.PageStore.Local.{read_page, write_page, drop_local}
use clearned_immutable.PageStore.Local

pub record Link (X : Type 0) : Type 0 where
  pub next : Option ℕ
  pub prev : Option ℕ
  pub extra : X

pub data DiskListState : Type 0 where
  uninitialized_list initialized_list : DiskListState

pub record CatalogPage (X : Type 0) : Type 0 where
  pub first : ℕ
  pub last : ℕ
  pub links : List (ℕ × Link X)
  pub state : DiskListState

-- `CatalogPage::default`
abbrev pub default_page : {X : Type 0} → CatalogPage X
default_page = record { first = 0; last = 0; links = []; state = uninitialized_list }

-- `?`, with the state that the first step leaves.
abbrev pub continue : {A B S : Type 0} → Attempt A × S → (A → S → Attempt B × S) → Attempt B × S
continue (done a, s) f = f a s
continue (failed e, s) f = (failed e, s)
continue (panicked e, s) f = (panicked e, s)

module _ {X : Type 0} where
  -- `links.get_mut(&ptr).unwrap().next = link`, and the same for `prev`
  abbrev pub set_next_link : CatalogPage X → ℕ → Option ℕ → Attempt (CatalogPage X)
  set_next_link page ptr link = elim (find ptr page.links) [
    | none ↦ panicked unwrapped_none
    | some old ↦ done (record page { links = put ptr (record old { next = link }) page.links })
  ]

  abbrev pub set_prev_link : CatalogPage X → ℕ → Option ℕ → Attempt (CatalogPage X)
  set_prev_link page ptr link = elim (find ptr page.links) [
    | none ↦ panicked unwrapped_none
    | some old ↦ done (record page { links = put ptr (record old { prev = link }) page.links })
  ]

  -- The node behind the new one, or else the end of the list, is told of it.
  abbrev pub link_behind : ℕ → Option ℕ → Attempt (CatalogPage X) → Attempt (CatalogPage X)
  link_behind new_ptr next_ptr (failed e) = failed e
  link_behind new_ptr next_ptr (panicked e) = panicked e
  link_behind new_ptr none (done page) = done (record page { last = new_ptr })
  link_behind new_ptr (some next_ptr) (done page) = set_prev_link page next_ptr (some new_ptr)

module _ {X : Type 0} (extra : X) where
  abbrev pub fresh_link : Link X
  fresh_link = record { next = none; prev = none; extra = extra }

  -- The list of one node.
  abbrev pub single : ℕ → CatalogPage X → CatalogPage X
  single ptr page = record page { first = ptr; last = ptr; links = put ptr fresh_link page.links }

  -- The links of the new node, and of its neighbours.
  unfoldable pub splice : CatalogPage X → ℕ → Option ℕ → ℕ → Attempt (CatalogPage X)
  splice page ptr next_ptr new_ptr =
      let new_link : Link X = record { next = next_ptr; prev = some ptr; extra = extra } in
      let with_new : CatalogPage X = record page { links = put new_ptr new_link page.links } in
      link_behind new_ptr next_ptr (set_next_link with_new ptr (some new_ptr))

-- `get_node(ptr).unwrap().unwrap().lower_bound()`, where `bound` is the `lower_bound` of a node
abbrev pub bound_of : {N : Type 0} → (N → ℕ) → Attempt (Option N) → Attempt ℕ
bound_of bound (done (some node)) = done (bound node)
bound_of bound (done none) = panicked unwrapped_none
bound_of bound (failed e) = panicked unwrapped_none
bound_of bound (panicked e) = panicked e

module _ (api : MarbleApi) {X N : Type 0} (codec : Codec api.Bytes (CatalogPage X))
    (node_codec : Codec api.Bytes N) where
  abbrev pub Store : Type 0
  Store = LocalStore (CatalogPage X) N × Inner api

  -- The neighbours of a node; the code unwraps its link.
  unfoldable pub get_next : Store → ℕ → Attempt (Option ℕ)
  get_next (local, inner) ptr = elim (find ptr local.catalog.links) [
    | none ↦ panicked unwrapped_none
    | some link ↦ done link.next
  ]

  unfoldable pub get_prev : Store → ℕ → Attempt (Option ℕ)
  get_prev (local, inner) ptr = elim (find ptr local.catalog.links) [
    | none ↦ panicked unwrapped_none
    | some link ↦ done link.prev
  ]

  unfoldable pub get_node : Store → ℕ → Attempt (Option N) × Store
  get_node (local, inner) ptr = read_page api codec node_codec local inner ptr

  -- `get_node(ptr)?.unwrap()`
  abbrev pub unwrap_node : Attempt (Option N) × Store → Attempt N × Store
  unwrap_node (done (some node), s) = (done node, s)
  unwrap_node (done none, s) = (panicked unwrapped_none, s)
  unwrap_node (failed e, s) = (failed e, s)
  unwrap_node (panicked e, s) = (panicked e, s)

  abbrev pub allocated : Store → Attempt ℕ × Store
  allocated (local, inner) =
      let (result, inner') = allocate_page api inner in (result, (local, inner'))

  -- The page of the catalog is set in memory, and reaches the store with the next flush.
  abbrev pub set_catalog : Store → Attempt (CatalogPage X) → Attempt Unit × Store
  set_catalog (local, inner) (done page) = (done tt, (record local { catalog = page }, inner))
  set_catalog s (failed e) = (failed e, s)
  set_catalog s (panicked e) = (panicked e, s)

  -- `default` is the default node, and `equal` the equality of nodes.
  module _ (extra : X) (size_of : ℕ) (default : N) (equal : N → N → Bool) where
    abbrev pub written : Store → N → ℕ → Attempt Unit × Store
    written (local, inner) node ptr = write_page api codec node_codec size_of local inner node ptr

    unfoldable pub is_empty : Store → Attempt (Option ℕ) × Store
    is_empty (local, inner) =
        let first = local.catalog.first in
        if first == local.catalog.last
        then continue (unwrap_node (get_node (local, inner) first))
            (λ node s. (done (if equal node default then some first else none), s))
        else (done none, (local, inner))

    -- The closure may panic.
    unfoldable pub transform_node :
        {T : Type 0} → Store → ℕ → (N → Attempt (N × T)) → Attempt T × Store
    transform_node s ptr closure = continue (unwrap_node (get_node s ptr)) λ node s1.
        continue (closure node, s1)
          λ (changed, result) s2. continue (written s2 changed ptr) λ _ s3. (done result, s3)

    unfoldable pub insert_after : Store → N → ℕ → Attempt ℕ × Store
    insert_after s node ptr =
        continue (get_next s ptr, s)
          λ next_ptr s0. continue (allocated s0) λ new_ptr s1.
            continue (written s1 node new_ptr) λ _ s2.
              continue (set_catalog s2 (splice extra s2.0.catalog ptr next_ptr new_ptr))
                λ _ s3. (done new_ptr, s3)

    abbrev pub start : Store → Attempt ℕ × Store
    start s = continue (allocated s) λ ptr s1. continue (written s1 default ptr) λ _ s2.
        continue (set_catalog s2 (done (single extra ptr s2.0.catalog))) λ _ s3. (done ptr, s3)

    unfoldable pub clear : Store → Attempt ℕ × Store
    clear (local, inner) = continue (Local.clear api codec node_codec local inner) λ _ s. start s

    -- `load`, on the local store of the list.
    abbrev pub initialize : Store → Attempt Unit × Store
    initialize (local, inner) = elim local.catalog.state [
      | initialized_list ↦ (done tt, (local, inner))
      | uninitialized_list ↦
          let marked = record local {
            catalog = record local.catalog { state = initialized_list };
          } in
          continue (start (marked, inner)) λ _ s. (done tt, s)
    ]

    abbrev pub Loaded : Type 0
    Loaded = Attempt (LocalStore (CatalogPage X) N) × Inner api

    -- The store of a list that could not be loaded is dropped.
    abbrev pub dropped : StoreError → Attempt Unit × Inner api → Loaded
    dropped e (done _, inner) = (failed e, inner)
    dropped e (failed e', inner) = (failed e', inner)
    dropped e (panicked p, inner) = (panicked p, inner)

    abbrev pub finish : Attempt Unit × Store → Loaded
    finish (done _, (local, inner)) = (done local, inner)
    finish (failed e, (local, inner)) = dropped e (drop_local api codec node_codec local inner)
    finish (panicked e, (local, inner)) = (panicked e, inner)

    abbrev pub initialize_loaded : Loaded → Loaded
    initialize_loaded (failed e, inner) = (failed e, inner)
    initialize_loaded (panicked e, inner) = (panicked e, inner)
    initialize_loaded (done local, inner) = finish (initialize (local, inner))

    unfoldable pub load : Inner api → ℕ → Loaded
    load inner ident =
        initialize_loaded (load_local_store api {P = N} default_page codec inner ident)
