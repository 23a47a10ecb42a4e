-- ===== src/PageStore.antt =====
-- core/src/common/storage/store.rs: the pages on disk, the global store that keeps the catalog of
-- the page ids, and the local stores with their caches. marble and bincode enter through `Api`. The
-- borrow of the shared `GlobalStoreInner` is a state that the operations of both kinds of store pass
-- on. A name of a store is a number, since names are only compared, and a hash map is the list of its
-- entries in the order of its iteration.
pub mod Api
pub mod Local
pub mod Views
pub mod Pages
pub mod Global
pub mod Memory
mod Tests
use clearned_immutable.Prelude.{
  ℕ, zero, suc, ◌+◌, ◌*◌, Bool, true, false, ◌||◌, Option, none, some, List, [], ◌∷◌, ◌++◌, length,
  ltb, ◌==◌, if◌then◌else◌, Fault, Outcome, ok, fault, assertion, unwrapped_none, already_loaded,
}
use clearned_immutable.IdAllocator.{IdAllocator, free}
use clearned_immutable.IdAllocator
use clearned_immutable.IdAllocator.Pool.{has}
use clearned_immutable.PageStore.Api.{MarbleApi, Codec, find}

-- `crate::Result`, in code that may also panic.
pub data StoreError : Type 0 where
  io_error serialize_error deserialize_error : StoreError

pub data Attempt (A : Type 0) : Type 0 where
  done : A → Attempt A
  failed : StoreError → Attempt A
  panicked : Fault → Attempt A

module _ {ℓ} {A : Type ℓ} where
  -- `HashMap::insert`
  abbrev pub put : ℕ → A → List (ℕ × A) → List (ℕ × A)
  put k a [] = (k, a) ∷ []
  put k a ((j, b) ∷ m) = if j == k then (k, a) ∷ m else (j, b) ∷ put k a m

-- `4096 * 4096`
abbrev pub cache_size : ℕ
cache_size = 16777216

pub record GlobalStoreCatalog : Type 0 where
  pub ids : IdAllocator
  pub registry : List (ℕ × ℕ)

pub record GlobalStoreInner (Marble : Type 0) : Type 0 where
  pub store : Marble
  pub active_stores : List ℕ
  pub catalog : GlobalStoreCatalog

-- `root` is the state beside it.
pub record LocalStore (C P : Type 0) : Type 0 where
  pub catalog : C
  pub id : ℕ
  pub ident : ℕ
  pub cache : List (ℕ × Option P)

module _ (api : MarbleApi) where
  abbrev pub Inner : Type 0
  Inner = GlobalStoreInner api.Marble

  abbrev pub Batch : Type 0
  Batch = List (ℕ × Option api.Bytes)

  -- `store.write_batch(batch)?`
  abbrev pub write_batch : Inner → Batch → Attempt Unit × Inner
  write_batch inner batch =
      let (fine, store) = api.write_batch inner.store batch in
      (if fine then done tt else failed io_error, record inner { store = store })

  abbrev pub with_ids : Inner → IdAllocator → Inner
  with_ids inner ids = record inner {
    catalog = record { ids = ids; registry = inner.catalog.registry };
  }

  -- The methods of `ObjectStoreGeneric`, for a store that has no cache.
  unfoldable pub allocate_page : Inner → Attempt ℕ × Inner
  allocate_page inner = elim (IdAllocator.allocate 64 inner.catalog.ids) [
    | ok (id, ids) ↦ (done id, with_ids inner ids)
    | fault e ↦ (panicked e, inner)
  ]

  -- `?` after a step, and then a result.
  abbrev pub returning : {A : Type 0} → A → Attempt Unit × Inner → Attempt A × Inner
  returning a (done _, inner) = (done a, inner)
  returning a (failed e, inner) = (failed e, inner)
  returning a (panicked e, inner) = (panicked e, inner)

  unfoldable pub free_page : Inner → ℕ → Attempt Bool × Inner
  free_page inner id =
      let freed = with_ids inner (free inner.catalog.ids id).0 in
      if (free inner.catalog.ids id).1
      then returning true (write_batch freed ((id, none) ∷ []))
      else (done false, freed)

  abbrev pub clear_batch : List ℕ → Batch
  clear_batch [] = []
  clear_batch (id ∷ ids) = (id, none) ∷ clear_batch ids

  abbrev pub clear_ids : Attempt Unit × Inner → Attempt Unit × Inner
  clear_ids (done _, inner) = (done tt, with_ids inner (IdAllocator.clear inner.catalog.ids))
  clear_ids (failed e, inner) = (failed e, inner)
  clear_ids (panicked e, inner) = (panicked e, inner)

  unfoldable pub clear : Inner → Attempt Unit × Inner
  clear inner = clear_ids (write_batch inner (clear_batch (IdAllocator.iter 64 inner.catalog.ids)))

  module _ {P : Type 0} (codec : Codec api.Bytes P) where
    -- `GlobalStore::write_page` and `GlobalStore::read_page`
    unfoldable pub write_page : Inner → P → ℕ → Attempt Unit × Inner
    write_page inner page id = elim (codec.encode page) [
      | none ↦ (failed serialize_error, inner)
      | some bytes ↦ write_batch inner ((id, some bytes) ∷ [])
    ]

    abbrev pub decoded : Option api.Bytes → Attempt (Option P)
    decoded none = done none
    decoded (some bytes) = elim (codec.decode bytes) [
      | none ↦ failed deserialize_error
      | some page ↦ done (some page)
    ]

    unfoldable pub read_page : Inner → ℕ → Attempt (Option P)
    read_page inner id = elim (api.read inner.store id) [
      | none ↦ failed io_error
      | some found ↦ decoded found
    ]

  module _ (codec : Codec api.Bytes GlobalStoreCatalog) where
    -- `GlobalStoreCatalog::default` reserves the page 0
    unfoldable pub default_catalog : Attempt GlobalStoreCatalog
    default_catalog = elim (IdAllocator.allocate 64 IdAllocator.new) [
      | fault e ↦ panicked e
      | ok (id, ids) ↦
          if id == 0 then done (record { ids = ids; registry = [] }) else panicked assertion
    ]

    abbrev pub opened : api.Marble → GlobalStoreCatalog → Inner
    opened store catalog = record { store = store; active_stores = []; catalog = catalog }

    -- The catalog of a new store is written at once.
    abbrev pub create : api.Marble → Attempt GlobalStoreCatalog → Attempt Inner
    create store (failed e) = failed e
    create store (panicked e) = panicked e
    create store (done catalog) = elim (codec.encode catalog) [
      | none ↦ panicked unwrapped_none
      | some bytes ↦
          let (fine, store') = api.write_batch store ((0, some bytes) ∷ []) in
          if fine then done (opened store' catalog) else failed io_error
    ]

    -- `GlobalStore::load`, once marble has opened the directory
    unfoldable pub load : api.Marble → Attempt Inner
    load store = elim (api.read store 0) [
      | none ↦ failed io_error
      | some none ↦ create store default_catalog
      | some (some bytes) ↦ elim (codec.decode bytes) [
        | none ↦ failed deserialize_error
        | some catalog ↦ done (opened store catalog)
      ]
    ]

    -- `GlobalStore::flush`
    unfoldable pub flush : Inner → Attempt Unit × Inner
    flush inner = write_page codec inner inner.catalog 0

  abbrev pub register : ℕ → Attempt ℕ × Inner → Attempt ℕ × Inner
  register ident (failed e, inner) = (failed e, inner)
  register ident (panicked e, inner) = (panicked e, inner)
  register ident (done id, inner) = (
    done id,
    record inner {
      catalog = record { ids = inner.catalog.ids; registry = put ident id inner.catalog.registry };
    },
  )

  -- The page of the store: the one in the registry, or else a new one.
  unfoldable pub page_of : Inner → ℕ → Attempt ℕ × Inner
  page_of inner ident = elim (find ident inner.catalog.registry) [
    | some id ↦ (done id, inner)
    | none ↦ register ident (allocate_page inner)
  ]

  module _ {C : Type 0} (default : C) (codec : Codec api.Bytes C) where
    -- The catalog in the page, or else a new one, which is written.
    unfoldable pub catalog_at : Inner → ℕ → Attempt C × Inner
    catalog_at inner id = elim (read_page codec inner id) [
      | failed e ↦ (failed e, inner)
      | panicked e ↦ (panicked e, inner)
      | done (some catalog) ↦ (done catalog, inner)
      | done none ↦ returning default (write_page codec inner default id)
    ]

  module _ {C P : Type 0} (default : C) (codec : Codec api.Bytes C) where
    abbrev pub local_at : ℕ → ℕ → Attempt C × Inner → Attempt (LocalStore C P) × Inner
    local_at ident id (failed e, inner) = (failed e, inner)
    local_at ident id (panicked e, inner) = (panicked e, inner)
    local_at ident id (done catalog, inner) = (
      done (record { catalog = catalog; id = id; ident = ident; cache = [] }),
      record inner { active_stores = ident ∷ inner.active_stores },
    )

    abbrev pub load_at : ℕ → Attempt ℕ × Inner → Attempt (LocalStore C P) × Inner
    load_at ident (failed e, inner) = (failed e, inner)
    load_at ident (panicked e, inner) = (panicked e, inner)
    load_at ident (done id, inner) = local_at ident id (catalog_at default codec inner id)

    unfoldable pub load_local_store : Inner → ℕ → Attempt (LocalStore C P) × Inner
    load_local_store inner ident =
        if has ident inner.active_stores
        then (panicked already_loaded, inner)
        else load_at ident (page_of inner ident)
