-- ===== src/PageStore/Local.antt =====
-- `LocalStore` of core/src/common/storage/store.rs: pages of one type behind a cache, in which
-- `none` marks a page that was removed.
use clearned_immutable.Prelude.{
  ℕ, ◌*◌, Bool, Option, none, some, List, [], ◌∷◌, ◌++◌, length, ltb, ◌==◌, if◌then◌else◌,
  unwrapped_none,
}
use clearned_immutable.PageStore.Api.{MarbleApi, Codec, find}
use clearned_immutable.PageStore.{
  StoreError, serialize_error, io_error, deserialize_error, Attempt, done, failed, panicked, put,
  cache_size, GlobalStoreInner, LocalStore, Inner, Batch, write_batch,
}
use clearned_immutable.PageStore
use clearned_immutable.IdAllocator

module _ (api : MarbleApi) {C P : Type 0} (codec : Codec api.Bytes C)
    (page_codec : Codec api.Bytes P) where
  abbrev pub State : Type 0
  State = LocalStore C P × Inner api

  -- The cache as a batch; at the first page that does not serialize, `map_while` stops.
  unfoldable pub serialize_cache : List (ℕ × Option P) → Batch api
  serialize_cache [] = []
  serialize_cache ((id, none) ∷ rest) = (id, none) ∷ serialize_cache rest
  serialize_cache ((id, some page) ∷ rest) =
      let later = serialize_cache rest in
      elim (page_codec.encode page) [ none ↦ [] | some bytes ↦ (id, some bytes) ∷ later ]

  abbrev pub emptied : LocalStore C P → LocalStore C P
  emptied local = record local { cache = [] }

  unfoldable pub flush : LocalStore C P → Inner api → Attempt Unit × State
  flush local inner = elim (codec.encode local.catalog) [
    | none ↦ (failed serialize_error, (emptied local, inner))
    | some bytes ↦
        let (result, inner') =
          write_batch api inner (serialize_cache local.cache ++ (local.id, some bytes) ∷ []) in
        (result, (emptied local, inner'))
  ]

  abbrev pub caching : LocalStore C P → ℕ → Option P → LocalStore C P
  caching local id page = record local { cache = put id page local.cache }

  -- `size_of` is the size of a page in bytes
  unfoldable pub write_page : ℕ → LocalStore C P → Inner api → P → ℕ → Attempt Unit × State
  write_page size_of local inner page id =
      let local' = caching local id (some page) in
      let flushed = flush local' inner in
      if ltb cache_size (length local'.cache * size_of) then flushed else (done tt, (local', inner))

  abbrev pub fetched :
      LocalStore C P → Inner api → ℕ → Option api.Bytes → Attempt (Option P) × State
  fetched local inner id none = (done none, (local, inner))
  fetched local inner id (some bytes) = elim (page_codec.decode bytes) [
    | none ↦ (failed deserialize_error, (local, inner))
    | some page ↦ (done (some page), (caching local id (some page), inner))
  ]

  unfoldable pub read_page : LocalStore C P → Inner api → ℕ → Attempt (Option P) × State
  read_page local inner id = elim (find id local.cache) [
    | some page ↦ (done page, (local, inner))
    | none ↦ elim (api.read inner.store id) [
      | none ↦ (failed io_error, (local, inner))
      | some found ↦ fetched local inner id found
    ]
  ]

  -- `free_page`, with the callback `remove_page` of a local store.
  unfoldable pub free_page : LocalStore C P → Inner api → ℕ → Attempt Bool × State
  free_page local inner id =
      let (result, inner') = PageStore.free_page api inner id in
      (
        result,
        (
          if (IdAllocator.free inner.catalog.ids id).1 then caching local id none else local,
          inner',
        ),
      )

  -- `clear` of `ObjectStoreGeneric` does not know the cache.
  unfoldable pub clear : LocalStore C P → Inner api → Attempt Unit × State
  clear local inner = let (result, inner') = PageStore.clear api inner in (result, (local, inner'))

  abbrev pub remove_name : ℕ → List ℕ → List ℕ
  remove_name ident [] = []
  remove_name ident (name ∷ names) =
      let rest = remove_name ident names in if name == ident then rest else name ∷ rest

  abbrev pub expected : Attempt Unit × State → Attempt Unit × Inner api
  expected (done _, (_, inner)) = (done tt, inner)
  expected (failed _, (_, inner)) = (panicked unwrapped_none, inner)
  expected (panicked e, (_, inner)) = (panicked e, inner)

  -- `Drop` of a local store
  unfoldable pub drop_local : LocalStore C P → Inner api → Attempt Unit × Inner api
  drop_local local inner =
      expected
        (flush local (record inner { active_stores = remove_name local.ident inner.active_stores }))
