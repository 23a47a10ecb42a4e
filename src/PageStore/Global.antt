-- ===== src/PageStore/Global.antt =====
-- `GlobalStore` of core/src/common/storage/store.rs: its catalog on disk, and the local stores in it.
use clearned_immutable.Prelude.{
  ℕ, ◌+◌, ◌^◌, ◌<◌, ◌≡◌, ◌≢◌, ◌⊎◌, ◌∙◌, inl, inr, refl, ap, true, false, none, some, [], ◌∷◌, arith,
  ◌==◌, if◌then◌else◌, Bool-cases, Option-cases, ==-refl, already_loaded,
}
use clearned_immutable.IdAllocator.{IdAllocator, is_allocated, allocate}
use clearned_immutable.IdAllocator
use clearned_immutable.IdAllocator.Pool.{Pool, has}
use clearned_immutable.IdAllocator.Refine.{Refines}
use clearned_immutable.IdAllocator.Laws.{allocate_fresh}
use clearned_immutable.PageStore.Api.{MarbleApi, Codec, find}
use clearned_immutable.PageStore.{
  StoreError, serialize_error, io_error, deserialize_error, Attempt, done, failed, panicked, put,
  GlobalStoreCatalog, GlobalStoreInner, LocalStore, Inner, Batch, write_batch, with_ids, returning,
  clear_ids, clear_batch, allocate_page, clear, write_page, read_page, load, opened, flush,
  register, page_of, catalog_at, local_at, load_at, load_local_store,
}
use clearned_immutable.PageStore
use clearned_immutable.PageStore.Views.{find-put}

module _ (api : MarbleApi) (codec : Codec api.Bytes GlobalStoreCatalog) (inner : Inner api) where
  abbrev pub IsSaved : Attempt Unit × Inner api → Type 0
  IsSaved (panicked e, _) = ⊥
  IsSaved (failed e, inner') = inner'.catalog ≡ inner.catalog
  IsSaved (done _, inner') =
      (inner'.catalog ≡ inner.catalog)
      × ((load api codec inner'.store ≡ done (opened api codec inner'.store inner.catalog))
          ⊎ ((api.read inner'.store 0 ≡ none) × (load api codec inner'.store ≡ failed io_error)))

  reloads :
      (store : api.Marble) (bytes : api.Bytes)
      → codec.encode inner.catalog ≡ some bytes
      → api.contents store 0 ≡ some bytes
      → (load api codec store ≡ done (opened api codec store inner.catalog))
        ⊎ ((api.read store 0 ≡ none) × (load api codec store ≡ failed io_error))
  unfolding load
  reloads store bytes e stored = elim (api.read_contents store 0) [
    | inl broken ↦ inr (broken, rw (load, broken))
    | inr found ↦
        inl (rw (load, found) (rw stored (rw (codec.decode-encode inner.catalog bytes e))))
  ]

  -- Saving the catalog of the page ids never panics and keeps the catalog. Where it succeeds, loading
  -- the store again gives the catalog with no active store, unless marble cannot read the page 0.
  pub flush-load : IsSaved (flush api codec inner)
  unfolding flush write_page
  flush-load = elim (Option-cases (codec.encode inner.catalog)) [
    | inl broken ↦ rw (flush, write_page, broken) refl
    | inr (bytes, e) ↦ elim (Bool-cases (api.write_batch inner.store ((0, some bytes) ∷ [])).0) [
      | inr broken ↦ rw (flush, write_page, e) (rw broken refl)
      | inl fine ↦
          let stored = api.write_contents inner.store ((0, some bytes) ∷ []) 0 (refl, tt) fine in
          rw (flush, write_page, e) (rw fine (refl, reloads _ bytes e stored))
    ]
  ]

module _ (api : MarbleApi) (inner : Inner api) where
  abbrev pub IsCleared : Attempt Unit × Inner api → Type 0
  IsCleared (panicked e, _) = ⊥
  IsCleared (failed e, inner') = inner'.catalog ≡ inner.catalog
  IsCleared (done _, inner') =
      ((j : ℕ) → is_allocated inner'.catalog.ids j ≡ false)
      × (inner'.catalog.registry ≡ inner.catalog.registry)
      × ((allocate_page api inner').0 ≡ done 0)

  -- `clear` never panics. Where it succeeds no page is allocated any more, but the registry still
  -- names the pages of the local stores, and the next page is the page 0, that of the catalog.
  pub clear-allocate_page : IsCleared (clear api inner)
  unfolding clear allocate_page IdAllocator.clear allocate is_allocated
  clear-allocate_page =
      elim (Bool-cases
        (api.write_batch inner.store (clear_batch api (IdAllocator.iter 64 inner.catalog.ids))).0) [
          | inl fine ↦ rw (clear, fine) (λ j. refl, refl, refl)
          | inr broken ↦ rw (clear, broken) refl
        ]

  -- What the choice of the page of a local store leaves.
  abbrev pub IsPaged : ℕ → Attempt ℕ × Inner api → Type 0
  IsPaged ident (panicked e, _) = ⊥
  IsPaged ident (failed e, _) = ⊥
  IsPaged ident (done id, inner') =
      (inner'.active_stores ≡ inner.active_stores)
      × (find ident inner'.catalog.registry ≡ some id)
      × ((j : ℕ) → j ≢ ident → find j inner'.catalog.registry ≡ find j inner.catalog.registry)
      × ((find ident inner.catalog.registry ≡ some id)
          ⊎ (is_allocated inner.catalog.ids id ≡ false))

  module _ {p : Pool} (r : Refines inner.catalog.ids p) (room : p.size + 1 < 2 ^ 64)
      (ident : ℕ) where
    page_of-IsPaged : IsPaged ident (page_of api inner ident)
    unfolding page_of allocate_page
    page_of-IsPaged = elim (Option-cases (find ident inner.catalog.registry)) [
      | inr (id, known) ↦ rw (page_of, known) (refl, known, λ j ne. refl, inl known)
      | inl unknown ↦
          let ((id, ids), run, (fresh, _)) = allocate_fresh r 64 room in
          let registered : find ident (put ident id inner.catalog.registry) ≡ some id =
            find-put ident ident id inner.catalog.registry ∙ rw (==-refl ident) refl in
          rw (page_of, unknown)
            (rw (allocate_page, run)
              (
                refl,
                registered,
                λ j ne. find-put j ident id inner.catalog.registry ∙ other id j ne,
                inr fresh,
              ))
    ]
      where
        other :
            (id j : ℕ)
            → j ≢ ident
            → (if ident == j then some id else find j inner.catalog.registry)
              ≡ find j inner.catalog.registry
        other id j ne = ground arith

module _ (api : MarbleApi) {C : Type 0} (default : C) (codec : Codec api.Bytes C) where
  abbrev pub Unmoved : Inner api → Attempt C × Inner api → Type 0
  Unmoved inner (panicked e, _) = ⊥
  Unmoved inner (failed e, inner') = inner'.active_stores ≡ inner.active_stores
  Unmoved inner (done c, inner') =
      (inner'.active_stores ≡ inner.active_stores) × (inner'.catalog ≡ inner.catalog)

  catalog_at-Unmoved :
      (inner : Inner api) (id : ℕ) → Unmoved inner (catalog_at api default codec inner id)
  unfolding catalog_at read_page write_page
  catalog_at-Unmoved inner id = elim (Option-cases (api.read inner.store id)) [
    | inl broken ↦ rw (catalog_at, read_page, broken) refl
    | inr (some bytes, found) ↦ elim (Option-cases (codec.decode bytes)) [
      | inl broken ↦ rw (catalog_at, read_page, found) (rw (PageStore.decoded, broken) refl)
      | inr (c, fine) ↦
          rw (catalog_at, read_page, found) (rw (PageStore.decoded, fine) (refl, refl))
    ]
    | inr (none, found) ↦ elim (Option-cases (codec.encode default)) [
      | inl broken ↦ rw (catalog_at, read_page, found) (rw (write_page, broken) refl)
      | inr (bytes, e) ↦ elim (Bool-cases (api.write_batch inner.store ((id, some bytes) ∷ [])).0) [
        | inr broken ↦ rw (catalog_at, read_page, found) (rw (write_page, e) (rw broken refl))
        | inl fine ↦ rw (catalog_at, read_page, found) (rw (write_page, e) (rw fine (refl, refl)))
      ]
    ]
  ]

module _ (api : MarbleApi) {C : Type 0} (P : Type 0) (default : C) (codec : Codec api.Bytes C)
    (inner : Inner api) (ident : ℕ) where
  -- What loading a local store returns and leaves.
  abbrev pub IsLoaded : Attempt (LocalStore C P) × Inner api → Type 0
  IsLoaded (panicked e, _) = (e ≡ already_loaded) × (has ident inner.active_stores ≡ true)
  IsLoaded (failed e, inner') = inner'.active_stores ≡ inner.active_stores
  IsLoaded (done local, inner') =
      (has ident inner.active_stores ≡ false)
      × (local.ident ≡ ident)
      × (local.cache ≡ [])
      × (inner'.active_stores ≡ ident ∷ inner.active_stores)
      × (find ident inner'.catalog.registry ≡ some local.id)
      × ((j : ℕ) → j ≢ ident → find j inner'.catalog.registry ≡ find j inner.catalog.registry)
      × ((find ident inner.catalog.registry ≡ some local.id)
          ⊎ (is_allocated inner.catalog.ids local.id ≡ false))

  local_at-IsLoaded :
      (id : ℕ) (inner1 : Inner api) (r : Attempt C × Inner api)
      → has ident inner.active_stores ≡ false
      → IsPaged api inner ident (done id, inner1)
      → Unmoved api default codec inner1 r
      → IsLoaded (local_at api {P = P} default codec ident id r)
  local_at-IsLoaded id inner1 (panicked e, inner2) idle paged same = absurd same
  local_at-IsLoaded id inner1 (failed e, inner2) idle paged same = same ∙ paged.0
  local_at-IsLoaded id inner1 (done c, inner2) idle paged (same, kept) = (
    idle,
    refl,
    refl,
    ap (λ names. ident ∷ names) (same ∙ paged.0),
    rw kept paged.1,
    λ j ne. rw kept (paged.2 j ne),
    paged.3,
  )

  load_at-IsLoaded :
      (r : Attempt ℕ × Inner api)
      → has ident inner.active_stores ≡ false
      → IsPaged api inner ident r
      → IsLoaded (load_at api {P = P} default codec ident r)
  load_at-IsLoaded (panicked e, inner1) idle paged = absurd paged
  load_at-IsLoaded (failed e, inner1) idle paged = absurd paged
  load_at-IsLoaded (done id, inner1) idle paged =
      local_at-IsLoaded id inner1 _ idle paged (catalog_at-Unmoved api default codec inner1 id)

  -- If the catalog of the page ids is in order and has an id left over, loading a local store panics
  -- only if a store of that name is active. Where it succeeds, the store has an empty cache and its
  -- page is the one in the registry, under which it was before, or else a page that was not allocated;
  -- the other names keep their pages, and the store is active.
  pub load_local_store-IsLoaded :
      {p : Pool}
      → Refines inner.catalog.ids p
      → p.size + 1 < 2 ^ 64
      → IsLoaded (load_local_store api {P = P} default codec inner ident)
  unfolding load_local_store
  load_local_store-IsLoaded r room = elim (Bool-cases (has ident inner.active_stores)) [
    | inl active ↦ rw (load_local_store, active) (refl, active)
    | inr idle ↦
        rw (load_local_store, idle)
          (load_at-IsLoaded _ idle (page_of-IsPaged api inner r room ident))
  ]
