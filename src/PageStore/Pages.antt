-- ===== src/PageStore/Pages.antt =====
-- Reading, writing and freeing pages through a local store of core/src/common/storage/store.rs.
use clearned_immutable.Prelude.{
  ℕ, ◌*◌, ◌≡◌, ◌≢◌, ◌∙◌, inl, inr, refl, sym, ap, Bool, true, not, ◌&&◌, Option, none, some, [],
  ◌∷◌, arith, length, ltb, ◌==◌, if◌then◌else◌, Bool-cases, Option-cases,
}
use clearned_immutable.IdAllocator.{free, is_allocated}
use clearned_immutable.IdAllocator.Pool.{Pool}
use clearned_immutable.IdAllocator.Refine.{Refines}
use clearned_immutable.IdAllocator.Laws.{free_exact}
use clearned_immutable.PageStore.Api.{MarbleApi, Codec, find}
use clearned_immutable.PageStore.{
  StoreError, serialize_error, io_error, deserialize_error, Attempt, done, failed, panicked, put,
  cache_size, GlobalStoreInner, LocalStore, Inner, Batch, write_batch, with_ids,
}
use clearned_immutable.PageStore
use clearned_immutable.PageStore.Local.{State, caching, write_page, read_page, fetched, free_page}
use clearned_immutable.PageStore.Views.{
  find-put, AreDistinct-put, seen, view, IsCache, IsTotal, IsFlushed, flush-IsFlushed,
}

module _ (api : MarbleApi) {C P : Type 0} (codec : Codec api.Bytes C)
    (page_codec : Codec api.Bytes P) where
  abbrev cached : LocalStore C P → ℕ → Option P → LocalStore C P
  cached local id page = caching api codec page_codec local id page

  view-cached :
      (local : LocalStore C P) (inner : Inner api) (id : ℕ) (page : Option P) (i : ℕ)
      → view api codec page_codec (cached local id page) inner i
        ≡ (if id == i then page else view api codec page_codec local inner i)
  view-cached local inner id page i = elim (Bool-cases (id == i)) [
    | inl eq ↦
        let hit : find i (put id page local.cache) ≡ some page =
          find-put i id page local.cache ∙ rw eq refl in
        rw (eq, hit)
    | inr ne ↦
        let miss : find i (put id page local.cache) ≡ find i local.cache =
          find-put i id page local.cache ∙ rw ne refl in
        rw (ne, miss)
  ]

  IsCache-cached :
      (local : LocalStore C P) (id : ℕ) (page : Option P)
      → id ≢ local.id
      → IsCache api codec page_codec local
      → IsCache api codec page_codec (cached local id page)
  IsCache-cached local id page ne (d, out) = (
    AreDistinct-put id page local.cache d,
    ground (arith, find-put local.id id page local.cache, out),
  )

  module _ (local : LocalStore C P) (inner : Inner api) where
    -- What a write of a page returns and leaves.
    abbrev pub IsWritten : ℕ → P → Attempt Unit × State api codec page_codec → Type 0
    IsWritten id page (failed e, (local', inner')) =
        (local'.cache ≡ []) × (local'.catalog ≡ local.catalog) × (inner'.catalog ≡ inner.catalog)
    IsWritten id page (panicked e, _) = ⊥
    IsWritten id page (done _, (local', inner')) =
        IsCache api codec page_codec local'
        × (local'.catalog ≡ local.catalog)
        × (local'.id ≡ local.id)
        × (inner'.catalog ≡ inner.catalog)
        × ((i : ℕ)
            → i ≢ local.id
            → view api codec page_codec local' inner' i
              ≡ (if id == i then some page else view api codec page_codec local inner i))

    -- If the pages serialize, writing a page other than that of the catalog never panics, and keeps the
    -- catalog of the store and that of the page ids. Where it succeeds, also if it has flushed the
    -- cache, the page reads as written and every other page as before.
    pub write_page-IsWritten :
        (size_of id : ℕ) (page : P)
        → IsTotal api codec page_codec
        → IsCache api codec page_codec local
        → id ≢ local.id
        → IsWritten id page (write_page api codec page_codec size_of local inner page id)
    unfolding write_page
    write_page-IsWritten size_of id page total cache ne =
        let local' = cached local id (some page) in
        let cache' = IsCache-cached local id (some page) ne cache in
        elim (Bool-cases (ltb cache_size (length local'.cache * size_of))) [
          | inr small ↦
              rw (write_page, small)
                (cache', refl, refl, refl, λ i other. view-cached local inner id (some page) i)
          | inl large ↦
              rw (write_page, large)
                (from_flush _ (flush-IsFlushed api codec page_codec total local' inner cache'))
        ]
      where
        from_flush :
            (r : Attempt Unit × State api codec page_codec)
            → IsFlushed api codec page_codec total
                (cached local id (some page))
                inner
                (IsCache-cached local id (some page) ne cache)
                r
            → IsWritten id page r
        from_flush (failed e, (local', inner')) h =
            (ap (λ l. l.cache) h.0, ap (λ l. l.catalog) h.0, h.1)
        from_flush (panicked e, _) h = h
        from_flush (done _, (local', inner')) h = (
          rw h.0.0 (tt, refl),
          ap (λ l. l.catalog) h.0.0,
          ap (λ l. l.id) h.0.0,
          h.0.1,
          λ i other. h.2 i other ∙ view-cached local inner id (some page) i,
        )

    -- What a read of a page returns: what the store shows, or an error that marble or bincode has.
    abbrev pub IsReadResult : ℕ → Attempt (Option P) → Type 0
    IsReadResult id (done page) = page ≡ view api codec page_codec local inner id
    IsReadResult id (failed io_error) =
        (find id local.cache ≡ none) × (api.read inner.store id ≡ none)
    IsReadResult id (failed deserialize_error) =
        (find id local.cache ≡ none)
        × ((bytes : api.Bytes) × (api.contents inner.store id ≡ some bytes)
            × (page_codec.decode bytes ≡ none))
    IsReadResult id (failed serialize_error) = ⊥
    IsReadResult id (panicked e) = ⊥

    abbrev pub IsRead : ℕ → Attempt (Option P) × State api codec page_codec → Type 0
    IsRead id (result, (local', inner')) =
        IsReadResult id result
        × (inner' ≡ inner)
        × ((i : ℕ)
            → view api codec page_codec local' inner' i ≡ view api codec page_codec local inner i)

    fetched-IsRead :
        (id : ℕ)
        → find id local.cache ≡ none
        → IsRead id (fetched api codec page_codec local inner id (api.contents inner.store id))
    fetched-IsRead id out = elim (Option-cases (api.contents inner.store id)) [
      | inl nothing ↦ rw nothing (rw (out, nothing) refl, refl, λ i. refl)
      | inr (bytes, stored) ↦ elim (Option-cases (page_codec.decode bytes)) [
        | inl broken ↦
            let run : fetched api codec page_codec local inner id (some bytes)
                ≡ (failed deserialize_error, (local, inner)) =
              rw (fetched, broken) in
            rw (stored, run) ((out, (bytes, stored, broken)), refl, λ i. refl)
        | inr (page, fine) ↦
            let shown : view api codec page_codec local inner id ≡ some page =
              rw (out, stored) fine in
            let run : fetched api codec page_codec local inner id (some bytes)
                ≡ (done (some page), (cached local id (some page), inner)) =
              rw (fetched, fine) in
            rw (stored, run)
              (
                sym shown,
                refl,
                λ i. view-cached local inner id (some page) i ∙ same id i page shown,
              )
      ]
    ]
      where
        same :
            (id i : ℕ) (page : P)
            → view api codec page_codec local inner id ≡ some page
            → (if id == i then some page else view api codec page_codec local inner i)
              ≡ view api codec page_codec local inner i
        same id i page shown = elim (Bool-cases (id == i)) [
          | inl eq ↦ let at_i : id ≡ i = ground arith in rw eq (sym (rw at_i at shown))
          | inr ne ↦ rw ne
        ]

    -- A read of a page never panics, leaves the state behind the store, and changes no page as it
    -- reads. It returns what the store shows of the page, unless the page is not in the cache and
    -- marble cannot read it or bincode cannot decode it.
    pub read_page-IsRead : (id : ℕ) → IsRead id (read_page api codec page_codec local inner id)
    unfolding read_page
    read_page-IsRead id = elim (Option-cases (find id local.cache)) [
      | inr (page, hit) ↦ rw (read_page, hit) (rw hit refl, refl, λ i. refl)
      | inl out ↦ elim (api.read_contents inner.store id) [
        | inl broken ↦ rw (read_page, out, broken) ((out, broken), refl, λ i. refl)
        | inr found ↦ rw (read_page, out, found) (fetched-IsRead id out)
      ]
    ]

    -- Reading a page other than that of the catalog keeps the cache in order.
    pub read_page-IsCache :
        (id : ℕ)
        → IsCache api codec page_codec local
        → id ≢ local.id
        → IsCache api codec page_codec (read_page api codec page_codec local inner id).1.0
          × ((read_page api codec page_codec local inner id).1.0.id ≡ local.id)
    unfolding read_page
    read_page-IsCache id cache ne = elim (Option-cases (find id local.cache)) [
      | inr (page, hit) ↦ rw (read_page, hit) (cache, refl)
      | inl out ↦ elim (Option-cases (api.read inner.store id)) [
        | inl broken ↦ rw (read_page, out, broken) (cache, refl)
        | inr (found, read) ↦ rw (read_page, out, read) (of_found found)
      ]
    ]
      where
        of_found :
            (found : Option api.Bytes)
            → IsCache api codec page_codec (fetched api codec page_codec local inner id found).1.0
              × ((fetched api codec page_codec local inner id found).1.0.id ≡ local.id)
        of_found none = (cache, refl)
        of_found (some bytes) = elim (Option-cases (page_codec.decode bytes)) [
          | inl broken ↦ rw (fetched, broken) (cache, refl)
          | inr (page, fine) ↦
              rw (fetched, fine) (IsCache-cached local id (some page) ne cache, refl)
        ]

    -- What freeing a page returns and leaves.
    abbrev pub IsFreed : ℕ → Attempt Bool × State api codec page_codec → Type 0
    IsFreed id (panicked e, _) = ⊥
    IsFreed id (failed e, _) = is_allocated inner.catalog.ids id ≡ true
    IsFreed id (done freed, (local', inner')) =
        (freed ≡ is_allocated inner.catalog.ids id)
        × IsCache api codec page_codec local'
        × ((j : ℕ)
            → is_allocated inner'.catalog.ids j
              ≡ (is_allocated inner.catalog.ids j && not (j == id)))
        × ((i : ℕ)
            → view api codec page_codec local' inner' i
              ≡ (if freed && (id == i) then none else view api codec page_codec local inner i))

    removed-view :
        (id i : ℕ)
        → (api.write_batch inner.store ((id, none) ∷ [])).0 ≡ true
        → seen api codec page_codec
            (find i (cached local id none).cache)
            (api.contents (api.write_batch inner.store ((id, none) ∷ [])).1 i)
          ≡ (if id == i then none else view api codec page_codec local inner i)
    removed-view id i fine =
        let stored = api.write_contents inner.store ((id, none) ∷ []) i (refl, tt) fine in
        elim (Bool-cases (id == i)) [
          | inl eq ↦
              let hit : find i (put id none local.cache) ≡ some none =
                find-put i id none local.cache ∙ rw eq refl in
              rw (eq, hit)
          | inr ne ↦
              let miss : find i (put id none local.cache) ≡ find i local.cache =
                find-put i id none local.cache ∙ rw ne refl in
              let same : api.contents (api.write_batch inner.store ((id, none) ∷ [])).1 i
                  ≡ api.contents inner.store i =
                stored ∙ rw ne refl in
              rw (ne, miss, same)
        ]

    -- If the catalog of the page ids is in order, freeing a page other than that of the catalog never
    -- panics, and fails only for an allocated page. Otherwise it says whether the page was allocated;
    -- then that page, and no other, is not allocated any more and reads as absent.
    pub free_page-IsFreed :
        {p : Pool} (id : ℕ)
        → Refines inner.catalog.ids p
        → IsCache api codec page_codec local
        → id ≢ local.id
        → IsFreed id (free_page api codec page_codec local inner id)
    unfolding free_page PageStore.free_page
    free_page-IsFreed id r cache ne =
        let (same, exactly) = free_exact r id in
        elim (Bool-cases (free inner.catalog.ids id).1) [
          | inr idle ↦
              rw (free_page, PageStore.free_page, idle) (sym idle ∙ same, cache, exactly, λ i. refl)
          | inl used ↦ elim (Bool-cases (api.write_batch inner.store ((id, none) ∷ [])).0) [
            | inr broken ↦ rw (free_page, PageStore.free_page, used, broken) (sym same ∙ used)
            | inl fine ↦
                rw (free_page, PageStore.free_page, used, fine)
                  (
                    sym used ∙ same,
                    IsCache-cached local id none ne cache,
                    exactly,
                    λ i. removed-view id i fine,
                  )
          ]
        ]
