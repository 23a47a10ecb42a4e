-- ===== src/DiskList/Starts.antt =====
-- A new list of core/src/common/list/boundary_disk.rs and deep_disk.rs.
use clearned_immutable.Prelude.{
  ℕ, ◌+◌, ◌^◌, ◌<◌, ◌≡◌, ◌≢◌, ◌∙◌, inl, inr, refl, sym, ap, Bool, true, ◌||◌, none, some, [], arith,
  ◌==◌, ==-refl, Bool-cases,
}
use clearned_immutable.IdAllocator.{IdAllocator, is_allocated}
use clearned_immutable.IdAllocator.Pool.{Pool}
use clearned_immutable.IdAllocator.Refine.{Refines}
use clearned_immutable.IdAllocator.Laws.{allocate_fresh}
use clearned_immutable.PageStore.Api.{MarbleApi, Codec, find}
use clearned_immutable.PageStore.{
  Attempt, done, failed, panicked, LocalStore, Inner, allocate_page, with_ids,
}
use clearned_immutable.PageStore.Views.{view, IsCache, IsTotal}
use clearned_immutable.PageStore.Pages.{IsWritten, write_page-IsWritten}
use clearned_immutable.DiskList.{
  Link, CatalogPage, uninitialized_list, initialized_list, Store, continue, set_catalog, fresh_link,
  single, initialize,
}
use clearned_immutable.DiskList.Splice.{IsDoublyLinked}
use clearned_immutable.DiskList.Inserted.{IsDiskList}

module _ {X : Type 0} (extra : X) (page : CatalogPage X) (ptr : ℕ) (nothing : page.links ≡ []) where
  only :
      (i : ℕ) (l : Link X)
      → find i (single extra ptr page).links ≡ some l
      → (i ≡ ptr) × (l ≡ fresh_link extra)
  only i l h = elim (Bool-cases (ptr == i)) [
    | inl eq ↦ (ground arith, let h' = rw (nothing, eq) at h in cc)
    | inr ne ↦ let h' = rw (nothing, ne) at h in absurd (cc)
  ]

  there : find ptr (single extra ptr page).links ≡ some (fresh_link extra)
  there = rw nothing (rw (==-refl ptr))

  single-IsDoublyLinked : IsDoublyLinked (single extra ptr page)
  single-IsDoublyLinked = record {
    next_back = λ i j l h e.
        let alone : l ≡ fresh_link extra = (only i l h).1 in
        let no_next : none ≡ some j = sym (ap (λ k. k.next) alone) ∙ e in absurd (cc);
    prev_back = λ i j l h e.
        let alone : l ≡ fresh_link extra = (only i l h).1 in
        let no_prev : none ≡ some j = sym (ap (λ k. k.prev) alone) ∙ e in absurd (cc);
    last_only = λ i l h e. (only i l h).0;
    first_only = λ i l h e. (only i l h).0;
    last_in = (fresh_link extra, there, refl);
    first_in = (fresh_link extra, there, refl);
  }

module _ (api : MarbleApi) {X N : Type 0} (codec : Codec api.Bytes (CatalogPage X))
    (node_codec : Codec api.Bytes N) (extra : X) (size_of : ℕ) (default : N)
    (equal : N → N → Bool) where
  -- What loading a list whose catalog was made new returns and leaves.
  abbrev pub IsStarted :
      Store api codec node_codec → Attempt Unit × Store api codec node_codec → Type 0
  IsStarted s (panicked e, _) = ⊥
  IsStarted s (failed e, s') = s'.0.catalog.links ≡ []
  IsStarted s (done _, s') =
      IsDiskList api codec node_codec s'
      × (s'.0.catalog.state ≡ initialized_list)
      × (s'.0.catalog.first ≡ s'.0.catalog.last)
      × (view api codec node_codec s'.0 s'.1 s'.0.catalog.first ≡ some default)

  module _ (local : LocalStore (CatalogPage X) N) (inner : Inner api)
      (nothing : local.catalog.links ≡ [])
      (own : is_allocated inner.catalog.ids local.id ≡ true) where
    abbrev marked : LocalStore (CatalogPage X) N
    marked = record local { catalog = record local.catalog { state = initialized_list } }

    from_write :
        (ptr : ℕ) (ids : IdAllocator) (r : Attempt Unit × Store api codec node_codec)
        → ptr ≢ local.id
        → ((j : ℕ) → is_allocated ids j ≡ ((j == ptr) || is_allocated inner.catalog.ids j))
        → IsWritten api codec node_codec marked (with_ids api inner ids) ptr default r
        → IsStarted
            (local, inner)
            (continue
              (continue r λ _ s2.
                continue
                  (set_catalog api codec node_codec s2 (done (single extra ptr s2.0.catalog)))
                  λ _ s3. (done ptr, s3))
              λ _ s. (done tt, s))
    from_write ptr ids (panicked e, _) ne grows w = absurd w
    from_write ptr ids (failed e, (local2, inner2)) ne grows w = ap (λ c. c.links) w.1 ∙ nothing
    from_write ptr ids (done _, (local2, inner2)) ne grows (cache2, page2, own2, ids2, views) =
        let empty : local2.catalog.links ≡ [] = ap (λ c. c.links) page2 ∙ nothing in
        (
          record {
            cache = cache2;
            linked = single-IsDoublyLinked extra local2.catalog ptr empty;
            allocated_pages = λ i l h.
                let at_ptr = (only extra local2.catalog ptr empty i l h).0 in
                rw ids2 (ground (arith, grows i, at_ptr));
            allocated_own = rw (own2, ids2) (ground (arith, grows local.id, own));
          },
          ap (λ c. c.state) page2,
          refl,
          views ptr ne ∙ rw (==-refl ptr) refl,
        )

    -- If the nodes serialize and an id is left over for a page, making a list in a store with a new
    -- catalog never panics. If it succeeds the list is in order and marked as made, its first page is
    -- its last, and that page holds the default node.
    pub initialize-IsStarted :
        {p : Pool}
        → local.catalog.state ≡ uninitialized_list
        → IsCache api codec node_codec local
        → IsTotal api codec node_codec
        → Refines inner.catalog.ids p
        → p.size + 1 < 2 ^ 64
        → IsStarted
            (local, inner)
            (initialize api codec node_codec extra size_of default equal (local, inner))
    unfolding allocate_page
    initialize-IsStarted {p} new_state cache total r room =
        let ((id, ids), run, (fresh, grows)) = allocate_fresh r 64 room in
        let ne : id ≢ local.id = λ e. let fresh' = rw e at fresh in cc in
        rw (initialize, new_state)
          (rw (allocate_page, run)
            (from_write id ids _ ne grows (
              write_page-IsWritten api codec node_codec marked (with_ids api inner ids) size_of id
                default total cache ne)))
