-- ===== src/DiskList/Inserted.antt =====
-- `insert_after` of core/src/common/list/boundary_disk.rs and deep_disk.rs: links, pages and page ids.
use clearned_immutable.Prelude.{
  ℕ, ◌+◌, ◌^◌, ◌<◌, ◌≡◌, ◌≢◌, inl, inr, Bool, true, false, ◌||◌, none, some, arith, ◌==◌,
  if◌then◌else◌, Option-cases,
}
use clearned_immutable.IdAllocator.{IdAllocator, is_allocated}
use clearned_immutable.IdAllocator.Pool.{Pool}
use clearned_immutable.IdAllocator.Refine.{Refines}
use clearned_immutable.IdAllocator.Laws.{allocate_fresh}
use clearned_immutable.PageStore.Api.{MarbleApi, Codec, find}
use clearned_immutable.PageStore.{
  Attempt, done, failed, panicked, LocalStore, Inner, allocate_page, with_ids,
}
use clearned_immutable.PageStore.Views.{view, IsCache, IsTotal}
use clearned_immutable.PageStore.Pages.{IsWritten, write_page-IsWritten}
use clearned_immutable.DiskList.{
  Link, CatalogPage, Store, get_next, continue, set_catalog, splice, insert_after,
}
use clearned_immutable.DiskList.Splice.{IsDoublyLinked, IsSpliced}
use clearned_immutable.DiskList.Linked.{splice-IsDoublyLinked}

module _ (api : MarbleApi) {X N : Type 0} (codec : Codec api.Bytes (CatalogPage X))
    (node_codec : Codec api.Bytes N) where
  abbrev pub ids_of : Store api codec node_codec → IdAllocator
  ids_of (local, inner) = inner.catalog.ids

  -- The links are in order, and the pages that they join, and that of the catalog, are allocated.
  pub record IsDiskList (s : Store api codec node_codec) : Type 0 where
    pub cache : IsCache api codec node_codec s.0
    pub linked : IsDoublyLinked s.0.catalog
    pub allocated_pages :
        (i : ℕ) (l : Link X) → find i s.0.catalog.links ≡ some l → is_allocated (ids_of s) i ≡ true
    pub allocated_own : is_allocated (ids_of s) s.0.id ≡ true

  module _ (extra : X) (size_of : ℕ) (default : N) (equal : N → N → Bool) where
    -- What an insertion behind `ptr` returns and leaves.
    abbrev pub IsInserted :
        Store api codec node_codec
        → N
        → ℕ
        → Link X
        → Attempt ℕ × Store api codec node_codec
        → Type 0
    IsInserted s node ptr old (panicked e, _) = ⊥
    IsInserted s node ptr old (failed e, s') = s'.0.catalog ≡ s.0.catalog
    IsInserted s node ptr old (done new_ptr, s') =
        (is_allocated (ids_of s) new_ptr ≡ false)
        × IsDiskList s'
        × IsSpliced extra s.0.catalog ptr old new_ptr s'.0.catalog
        × ((i : ℕ)
            → i ≢ s.0.id
            → view api codec node_codec s'.0 s'.1 i
              ≡ (if new_ptr == i then some node else view api codec node_codec s.0 s.1 i))

    module _ (local : LocalStore (CatalogPage X) N) (inner : Inner api) (node : N) (ptr : ℕ)
        (old : Link X) (d : IsDiskList (local, inner))
        (there : find ptr local.catalog.links ≡ some old) where
      -- The end of the insertion, after the page of the node was written.
      abbrev linking :
          ℕ → Attempt Unit × Store api codec node_codec → Attempt ℕ × Store api codec node_codec
      linking new_ptr r = continue r λ _ s2.
          continue
            (set_catalog api codec node_codec s2 (splice extra s2.0.catalog ptr old.next new_ptr))
            λ _ s3. (done new_ptr, s3)

      unused :
          (i : ℕ) → is_allocated inner.catalog.ids i ≡ false → find i local.catalog.links ≡ none
      unused i fresh = elim (Option-cases (find i local.catalog.links)) [
        | inl out ↦ out
        | inr (l, at_i) ↦ let taken = d.allocated_pages i l at_i in absurd (cc)
      ]

      not_own : (i : ℕ) → is_allocated inner.catalog.ids i ≡ false → i ≢ local.id
      not_own i fresh e = let fresh' = rw e at fresh in let taken = d.allocated_own in cc

      linking-IsInserted :
          (new_ptr : ℕ) (ids : IdAllocator) (r : Attempt Unit × Store api codec node_codec)
          → is_allocated inner.catalog.ids new_ptr ≡ false
          → ((j : ℕ) → is_allocated ids j ≡ ((j == new_ptr) || is_allocated inner.catalog.ids j))
          → IsWritten api codec node_codec local (with_ids api inner ids) new_ptr node r
          → IsInserted (local, inner) node ptr old (linking new_ptr r)
      linking-IsInserted new_ptr ids (panicked e, _) fresh grows w = absurd w
      linking-IsInserted new_ptr ids (failed e, (local2, inner2)) fresh grows w = w.1
      linking-IsInserted new_ptr ids (done _, (local2, inner2)) fresh grows
            (cache2, page2, own2, ids2, views) =
          let (page', run, linked, spliced, origins) =
            splice-IsDoublyLinked extra local.catalog ptr new_ptr old d.linked there
              (unused new_ptr fresh) in
          let run2 : splice extra local2.catalog ptr old.next new_ptr ≡ done page' = rw page2 run in
          let still : (j : ℕ)
              → is_allocated inner.catalog.ids j ≡ true
              → is_allocated inner2.catalog.ids j ≡ true =
            λ j taken. rw ids2 (ground (arith, grows j, taken)) in
          rw run2 (
            fresh,
            record {
              cache = cache2;
              linked = linked;
              allocated_pages = λ i l h. elim (origins i l h) [
                | inl at_new ↦ rw ids2 (ground (arith, grows i, at_new))
                | inr (m, at_i) ↦ still i (d.allocated_pages i m at_i)
              ];
              allocated_own = rw own2 (still local.id d.allocated_own);
            },
            spliced,
            views,
          )

    -- If the nodes serialize, the list is in order and has an id left over for a page, inserting a node
    -- behind one of the list never panics. If it fails the links are as they were. If it succeeds, the
    -- page returned was not allocated before, the list is in order again, the links of the new page and
    -- of its neighbours join it in at that place and no other link changes; and of the pages, but for
    -- that of the catalog, only the new one changes, and holds the node.
    pub insert_after-IsInserted :
        (s : Store api codec node_codec) {p : Pool} (node : N) (ptr : ℕ) (old : Link X)
        → IsTotal api codec node_codec
        → IsDiskList s
        → Refines (ids_of s) p
        → p.size + 1 < 2 ^ 64
        → find ptr s.0.catalog.links ≡ some old
        → IsInserted s node ptr old
            (insert_after api codec node_codec extra size_of default equal s node ptr)
    unfolding insert_after get_next allocate_page
    insert_after-IsInserted (local, inner) {p} node ptr old total d r room there =
        let ((id, ids), run, (fresh, grows)) = allocate_fresh r 64 room in
        rw (insert_after, get_next, there)
          (rw (allocate_page, run)
            (linking-IsInserted local inner node ptr old d there id ids _ fresh grows (
              write_page-IsWritten api codec node_codec local (with_ids api inner ids) size_of id
                node total d.cache (not_own local inner node ptr old d there id fresh))))
