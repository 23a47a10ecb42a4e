-- ===== src/DiskList/Nodes.antt =====
-- What the nodes of a list of core/src/common/list/boundary_disk.rs and deep_disk.rs hold, and the
-- reads and changes of one node.
use clearned_immutable.Prelude.{
  ℕ, ◌≡◌, ◌≢◌, ◌∙◌, refl, Bool, Option, none, some, ◌==◌, if◌then◌else◌,
}
use clearned_immutable.PageStore.Api.{MarbleApi, Codec}
use clearned_immutable.PageStore.{Attempt, done, failed, panicked}
use clearned_immutable.PageStore.Views.{view, IsCache, IsTotal}
use clearned_immutable.PageStore.Pages.{
  IsWritten, write_page-IsWritten, IsRead, read_page-IsRead, read_page-IsCache,
}
use clearned_immutable.DiskList
use clearned_immutable.DiskList.{
  CatalogPage, Store, continue, get_node, unwrap_node, transform_node,
}

-- `Good` says which addresses are nodes of a list, and `nodes` what they hold.
module _ {L N : Type 0} (Good : L → ℕ → Type 0) (nodes : L → ℕ → Option N) where
  abbrev pub Keeps : L → L → Type 0
  Keeps s s' = ((i : ℕ) → nodes s' i ≡ nodes s i) × ((i : ℕ) → Good s i → Good s' i)

  -- What a read of the node returns and leaves.
  abbrev pub IsNodeRead : L → N → Attempt (Option N) × L → Type 0
  IsNodeRead s node (done r, s') = (r ≡ some node) × Keeps s s'
  IsNodeRead s node (failed e, s') = Keeps s s'
  IsNodeRead s node (panicked e, s') = ⊥

  -- What a change of the node at `ptr` returns and leaves.
  abbrev pub IsTransformed : {T : Type 0} → L → ℕ → N → T → Attempt T × L → Type 0
  IsTransformed s ptr changed t (done r, s') =
      (r ≡ t)
      × ((i : ℕ) → Good s i → nodes s' i ≡ (if ptr == i then some changed else nodes s i))
      × ((i : ℕ) → Good s i → Good s' i)
  IsTransformed s ptr changed t (failed e, s') = Unit
  IsTransformed s ptr changed t (panicked e, s') = ⊥

module _ (api : MarbleApi) {X N : Type 0} (codec : Codec api.Bytes (CatalogPage X))
    (node_codec : Codec api.Bytes N) where
  -- The cache is in order, and the page is not that of the catalog.
  abbrev pub IsNode : Store api codec node_codec → ℕ → Type 0
  IsNode s ptr = IsCache api codec node_codec s.0 × (ptr ≢ s.0.id)

  abbrev pub shown : Store api codec node_codec → ℕ → Option N
  shown s i = view api codec node_codec s.0 s.1 i

  pub get_node-IsNodeRead :
      (s : Store api codec node_codec) (ptr : ℕ) (node : N)
      → IsNode s ptr
      → shown s ptr ≡ some node
      → IsNodeRead IsNode shown s node (get_node api codec node_codec s ptr)
  unfolding get_node
  get_node-IsNodeRead (local, inner) ptr node (cache, ne) there =
      from_read _ (read_page-IsRead api codec node_codec local inner ptr)
        (read_page-IsCache api codec node_codec local inner ptr cache ne)
    where
      from_read :
          (r : Attempt (Option N) × Store api codec node_codec)
          → IsRead api codec node_codec local inner ptr r
          → IsCache api codec node_codec r.1.0 × (r.1.0.id ≡ local.id)
          → IsNodeRead IsNode shown (local, inner) node r
      from_read (done page, s') (h, same, views) (cache', id) =
          (h ∙ there, (views, λ i good. (cache', rw id good.1)))
      from_read (failed e, s') (h, same, views) (cache', id) =
          (views, λ i good. (cache', rw id good.1))
      from_read (panicked e, s') (h, same, views) (cache', id) = h

  module _ (extra : X) (size_of : ℕ) (default : N) (equal : N → N → Bool)
      (total : IsTotal api codec node_codec) where
    pub transform_node-IsTransformed :
        {T : Type 0} (s : Store api codec node_codec) (ptr : ℕ) (node changed : N) (t : T)
        (closure : N → Attempt (N × T))
        → IsNode s ptr
        → shown s ptr ≡ some node
        → closure node ≡ done (changed, t)
        → IsTransformed IsNode shown s ptr changed t
            (transform_node api codec node_codec extra size_of default equal s ptr closure)
    unfolding transform_node
    transform_node-IsTransformed {T} s ptr node changed t closure good there change =
        from_read _ (get_node-IsNodeRead s ptr node good there)
      where
        State : Type 0
        State = Store api codec node_codec

        from_write :
            (s1 : State) (r : Attempt Unit × State)
            → Keeps IsNode shown s s1
            → IsWritten api codec node_codec s1.0 s1.1 ptr changed r
            → IsTransformed IsNode shown s ptr changed t (continue r λ _ s3. (done t, s3))
        from_write s1 (done _, s3) keeps (cache, _, id, _, views) = (
          refl,
          λ i node_i. views i (keeps.1 i node_i).1 ∙ rw (keeps.0 i) refl,
          λ i node_i. (cache, rw id (keeps.1 i node_i).1),
        )
        from_write s1 (failed e, s3) keeps h = tt
        from_write s1 (panicked e, s3) keeps h = h

        from_read :
            (r : Attempt (Option N) × State)
            → IsNodeRead IsNode shown s node r
            → IsTransformed IsNode shown s ptr changed t (
                continue (unwrap_node api codec node_codec r) λ m s1.
                  continue
                    (closure m, s1)
                    λ (m', result) s2.
                      continue
                        (DiskList.written api codec node_codec extra size_of default equal s2 m'
                          ptr)
                        λ _ s3. (done result, s3))
        from_read (done none, s1) h = absurd (cc)
        from_read (done (some m), s1) (eq, keeps) =
            let same : m ≡ node = cc in
            let good' = keeps.1 ptr good in
            rw (same, change)
              (from_write s1 _ keeps (
                write_page-IsWritten api codec node_codec s1.0 s1.1 size_of ptr changed total
                  good'.0 good'.1))
        from_read (failed e, s1) h = tt
        from_read (panicked e, s1) h = h
