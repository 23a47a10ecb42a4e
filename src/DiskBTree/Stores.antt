-- ===== src/DiskBTree/Stores.antt =====
-- `insert` and the components of core/src/classical/btree_disk at a node that is not full.
use clearned_immutable.Prelude.{
  ℕ, ◌<◌, ◌≡◌, ◌⊎◌, inl, inr, ◌∙◌, refl, false, Option, none, some, List, arith, length, ◌==◌,
  if◌then◌else◌,
}
use clearned_immutable.SortedArray.{SortedArrayEntry, capacity, is_full, get_exact}
use clearned_immutable.SortedArray
use clearned_immutable.SortedArray.Assoc.{lookup, upsert}
use clearned_immutable.SortedArray.Holds.{Holds}
use clearned_immutable.SortedArray.Insert.{insert-upsert}
use clearned_immutable.SortedArray.Lookups.{is_full-length, get_exact-lookup}
use clearned_immutable.Node.{BTreeNode}
use clearned_immutable.BTreeComponents.{PropagateInsert}
use clearned_immutable.PageStore.{StoreError, Attempt, done, failed, panicked}
use clearned_immutable.DiskList.{continue}
use clearned_immutable.DiskList.Nodes.{Keeps, IsNodeRead, IsTransformed}
use clearned_immutable.DiskBTree.{
  DiskListOps, attempt, unwrapped, inserted, get_node, insert_into_node, split_insert, insert,
}
use clearned_immutable.DiskBTree.Parents.{base_search}
use clearned_immutable.DiskBTree.Laws.{DiskListLaws}

module _ {L V PA : Type 0} {ops : DiskListOps L (BTreeNode V) PA} (laws : DiskListLaws ops)
    (size_of fanout : ℕ) where
  -- What the search for a key in the node at `ptr` with the entries `es` returns and leaves: an error
  -- is that of the read of the node.
  abbrev pub IsFound : L → ℕ → ℕ → List (SortedArrayEntry V) → Attempt (Option V) × L → Type 0
  IsFound layer ptr key es (done r, layer') =
      (r ≡ lookup key es) × Keeps laws.Good laws.nodes layer layer'
  IsFound layer ptr key es (failed e, layer') =
      (ops.get_node layer ptr ≡ (failed e, layer')) × Keeps laws.Good laws.nodes layer layer'
  IsFound layer ptr key es (panicked e, _) = ⊥

  -- The search in a node of a layer never panics, and fails only as the read of the node does. Where
  -- it does not fail, it returns what the map that the node holds has under the key. It changes no
  -- node.
  pub base_search-IsFound :
      (layer : L) (ptr key : ℕ) (node : BTreeNode V) (es : List (SortedArrayEntry V))
      → laws.Good layer ptr
      → laws.nodes layer ptr ≡ some node
      → Holds node es
      → IsFound layer ptr key es (base_search ops size_of fanout layer ptr key)
  unfolding base_search get_node
  base_search-IsFound layer ptr key node es good there held =
      from_read _ refl (laws.get_node_law layer ptr node good there)
    where
      from_read :
          (r : Attempt (Option (BTreeNode V)) × L)
          → ops.get_node layer ptr ≡ r
          → IsNodeRead laws.Good laws.nodes layer node r
          → IsFound layer ptr key es
              (continue (unwrapped r) λ m layer1. (attempt (get_exact size_of m key), layer1))
      from_read (done none, layer1) run h = absurd (cc)
      from_read (done (some m), layer1) run (eq, keeps) =
          let same : m ≡ node = cc in rw (same, get_exact-lookup size_of key held) (refl, keeps)
      from_read (failed e, layer1) run h = (run, h)
      from_read (panicked e, layer1) run h = h

  -- How the store fails in an insertion: in the read of the node, which keeps every node, or in the
  -- write of the changed node, after which nothing is known of the nodes.
  abbrev pub HasStoreFailed : L → ℕ → ℕ → V → BTreeNode V → StoreError → L → Type 0
  HasStoreFailed layer ptr key value node e layer' =
      ((ops.get_node layer ptr ≡ (failed e, layer')) × Keeps laws.Good laws.nodes layer layer')
      ⊎ ((layer1 : L) × (ops.get_node layer ptr ≡ (done (some node), layer1))
          × Keeps laws.Good laws.nodes layer layer1
          × (insert_into_node ops size_of fanout layer1 key value ptr ≡ (failed e, layer')))

  -- What an insertion into the node at `ptr`, with the entries `es`, returns and leaves.
  abbrev pub IsStored :
      L
      → ℕ
      → ℕ
      → V
      → BTreeNode V
      → List (SortedArrayEntry V)
      → Attempt (Option (ℕ × ℕ × PA)) × L
      → Type 0
  IsStored layer ptr key value node es (done r, layer') =
      (r ≡ none)
      × ((changed : BTreeNode V) × Holds changed (upsert key value es)
          × (capacity changed ≡ capacity node)
          × ((i : ℕ)
              → laws.Good layer i
              → laws.nodes layer' i ≡ (if ptr == i then some changed else laws.nodes layer i)))
      × ((i : ℕ) → laws.Good layer i → laws.Good layer' i)
  IsStored layer ptr key value node es (failed e, layer') =
      HasStoreFailed layer ptr key value node e layer'
  IsStored layer ptr key value node es (panicked e, _) = ⊥

  module _ (layer : L) (ptr key : ℕ) (value : V) (node : BTreeNode V)
      (es : List (SortedArrayEntry V)) (good : laws.Good layer ptr)
      (there : laws.nodes layer ptr ≡ some node) (held : Holds node es)
      (room : length es < capacity node) where
    from_change :
        (layer1 : L) (old : Option V) (changed : BTreeNode V) (r : Attempt (Option V) × L)
        → ops.get_node layer ptr ≡ (done (some node), layer1)
        → insert_into_node ops size_of fanout layer1 key value ptr ≡ r
        → Keeps laws.Good laws.nodes layer layer1
        → Holds changed (upsert key value es)
        → capacity changed ≡ capacity node
        → IsTransformed laws.Good laws.nodes layer1 ptr changed old r
        → IsStored layer ptr key value node es (continue r λ _ layer2. (done none, layer2))
    from_change layer1 old changed (done _, layer2) read run keeps held' cap (_, nodes', good') = (
      refl,
      (changed, held', cap, λ i good_i. nodes' i (keeps.1 i good_i) ∙ rw (keeps.0 i) refl),
      λ i good_i. good' i (keeps.1 i good_i),
    )
    from_change layer1 old changed (failed e, _) read run keeps held' cap h =
        inr (layer1, read, keeps, run)
    from_change layer1 old changed (panicked e, _) read run keeps held' cap h = h

    from_read :
        (r : Attempt (Option (BTreeNode V)) × L)
        → ops.get_node layer ptr ≡ r
        → IsNodeRead laws.Good laws.nodes layer node r
        → IsStored layer ptr key value node es (
            continue (unwrapped r) λ m layer'.
              let room =
                continue
                  (insert_into_node ops size_of fanout layer' key value ptr)
                  λ _ layer1. (done none, layer1) in
              if is_full m then split_insert ops size_of fanout layer' key value ptr else room)
    unfolding insert_into_node
    from_read (done none, layer1) read h = absurd (cc)
    from_read (done (some m), layer1) read (eq, keeps) =
        let same : m ≡ node = cc in
        let not_full : is_full node ≡ false = (is_full-length held).0 ∙ ground arith in
        let ((old, changed), run, (_, held', cap)) =
          insert-upsert size_of key value held (λ absent. room) in
        let change : inserted (attempt (SortedArray.insert size_of node key value))
            ≡ done (changed, old) =
          rw run in
        rw (same, not_full)
          (from_change layer1 old changed _ (rw same at read) refl keeps held' cap (
            laws.transform_node_law layer1 ptr node changed old _ (keeps.1 ptr good)
              (keeps.0 ptr ∙ there) change))
    from_read (failed e, layer1) read h = inl (read, h)
    from_read (panicked e, layer1) read h = h

    -- What the base component returns, and what a search in the node then finds.
    abbrev pub IsSearchable : Attempt (Option (PropagateInsert PA)) × L → Type 0
    IsSearchable (done r, layer') =
        (r ≡ none)
        × ((key' : ℕ)
            → IsFound layer' ptr key' (upsert key value es)
                (base_search ops size_of fanout layer' ptr key'))
    IsSearchable (failed e, layer') = HasStoreFailed layer ptr key value node e layer'
    IsSearchable (panicked e, _) = ⊥
