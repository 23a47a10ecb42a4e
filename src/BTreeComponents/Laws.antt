-- ===== src/BTreeComponents/Laws.antt =====
-- Searches in the components of core/src/classical/btree_memory/mod.rs.
use clearned_immutable.Prelude.{
  ℕ, ◌<◌, ◌≡◌, ap, ◌∙◌, none, some, List, ◌∷◌, ◌++◌, length, ◌==◌, if◌then◌else◌, ok, Returns,
}
use clearned_immutable.SortedArray.{SortedArrayEntry, capacity}
use clearned_immutable.SortedArray.Assoc.{lookup, lookup-upsert}
use clearned_immutable.SortedArray.Holds.{Holds}
use clearned_immutable.SortedArray.Lookups.{get_exact-lookup}
use clearned_immutable.SortedArray.Floor.{floor_or, first_value, get_lower_bound_always-floor}
use clearned_immutable.Node.{BTreeNode}
use clearned_immutable.MemoryList.Api.{ArenaApi}
use clearned_immutable.MemoryList.{Slot, MemoryList}
use clearned_immutable.MemoryList.Links.{Cell, IsList}
use clearned_immutable.MemoryList.Access.{holding, reads_cell}
use clearned_immutable.NodeLayer.{NodeLayer}
use clearned_immutable.BTreeMemory.Insert.{insert_room}
use clearned_immutable.BTreeComponents.{propagate, base_insert, base_search, internal_search}

module _ {V PA : Type 0} (api : ArenaApi (Slot (BTreeNode V) PA)) (size_of fanout : ℕ) where
  pub base_search-lookup :
      {layer : MemoryList api} (pre : List (Cell (BTreeNode V) PA)) (c : Cell (BTreeNode V) PA)
      (post : List (Cell (BTreeNode V) PA)) {es : List (SortedArrayEntry V)} (k : ℕ)
      → IsList api layer (pre ++ c ∷ post)
      → Holds c.contents es
      → base_search api size_of fanout layer c.id k ≡ ok (lookup k es)
  unfolding base_search
  base_search-lookup pre c post k h held =
      rw (base_search, (reads_cell api pre c post h).0) (get_exact-lookup size_of k held)

  -- After an insertion into a node of the base that is not full, a search of that node finds the new
  -- value under its key, and under the other keys what was there before. Nothing is passed on to the
  -- layer above.
  pub base_search-insert :
      {layer : MemoryList api} (pre : List (Cell (BTreeNode V) PA)) (c : Cell (BTreeNode V) PA)
      (post : List (Cell (BTreeNode V) PA)) {es : List (SortedArrayEntry V)} (k : ℕ) (v : V)
      → IsList api layer (pre ++ c ∷ post)
      → Holds c.contents es
      → length es < capacity c.contents
      → Returns (base_insert api size_of fanout layer c.id k v) λ (r, layer').
        (r ≡ none)
        × ((j : ℕ)
            → base_search api size_of fanout layer' c.id j
              ≡ ok (if k == j then some v else lookup j es))
  unfolding base_insert
  base_search-insert {layer} pre c post {es} k v h held room =
      let ((r, layer'), run, (nothing, (node, h', held', size))) =
        insert_room api size_of fanout pre c post k v h held room in
      (
        (propagate r, layer'),
        rw (base_insert, run),
        (
          ap propagate nothing,
          λ j.
              base_search-lookup pre (holding node c) post j h' held'
              ∙ ap ok (lookup-upsert j k v es held.ascending),
        ),
      )

module _ {PA B : Type 0} (api : ArenaApi (Slot (BTreeNode ℕ) PA)) (size_of fanout : ℕ)
    (below : NodeLayer B ℕ) where
  -- The search of an internal layer, at a node that is not empty, returns the value of the largest
  -- key that is at most the one searched for, or else of the first key.
  pub internal_search-floor :
      {layer : MemoryList api} (pre : List (Cell (BTreeNode ℕ) PA)) (c : Cell (BTreeNode ℕ) PA)
      (post : List (Cell (BTreeNode ℕ) PA)) {es : List (SortedArrayEntry ℕ)} (k address : ℕ)
      → IsList api layer (pre ++ c ∷ post)
      → Holds c.contents es
      → floor_or (first_value es) k es ≡ some address
      → internal_search api size_of fanout below layer c.id k ≡ ok address
  unfolding internal_search
  internal_search-floor pre c post k address h held floor =
      rw (internal_search, (reads_cell api pre c post h).0)
        (get_lower_bound_always-floor size_of k held address floor)
