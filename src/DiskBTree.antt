-- ===== src/DiskBTree.antt =====
-- core/src/classical/btree_disk/boundary_layer.rs and deep_layer.rs: layers of B-tree nodes on disk.
-- Both have the same statements on their list, which is the parameter `ops`, but for `fill`. The
-- layer is its field `inner`, the list.
pub mod Parents
pub mod Layers
pub mod Loading
pub mod Laws
pub mod Stores
mod Tests
use clearned_immutable.Prelude.{
  ℕ, zero, suc, Option, none, some, List, [], ◌∷◌, ltb, if◌then◌else◌, Outcome, ok, fault,
  unwrapped_none, endless,
}
use clearned_immutable.SortedArray.{SortedArrayEntry, is_full, entries}
use clearned_immutable.SortedArray
use clearned_immutable.Node.{BTreeNode, is_half_full, min_key, split}
use clearned_immutable.Node
use clearned_immutable.NodeLayer.{NodeLayer, Iter, unbounded, range_mut, step_mut, set_view}
use clearned_immutable.PageStore.{Attempt, done, failed, panicked}
use clearned_immutable.DiskList.{continue}

-- What the layers use of a list on disk.
pub record DiskListOps (L N PA : Type 0) : Type 1 where
  pub is_empty : L → Attempt (Option ℕ) × L
  pub clear : L → Attempt ℕ × L
  pub get_node : L → ℕ → Attempt (Option N) × L
  pub transform_node : (T : Type 0) → L → ℕ → (N → Attempt (N × T)) → Attempt T × L
  pub insert_after : L → N → ℕ → Attempt ℕ × L
  pub parent : L → ℕ → Attempt (Option PA)

-- A run of code that may only panic.
abbrev pub attempt : {A : Type 0} → Outcome A → Attempt A
attempt (ok a) = done a
attempt (fault e) = panicked e

abbrev pub unwrapped : {A S : Type 0} → Attempt (Option A) × S → Attempt A × S
unwrapped (done (some a), s) = (done a, s)
unwrapped (done none, s) = (panicked unwrapped_none, s)
unwrapped (failed e, s) = (failed e, s)
unwrapped (panicked e, s) = (panicked e, s)

module _ {V : Type 0} where
  -- The node after an insertion, and the previous value.
  abbrev pub inserted : Attempt (Option V × BTreeNode V) → Attempt (BTreeNode V × Option V)
  inserted (done (old, node)) = done (node, old)
  inserted (failed e) = failed e
  inserted (panicked e) = panicked e

  abbrev pub divided :
      Attempt (ℕ × BTreeNode V × BTreeNode V) → Attempt (BTreeNode V × (ℕ × BTreeNode V))
  divided (done (point, left, right)) = done (left, (point, right))
  divided (failed e) = failed e
  divided (panicked e) = panicked e

module _ {L V PA : Type 0} (ops : DiskListOps L (BTreeNode V) PA) (size_of fanout : ℕ) where
  -- `get_node(ptr)?.unwrap()`, the method `get_node` of the layer
  unfoldable pub get_node : L → ℕ → Attempt (BTreeNode V) × L
  get_node layer ptr = unwrapped (ops.get_node layer ptr)

  unfoldable pub insert_into_node : L → ℕ → V → ℕ → Attempt (Option V) × L
  insert_into_node layer key value ptr =
      ops.transform_node (Option V) layer ptr
        λ node. inserted (attempt (SortedArray.insert size_of node key value))

  -- The node to go on with: the one at `ptr`, or a new one behind it.
  unfoldable pub carry_over : ℕ → L → Attempt ℕ × L
  carry_over ptr layer = continue (get_node layer ptr) λ node layer'.
      if is_half_full node
      then ops.insert_after layer' (Node.empty fanout) ptr
      else (done ptr, layer')

  unfoldable pub fill_from : List (SortedArrayEntry V) → ℕ → L → Attempt Unit × L
  fill_from [] ptr layer = (done tt, layer)
  fill_from (e ∷ iter) ptr layer = continue (carry_over ptr layer) λ ptr' layer1.
      continue (insert_into_node layer1 e.key e.value ptr') λ _ layer2. fill_from iter ptr' layer2

  -- `fill` of the boundary layer fills an empty layer only, that of the deep layer clears it first.
  unfoldable pub fill_boundary : L → List (SortedArrayEntry V) → Attempt Unit × L
  fill_boundary layer iter =
      continue (ops.is_empty layer) λ first layer'. elim first [
        | none ↦ (done tt, layer')
        | some ptr ↦ fill_from iter ptr layer'
      ]

  unfoldable pub fill_deep : L → List (SortedArrayEntry V) → Attempt Unit × L
  fill_deep layer iter = continue (ops.clear layer) λ ptr layer'. fill_from iter ptr layer'

  -- The least key of the new node, and its address, go to the layer above.
  abbrev pub report : L → ℕ → PA → Attempt (Option (ℕ × ℕ × PA)) × L
  report layer new_node_ptr parent = continue (get_node layer new_node_ptr) λ node layer1.
      continue (attempt (min_key node), layer1)
        λ bound layer2. (done (some (bound, new_node_ptr, parent)), layer2)

  -- The branch of `insert` for a full node.
  unfoldable pub split_insert : L → ℕ → V → ℕ → Attempt (Option (ℕ × ℕ × PA)) × L
  split_insert layer key value ptr =
      continue (unwrapped (ops.parent layer ptr, layer)) λ parent layer0.
        continue
          (ops.transform_node (ℕ × BTreeNode V) layer0 ptr λ node. divided (attempt (split node)))
          λ (split_point, new_node) layer1.
            continue (ops.insert_after layer1 new_node ptr) λ new_node_ptr layer2.
              let target = if ltb key split_point then ptr else new_node_ptr in
              continue (insert_into_node layer2 key value target)
                λ _ layer3. report layer3 new_node_ptr parent

  unfoldable pub insert : L → ℕ → V → ℕ → Attempt (Option (ℕ × ℕ × PA)) × L
  insert layer key value ptr = continue (get_node layer ptr) λ node layer'.
      let room = continue (insert_into_node layer' key value ptr) λ _ layer1. (done none, layer1) in
      if is_full node then split_insert layer' key value ptr else room
