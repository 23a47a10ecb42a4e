-- ===== src/BTreeMemory.antt =====
-- core/src/classical/btree_memory/layer.rs: a layer of B-tree nodes in memory. The layer is its
-- field `inner`, the list of its nodes; `fanout` is the constant `FANOUT`, and an entry of a
-- sorted array stands for the pair of a key and a value that `fill` takes.
pub mod Contents
pub mod Insert
pub mod Fill
mod Tests
use clearned_immutable.Prelude.{
  ℕ, Option, none, some, List, [], ◌∷◌, ltb, if◌then◌else◌, Outcome, ok, fault, unwrapped_none,
  ◌>>=◌,
}
use clearned_immutable.SortedArray.{SortedArrayEntry, is_full}
use clearned_immutable.SortedArray
use clearned_immutable.Node.{BTreeNode, is_half_full, min_key, split}
use clearned_immutable.Node
use clearned_immutable.MemoryList.Api.{ArenaApi}
use clearned_immutable.MemoryList.{Slot, MemoryList, clear, insert_after, index, set_index, parent}
use clearned_immutable.MemoryList

-- `Option::unwrap`
abbrev pub unwrap {ℓ} : {A : Type ℓ} → Option A → Outcome A
unwrap none = fault unwrapped_none
unwrap (some a) = ok a

module _ {ℓ} {V PA : Type ℓ} (api : ArenaApi (Slot (BTreeNode V) PA)) (size_of fanout : ℕ) where
  abbrev pub MemoryBTreeLayer : Type ℓ
  MemoryBTreeLayer = MemoryList api

  unfoldable pub empty : MemoryBTreeLayer
  empty = MemoryList.empty api (Node.empty fanout)

  -- `self.inner[ptr].insert(key, value)`
  unfoldable pub insert_in_node : MemoryBTreeLayer → ℕ → ℕ → V → Outcome MemoryBTreeLayer
  insert_in_node layer ptr key value = do
    node ← index api layer ptr
    (_, node') ← SortedArray.insert size_of node key value
    set_index api layer ptr node'

  -- The node to go on with: the one at `ptr`, or a new one behind it.
  unfoldable pub carry_over : ℕ → MemoryBTreeLayer → Outcome (ℕ × MemoryBTreeLayer)
  carry_over ptr layer = do
    node ← index api layer ptr
    if is_half_full node then insert_after api (Node.empty fanout) ptr layer else ok (ptr, layer)

  unfoldable pub fill_from :
      List (SortedArrayEntry V) → ℕ → MemoryBTreeLayer → Outcome MemoryBTreeLayer
  fill_from [] ptr layer = ok layer
  fill_from (e ∷ iter) ptr layer = do
    (ptr', layer') ← carry_over ptr layer
    layer'' ← insert_in_node layer' ptr' e.key e.value
    fill_from iter ptr' layer''

  unfoldable pub fill : MemoryBTreeLayer → List (SortedArrayEntry V) → Outcome MemoryBTreeLayer
  fill layer iter =
      let (ptr, layer') = clear api (Node.empty fanout) layer in fill_from iter ptr layer'

  -- The branch of `insert` for a full node.
  unfoldable pub split_insert :
      MemoryBTreeLayer → BTreeNode V → ℕ → V → ℕ → Outcome (Option (ℕ × ℕ × PA) × MemoryBTreeLayer)
  split_insert layer node key value ptr = do
    above ← parent api layer ptr
    parent ← unwrap above
    (split_point, node', new_node) ← split node
    layer₁ ← set_index api layer ptr node'
    (new_node_ptr, layer₂) ← insert_after api new_node ptr layer₁
    layer₃ ← insert_in_node layer₂ (if ltb key split_point then ptr else new_node_ptr) key value
    right ← index api layer₃ new_node_ptr
    bound ← min_key right
    ok (some (bound, new_node_ptr, parent), layer₃)

  unfoldable pub insert :
      MemoryBTreeLayer → ℕ → V → ℕ → Outcome (Option (ℕ × ℕ × PA) × MemoryBTreeLayer)
  insert layer key value ptr = do
    node ← index api layer ptr
    let room = insert_in_node layer ptr key value >>= λ layer'. ok (none, layer')
    if is_full node then split_insert layer node key value ptr else room
