-- ===== src/BTreeComponents.antt =====
-- core/src/classical/btree_memory (layer.rs and mod.rs) and btree_top.rs: the components of a store
-- that are B-trees in memory. The layer below is a `NodeLayer` whose parents are addresses of this
-- one. The maps of the standard library are lists of entries in ascending order of the keys.
pub mod Laws
mod Tests
use clearned_immutable.Prelude.{
  ℕ, zero, suc, Option, none, some, List, [], ◌∷◌, ltb, leb, if◌then◌else◌, Outcome, ok, fault,
  unwrapped_none, not_implemented, endless, ◌>>=◌,
}
use clearned_immutable.SortedArray.{
  SortedArrayEntry, entry, is_full, entries, get_exact, get_lower_bound_always,
}
use clearned_immutable.SortedArray.Assoc.{upsert}
use clearned_immutable.Node.{BTreeNode, min_key, split}
use clearned_immutable.Node
use clearned_immutable.MemoryList.Api.{ArenaApi}
use clearned_immutable.MemoryList.{Slot, clear, insert_after, index, set_index, parent}
use clearned_immutable.NodeLayer.{NodeLayer, Iter, unbounded, range_mut, step_mut, set_view}
use clearned_immutable.BTreeMemory.{MemoryBTreeLayer, unwrap, insert_in_node, carry_over}
use clearned_immutable.BTreeMemory

pub data PropagateInsert (PA : Type 0) : Type 0 where
  single : ℕ → ℕ → PA → PropagateInsert PA
  replace : PA → PA → PropagateInsert PA

-- The result of an insertion that a layer passes on: `Option::map` to `PropagateInsert::Single`.
abbrev pub propagate : {PA : Type 0} → Option (ℕ × ℕ × PA) → Option (PropagateInsert PA)
propagate none = none
propagate (some (key, address, parent)) = some (single key address parent)

module _ {PA B : Type 0} (api : ArenaApi (Slot (BTreeNode ℕ) PA)) (size_of fanout : ℕ)
    (below : NodeLayer B ℕ) where
  -- `base.set_parent(entry.value, ptr)` for each of the entries.
  unfoldable pub set_parents : List (SortedArrayEntry ℕ) → ℕ → B → Outcome B
  set_parents [] ptr base = ok base
  set_parents (e ∷ es) ptr base = do
    base' ← below.set_parent base e.value ptr
    set_parents es ptr base'

  -- The loop of `fill_with_parent`. A loop that is still running at the end of the fuel is a fault.
  unfoldable pub fill_with_parent_from :
      ℕ
      → Iter
      → ℕ
      → MemoryBTreeLayer api size_of fanout
      → B
      → Outcome (MemoryBTreeLayer api size_of fanout × B)
  fill_with_parent_from zero iter ptr layer base = fault endless
  fill_with_parent_from (suc fuel) iter ptr layer base = do
    (item, iter') ← step_mut below base iter
    elim item [
      | none ↦ ok (layer, base)
      | some (key, address) ↦ do
        (ptr', layer') ← carry_over api size_of fanout ptr layer
        layer'' ← insert_in_node api size_of fanout layer' ptr' key address
        base' ← set_view below base address ptr'
        fill_with_parent_from fuel iter' ptr' layer'' base'
    ]

  unfoldable pub fill_with_parent :
      ℕ
      → MemoryBTreeLayer api size_of fanout
      → B
      → Outcome (MemoryBTreeLayer api size_of fanout × B)
  fill_with_parent fuel layer base =
      let (ptr, layer') = clear api (Node.empty fanout) layer in
      range_mut below base unbounded unbounded >>= λ iter.
      fill_with_parent_from fuel iter ptr layer' base

  -- The branch of `insert_with_parent` for a full node.
  unfoldable pub split_insert_with_parent :
      MemoryBTreeLayer api size_of fanout
      → BTreeNode ℕ
      → ℕ
      → ℕ
      → B
      → ℕ
      → Outcome (Option (ℕ × ℕ × PA) × MemoryBTreeLayer api size_of fanout × B)
  split_insert_with_parent layer node key value base ptr = do
    above ← parent api layer ptr
    parent ← unwrap above
    (split_point, node', new_node) ← split node
    layer₁ ← set_index api layer ptr node'
    (new_node_ptr, layer₂) ← insert_after api new_node ptr layer₁
    moved ← entries new_node
    base₁ ← set_parents moved new_node_ptr base
    let target = if ltb key split_point then ptr else new_node_ptr
    layer₃ ← insert_in_node api size_of fanout layer₂ target key value
    base₂ ← below.set_parent base₁ value target
    right ← index api layer₃ new_node_ptr
    bound ← min_key right
    ok (some (bound, new_node_ptr, parent), layer₃, base₂)

  unfoldable pub insert_with_parent :
      MemoryBTreeLayer api size_of fanout
      → ℕ
      → ℕ
      → B
      → ℕ
      → Outcome (Option (ℕ × ℕ × PA) × MemoryBTreeLayer api size_of fanout × B)
  insert_with_parent layer key value base ptr = do
    node ← index api layer ptr
    let room = insert_in_node api size_of fanout layer ptr key value >>= λ layer'.
        below.set_parent base value ptr >>= λ base'. ok (none, layer', base')
    if is_full node then split_insert_with_parent layer node key value base ptr else room

  unfoldable pub internal_search : MemoryBTreeLayer api size_of fanout → ℕ → ℕ → Outcome ℕ
  internal_search layer ptr key = do
    node ← index api layer ptr
    get_lower_bound_always size_of node key

  unfoldable pub internal_insert :
      MemoryBTreeLayer api size_of fanout
      → B
      → PropagateInsert ℕ
      → Outcome (Option (PropagateInsert PA) × MemoryBTreeLayer api size_of fanout × B)
  internal_insert layer base (single key address ptr) = do
    (r, layer', base') ← insert_with_parent layer key address base ptr
    ok (propagate r, layer', base')
  internal_insert layer base (replace from to) = fault not_implemented

  unfoldable pub internal_build : ℕ → B → Outcome (MemoryBTreeLayer api size_of fanout × B)
  internal_build fuel base = fill_with_parent fuel (BTreeMemory.empty api size_of fanout) base

module _ {V PA : Type 0} (api : ArenaApi (Slot (BTreeNode V) PA)) (size_of fanout : ℕ) where
  unfoldable pub base_insert :
      MemoryBTreeLayer api size_of fanout
      → ℕ
      → ℕ
      → V
      → Outcome (Option (PropagateInsert PA) × MemoryBTreeLayer api size_of fanout)
  base_insert layer ptr key value = do
    (r, layer') ← BTreeMemory.insert api size_of fanout layer key value ptr
    ok (propagate r, layer')

  unfoldable pub base_search : MemoryBTreeLayer api size_of fanout → ℕ → ℕ → Outcome (Option V)
  base_search layer ptr key = do node ← index api layer ptr; get_exact size_of node key

  unfoldable pub base_empty : MemoryBTreeLayer api size_of fanout
  base_empty = BTreeMemory.empty api size_of fanout

  unfoldable pub base_build :
      List (SortedArrayEntry V) → Outcome (MemoryBTreeLayer api size_of fanout)
  base_build iter = BTreeMemory.fill api size_of fanout (BTreeMemory.empty api size_of fanout) iter

-- `inner.range(..=key).next_back()`
abbrev pub last_at_most : ℕ → List (SortedArrayEntry ℕ) → Option ℕ
last_at_most key [] = none
last_at_most key (e ∷ es) =
    let rest = last_at_most key es in
    if leb e.key key then elim rest [ none ↦ some e.value | some v ↦ some v ] else none

-- The first entry is unwrapped in any case.
unfoldable pub top_search : List (SortedArrayEntry ℕ) → ℕ → Outcome ℕ
top_search [] key = fault unwrapped_none
top_search (e ∷ es) key = elim (last_at_most key (e ∷ es)) [ none ↦ ok e.value | some v ↦ ok v ]

module _ {B : Type 0} (below : NodeLayer B Unit) where
  unfoldable pub top_insert :
      List (SortedArrayEntry ℕ) → B → PropagateInsert Unit → Outcome (List (SortedArrayEntry ℕ) × B)
  top_insert inner base (single key address _) = do
    base' ← below.set_parent base address tt
    ok (upsert key address inner, base')
  top_insert inner base (replace from to) = fault not_implemented

  unfoldable pub top_build_from :
      ℕ → Iter → List (SortedArrayEntry ℕ) → B → Outcome (List (SortedArrayEntry ℕ) × B)
  top_build_from zero iter inner base = fault endless
  top_build_from (suc fuel) iter inner base = do
    (item, iter') ← step_mut below base iter
    elim item [
      | none ↦ ok (inner, base)
      | some (key, address) ↦ do
        base' ← set_view below base address tt
        top_build_from fuel iter' (upsert key address inner) base'
    ]

  unfoldable pub top_build : ℕ → B → Outcome (List (SortedArrayEntry ℕ) × B)
  top_build fuel base =
      range_mut below base unbounded unbounded >>= λ iter. top_build_from fuel iter [] base
