-- ===== src/NodeLayer/Memory.antt =====
-- The list of core/src/common/list/memory.rs is a layer of nodes.
use clearned_immutable.Prelude.{ℕ, Outcome}
use clearned_immutable.MemoryList.Api.{ArenaApi}
use clearned_immutable.MemoryList.{Slot, MemoryList}
use clearned_immutable.MemoryList
use clearned_immutable.NodeLayer.{NodeLayer}

abbrev pub memory_layer {ℓ} :
    {N PA : Type ℓ} (api : ArenaApi (Slot N PA)) → (N → Outcome ℕ) → NodeLayer (MemoryList api) PA
memory_layer api bound = record {
  parent = MemoryList.parent api;
  set_parent = MemoryList.set_parent api;
  lower_bound = MemoryList.lower_bound api bound;
  next = MemoryList.next api;
  prev = MemoryList.prev api;
  first = λ list. list.first;
  last = λ list. list.last;
}
