-- ===== src/MemoryList.antt =====
-- core/src/common/list/memory.rs: the doubly linked list of the nodes of a layer, in an arena. The
-- arena is of the library generational_arena: here it is the parameter `api`.
pub mod Api
pub mod Links
pub mod Access
pub mod Runs
pub mod Inserts
pub mod Front
pub mod Growing
mod Tests
use clearned_immutable.Prelude.{ℕ, Option, none, some, Outcome, ok, fault, unreachable_id, ◌>>=◌}
use clearned_immutable.MemoryList.Api.{ArenaApi}

pub record MemoryNode {ℓ} (N : Type ℓ) : Type ℓ where
  pub inner : N
  pub next : Option ℕ
  pub previous : Option ℕ

-- What the arena stores: a node, and the address of its parent in the layer above.
abbrev pub Slot {ℓ κ} : Type ℓ → Type κ → Type (ℓ ⊔ κ)
Slot N PA = MemoryNode N × Option PA

abbrev pub new_node {ℓ} : {N : Type ℓ} → N → MemoryNode N
new_node node = record { inner = node; next = none; previous = none }

module _ {ℓ} {N PA : Type ℓ} (api : ArenaApi (Slot N PA)) where
  pub record MemoryList : Type ℓ where
    pub arena : api.Arena
    pub first : ℕ
    pub last : ℕ

  -- `self.arena[ptr]`, which panics at an index that the arena does not hold
  abbrev pub fetch : api.Arena → ℕ → Outcome (Slot N PA)
  fetch arena ptr = elim (api.get arena ptr) [ none ↦ fault unreachable_id | some s ↦ ok s ]

  -- `self.arena[ptr].0.next = link`, and the same for `previous`
  unfoldable pub set_next : api.Arena → ℕ → Option ℕ → Outcome api.Arena
  set_next arena ptr link = do
    (node, parent) ← fetch arena ptr
    ok (api.put arena ptr (record node { next = link }, parent))

  unfoldable pub set_previous : api.Arena → ℕ → Option ℕ → Outcome api.Arena
  set_previous arena ptr link = do
    (node, parent) ← fetch arena ptr
    ok (api.put arena ptr (record node { previous = link }, parent))

  -- `default` is the default node
  unfoldable pub empty : N → MemoryList
  empty default =
      let (ptr, arena) = api.insert api.empty (new_node default, none) in
      record { arena = arena; first = ptr; last = ptr }

  unfoldable pub clear : N → MemoryList → ℕ × MemoryList
  clear default list =
      let (ptr, arena) = api.insert (api.clear list.arena) (new_node default, none) in
      (ptr, record { arena = arena; first = ptr; last = ptr })

  unfoldable pub insert_after : N → ℕ → MemoryList → Outcome (ℕ × MemoryList)
  unfolding set_next set_previous
  insert_after node ptr list = do
    (old, _) ← fetch list.arena ptr
    let next_ptr = old.next
    let fresh = record (new_node node) { previous = some ptr; next = next_ptr }
    let (new_node_ptr, arena) = api.insert list.arena (fresh, none)
    arena' ← set_next arena ptr (some new_node_ptr)
    elim next_ptr [
      | some next_ptr ↦ do
        arena'' ← set_previous arena' next_ptr (some new_node_ptr)
        ok (new_node_ptr, record list { arena = arena'' })
      | none ↦ ok (new_node_ptr, record list { arena = arena'; last = new_node_ptr })
    ]

  unfoldable pub insert_before : N → ℕ → MemoryList → Outcome (ℕ × MemoryList)
  unfolding set_next set_previous
  insert_before node ptr list = do
    (old, _) ← fetch list.arena ptr
    let previous_ptr = old.previous
    let fresh = record (new_node node) { previous = previous_ptr; next = some ptr }
    let (new_node_ptr, arena) = api.insert list.arena (fresh, none)
    arena' ← set_previous arena ptr (some new_node_ptr)
    elim previous_ptr [
      | some previous_ptr ↦ do
        arena'' ← set_next arena' previous_ptr (some new_node_ptr)
        ok (new_node_ptr, record list { arena = arena'' })
      | none ↦ ok (new_node_ptr, record list { arena = arena'; first = new_node_ptr })
    ]

  unfoldable pub list_len : MemoryList → ℕ
  list_len list = api.len list.arena

  -- `list[index]`, read and written
  unfoldable pub index : MemoryList → ℕ → Outcome N
  index list ptr = do (node, _) ← fetch list.arena ptr; ok node.inner

  unfoldable pub set_index : MemoryList → ℕ → N → Outcome MemoryList
  set_index list ptr inner = do
    (node, parent) ← fetch list.arena ptr
    ok (record list { arena = api.put list.arena ptr (record node { inner = inner }, parent) })

  unfoldable pub parent : MemoryList → ℕ → Outcome (Option PA)
  parent list ptr = do (_, parent) ← fetch list.arena ptr; ok parent

  unfoldable pub set_parent : MemoryList → ℕ → PA → Outcome MemoryList
  set_parent list ptr parent = do
    (node, _) ← fetch list.arena ptr
    ok (record list { arena = api.put list.arena ptr (node, some parent) })

  unfoldable pub next : MemoryList → ℕ → Outcome (Option ℕ)
  next list ptr = do (node, _) ← fetch list.arena ptr; ok node.next

  unfoldable pub prev : MemoryList → ℕ → Outcome (Option ℕ)
  prev list ptr = do (node, _) ← fetch list.arena ptr; ok node.previous

  -- `bound` is `KeyBounded::lower_bound` of the nodes
  unfoldable pub lower_bound : (N → Outcome ℕ) → MemoryList → ℕ → Outcome ℕ
  lower_bound bound list ptr = do (node, _) ← fetch list.arena ptr; bound node.inner
