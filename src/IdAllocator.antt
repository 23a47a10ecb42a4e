-- ===== src/IdAllocator.antt =====
-- utils/id_allocator/src/lib.rs: the slab allocator of page ids. `slots` is the field `data`, and an
-- id of the primitive type of `bits` bits is the number that it holds.
pub mod Pool
pub mod Refine
pub mod Laws
mod Tests
use clearned_immutable.Prelude.{
  ℕ, zero, suc, ◌+◌, ◌%◌, ◌^◌, Bool, true, false, Option, none, some, List, [], ◌∷◌, ◌++◌, length,
  get_elem?, set, Fault, Outcome, ok, fault, null_index,
}

pub record IdAllocator : Type 0 where
  pub slots : List (Option ℕ)
  pub next : ℕ

-- `self + 1`, as a release build computes it
abbrev pub increment : ℕ → ℕ → ℕ
increment bits id = (id + 1) % 2 ^ bits

-- `id as Self`
abbrev pub from_usize : ℕ → ℕ → ℕ
from_usize bits id = id % 2 ^ bits

unfoldable pub new : IdAllocator
new = record { slots = []; next = 0 }

unfoldable pub clear : IdAllocator → IdAllocator
clear a = record a { slots = []; next = 0 }

-- `entry.take()` leaves `None` in the slot
unfoldable pub allocate : ℕ → IdAllocator → Outcome (ℕ × IdAllocator)
allocate bits a = elim (get_elem? a.slots a.next) [
  | some (some n) ↦ ok (a.next, record { slots = set a.slots a.next none; next = n })
  | some none ↦ fault null_index
  | none ↦ ok (a.next, record { slots = a.slots ++ none ∷ []; next = increment bits a.next })
]

unfoldable pub free : IdAllocator → ℕ → IdAllocator × Bool
free a id = elim (get_elem? a.slots id) [
  | some none ↦ (record { slots = set a.slots id (some a.next); next = id }, true)
  | some (some _) ↦ (a, false)
  | none ↦ (a, false)
]

unfoldable pub is_allocated : IdAllocator → ℕ → Bool
is_allocated a id = elim (get_elem? a.slots id) [
  | some none ↦ true
  | some (some _) ↦ false
  | none ↦ false
]

-- The slots from `current` on, as the iterator's loop walks them: the ids it yields.
iter_from : ℕ → ℕ → List (Option ℕ) → List ℕ
iter_from bits current [] = []
iter_from bits current (some _ ∷ rest) = iter_from bits (current + 1) rest
iter_from bits current (none ∷ rest) = from_usize bits current ∷ iter_from bits (current + 1) rest

unfoldable pub iter : ℕ → IdAllocator → List ℕ
unfolding iter_from
iter bits a = iter_from bits 0 a.slots
