-- ===== src/IdAllocator/Pool.antt =====
-- What the allocator of utils/id_allocator/src/lib.rs promises: a stack of free ids below a size.
use clearned_immutable.Prelude.{
  ℕ, ◌+◌, Bool, true, false, not, ◌&&◌, ◌||◌, List, [], ◌∷◌, ltb, ◌==◌, if◌then◌else◌,
}

pub record Pool : Type 0 where
  pub free_ids : List ℕ
  pub size : ℕ

abbrev pub has : ℕ → List ℕ → Bool
has i [] = false
has i (f ∷ fs) = (i == f) || has i fs

abbrev pub in_use : Pool → ℕ → Bool
in_use p i = ltb i p.size && not (has i p.free_ids)

-- The most recently freed id, or else the next unused number.
abbrev pub take_id : Pool → ℕ × Pool
take_id p = elim p.free_ids [
  | [] ↦ (p.size, record { free_ids = []; size = p.size + 1 })
  | f ∷ fs ↦ (f, record { free_ids = fs; size = p.size })
]

abbrev pub give_back : Pool → ℕ → Pool × Bool
give_back p i =
    if in_use p i then (record { free_ids = i ∷ p.free_ids; size = p.size }, true) else (p, false)
