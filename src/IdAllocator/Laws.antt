-- ===== src/IdAllocator/Laws.antt =====
-- What callers of utils/id_allocator/src/lib.rs rely on, read off the refinement of the pool.
use native.Mathlib.Nat.{mod-eq_of_lt, mod_self}
use clearned_immutable.Prelude.{
  zero, suc, ℕ, ◌+◌, ◌^◌, ◌%◌, ◌<◌, ◌≤◌, ◌≡◌, refl, sym, ◌∙◌, inl, inr, true, false, not, ◌&&◌,
  ◌||◌, Option, none, some, List, [], ◌∷◌, ◌++◌, arith, length, get_elem?, set, ◌==◌, Bool-cases,
  if◌then◌else◌, ok, fault, null_index, Returns, get_elem?-ge, get_elem?-set, get_elem?-append_last,
  set-set_back,
}
use clearned_immutable.IdAllocator.{
  IdAllocator, increment, allocate, free, is_allocated, new, clear, iter, iter_from,
}
use clearned_immutable.IdAllocator.Pool.{Pool, has, in_use, take_id, give_back}
use clearned_immutable.IdAllocator.Refine.{
  Refines, slot_of_in_use, allocate-Refines, free-Refines, is_allocated-in_use,
}

-- A free id is below the size, and stands once in the stack.
below : {a : IdAllocator} {p : Pool} (i : ℕ) → Refines a p → has i p.free_ids ≡ true → i < p.size
below {a} {p} i r h = ground (arith, r.free_exactly i, r.size, get_elem?-ge a.slots i)

-- Allocating takes a free id, and makes no other change.
take_id-in_use :
    (a : IdAllocator) (fs : List ℕ) (size : ℕ) (j : ℕ)
    → Refines a (record { free_ids = fs; size = size })
    → let p : Pool = record { free_ids = fs; size = size } in
      (in_use p (take_id p).0 ≡ false)
      × (in_use (take_id p).1 j ≡ ((j == (take_id p).0) || in_use p j))
take_id-in_use a [] size j r = (ground arith, ground arith)
take_id-in_use a (f ∷ fs) size j r =
    let once = r.chain.1 in (ground arith, ground (arith, below f r))

give_back-in_use :
    (p : Pool) (i j : ℕ)
    → ((give_back p i).1 ≡ in_use p i) × (in_use (give_back p i).0 j ≡ (in_use p j && not (j == i)))
give_back-in_use p i j = elim (Bool-cases (in_use p i)) [
  | inl used ↦ (rw (used, if◌then◌else◌), rw used (ground arith))
  | inr idle ↦ (rw idle, rw idle (ground arith))
]

module _ {a : IdAllocator} {p : Pool} (r : Refines a p) where
  -- If the type has an id left over, `allocate` does not panic, returns an id that was not
  -- allocated, and allocates that id only.
  pub allocate_fresh :
      (bits : ℕ)
      → p.size + 1 < 2 ^ bits
      → Returns (allocate bits a) λ (id, a').
        (is_allocated a id ≡ false)
        × ((j : ℕ) → is_allocated a' j ≡ ((j == id) || is_allocated a j))
  allocate_fresh bits room =
      let ((id, a'), run, (same, r')) = allocate-Refines bits a p.free_ids p.size room r in
      (
        (id, a'),
        run,
        (
          is_allocated-in_use a p id r ∙ rw same (take_id-in_use a p.free_ids p.size 0 r).0,
          λ j.
              rw (is_allocated-in_use a' _ j r', is_allocated-in_use a p j r, same)
                (take_id-in_use a p.free_ids p.size j r).1,
        ),
      )

  -- `free` says whether the id was allocated, and deallocates that id only.
  pub free_exact :
      (id : ℕ)
      → ((free a id).1 ≡ is_allocated a id)
        × ((j : ℕ) → is_allocated (free a id).0 j ≡ (is_allocated a j && not (j == id)))
  free_exact id =
      let (same, r') = free-Refines a p id r in
      (
        same ∙ (give_back-in_use p id 0).0 ∙ sym (is_allocated-in_use a p id r),
        λ j.
            rw (is_allocated-in_use _ _ j r', is_allocated-in_use a p j r)
              (give_back-in_use p id j).1,
      )

-- Freeing an allocated id and allocating again gives that id, and the state from before.
pub allocate-free :
    (bits id : ℕ) (a : IdAllocator)
    → is_allocated a id ≡ true
    → allocate bits (free a id).0 ≡ ok (id, a)
unfolding is_allocated
allocate-free bits id a used =
    let at : get_elem? a.slots id ≡ some none = ground arith in
    let back : get_elem? (set a.slots id (some a.next)) id ≡ some (some a.next) =
      ground (arith, get_elem?-set a.slots id id (some a.next), get_elem?-ge a.slots id) in
    unfold free allocate in
    rw (free, at) (rw (allocate, back, set-set_back a.slots id none (some a.next) at))

-- If the ids of the type are all allocated but the last, and that is not the first, the next call
-- returns the last id, and the call after it panics.
pub allocate_exhausted :
    (bits size : ℕ) (a : IdAllocator)
    → Refines a (record { free_ids = []; size = size })
    → size + 1 ≡ 2 ^ bits
    → 0 < size
    → (id : ℕ) × (a' : IdAllocator) × (allocate bits a ≡ ok (id, a'))
      × (id ≡ size)
      × (allocate bits a' ≡ fault null_index)
unfolding allocate
allocate_exhausted bits size a r full some_id =
    let first : get_elem? a.slots 0 ≡ some none = slot_of_in_use a _ 0 r (ground arith) in
    let wraps : increment bits a.next ≡ 0 = rw (r.chain, r.size, full) (mod_self (2 ^ bits)) in
    let again : get_elem? (a.slots ++ none ∷ []) 0 ≡ some none =
      ground (arith, get_elem?-append_last a.slots none 0) in
    (
      a.next,
      record { slots = a.slots ++ none ∷ []; next = increment bits a.next },
      rw (allocate, get_elem?-ge a.slots a.next (omega arith)),
      omega arith,
      rw (allocate, wraps, again),
    )

-- The list ascends, from `lo` on.
abbrev pub Ascends : ℕ → List ℕ → Type 0
Ascends lo [] = Unit
Ascends lo (x ∷ xs) = (lo ≤ x) × Ascends (x + 1) xs

Ascends-mono : (lo hi : ℕ) (xs : List ℕ) → lo ≤ hi → Ascends hi xs → Ascends lo xs
Ascends-mono lo hi [] le h = tt
Ascends-mono lo hi (x ∷ xs) le h = (omega arith, h.1)

not-has_below : (j lo : ℕ) (xs : List ℕ) → j < lo → Ascends lo xs → has j xs ≡ false
not-has_below j lo [] lt h = refl
not-has_below j lo (x ∷ xs) lt h = ground (arith, h.0, not-has_below j (x + 1) xs (omega arith) h.1)

iter_from-Ascends :
    (bits n : ℕ) (slots : List (Option ℕ))
    → n + length slots ≤ 2 ^ bits
    → Ascends n (iter_from bits n slots)
unfolding iter_from
iter_from-Ascends bits n [] room = tt
iter_from-Ascends bits n (some _ ∷ rest) room =
    Ascends-mono n (n + 1) _ (omega arith) (iter_from-Ascends bits (n + 1) rest (omega arith))
iter_from-Ascends bits n (none ∷ rest) room =
    let e : n % 2 ^ bits ≡ n = mod-eq_of_lt {m = 2 ^ bits} (omega arith) in
    rw e (omega arith, iter_from-Ascends bits (n + 1) rest (omega arith))

iter_from-has :
    (bits n : ℕ) (slots : List (Option ℕ)) (next j k : ℕ)
    → n + length slots ≤ 2 ^ bits
    → n + j ≡ k
    → has k (iter_from bits n slots) ≡ is_allocated (record { slots = slots; next = next }) j
unfolding iter_from is_allocated
iter_from-has bits n [] next j k room e = refl
iter_from-has bits n (some _ ∷ rest) next zero k room e =
    not-has_below k (n + 1) _ (omega arith) (iter_from-Ascends bits (n + 1) rest (omega arith))
iter_from-has bits n (some _ ∷ rest) next (suc j) k room e =
    iter_from-has bits (n + 1) rest next j k (omega arith) (omega arith)
iter_from-has bits n (none ∷ rest) next zero k room e =
    let kept : n % 2 ^ bits ≡ n = mod-eq_of_lt {m = 2 ^ bits} (omega arith) in
    rw kept (ground arith)
iter_from-has bits n (none ∷ rest) next (suc j) k room e =
    let kept : n % 2 ^ bits ≡ n = mod-eq_of_lt {m = 2 ^ bits} (omega arith) in
    rw kept (ground (arith, iter_from-has bits (n + 1) rest next j k))

-- If there are no more slots than the type has ids, the iterator yields the allocated ids, all of
-- them and nothing else, in ascending order.
pub iter_exact :
    (bits : ℕ) (a : IdAllocator)
    → length a.slots ≤ 2 ^ bits
    → Ascends 0 (iter bits a) × ((j : ℕ) → has j (iter bits a) ≡ is_allocated a j)
unfolding iter
iter_exact bits a room = (
  iter_from-Ascends bits 0 a.slots (omega arith),
  λ j. iter_from-has bits 0 a.slots a.next j j (omega arith) (omega arith),
)

-- A new allocator, and one that `clear` has emptied, has no id allocated and none on its free list.
pub clear-Refines :
    (a : IdAllocator)
    → let p : Pool = record { free_ids = []; size = 0 } in Refines new p × Refines (clear a) p
unfolding new clear
clear-Refines a = (
  record { chain = refl; free_exactly = λ i. refl; size = refl },
  record { chain = refl; free_exactly = λ i. refl; size = refl },
)
