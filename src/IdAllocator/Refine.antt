-- ===== src/IdAllocator/Refine.antt =====
-- The allocator's free list implements the pool.
use clearned_immutable.Prelude.{
  ℕ, ◌+◌, ◌^◌, ◌<◌, ◌≡◌, refl, ◌∙◌, inl, inr, Bool, true, false, Option, none, some, List, [], ◌∷◌,
  ◌++◌, arith, length, get_elem?, set, length-set, length-append, Returns, Bool-cases,
  get_elem?-set, get_elem?-append_last, get_elem?-lt, get_elem?-ge,
}
use native.Mathlib.Nat.{mod-eq_of_lt}
use clearned_immutable.IdAllocator.{IdAllocator, increment, allocate, free, is_allocated}
use clearned_immutable.IdAllocator.Pool.{Pool, has, in_use, take_id, give_back}

-- From `next`, the links lead through the free ids `fs`, each once, to the end of the slots.
abbrev pub Chain : List (Option ℕ) → ℕ → List ℕ → Type 0
Chain slots next [] = next ≡ length slots
Chain slots next (f ∷ fs) =
    (next ≡ f)
    × (has f fs ≡ false)
    × ((link : ℕ) × (get_elem? slots f ≡ some (some link)) × Chain slots link fs)

abbrev pub is_free : List (Option ℕ) → ℕ → Bool
is_free slots i = elim (get_elem? slots i) [
  | some (some _) ↦ true
  | some none ↦ false
  | none ↦ false
]

pub record Refines (a : IdAllocator) (p : Pool) : Type 0 where
  pub chain : Chain a.slots a.next p.free_ids
  pub free_exactly : (i : ℕ) → is_free a.slots i ≡ has i p.free_ids
  pub size : length a.slots ≡ p.size

-- A write at an id that is not on the chain leaves the chain.
Chain-set :
    (slots : List (Option ℕ)) (i next : ℕ) (v : Option ℕ) (fs : List ℕ)
    → has i fs ≡ false
    → Chain slots next fs
    → Chain (set slots i v) next fs
Chain-set slots i next v [] out c = omega (arith, length-set slots i v)
Chain-set slots i next v (f ∷ fs) out (e, d, (link, at, c)) = (
  e,
  d,
  (link, ground (arith, get_elem?-set slots i f v), Chain-set slots i link v fs (ground arith) c),
)

-- If the type has an id left over, `allocate` does not panic, returns the id that the pool gives, and
-- leaves an allocator of the pool that remains.
pub allocate-Refines :
    (bits : ℕ) (a : IdAllocator) (fs : List ℕ) (size : ℕ)
    → size + 1 < 2 ^ bits
    → Refines a (record { free_ids = fs; size = size })
    → let (id, p') = take_id (record { free_ids = fs; size = size }) in
      Returns (allocate bits a) λ (got, a'). (got ≡ id) × Refines a' p'
unfolding allocate
allocate-Refines bits a [] size room r = (
  (a.next, record { slots = a.slots ++ none ∷ []; next = increment bits a.next }),
  rw (allocate, get_elem?-ge a.slots a.next (omega arith)),
  (
    omega arith,
    record {
      chain =
          mod-eq_of_lt {m = 2 ^ bits} (omega arith)
          ∙ omega (arith, length-append a.slots (none ∷ []));
      free_exactly = λ i. ground (arith, r.free_exactly i, get_elem?-append_last a.slots none i);
      size = omega (arith, length-append a.slots (none ∷ []));
    },
  ),
)
allocate-Refines bits a (f ∷ fs) size room r =
    let (e, d, (link, at, c)) = r.chain in
    (
      (f, record { slots = set a.slots f none; next = link }),
      rw (allocate, e, at) (rw e),
      (
        refl,
        record {
          chain = Chain-set a.slots f link none fs (ground arith) c;
          free_exactly = λ i.
              ground
                (arith, r.free_exactly i, get_elem?-set a.slots f i none, get_elem?-ge a.slots f);
          size = length-set a.slots f none ∙ r.size;
        },
      ),
    )

-- `is_allocated` says whether the pool has the id in use.
pub is_allocated-in_use :
    (a : IdAllocator) (p : Pool) (i : ℕ) → Refines a p → is_allocated a i ≡ in_use p i
unfolding is_allocated
is_allocated-in_use a p i r =
    ground (arith, r.free_exactly i, get_elem?-lt a.slots i, get_elem?-ge a.slots i)

pub slot_of_in_use :
    (a : IdAllocator) (p : Pool) (i : ℕ)
    → Refines a p
    → in_use p i ≡ true
    → get_elem? a.slots i ≡ some none
slot_of_in_use a p i r used =
    ground (arith, r.free_exactly i, get_elem?-lt a.slots i, get_elem?-ge a.slots i)

free_idle :
    (a : IdAllocator) (p : Pool) (i : ℕ) → Refines a p → in_use p i ≡ false → free a i ≡ (a, false)
unfolding free
free_idle a p i r idle =
    ground (arith, r.free_exactly i, get_elem?-lt a.slots i, get_elem?-ge a.slots i)

-- `free` returns what the pool's `give_back` returns, and leaves an allocator of the pool that it
-- leaves.
pub free-Refines :
    (a : IdAllocator) (p : Pool) (i : ℕ)
    → Refines a p
    → ((free a i).1 ≡ (give_back p i).1) × Refines (free a i).0 (give_back p i).0
free-Refines a p i r = elim (Bool-cases (in_use p i)) [
  | inr idle ↦ rw (idle, free_idle a p i r idle) (refl, r)
  | inl used ↦
      let at = slot_of_in_use a p i r used in
      unfold free in
      rw (used, free, at)
        (
          refl,
          record {
            chain = (
              refl,
              ground arith,
              (
                a.next,
                ground (arith, get_elem?-set a.slots i i (some a.next)),
                Chain-set a.slots i a.next (some a.next) p.free_ids (ground arith) r.chain,
              ),
            );
            free_exactly =
                λ j. ground (arith, r.free_exactly j, get_elem?-set a.slots i j (some a.next));
            size = length-set a.slots i (some a.next) ∙ r.size;
          },
        )
]
