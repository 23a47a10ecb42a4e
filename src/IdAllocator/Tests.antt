-- ===== src/IdAllocator/Tests.antt =====
-- Runs of utils/id_allocator/src/lib.rs, and its theorems at concrete allocators.
use clearned_immutable.Prelude.{
  ℕ, zero, suc, ◌≡◌, refl, none, some, List, [], ◌∷◌, arith, Outcome, ok, fault, null_index,
  Returns, ◌>>=◌,
}
use clearned_immutable.IdAllocator.{IdAllocator, allocate, free, new, iter}
use clearned_immutable.IdAllocator.Pool.{Pool, has, give_back}
use clearned_immutable.IdAllocator.Refine.{is_free, Refines, allocate-Refines, free-Refines}
use clearned_immutable.IdAllocator.Laws.{allocate_exhausted}

-- Ids 0, 1 and 2 were allocated, then 1 was freed.
abbrev sample : IdAllocator
sample = record { slots = none ∷ some 3 ∷ none ∷ []; next = 1 }

abbrev sample_pool : Pool
sample_pool = record { free_ids = 1 ∷ []; size = 3 }

reuse : Outcome (ℕ × ℕ × ℕ × List ℕ)
unfolding new allocate free iter
reuse = do
  (_, a) ← allocate 8 new
  (two, b) ← allocate 8 a
  (_, c) ← allocate 8 b
  let freed = (free c two).0
  (four, d) ← allocate 8 freed
  ok (two, four, d.next, iter 8 freed)

fills_gaps_first : reuse ≡ ok (1, 1, 3, 0 ∷ 2 ∷ [])
unfolding reuse
fills_gaps_first = refl

sample_free : (i : ℕ) → is_free sample.slots i ≡ has i (1 ∷ [])
sample_free zero = refl
sample_free (suc zero) = refl
sample_free (suc (suc zero)) = refl
sample_free (suc (suc (suc i))) = ground arith

sample-Refines : Refines sample sample_pool
sample-Refines = record {
  chain = (refl, refl, (3, refl, refl));
  free_exactly = sample_free;
  size = refl;
}

-- A type of one bit: id 0 is allocated, and only the last id is left.
abbrev tiny : IdAllocator
tiny = record { slots = none ∷ []; next = 1 }

tiny_free : (i : ℕ) → is_free tiny.slots i ≡ has i []
tiny_free zero = refl
tiny_free (suc i) = refl

tiny-Refines : Refines tiny (record { free_ids = []; size = 1 })
tiny-Refines = record { chain = refl; free_exactly = tiny_free; size = refl }

allocate-Refines_example :
    Returns
      (allocate 8 sample)
      λ (got, a'). (got ≡ 1) × Refines a' (record { free_ids = []; size = 3 })
allocate-Refines_example = allocate-Refines 8 sample (1 ∷ []) 3 (omega arith) sample-Refines

free-Refines_example :
    ((free sample 2).1 ≡ (give_back sample_pool 2).1)
    × Refines (free sample 2).0 (give_back sample_pool 2).0
free-Refines_example = free-Refines sample sample_pool 2 sample-Refines

allocate_exhausted_example :
    (id : ℕ) × (a' : IdAllocator) × (allocate 1 tiny ≡ ok (id, a'))
    × (id ≡ 1)
    × (allocate 1 a' ≡ fault null_index)
allocate_exhausted_example = allocate_exhausted 1 1 tiny tiny-Refines refl (omega arith)
