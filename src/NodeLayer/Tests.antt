-- ===== src/NodeLayer/Tests.antt =====
-- A walk of core/src/iter.rs over a concrete list.
use clearned_immutable.Prelude.{ℕ, ◌≡◌, refl, none, some, [], ◌∷◌, arith, ok, ◌>>=◌}
use clearned_immutable.MemoryList.{MemoryList}
use clearned_immutable.MemoryList.Growing.{growing}
use clearned_immutable.MemoryList.Links.{IsList}
use clearned_immutable.MemoryList.Runs.{orphan}
use clearned_immutable.NodeLayer.{included, excluded, range, collect}
use clearned_immutable.NodeLayer.Memory.{memory_layer}
use clearned_immutable.NodeLayer.Yields.{range-items}

abbrev two : MemoryList {N = ℕ} {PA = ℕ} growing
two = record {
  arena =
      (record { inner = 7; next = some 1; previous = none }, none)
      ∷ (record { inner = 8; next = none; previous = some 0 }, none)
      ∷ [];
  first = 0;
  last = 1;
}

two-IsList : IsList growing two (orphan 0 7 ∷ orphan 1 8 ∷ [])
two-IsList = record {
  linked = (refl, (refl, tt));
  distinct = (refl, (refl, tt));
  first = refl;
  last = refl;
}

range-items_example :
    (range (memory_layer growing ok) two (included 0) (excluded 1) >>= λ iter.
    collect (memory_layer growing ok) 2 two iter)
    ≡ ok ((7, 0) ∷ [])
range-items_example =
    range-items growing ok (λ k. k) (included 0) (excluded 1) [] (orphan 0 7 ∷ []) (orphan 1 8 ∷ [])
      2 two-IsList (refl, tt) (orphan 0 7, orphan 1 8 ∷ [], refl, refl) refl (omega arith)
