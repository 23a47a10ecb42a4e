-- ===== src/NodeLayer/Yields.antt =====
-- What the walk of core/src/iter.rs over a list in memory yields.
use clearned_immutable.Prelude.{
  ℕ, zero, suc, ◌<◌, ◌≡◌, refl, sym, inl, inr, false, none, some, List, [], ◌∷◌, ◌++◌, append_assoc,
  All, arith, length, Bool-cases, Outcome, ok, ◌>>=◌,
}
use clearned_immutable.IdAllocator.Pool.{has}
use clearned_immutable.MemoryList.Api.{ArenaApi}
use clearned_immutable.MemoryList.{Slot, MemoryList}
use clearned_immutable.MemoryList.Links.{Cell, ids, head_id, has-append, IsList, AreDistinct-parts}
use clearned_immutable.NodeLayer.{
  Bound, included, excluded, unbounded, is_included, range, step, collect,
}
use clearned_immutable.MemoryList.Access.{reads_cell}
use clearned_immutable.NodeLayer.Memory.{memory_layer}
use clearned_immutable.NodeLayer.Walk.{
  items, at_address, Stops, emit-ok, not_excluded, Stops-next, Stops-last, collect-end,
}

module _ {ℓ} {N PA : Type ℓ} (api : ArenaApi (Slot N PA)) (bound : N → Outcome ℕ)
    (low : N → ℕ) where
  collect-none :
      (list : MemoryList api) (stop : Bound) (fuel : ℕ)
      → 0 < fuel
      → collect (memory_layer api bound) fuel list (at_address api bound low none stop) ≡ ok []
  unfolding collect step
  collect-none list stop zero enough = absurd (omega arith)
  collect-none list stop (suc fuel) enough = refl

  -- A walk from the first of the nodes `mid`, to a bound behind them, yields these nodes in order, with
  -- fuel for each and one round more.
  pub collect-items :
      (mid pre post : List (Cell N PA)) (fuel : ℕ) {list : MemoryList api} (stop : Bound)
      → IsList api list (pre ++ (mid ++ post))
      → All (λ c. bound c.contents ≡ ok (low c.contents)) mid
      → Stops api bound low stop mid post
      → length mid < fuel
      → collect
          (memory_layer api bound)
          fuel
          list
          (at_address api bound low (head_id (mid ++ post) none) stop)
        ≡ ok (items api bound low mid)
  unfolding collect step
  collect-items mid pre post zero stop h least s enough = absurd (omega arith)
  collect-items [] pre post (suc fuel) {list} stop h least s enough =
      collect-end api bound low list stop post fuel s
  collect-items (c ∷ mid) pre post (suc fuel) {list} stop h least s enough =
      let distinct = (AreDistinct-parts pre (c ∷ (mid ++ post)) h.distinct).1.0 in
      let out_mid : has c.id (ids mid) ≡ false =
        ground (arith, distinct, has-append c.id mid post) in
      let out_post : has c.id (ids post) ≡ false =
        ground (arith, distinct, has-append c.id mid post) in
      let go_on = not_excluded api bound low stop c mid post s out_post in
      let emitted = emit-ok api bound low pre c (mid ++ post) stop h least.0 in
      elim (Bool-cases (is_included stop c.id)) [
        | inl last ↦
            let nothing = Stops-last api bound low stop c mid post s last out_mid in
            let ended = collect-none list stop fuel (omega arith) in
            let alone : items api bound low mid ≡ [] = rw nothing in
            rw (collect, step, go_on) (rw emitted (rw (last, ended, alone)))
        | inr inner ↦
            let rest =
              collect-items mid (pre ++ c ∷ []) post fuel {list = list} stop (rw append_assoc h)
                least.1 (Stops-next api bound low stop c mid post s inner) (omega arith) in
            rw (collect, step, go_on) (rw emitted (rw (inner, rest)))
      ]

  -- The walk starts behind the nodes `pre`, at the nodes `rest`.
  abbrev pub Starts : Bound → List (Cell N PA) → List (Cell N PA) → Type ℓ
  Starts unbounded pre rest = pre ≡ []
  Starts (included start) pre rest =
      (c : Cell N PA) × (more : List (Cell N PA)) × (rest ≡ c ∷ more) × (c.id ≡ start)
  Starts (excluded start) pre rest =
      (before : List (Cell N PA)) × (p : Cell N PA) × (pre ≡ before ++ p ∷ []) × (p.id ≡ start)

  range-ok :
      (start stop : Bound) (pre rest : List (Cell N PA)) {list : MemoryList api}
      → IsList api list (pre ++ rest)
      → Starts start pre rest
      → range (memory_layer api bound) list start stop
        ≡ ok (at_address api bound low (head_id rest none) stop)
  unfolding range
  range-ok unbounded stop pre rest {list} h s =
      let first : head_id rest none ≡ some list.first = rw s at h.first in rw first
  range-ok (included start) stop pre rest {list} h (c, more, e, same) = rw (e, same)
  range-ok (excluded start) stop pre rest {list} h (before, p, e, same) =
      let h' : IsList api list (before ++ p ∷ rest) = rw append_assoc at (rw e at h) in
      let following = (reads_cell api before p rest h').2 in rw (range, sym same) (rw following)

  -- In a well linked list whose nodes between the bounds have a least key, a range yields the least
  -- keys and the addresses of the nodes between its bounds, in order, and ends: a loop with fuel
  -- for each node and one round more is not cut off.
  pub range-items :
      (start stop : Bound) (pre mid post : List (Cell N PA)) (fuel : ℕ) {list : MemoryList api}
      → IsList api list (pre ++ (mid ++ post))
      → All (λ c. bound c.contents ≡ ok (low c.contents)) mid
      → Starts start pre (mid ++ post)
      → Stops api bound low stop mid post
      → length mid < fuel
      → (range (memory_layer api bound) list start stop >>= λ iter.
          collect (memory_layer api bound) fuel list iter)
        ≡ ok (items api bound low mid)
  range-items start stop pre mid post fuel {list} h least starts stops enough =
      rw (range-ok start stop pre (mid ++ post) h starts)
        (collect-items mid pre post fuel stop h least stops enough)
