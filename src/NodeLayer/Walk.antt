-- ===== src/NodeLayer/Walk.antt =====
-- The walk of core/src/iter.rs over a list in memory.
use clearned_immutable.Prelude.{
  ℕ, suc, ◌≡◌, refl, inl, inr, true, false, Option, none, some, List, [], ◌∷◌, ◌++◌, arith, ==-refl,
  if◌then◌else◌, Bool-cases, Outcome, ok, ◌>>=◌,
}
use clearned_immutable.IdAllocator.Pool.{has}
use clearned_immutable.MemoryList.Api.{ArenaApi}
use clearned_immutable.MemoryList.{Slot, MemoryList, fetch}
use clearned_immutable.MemoryList
use clearned_immutable.MemoryList.Links.{Cell, ids, head_id, last_id, IsList}
use clearned_immutable.MemoryList.Access.{slot-ok, reads_cell}
use clearned_immutable.NodeLayer.{
  Bound, included, excluded, unbounded, Iter, is_excluded, is_included, step, emit, advance,
  collect,
}
use clearned_immutable.NodeLayer.Memory.{memory_layer}

module _ {ℓ} {N PA : Type ℓ} (api : ArenaApi (Slot N PA)) (bound : N → Outcome ℕ)
    (low : N → ℕ) where
  -- What the walk yields of the nodes: their least keys and their addresses.
  abbrev pub items : List (Cell N PA) → List (ℕ × ℕ)
  items [] = []
  items (c ∷ cs) = (low c.contents, c.id) ∷ items cs

  abbrev pub at_address : Option ℕ → Bound → Iter
  at_address current stop = record { current = current; stop = stop }

  -- The bound stands behind the nodes `mid`, of a list that goes on with `post`.
  abbrev pub Stops : Bound → List (Cell N PA) → List (Cell N PA) → Type 0
  Stops unbounded mid post = head_id post none ≡ none
  Stops (excluded stop) mid post = head_id post none ≡ some stop
  Stops (included stop) mid post = last_id none mid ≡ some stop

  pub emit-ok :
      {list : MemoryList api} (pre : List (Cell N PA)) (c : Cell N PA) (post : List (Cell N PA))
      (stop : Bound)
      → IsList api list (pre ++ c ∷ post)
      → bound c.contents ≡ ok (low c.contents)
      → emit (memory_layer api bound) list (at_address (some c.id) stop) c.id
        ≡ ok (
          some (low c.contents, c.id),
          at_address (if is_included stop c.id then none else head_id post none) stop,
        )
  emit-ok {list} pre c post stop h least =
      let found = slot-ok api pre c post h in
      let following = (reads_cell api pre c post h).2 in
      let key : MemoryList.lower_bound api bound list c.id ≡ ok (low c.contents) =
        unfold MemoryList.lower_bound in rw (MemoryList.lower_bound, ◌>>=◌, fetch, found) least in
      elim (Bool-cases (is_included stop c.id)) [
        | inl last ↦ rw (last, advance) (rw key)
        | inr inner ↦ rw (inner, advance) (rw (following, key))
      ]

  head_id-has :
      (post : List (Cell N PA)) (i : ℕ) → head_id post none ≡ some i → has i (ids post) ≡ true
  head_id-has [] i e = cc
  head_id-has (d ∷ post) i e = let same : d.id ≡ i = cc in rw same (ground arith)

  last_id-has :
      (d : Cell N PA) (mid : List (Cell N PA)) (i : ℕ)
      → last_id none (d ∷ mid) ≡ some i
      → has i (ids (d ∷ mid)) ≡ true
  last_id-has d [] i e = let same : d.id ≡ i = cc in rw same (ground arith)
  last_id-has d (c ∷ mid) i e = ground (arith, last_id-has c mid i e)

  -- A node of the walk is not the excluded bound, and the bound stands behind the next ones.
  pub not_excluded :
      (stop : Bound) (c : Cell N PA) (mid post : List (Cell N PA))
      → Stops stop (c ∷ mid) post
      → has c.id (ids post) ≡ false
      → is_excluded stop c.id ≡ false
  not_excluded unbounded c mid post s out = refl
  not_excluded (included stop) c mid post s out = refl
  not_excluded (excluded stop) c mid post s out = ground (arith, head_id-has post stop s)

  pub Stops-next :
      (stop : Bound) (c : Cell N PA) (mid post : List (Cell N PA))
      → Stops stop (c ∷ mid) post
      → is_included stop c.id ≡ false
      → Stops stop mid post
  Stops-next unbounded c mid post s out = s
  Stops-next (excluded stop) c mid post s out = s
  Stops-next (included stop) c [] post s out =
      let same : c.id ≡ stop = cc in absurd (ground (arith, same, out))
  Stops-next (included stop) c (d ∷ mid) post s out = s

  -- The included bound is the last node of the walk.
  pub Stops-last :
      (stop : Bound) (c : Cell N PA) (mid post : List (Cell N PA))
      → Stops stop (c ∷ mid) post
      → is_included stop c.id ≡ true
      → has c.id (ids mid) ≡ false
      → mid ≡ []
  Stops-last stop c [] post s is out = refl
  Stops-last (included stop) c (d ∷ mid) post s is out =
      absurd (ground (arith, last_id-has d mid stop s))
  Stops-last (excluded stop) c (d ∷ mid) post s is out = cc
  Stops-last unbounded c (d ∷ mid) post s is out = cc

  pub collect-end :
      (list : MemoryList api) (stop : Bound) (post : List (Cell N PA)) (fuel : ℕ)
      → Stops stop [] post
      → collect (memory_layer api bound) (suc fuel) list (at_address (head_id post none) stop)
        ≡ ok []
  unfolding collect step
  collect-end list unbounded post fuel s = rw (collect, step, s)
  collect-end list (excluded stop) post fuel s = rw (collect, step, s) (rw (==-refl stop))
  collect-end list (included stop) post fuel s = cc
