-- ===== src/GappedArray/Floor.antt =====
-- `price_is_right` of utils/gapped_array/src/lib.rs, and the searches that rest on it.
use clearned_immutable.Prelude.{
  ℕ, zero, suc, ◌+◌, ◌-◌, ◌≤◌, ◌<◌, ◌≡◌, refl, inl, inr, true, Bool-cases, Option, none, some,
  Option-cases, arith, get_elem?-ge, ltb, leb, ◌==◌, ok, Returns, order_cases, lt_or_le,
}
use clearned_immutable.SortedArray.{read}
use clearned_immutable.GappedArray.{
  GappedKvArray, slot_count, next_ix_helper, next_occupied_ix, move_right, move_left, start_at,
  snap, price_is_right, value_at, search_pir, search_exact,
}
use clearned_immutable.GappedArray.Slots.{IsOccupied, HasKey, HasEntry, IsGapped, Stores, IsFloor}
use clearned_immutable.GappedArray.Scan.{
  IsNext, IsPrev, next_ix_helper-IsNext, prev_ix_helper-IsPrev,
}

module _ {ℓ} {V : Type ℓ} (a : GappedKvArray V) where
  pub occupied_lt : (i : ℕ) → IsOccupied a i → i < slot_count a
  occupied_lt i h = elim (lt_or_le i (slot_count a)) [
    | inl lt ↦ lt
    | inr le ↦ let nothing = get_elem?-ge a.bitmap i le in absurd cc
  ]

  pub read-key : (i k : ℕ) → HasKey a i k → read a.keys i ≡ ok k
  unfolding read
  read-key i k h = rw (read, h.1)

  pub HasKey-unique : (i k l : ℕ) → HasKey a i k → HasKey a i l → k ≡ l
  HasKey-unique i k l h g = cc

module _ {ℓ} {V : Type ℓ} {a : GappedKvArray V} (g : IsGapped a) (needle : ℕ) where
  -- The keys right of the slot are greater than the needle.
  abbrev Beyond : ℕ → Type 0
  Beyond i = (j l : ℕ) → i < j → HasKey a j l → needle < l

  abbrev IsCandidate : Option ℕ → Type 0
  IsCandidate none = (j l : ℕ) → HasKey a j l → needle < l
  IsCandidate (some i) = IsOccupied a i × Beyond i

  from_here : (ix k j l : ℕ) → HasKey a ix k → needle < k → ix ≤ j → HasKey a j l → needle < l
  from_here ix k j l h lt le other = elim (order_cases ix j) [
    | inl after ↦ omega (arith, g.ascending after h other)
    | inr (inl gt) ↦ absurd (omega arith)
    | inr (inr eq) ↦ omega (arith, HasKey-unique a j k l (rw eq at h) other)
  ]

  move_right-Beyond :
      (fuel check : ℕ)
      → IsOccupied a check
      → slot_count a ≤ check + fuel
      → Returns (move_right fuel a needle check) λ i. IsOccupied a i × Beyond i
  unfolding move_right
  move_right-Beyond zero check occ enough = absurd (omega (arith, occupied_lt a check occ))
  move_right-Beyond (suc fuel) check occ enough =
      let next = next_ix_helper-IsNext a true (check + 1) in
      elim (Option-cases (next_ix_helper a (check + 1) true)) [
        | inl last ↦ (
          check,
          rw (move_right, last),
          (occ, λ j l lt h. absurd ((rw last at next) j (omega arith) h.0)),
        )
        | inr (n, more) ↦
            let (ge, occ_n, between) = rw more at next in
            let (k, v, (here, _)) = g.filled n occ_n in
            elim (Bool-cases (ltb needle k)) [
              | inl less ↦ (
                check,
                rw (move_right, more) (rw (read-key a n k here) (rw less)),
                (
                  occ,
                  λ j l lt h. elim (lt_or_le j n) [
                    | inl before ↦ absurd (between j (omega arith) before h.0)
                    | inr behind ↦ from_here n k j l here (ground arith) behind h
                  ],
                ),
              )
              | inr ge' ↦
                  let (i, run, post) = move_right-Beyond fuel n occ_n (omega arith) in
                  (i, rw (move_right, more) (rw (read-key a n k here) (rw (ge', run))), post)
            ]
      ]

  snap-IsCandidate :
      (from : ℕ) (start : Option ℕ)
      → IsNext a.bitmap true from start
      → Returns (snap a needle start) IsCandidate
  snap-IsCandidate from (some check) h =
      let (i, run, post) = move_right-Beyond (slot_count a) check h.1 (omega arith) in
      (some i, rw run, post)
  snap-IsCandidate from none h = elim (Bool-cases (ltb 0 (slot_count a))) [
    | inr empty ↦ (none, rw empty, λ j l k. absurd (ground (arith, occupied_lt a j k.0)))
    | inl some_left ↦
        let (r, run, prev) = prev_ix_helper-IsPrev a true (slot_count a - 1) (ground arith) in
        (r, rw (some_left, run), last_one r prev)
  ]
    where
      last_one : (r : Option ℕ) → IsPrev a.bitmap true (slot_count a - 1) r → IsCandidate r
      last_one none prev = λ j l k. absurd (prev j (omega (arith, occupied_lt a j k.0)) k.0)
      last_one (some r) prev =
          (prev.1, λ j l lt k. absurd (prev.2 j lt (omega (arith, occupied_lt a j k.0)) k.0))

  move_left-IsFloor :
      (fuel : ℕ) (check : Option ℕ)
      → IsCandidate check
      → ((i : ℕ) → check ≡ some i → i < fuel)
      → Returns (move_left fuel a needle check) (IsFloor a needle)
  unfolding move_left
  move_left-IsFloor zero none h inside = (none, refl, h)
  move_left-IsFloor (suc fuel) none h inside = (none, refl, h)
  move_left-IsFloor zero (some ix) h inside = absurd (omega (arith, inside ix refl))
  move_left-IsFloor (suc fuel) (some ix) h inside =
      let (k, v, (here, _)) = g.filled ix h.0 in
      elim (Bool-cases (leb k needle)) [
        | inl fits ↦ (some ix, rw (read-key a ix k here) (rw fits), (k, here, ground arith, h.1))
        | inr over ↦
            let above : needle < k = ground arith in
            elim (Bool-cases (ix == 0)) [
              | inl at_start ↦ (
                none,
                rw (read-key a ix k here) (rw (over, at_start)),
                λ j l other. from_here ix k j l here above (ground arith) other,
              )
              | inr inner ↦
                  let pos : 0 < ix = ground arith in
                  let (r, prev_run, prev) =
                    prev_ix_helper-IsPrev a true (ix - 1) (omega (arith, occupied_lt a ix h.0)) in
                  let (i, run, post) =
                    move_left-IsFloor fuel r (candidate ix k r pos here above prev)
                      (λ i e. omega (arith, inside ix refl, (rw e at prev).0, pos)) in
                  (i, rw (read-key a ix k here) (rw (over, inner, prev_run, run)), post)
            ]
      ]
    where
      candidate :
          (ix k : ℕ) (r : Option ℕ)
          → 0 < ix
          → HasKey a ix k
          → needle < k
          → IsPrev a.bitmap true (ix - 1) r
          → IsCandidate r
      candidate ix k none pos here above prev = λ j l other. elim (lt_or_le j ix) [
        | inl before ↦ absurd (prev j (omega arith) other.0)
        | inr behind ↦ from_here ix k j l here above behind other
      ]
      candidate ix k (some r) pos here above prev = (
        prev.1,
        λ j l lt other. elim (lt_or_le j ix) [
          | inl before ↦ absurd (prev.2 j lt (omega arith) other.0)
          | inr behind ↦ from_here ix k j l here above behind other
        ],
      )

  -- Whatever the hint, the search in a well-formed array ends, without a panic, at the slot of the
  -- largest key at most the one searched for, or at none if all keys are greater.
  pub price_is_right-IsFloor :
      (hint : Option ℕ) → Returns (price_is_right a needle hint) (IsFloor a needle)
  unfolding price_is_right
  price_is_right-IsFloor hint =
      let from = start_at a hint in
      let (check, start_run, start) =
        snap-IsCandidate from (next_occupied_ix a from) (next_ix_helper-IsNext a true from) in
      let (r, run, floor) =
        move_left-IsFloor (slot_count a) check start (λ i e. occupied_lt a i (rw e at start).0) in
      (r, rw (start_run, run), floor)

  -- The value found: none if no key is at most the needle, else that of the largest such key.
  abbrev pub IsFloorValue : Option V → Type ℓ
  IsFloorValue none = (v : V) (j l : ℕ) → HasEntry a j l v → needle < l
  IsFloorValue (some v) =
      (i : ℕ) × (k : ℕ) × HasEntry a i k v
      × (k ≤ needle)
      × ((j l : ℕ) → i < j → HasKey a j l → needle < l)

  value_at-ok : (i k : ℕ) (v : V) → HasEntry a i k v → value_at a i ≡ ok (some v)
  unfolding read
  value_at-ok i k v h = rw (value_at, h.1) (rw (read, h.1))

  -- The inexact search of a well-formed array returns the value of the largest key at most the one
  -- searched for, and nothing if all keys are greater, whatever the hint.
  pub search_pir-IsFloorValue : (hint : Option ℕ) → Returns (search_pir a needle hint) IsFloorValue
  unfolding search_pir
  search_pir-IsFloorValue hint = from_floor (price_is_right-IsFloor hint)
    where
      from_floor :
          Returns (price_is_right a needle hint) (IsFloor a needle)
          → Returns (search_pir a needle hint) IsFloorValue
      from_floor (none, run, floor) = (none, rw run, λ v j l h. floor j l h.0)
      from_floor (some i, run, (k, here, fits, beyond)) =
          let (k', v, e) = g.filled i here.0 in
          (
            some v,
            rw run (value_at-ok i k' v e),
            (i, k', e, omega (arith, fits, HasKey-unique a i k k' here e.0), beyond),
          )

  -- What the exact search may answer.
  abbrev pub IsAnswer : Option V → Type ℓ
  IsAnswer none = (v : V) → ¬ Stores a needle v
  IsAnswer (some v) = Stores a needle v

  -- The exact search of a well-formed array returns the value stored under the key, and nothing if
  -- the key is not stored, whatever the hint.
  pub search_exact-IsAnswer : (hint : Option ℕ) → Returns (search_exact a needle hint) IsAnswer
  unfolding search_exact
  search_exact-IsAnswer hint = from_floor (price_is_right-IsFloor hint)
    where
      from_floor :
          Returns (price_is_right a needle hint) (IsFloor a needle)
          → Returns (search_exact a needle hint) IsAnswer
      from_floor (none, run, floor) =
          (none, rw run, λ v (j, h). absurd (omega (arith, floor j needle h.0)))
      from_floor (some i, run, (k, here, fits, beyond)) =
          let (k', v, e) = g.filled i here.0 in
          let key : read a.keys i ≡ ok k = read-key a i k here in
          elim (Bool-cases (k == needle)) [
            | inl eq ↦
                let found : k' ≡ needle = ground (arith, HasKey-unique a i k k' here e.0) in
                (some v, rw run (rw key (rw eq (value_at-ok i k' v e))), (i, rw found at e))
            | inr ne ↦ (
              none,
              rw run (rw key (rw ne)),
              λ v (j, h). elim (lt_or_le j i) [
                | inr behind ↦ elim (order_cases i j) [
                  | inl lt ↦ absurd (omega (arith, beyond j needle lt h.0))
                  | inr (inl gt) ↦ absurd (omega arith)
                  | inr (inr same) ↦
                      absurd (ground (arith, HasKey-unique a j k needle (rw same at here) h.0))
                ]
                | inl before ↦ absurd (omega (arith, g.ascending before h.0 here))
              ],
            )
          ]
