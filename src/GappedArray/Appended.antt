-- ===== src/GappedArray/Appended.antt =====
-- `initial_model_based_insert` of utils/gapped_array/src/lib.rs, for keys that ascend and hints that do not
-- descend.
use clearned_immutable.Prelude.{
  ℕ, suc, ◌+◌, ◌-◌, ◌≤◌, ◌<◌, ◌≡◌, ◌≢◌, inl, inr, ◌∙◌, refl, sym, true, false, Option, none, some,
  arith, get_elem?, get_elem?-lt, get_elem?-ge, get_elem?-set_self, get_elem?-set_ne, order_cases,
  lt_or_le, Bool-cases, ◌>>=◌, Returns,
}
use clearned_immutable.SortedArray.{at}
use clearned_immutable.GappedArray.{GappedKvArray, slot_count}
use clearned_immutable.GappedArray.Writes.{
  Result, success, upsert_at, done, insert_at_end, insert_after_hint, initial_model_based_insert,
}
use clearned_immutable.GappedArray.Slots.{IsOccupied, HasKey, IsGapped, occupied_count}
use clearned_immutable.GappedArray.Scan.{
  IsNext, IsPrev, next_ix_helper-IsNext, prev_ix_helper-IsPrev,
}
use clearned_immutable.GappedArray.Floor.{occupied_lt}
use clearned_immutable.GappedArray.Copies.{Moved, AreAligned, placed, kept, upsert_at-placed}
use clearned_immutable.GappedArray.Shifts.{
  from_right, copied_left, shifted, shifted-AreAligned, copy_within-shifted, placed-Moved,
}
use clearned_immutable.GappedArray.Upsert.{Upserted, IsFree, in_place-Upserted, from_right-Upserted}
use clearned_immutable.GappedArray.Counts.{count_full, count_shifted}
use clearned_immutable.GappedArray.Sizes.{count-set}

module _ {ℓ} {V : Type ℓ} where
  -- From the hint on, no free slot comes before an occupied one.
  abbrev pub IsTight : GappedKvArray V → ℕ → Type 0
  IsTight a hint = (i j : ℕ) → hint ≤ i → i ≤ j → IsOccupied a j → IsOccupied a i

  -- The entry is stored, in a slot that was free before.
  abbrev pub IsAppended : GappedKvArray V → ℕ → V → ℕ → Result {0} Unit × GappedKvArray V → Type ℓ
  IsAppended a key val hint (result, b) =
      (result ≡ success tt)
      × Upserted a b key val
      × IsTight b hint
      × (occupied_count b.bitmap ≡ suc (occupied_count a.bitmap))

module _ {ℓ} {V : Type ℓ} {a : GappedKvArray V} (g : IsGapped a) (key : ℕ) (val : V) (old hint : ℕ)
    (tight : IsTight a old) (le : old ≤ hint) (inside : hint < slot_count a)
    (greatest : (j l : ℕ) → HasKey a j l → l < key) where
  aligned : AreAligned a
  aligned = (g.keys_length, g.vals_length)

  key_of : (j : ℕ) → IsOccupied a j → (l : ℕ) × HasKey a j l
  key_of j occ = let (l, v, e) = g.filled j occ in (l, e.0)

  taken : (j : ℕ) → j < slot_count a → get_elem? a.bitmap j ≢ some false → IsOccupied a j
  taken j lt h =
      let (b, e) = get_elem?-lt a.bitmap j lt in
      elim (Bool-cases b) [ inl yes' ↦ rw yes' at e | inr no' ↦ absurd (h (rw no' at e)) ]

  -- The entry is put at the first free slot from the hint on.
  at_free :
      (p : ℕ)
      → hint ≤ p
      → p < slot_count a
      → IsFree a p
      → ((j : ℕ) → hint ≤ j → j < p → IsOccupied a j)
      → Returns (upsert_at a key val p >>= done) (IsAppended a key val hint)
  at_free p from lt free before =
      let m =
        placed-Moved a aligned a key val p (a.size + 1) (λ j. j) refl aligned lt
          (λ j ne. (refl, refl, refl)) in
      (
        (success tt, placed a key val p (a.size + 1)),
        rw (upsert_at-placed a key val p false aligned lt free) refl,
        (
          refl,
          in_place-Upserted g m (λ k h. let occ = h.0 in absurd cc)
              (λ j l before' h. greatest j l h)
              (λ j l behind h. let occ = tight p j (omega arith) (omega arith) h.0 in absurd cc),
          still_tight,
          omega (arith, count-set a.bitmap p false true free),
        ),
      )
    where
      still_tight : IsTight (placed a key val p (a.size + 1)) hint
      still_tight i j from' le' occ = elim (order_cases i p) [
        | inr (inr eq) ↦ rw eq (get_elem?-set_self a.bitmap p true lt)
        | inl lt' ↦ get_elem?-set_ne a.bitmap true (λ e. omega arith) ∙ before i from' lt'
        | inr (inl gt) ↦
            let occ' : IsOccupied a j =
              sym (get_elem?-set_ne a.bitmap true (λ e. omega arith)) ∙ occ in
            let occ'' = tight p j (omega arith) (omega arith) occ' in absurd cc
      ]

  -- All slots from the hint on are taken, and the entries behind a free one move to the left.
  at_end :
      (hole : ℕ)
      → IsFree a hole
      → ((j : ℕ) → hint ≤ j → j < slot_count a → IsOccupied a j)
      → Returns (insert_at_end a key val (some hole)) (IsAppended a key val hint)
  unfolding insert_at_end
  at_end hole free full =
      let hole_lt : hole < slot_count a = elim (lt_or_le hole (slot_count a)) [
        | inl lt ↦ lt
        | inr ge ↦ let nothing = get_elem?-ge a.bitmap hole ge in absurd (cc)
      ] in
      let last = slot_count a - 1 in
      let c = shifted a aligned (hole + 1) (slot_count a) hole in
      let low : hole < hint = elim (lt_or_le hole hint) [
        | inl lt ↦ lt
        | inr ge ↦ let occ = full hole ge hole_lt in absurd (cc)
      ] in
      let (slots, c_aligned) =
        shifted-AreAligned a aligned (hole + 1) (slot_count a) hole (omega arith) (omega arith)
          (omega arith) in
      let bit : get_elem? c.bitmap last ≡ some true =
        kept a.bitmap (hole + 1) (slot_count a) hole (omega arith) (omega arith) (omega arith) last
          (inr (omega arith))
        ∙ full last (omega arith) (omega arith) in
      let m =
        placed-Moved a aligned c key val last c.size (from_right last hole) slots c_aligned
          (omega arith)
          (λ j ne. (
            copied_left a.bitmap last hole j ne (slot_count a) (omega arith) (omega arith)
                (omega arith) (omega arith),
            copied_left a.keys last hole j ne (slot_count a) (omega arith) (omega arith)
                (omega arith) (omega (arith, aligned.0)),
            copied_left a.vals last hole j ne (slot_count a) (omega arith) (omega arith)
                (omega arith) (omega (arith, aligned.1)),
          )) in
      (
        (success tt, placed c key val last c.size),
        rw
            (
              insert_at_end,
              copy_within-shifted a aligned (hole + 1) (slot_count a) hole (omega arith)
                  (omega arith) (omega arith) (omega arith) (omega arith),
            )
            (rw (upsert_at-placed c key val last true c_aligned (omega arith) bit) refl),
        (
          refl,
          from_right-Upserted g hole m (omega arith) free (λ j l le' h. greatest j l h)
              (λ j l gt h. absurd (omega (arith, occupied_lt a j h.0))),
          still_tight last m refl low,
          omega (
            arith,
            count-set c.bitmap last true true bit,
            count_shifted a.bitmap hole free (omega arith) (full last (omega arith) (omega arith)),
          ),
        ),
      )
    where
      still_tight :
          {b : GappedKvArray V} (last : ℕ)
          → Moved a b last key val (from_right last hole)
          → last ≡ slot_count a - 1
          → hole < hint
          → IsTight b hint
      still_tight {b} last m is low i j from le' occ =
          let short : i < slot_count a = omega (arith, occupied_lt b j occ, m.slots) in
          elim (order_cases i last) [
            | inr (inr eq) ↦ rw eq m.here.0.0
            | inr (inl gt) ↦ absurd (omega arith)
            | inl before ↦
                let source : from_right last hole i ≡ i + 1 = ground arith in
                m.bit i (λ e. omega arith) ∙ rw source (full (i + 1) (omega arith) (omega arith))
          ]

  -- An entry whose key is greater than those of a well-formed array that is not full, at a hint not
  -- below the last one: the insertion ends without a panic and stores the entry, also where the
  -- entries must move to the left, and keeps the array well formed and ready for the next one.
  pub initial_model_based_insert-IsAppended :
      occupied_count a.bitmap < slot_count a
      → Returns (initial_model_based_insert a key val hint) (IsAppended a key val hint)
  unfolding initial_model_based_insert
  initial_model_based_insert-IsAppended room =
      let (bit, here) = get_elem?-lt a.bitmap hint inside in
      elim (Bool-cases bit) [
        | inr free ↦
            rw (initial_model_based_insert, at, here, free)
              (at_free hint (omega arith) inside (rw free at here)
                (λ j from lt. absurd (omega arith)))
        | inl occupied ↦
            rw (initial_model_based_insert, at, here, occupied)
              (after_hint (rw occupied at here) _ (next_ix_helper-IsNext a false (hint + 1)))
      ]
    where
      at_back :
          ((j : ℕ) → hint ≤ j → j < slot_count a → IsOccupied a j)
          → (r : Option ℕ) → IsPrev a.bitmap false (slot_count a - 1) r
          → Returns (insert_at_end a key val r) (IsAppended a key val hint)
      at_back full none all =
          absurd (omega (arith, count_full a.bitmap (λ i lt. taken i lt (all i (omega arith)))))
      at_back full (some hole) prev = at_end hole prev.1 full

      after_hint :
          IsOccupied a hint
          → (r : Option ℕ) → IsNext a.bitmap false (hint + 1) r
          → Returns (insert_after_hint a key val r) (IsAppended a key val hint)
      after_hint occ (some p) next =
          let lt : p < slot_count a = elim (lt_or_le p (slot_count a)) [
            | inl lt ↦ lt
            | inr ge ↦ let nothing = get_elem?-ge a.bitmap p ge in let free = next.1 in absurd (cc)
          ] in
          at_free p (omega (arith, next.0)) lt next.1 (λ j from before. elim (order_cases j hint) [
            | inl below ↦ absurd (omega arith)
            | inr (inl gt) ↦ taken j (omega arith) (next.2 j (omega arith) before)
            | inr (inr eq) ↦ rw eq occ
          ])
      after_hint occ none all =
          let (r, run, prev) = prev_ix_helper-IsPrev a false (slot_count a - 1) (omega arith) in
          rw (insert_after_hint, run)
            (at_back
              (λ j from lt. elim (order_cases j hint) [
                | inl below ↦ absurd (omega arith)
                | inr (inl gt) ↦ taken j lt (all j (omega arith))
                | inr (inr eq) ↦ rw eq occ
              ])
              r prev)
