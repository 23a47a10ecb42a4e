-- ===== src/GappedArray/Inserted.antt =====
-- `upsert_with_hint` of utils/gapped_array/src/lib.rs, on every branch.
use clearned_immutable.Prelude.{
  ℕ, ◌+◌, ◌-◌, ◌≤◌, ◌<◌, ◌≡◌, ◌≢◌, inl, inr, ◌∙◌, refl, true, false, Option, none, some, arith,
  get_elem?, get_elem?-lt, get_elem?-ge, ltb, ◌==◌, order_cases, lt_or_le, Bool-cases, Outcome,
  ◌>>=◌, Returns,
}
use clearned_immutable.SortedArray.{at}
use clearned_immutable.GappedArray.{GappedKvArray, slot_count, price_is_right}
use clearned_immutable.GappedArray.Writes.{
  Result, success, failure, full_beginning, full_end, full_middle, copy_slice, shift_left,
  shift_right, abs_diff, upsert_shifting, upsert_first, upsert_last, upsert_middle, upsert_behind,
  upsert_with_hint,
}
use clearned_immutable.GappedArray.Slots.{IsOccupied, HasKey, IsGapped, IsFloor, Stores}
use clearned_immutable.GappedArray.Scan.{
  IsNext, IsPrev, next_ix_helper-IsNext, prev_ix_helper-IsPrev,
}
use clearned_immutable.GappedArray.Floor.{
  HasKey-unique, occupied_lt, read-key, price_is_right-IsFloor,
}
use clearned_immutable.GappedArray.Copies.{Moved, AreAligned, length-copy_slice}
use clearned_immutable.GappedArray.Shifts.{
  Inserts, upsert_at-Inserts, shift_left-Inserts, shift_right-Inserts, upsert_first-Inserts,
}
use clearned_immutable.GappedArray.Upsert.{
  Upserted, IsFullOf, IsFree, from_left-Upserted, from_right-Upserted, in_place-Upserted,
}

module _ {ℓ} {V : Type ℓ} (a : GappedKvArray V) (key : ℕ) (val : V) where
  -- The entry is stored, or the array is full, has no entry under the key, and stays as it was.
  abbrev pub IsUpsert : Result {0} Unit × GappedKvArray V → Type ℓ
  IsUpsert (success _, b) = Upserted a b key val
  IsUpsert (failure _, b) = (b ≡ a) × IsFullOf a × ((v : V) → ¬ Stores a key v)

module _ {ℓ} {V : Type ℓ} {a : GappedKvArray V} (g : IsGapped a) (key : ℕ) (val : V) where
  aligned : AreAligned a
  aligned = (g.keys_length, g.vals_length)

  bit_at : (i : ℕ) → i < slot_count a → get_elem? a.bitmap i ≢ some false → IsOccupied a i
  bit_at i lt h =
      let (b, e) = get_elem?-lt a.bitmap i lt in
      elim (Bool-cases b) [ inl yes' ↦ rw yes' at e | inr no' ↦ absurd (h (rw no' at e)) ]

  free_lt : (i : ℕ) → IsFree a i → i < slot_count a
  free_lt i h = elim (lt_or_le i (slot_count a)) [
    | inl lt ↦ lt
    | inr le ↦ let nothing = get_elem?-ge a.bitmap i le in absurd cc
  ]

  from_run :
      {p size : ℕ} {src : ℕ → ℕ} {r : Outcome (Result {0} Unit × GappedKvArray V)}
      → Returns r (Inserts a aligned key val p size src)
      → ((b : GappedKvArray V) → Moved a b p key val src → Upserted a b key val)
      → Returns r (IsUpsert a key val)
  from_run ((result, b), run, (fine, _, moved)) upserted =
      ((success tt, b), rw run (rw fine), upserted b moved)

  -- The slots before `p` hold lesser keys, and those from `p` on greater ones.
  record Cut (p : ℕ) : Type 0 where
    lower : (j l : ℕ) → j < p → HasKey a j l → l < key
    upper : (j l : ℕ) → p ≤ j → HasKey a j l → key < l

  Cut-absent : (p : ℕ) → Cut p → (v : V) → ¬ Stores a key v
  Cut-absent p cut v (j, h) = elim (lt_or_le j p) [
    | inl lt ↦ omega (arith, cut.lower j key lt h.0)
    | inr le ↦ omega (arith, cut.upper j key le h.0)
  ]

  right-IsUpsert :
      (p hole : ℕ)
      → Cut p
      → p ≤ hole
      → p + 1 < slot_count a
      → IsFree a hole
      → hole < slot_count a
      → Returns (shift_right a key val hole p) (IsUpsert a key val)
  right-IsUpsert p hole cut le room free lt =
      from_run (shift_right-Inserts a aligned key val p hole le lt room)
        (λ b m. from_left-Upserted g hole m le free cut.lower cut.upper)

  left-IsUpsert :
      (p hole stop : ℕ)
      → Cut (p + 1)
      → hole < p
      → p < stop
      → stop ≤ p + 2
      → stop ≤ slot_count a
      → IsFree a hole
      → Returns (shift_left a key val hole stop p) (IsUpsert a key val)
  left-IsUpsert p hole stop cut lt past near inside free =
      from_run (shift_left-Inserts a aligned key val p hole stop lt past near inside) (λ b m.
        from_right-Upserted g hole m lt free (λ j l le h. cut.lower j l (omega arith) h)
          (λ j l gt h. cut.upper j l (omega arith) h))

  upsert_first-IsUpsert :
      1 < slot_count a
      → Cut 0
      → (r : Option ℕ) → IsNext a.bitmap false 0 r
      → Returns (upsert_first a key val r) (IsUpsert a key val)
  unfolding upsert_first
  upsert_first-IsUpsert room cut none full = (
    (failure full_beginning, a),
    refl,
    (refl, (λ i lt. bit_at i lt (full i (omega arith))), Cut-absent 0 cut),
  )
  upsert_first-IsUpsert room cut (some hole) next =
      let lt = free_lt hole next.1 in
      let (first, bit) = get_elem?-lt (copy_slice a.bitmap 0 hole 1) 0 (
        omega
          (arith, length-copy_slice a.bitmap 0 hole 1 (omega arith) (omega arith) (omega arith))) in
      from_run (upsert_first-Inserts a aligned key val hole first lt room bit)
        (λ b m. from_left-Upserted g hole m (omega arith) next.1 cut.lower cut.upper)

  -- The largest key at most the new one stands in the slot `r`, and is less than the new one.
  module _ (r k : ℕ) (here : HasKey a r k) (less : k < key)
      (beyond : (j l : ℕ) → r < j → HasKey a j l → key < l) where
    Cut-behind : (p : ℕ) → p ≡ r + 1 → Cut p
    Cut-behind p e = record {
      lower = λ j l lt h. elim (order_cases j r) [
        | inl before ↦ omega (arith, g.ascending before h here)
        | inr (inl gt) ↦ absurd (omega arith)
        | inr (inr eq) ↦ omega (arith, HasKey-unique a r k l here (rw eq at h))
      ];
      upper = λ j l le h. beyond j l (omega arith) h;
    }

    inner_hole : (q hole : ℕ) → q ≡ r → hole ≤ q → IsFree a hole → hole < q
    inner_hole q hole e le free = elim (order_cases hole r) [
      | inl lt ↦ omega arith
      | inr (inl gt) ↦ absurd (omega arith)
      | inr (inr eq) ↦ let free' = rw eq at free in let occ = here.0 in absurd cc
    ]

    upsert_last-IsUpsert :
        r + 1 ≡ slot_count a
        → (o : Option ℕ) → IsPrev a.bitmap false (slot_count a - 1) o
        → Returns (upsert_last a key val o) (IsUpsert a key val)
    unfolding upsert_last
    upsert_last-IsUpsert end none full = (
      (failure full_end, a),
      refl,
      (
        refl,
        (λ i lt. bit_at i lt (full i (omega arith))),
        Cut-absent (r + 1) (Cut-behind (r + 1) refl),
      ),
    )
    upsert_last-IsUpsert end (some hole) prev =
        left-IsUpsert (slot_count a - 1) hole (slot_count a)
          (Cut-behind (slot_count a - 1 + 1) (omega arith))
          (inner_hole (slot_count a - 1) hole (omega arith) prev.0 prev.1) (omega arith)
          (omega arith) (omega arith) prev.1

    upsert_shifting-IsUpsert :
        (ix : ℕ)
        → ix ≡ r + 1
        → IsOccupied a ix
        → (lo ro : Option ℕ) → IsPrev a.bitmap false (ix - 1) lo
        → IsNext a.bitmap false (ix + 1) ro
        → Returns (upsert_shifting a key val ix lo ro) (IsUpsert a key val)
    unfolding upsert_shifting
    upsert_shifting-IsUpsert ix e occ none none prev next = (
      (failure full_middle, a),
      refl,
      (
        refl,
        (λ i lt. bit_at i lt (λ free. elim (order_cases i ix) [
          | inl before ↦ prev i (omega arith) free
          | inr (inl gt) ↦ next i (omega arith) free
          | inr (inr eq) ↦ let free' = rw eq at free in cc
        ])),
        Cut-absent ix (Cut-behind ix e),
      ),
    )
    upsert_shifting-IsUpsert ix e occ none (some rix) prev next =
        right-IsUpsert ix rix (Cut-behind ix e) (omega (arith, next.0))
          (omega (arith, next.0, free_lt rix next.1)) next.1 (free_lt rix next.1)
    upsert_shifting-IsUpsert ix e occ (some lix) none prev next =
        left-IsUpsert (ix - 1) lix (ix + 1) (Cut-behind (ix - 1 + 1) (omega arith))
          (inner_hole (ix - 1) lix (omega arith) prev.0 prev.1) (omega arith) (omega arith)
          (omega (arith, occupied_lt a ix occ)) prev.1
    upsert_shifting-IsUpsert ix e occ (some lix) (some rix) prev next =
        elim (Bool-cases (ltb (abs_diff lix ix) (abs_diff rix ix))) [
          | inl nearer ↦ rw nearer (
              left-IsUpsert (ix - 1) lix (ix + 1) (Cut-behind (ix - 1 + 1) (omega arith))
                (inner_hole (ix - 1) lix (omega arith) prev.0 prev.1) (omega arith) (omega arith)
                (omega (arith, occupied_lt a ix occ)) prev.1)
          | inr further ↦ rw further (
              right-IsUpsert ix rix (Cut-behind ix e) (omega (arith, next.0))
                (omega (arith, next.0, free_lt rix next.1)) next.1 (free_lt rix next.1))
        ]

    upsert_middle-IsUpsert :
        (ix : ℕ)
        → ix ≡ r + 1
        → ix < slot_count a
        → Returns (upsert_middle a key val ix) (IsUpsert a key val)
    unfolding upsert_middle
    upsert_middle-IsUpsert ix e lt =
        let (occupied, bit) = get_elem?-lt a.bitmap ix lt in
        elim (Bool-cases occupied) [
          | inl taken ↦
              let occ : IsOccupied a ix = rw taken at bit in
              let (lo, run, prev) = prev_ix_helper-IsPrev a false (ix - 1) (omega arith) in
              rw (upsert_middle, at, bit, taken)
                (rw (◌>>=◌, run)
                  (upsert_shifting-IsUpsert ix e occ lo _ prev
                    (next_ix_helper-IsNext a false (ix + 1))))
          | inr gap ↦
              let free : IsFree a ix = rw gap at bit in
              rw (upsert_middle, at, bit, gap)
                (from_run
                  (upsert_at-Inserts a aligned a key val ix (λ j. j) refl aligned lt
                    (λ j ne. (refl, refl, refl)) false free)
                  (λ b m.
                    in_place-Upserted g m (λ l h. let occ = h.0 in absurd cc)
                      (Cut-behind ix e).lower
                      (λ j l gt h. (Cut-behind ix e).upper j l (omega arith) h)))
        ]

  upsert_behind-IsUpsert :
      (r k : ℕ)
      → HasKey a r k
      → k ≤ key
      → ((j l : ℕ) → r < j → HasKey a j l → key < l)
      → Returns (upsert_behind a key val r) (IsUpsert a key val)
  unfolding upsert_behind
  upsert_behind-IsUpsert r k here fits beyond =
      let lt = occupied_lt a r here.0 in
      elim (Bool-cases (k == key)) [
        | inl update ↦
            let same : k ≡ key = ground arith in
            rw (upsert_behind, read-key a r k here)
              (rw update (
                from_run
                  (upsert_at-Inserts a aligned a key val r (λ j. j) refl aligned lt
                    (λ j ne. (refl, refl, refl)) true here.0)
                  (λ b m.
                    in_place-Upserted g m (λ l h. HasKey-unique a r l k h here ∙ same)
                      (λ j l before h. rw⁻¹ same (g.ascending before h here)) beyond)))
        | inr other ↦
            let less : k < key = ground arith in
            elim (Bool-cases (r + 1 == slot_count a)) [
              | inl end ↦
                  let (o, run, prev) =
                    prev_ix_helper-IsPrev a false (slot_count a - 1) (omega arith) in
                  rw (upsert_behind, read-key a r k here)
                    (rw (other, end)
                      (rw (◌>>=◌, run)
                        (upsert_last-IsUpsert r k here less beyond (ground arith) o prev)))
              | inr inner ↦
                  rw (upsert_behind, read-key a r k here)
                    (rw (other, inner)
                      (upsert_middle-IsUpsert r k here less beyond (r + 1) refl (ground arith)))
            ]
      ]

  -- An insertion into a well-formed array of more than one slot ends without a panic, whatever the
  -- hint. Either it succeeds, and the array is well formed, as long as it was, and maps the key to
  -- the value and every other key as before; or it fails, every slot was taken, the key was not
  -- stored, and the array is as
  -- it was.
  pub upsert_with_hint-IsUpsert :
      (hint : ℕ) → 1 < slot_count a → Returns (upsert_with_hint a key val hint) (IsUpsert a key val)
  unfolding upsert_with_hint
  upsert_with_hint-IsUpsert hint room = from_floor (price_is_right-IsFloor g key (some hint))
    where
      from_floor :
          Returns (price_is_right a key (some hint)) (IsFloor a key)
          → Returns (upsert_with_hint a key val hint) (IsUpsert a key val)
      from_floor (none, run, floor) =
          let cut : Cut 0 = record {
            lower = λ j l lt h. absurd (omega arith);
            upper = λ j l le h. floor j l h;
          } in
          rw (upsert_with_hint, run)
            (upsert_first-IsUpsert room cut _ (next_ix_helper-IsNext a false 0))
      from_floor (some r, run, (k, here, fits, beyond)) =
          rw (upsert_with_hint, run) (upsert_behind-IsUpsert r k here fits beyond)
