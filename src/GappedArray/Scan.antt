-- ===== src/GappedArray/Scan.antt =====
-- The scans of the bitmap in utils/gapped_array/src/lib.rs.
use clearned_immutable.Prelude.{
  ℕ, zero, suc, ◌+◌, ◌-◌, ◌≤◌, ◌<◌, ◌≡◌, ◌≢◌, refl, inl, inr, true, false, Bool, Bool-cases, Option,
  none, some, List, arith, length, get_elem?, get_elem?-lt, get_elem?-ge, Returns, order_cases,
  lt_or_le,
}
use clearned_immutable.SortedArray.{at}
use clearned_immutable.GappedArray.{
  GappedKvArray, same, scan_up, scan_down, slot_count, next_ix_helper, prev_ix_helper,
}

pub same-≡ : (val b : Bool) → same b val ≡ true → b ≡ val
same-≡ true true e = refl
same-≡ false false e = refl
same-≡ true false e = cc
same-≡ false true e = cc

pub same-≢ : (val b : Bool) → same b val ≡ false → b ≢ val
same-≢ true true e = absurd cc
same-≢ false false e = absurd cc
same-≢ true false e = λ p. cc
same-≢ false true e = λ p. cc

-- The first slot at or after `ix` whose bit is `val`.
abbrev pub IsNext : List Bool → Bool → ℕ → Option ℕ → Type 0
IsNext bitmap val ix none = (j : ℕ) → ix ≤ j → get_elem? bitmap j ≢ some val
IsNext bitmap val ix (some r) =
    (ix ≤ r)
    × (get_elem? bitmap r ≡ some val)
    × ((j : ℕ) → ix ≤ j → j < r → get_elem? bitmap j ≢ some val)

-- The last slot at or before `ix` whose bit is `val`.
abbrev pub IsPrev : List Bool → Bool → ℕ → Option ℕ → Type 0
IsPrev bitmap val ix none = (j : ℕ) → j ≤ ix → get_elem? bitmap j ≢ some val
IsPrev bitmap val ix (some r) =
    (r ≤ ix)
    × (get_elem? bitmap r ≡ some val)
    × ((j : ℕ) → r < j → j ≤ ix → get_elem? bitmap j ≢ some val)

module _ (bitmap : List Bool) (val : Bool) where
  past_end : (ix j : ℕ) → length bitmap ≤ ix → ix ≤ j → get_elem? bitmap j ≢ some val
  past_end ix j end h e = let nothing = get_elem?-ge bitmap j (omega arith) in cc

  IsNext-step :
      (ix : ℕ) (r : Option ℕ)
      → get_elem? bitmap ix ≢ some val
      → IsNext bitmap val (ix + 1) r
      → IsNext bitmap val ix r
  IsNext-step ix none other h = λ j le. elim (order_cases ix j) [
    | inl lt ↦ h j (omega arith)
    | inr (inl gt) ↦ absurd (omega arith)
    | inr (inr eq) ↦ rw⁻¹ eq other
  ]
  IsNext-step ix (some r) other h = (
    omega (arith, h.0),
    h.1,
    λ j le lt. elim (order_cases ix j) [
      | inl after ↦ h.2 j (omega arith) lt
      | inr (inl gt) ↦ absurd (omega arith)
      | inr (inr eq) ↦ rw⁻¹ eq other
    ],
  )

  scan_up-IsNext :
      (fuel ix : ℕ) → length bitmap ≤ ix + fuel → IsNext bitmap val ix (scan_up fuel bitmap ix val)
  unfolding scan_up
  scan_up-IsNext zero ix enough = λ j le. past_end ix j (omega arith) le
  scan_up-IsNext (suc fuel) ix enough = elim (lt_or_le ix (length bitmap)) [
    | inr end ↦ rw (scan_up, get_elem?-ge bitmap ix end) (λ j le. past_end ix j end le)
    | inl lt ↦
        let (b, here) = get_elem?-lt bitmap ix lt in
        elim (Bool-cases (same b val)) [
          | inl eq ↦
              rw (scan_up, here, eq)
                (omega arith, rw (same-≡ val b eq) at here, λ j le l. absurd (omega arith))
          | inr ne ↦
              rw (scan_up, here, ne)
                (IsNext-step ix _ (λ e. same-≢ val b ne cc)
                  (scan_up-IsNext fuel (ix + 1) (omega arith)))
        ]
  ]

  IsPrev-step :
      (ix : ℕ) (r : Option ℕ)
      → get_elem? bitmap (suc ix) ≢ some val
      → IsPrev bitmap val ix r
      → IsPrev bitmap val (suc ix) r
  IsPrev-step ix none other h = λ j le. elim (order_cases j (suc ix)) [
    | inl lt ↦ h j (omega arith)
    | inr (inl gt) ↦ absurd (omega arith)
    | inr (inr eq) ↦ rw eq other
  ]
  IsPrev-step ix (some r) other h = (
    omega (arith, h.0),
    h.1,
    λ j lt le. elim (order_cases j (suc ix)) [
      | inl before ↦ h.2 j lt (omega arith)
      | inr (inl gt) ↦ absurd (omega arith)
      | inr (inr eq) ↦ rw eq other
    ],
  )

  scan_down-IsPrev :
      (ix : ℕ) → ix < length bitmap → Returns (scan_down bitmap ix val) (IsPrev bitmap val ix)
  unfolding scan_down
  scan_down-IsPrev zero lt =
      let (b, here) = get_elem?-lt bitmap 0 lt in
      elim (Bool-cases (same b val)) [
        | inl eq ↦ (
          some 0,
          rw (at, here) (rw eq),
          (omega arith, rw (same-≡ val b eq) at here, λ j l le. absurd (omega arith)),
        )
        | inr ne ↦ (
          none,
          rw (at, here) (rw ne),
          λ j le. let z : j ≡ 0 = omega arith in rw z (λ e. same-≢ val b ne cc),
        )
      ]
  scan_down-IsPrev (suc ix) lt =
      let (b, here) = get_elem?-lt bitmap (suc ix) lt in
      elim (Bool-cases (same b val)) [
        | inl eq ↦ (
          some (suc ix),
          rw (at, here) (rw eq),
          (omega arith, rw (same-≡ val b eq) at here, λ j l le. absurd (omega arith)),
        )
        | inr ne ↦
            let (r, run, prev) = scan_down-IsPrev ix (omega arith) in
            (r, rw (at, here) (rw ne run), IsPrev-step ix r (λ e. same-≢ val b ne cc) prev)
      ]

module _ {ℓ} {V : Type ℓ} (a : GappedKvArray V) (val : Bool) (ix : ℕ) where
  -- The scan to the right ends for every index, also past the end, at the first slot from the index
  -- on with the bit that it looks for.
  pub next_ix_helper-IsNext : IsNext a.bitmap val ix (next_ix_helper a ix val)
  unfolding next_ix_helper
  next_ix_helper-IsNext = scan_up-IsNext a.bitmap val (slot_count a - ix) ix (omega arith)

  -- The scan to the left from an index of the array does not panic, and ends at the last slot up to
  -- the index with the bit that it looks for.
  pub prev_ix_helper-IsPrev :
      ix < slot_count a → Returns (prev_ix_helper a ix val) (IsPrev a.bitmap val ix)
  unfolding prev_ix_helper
  prev_ix_helper-IsPrev lt = scan_down-IsPrev a.bitmap val ix lt
