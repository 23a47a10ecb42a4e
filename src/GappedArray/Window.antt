-- ===== src/GappedArray/Window.antt =====
-- The entries that the loops of `trim_window` of utils/gapped_array/src/lib.rs take out of an array.
use clearned_immutable.Prelude.{
  ℕ, ◌+◌, ◌-◌, ◌≤◌, ◌<◌, ◌≡◌, ◌∙◌, inl, inr, refl, ap, true, false, Option, none, some, List, [],
  ◌∷◌, ◌++◌, append-nil, max, min, arith, length, leb, order_cases,
}
use clearned_immutable.GappedArray.{GappedKvArray, slot_count}
use clearned_immutable.GappedArray.Slots.{IsOccupied, HasEntry, IsGapped}
use clearned_immutable.GappedArray.Removed.{IsPart, without}
use clearned_immutable.GappedArray.Stretch.{
  slot_entry, between, between_split, between_free, one_slot_between, slot_full, slot_free,
  without_apart, without_here,
}

-- A loop that has made `made` rounds removes at most so many entries more.
abbrev pub budget : ℕ → ℕ → ℕ
budget window_radius made = max 1 (window_radius - made)

pub budget-next :
    (window_radius made : ℕ)
    → leb window_radius (made + 1) ≡ false
    → budget window_radius (made + 1) + 1 ≡ budget window_radius made
budget-next window_radius made more = ground arith

pub budget_last :
    (window_radius made : ℕ) → leb window_radius (made + 1) ≡ true → budget window_radius made ≡ 1
budget_last window_radius made enough = ground arith

-- The values of entries, in order.
abbrev pub values {ℓ} : {V : Type ℓ} → List (ℕ × V) → List V
values [] = []
values ((key, val) ∷ es) = val ∷ values es

pub values-append {ℓ} :
    {V : Type ℓ} (xs ys : List (ℕ × V)) → values (xs ++ ys) ≡ values xs ++ values ys
values-append [] ys = refl
values-append ((key, val) ∷ xs) ys = ap (λ vs. val ∷ vs) (values-append xs ys)

module _ {ℓ} {V : Type ℓ} where
  -- The last occupied slot before `s`, and the first one from `s` on.
  abbrev pub IsLastBefore : GappedKvArray V → ℕ → Option ℕ → Type 0
  IsLastBefore a s none = (j : ℕ) → j < s → ¬ IsOccupied a j
  IsLastBefore a s (some r) =
      (r < s) × IsOccupied a r × ((j : ℕ) → r < j → j < s → ¬ IsOccupied a j)

  abbrev pub IsFirstFrom : GappedKvArray V → ℕ → Option ℕ → Type 0
  IsFirstFrom a s none = (j : ℕ) → s ≤ j → ¬ IsOccupied a j
  IsFirstFrom a s (some r) = (s ≤ r) × IsOccupied a r × ((j : ℕ) → s ≤ j → j < r → ¬ IsOccupied a j)

  -- What the loop to the left leaves of the slots before `s`: the last entries there are gone, as many
  -- as `limit` if there are so many, and their values are put in front.
  abbrev pub IsTrimmedLeft : GappedKvArray V → ℕ → ℕ → List V → List V × GappedKvArray V → Type ℓ
  IsTrimmedLeft a s limit vs (ws, b) =
      IsPart b a
      × (low : List (ℕ × V)) × (left : List (ℕ × V)) × (between a 0 s ≡ low ++ left)
      × (between b 0 s ≡ low)
      × (ws ≡ values left ++ vs)
      × (length left ≡ min limit (length low + length left))
      × ((j : ℕ) → s ≤ j → slot_entry b j ≡ slot_entry a j)

  abbrev pub IsTrimmedRight : GappedKvArray V → ℕ → ℕ → List V → List V × GappedKvArray V → Type ℓ
  IsTrimmedRight a s limit vs (ws, b) =
      IsPart b a
      × (right : List (ℕ × V)) × (high : List (ℕ × V)) × (between a s (slot_count a)
          ≡ right ++ high)
      × (between b s (slot_count a) ≡ high)
      × (ws ≡ vs ++ values right)
      × (length right ≡ min limit (length right + length high))
      × ((j : ℕ) → j < s → slot_entry b j ≡ slot_entry a j)

  module _ (a : GappedKvArray V) (g : IsGapped a) (s r : ℕ) (k : ℕ) (v : V)
      (e : HasEntry a r k v) where
    pub before_last : IsLastBefore a s (some r) → between a 0 s ≡ between a 0 r ++ (k, v) ∷ []
    before_last (lt, occ, free) =
        between_split a 0 r s (omega arith) (omega arith)
        ∙ ap (λ es. between a 0 r ++ es)
            (between_split a r (r + 1) s (omega arith) (omega arith)
              ∙ rw
                  (
                    one_slot_between a r ∙ slot_full a r k v e,
                    between_free a (r + 1) s (λ j le lt'. slot_free a j (free j (omega arith) lt')),
                  )
                  refl)

    pub after_first :
        IsFirstFrom a s (some r)
        → r < slot_count a
        → between a s (slot_count a) ≡ (k, v) ∷ between a (r + 1) (slot_count a)
    after_first (le, occ, free) inside =
        between_split a s r (slot_count a) le (omega arith)
        ∙ rw (between_free a s r (λ j from lt. slot_free a j (free j from lt))) (
            between_split a r (r + 1) (slot_count a) (omega arith) (omega arith)
            ∙ rw (one_slot_between a r ∙ slot_full a r k v e) refl)

    -- After the removal, a run that changes nothing from `r` on leaves nothing there before `s`.
    pub gone_before :
        (b : GappedKvArray V)
        → IsLastBefore a s (some r)
        → ((j : ℕ) → r ≤ j → slot_entry b j ≡ slot_entry (without a r) j)
        → between b 0 s ≡ between b 0 r
    gone_before b (lt, occ, free) same =
        between_split b 0 r s (omega arith) (omega arith)
        ∙ rw
            (between_free b r s (λ j le lt'. same j le ∙ elim (order_cases j r) [
              | inl less ↦ absurd (omega arith)
              | inr (inl more) ↦
                  without_apart a r j (λ is. omega arith) ∙ slot_free a j (free j more lt')
              | inr (inr is) ↦ rw is (without_here a r g occ)
            ]))
            (append-nil (between b 0 r))

    pub gone_after :
        (b : GappedKvArray V)
        → IsFirstFrom a s (some r)
        → r < slot_count a
        → ((j : ℕ) → j < r + 1 → slot_entry b j ≡ slot_entry (without a r) j)
        → between b s (slot_count a) ≡ between b (r + 1) (slot_count a)
    gone_after b (le, occ, free) inside same =
        between_split b s (r + 1) (slot_count a) (omega arith) (omega arith)
        ∙ rw
            (between_free b s (r + 1) (λ j from lt. same j lt ∙ elim (order_cases j r) [
              | inl less ↦
                  without_apart a r j (λ is. omega arith) ∙ slot_free a j (free j from less)
              | inr (inl more) ↦ absurd (omega arith)
              | inr (inr is) ↦ rw is (without_here a r g occ)
            ]))
            refl
