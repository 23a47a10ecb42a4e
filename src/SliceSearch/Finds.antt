-- ===== src/SliceSearch/Finds.antt =====
-- What `Search::search_by_key` of utils/slice_search/src/lib.rs documents.
use clearned_immutable.Prelude.{
  ℕ, zero, suc, ◌≤◌, ◌<◌, ◌≡◌, ap, List, [], ◌∷◌, All, arith, length, inl, inr, order_cases,
  lt_or_le,
}
use clearned_immutable.SliceSearch.{SearchResult, found, missing, key_at}

module _ {ℓ} {T : Type ℓ} (borrow : T → ℕ) where
  -- Every key is below the next ones.
  abbrev pub IsAscending : List T → Type 0
  IsAscending [] = Unit
  IsAscending (y ∷ ys) = All (λ z. borrow y < borrow z) ys × IsAscending ys

  -- `Ok` holds an index of the key; `Err` one where it can be inserted in order.
  abbrev pub Finds : List T → ℕ → SearchResult → Type 0
  Finds slice x (found i) = (i < length slice) × (key_at borrow slice i ≡ x)
  Finds slice x (missing i) =
      (i ≤ length slice)
      × ((j : ℕ) → j < i → key_at borrow slice j < x)
      × ((j : ℕ) → i ≤ j → j < length slice → x < key_at borrow slice j)

  pub All-key_at :
      (P : ℕ → Type 0) (ys : List T) (j : ℕ)
      → All (λ z. P (borrow z)) ys
      → j < length ys
      → P (key_at borrow ys j)
  All-key_at P [] j h lt = absurd (omega arith)
  All-key_at P (y ∷ ys) zero h lt = h.0
  All-key_at P (y ∷ ys) (suc j) h lt = All-key_at P ys j h.1 (omega arith)

  pub key_at_mono :
      (ys : List T) (i j : ℕ)
      → IsAscending ys
      → i < j
      → j < length ys
      → key_at borrow ys i < key_at borrow ys j
  key_at_mono [] i j asc lt in_range = absurd (omega arith)
  key_at_mono (y ∷ ys) zero (suc j) asc lt in_range =
      All-key_at (λ k. borrow y < k) ys j asc.0 (omega arith)
  key_at_mono (y ∷ ys) (suc i) (suc j) asc lt in_range =
      key_at_mono ys i j asc.1 (omega arith) (omega arith)
  key_at_mono (y ∷ ys) i zero asc lt in_range = absurd (omega arith)

  -- In an ascending slice the documentation leaves one answer.
  pub Finds-unique :
      (slice : List T) (x : ℕ) (r s : SearchResult)
      → IsAscending slice
      → Finds slice x r
      → Finds slice x s
      → r ≡ s
  Finds-unique slice x (found i) (found j) asc f g = elim (order_cases i j) [
    | inl lt ↦ absurd (omega (arith, key_at_mono slice i j asc lt g.0))
    | inr (inl gt) ↦ absurd (omega (arith, key_at_mono slice j i asc gt f.0))
    | inr (inr eq) ↦ ap found eq
  ]
  Finds-unique slice x (found i) (missing j) asc f g = elim (lt_or_le i j) [
    | inl lt ↦ absurd (omega (arith, g.1 i lt))
    | inr le ↦ absurd (omega (arith, g.2 i le f.0))
  ]
  Finds-unique slice x (missing i) (found j) asc f g = elim (lt_or_le j i) [
    | inl lt ↦ absurd (omega (arith, f.1 j lt))
    | inr le ↦ absurd (omega (arith, f.2 j le g.0))
  ]
  Finds-unique slice x (missing i) (missing j) asc f g = elim (order_cases i j) [
    | inl lt ↦ absurd (omega (arith, g.1 i lt, f.2 i (omega arith) (omega arith)))
    | inr (inl gt) ↦ absurd (omega (arith, f.1 j gt, g.2 j (omega arith) (omega arith)))
    | inr (inr eq) ↦ ap missing eq
  ]
