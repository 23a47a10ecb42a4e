-- ===== src/SliceSearch/Bounds.antt =====
-- `lower_bound` and `upper_bound` of utils/slice_search/src/lib.rs, on the result of a search.
use clearned_immutable.Prelude.{
  ℕ, zero, suc, ◌≤◌, ◌<◌, ◌≡◌, inl, inr, Option, none, some, List, true, false, arith, length, ltb,
  lt_or_le,
}
use clearned_immutable.SliceSearch.{SearchResult, found, missing, key_at, lower_bound, upper_bound}
use clearned_immutable.SliceSearch.Finds.{IsAscending, Finds, key_at_mono}

module _ {ℓ} {T : Type ℓ} (borrow : T → ℕ) where
  abbrev pub IsLargestBelow : List T → ℕ → Option ℕ → Type 0
  IsLargestBelow slice x none = (j : ℕ) → j < length slice → x < key_at borrow slice j
  IsLargestBelow slice x (some i) =
      (i < length slice)
      × (key_at borrow slice i ≤ x)
      × ((j : ℕ) → i < j → j < length slice → x < key_at borrow slice j)

  abbrev pub IsSmallestAbove : List T → ℕ → Option ℕ → Type 0
  IsSmallestAbove slice x none = (j : ℕ) → j < length slice → key_at borrow slice j < x
  IsSmallestAbove slice x (some i) =
      (i < length slice)
      × (x ≤ key_at borrow slice i)
      × ((j : ℕ) → j < i → key_at borrow slice j < x)

  -- `lower_bound` of what a search of an ascending slice finds is the index of the largest key that
  -- is not above the key searched for, and `None` if every key is above it.
  pub lower_bound_largest :
      (slice : List T) (x : ℕ) (r : SearchResult)
      → IsAscending borrow slice
      → Finds borrow slice x r
      → IsLargestBelow slice x (lower_bound r)
  unfolding lower_bound
  lower_bound_largest slice x (found i) asc f =
      (f.0, omega arith, λ j lt len. omega (arith, key_at_mono borrow slice i j asc lt len))
  lower_bound_largest slice x (missing zero) asc f = λ j len. f.2 j (omega arith) len
  lower_bound_largest slice x (missing (suc i)) asc f =
      (omega arith, omega (arith, f.1 i (omega arith)), λ j lt len. f.2 j (omega arith) len)

  -- `upper_bound` of what a search of an ascending slice finds is the index of the smallest key
  -- that is not below the key searched for, and `None` if every key is below it.
  pub upper_bound_smallest :
      (slice : List T) (x : ℕ) (r : SearchResult)
      → IsAscending borrow slice
      → Finds borrow slice x r
      → IsSmallestAbove slice x (upper_bound r (length slice))
  unfolding upper_bound
  upper_bound_smallest slice x (found i) asc f =
      (f.0, omega arith, λ j lt. omega (arith, key_at_mono borrow slice j i asc lt f.0))
  upper_bound_smallest slice x (missing i) asc f = elim (lt_or_le i (length slice)) [
    | inl lt ↦
        let e : ltb i (length slice) ≡ true = ground arith in
        rw e (lt, omega (arith, f.2 i (omega arith) lt), f.1)
    | inr ge ↦
        let e : ltb i (length slice) ≡ false = ground arith in rw e (λ j len. f.1 j (omega arith))
  ]
