-- ===== src/SliceSearch/Binary.antt =====
-- `BinarySearch` and `OptimalSearch` of utils/slice_search/src/lib.rs agree with `LinearSearch`.
use clearned_immutable.Prelude.{
  ℕ, zero, suc, ◌+◌, ◌-◌, ◌/◌, ◌≤◌, ◌<◌, ◌≡◌, inl, inr, List, arith, length, ltb, ◌==◌, Bool-cases,
  order_cases,
}
use clearned_immutable.SliceSearch.{key_at, linear_search, bisect, binary_search, optimal_search}
use clearned_immutable.SliceSearch.Finds.{IsAscending, Finds, key_at_mono, Finds-unique}
use clearned_immutable.SliceSearch.Linear.{linear_search-Finds}

module _ {ℓ} {T : Type ℓ} (borrow : T → ℕ) where
  -- The keys left of `left` are below the one searched for, those from `right` on above it.
  record Narrowed (slice : List T) (x left right : ℕ) : Type 0 where
    ordered : left ≤ right
    inside : right ≤ length slice
    below : (j : ℕ) → j < left → key_at borrow slice j < x
    above : (j : ℕ) → right ≤ j → j < length slice → x < key_at borrow slice j

  module _ (slice : List T) (x : ℕ) (asc : IsAscending borrow slice) where
    -- A key at or before `mid` is at most the one there, and a key behind it at least that.
    below_mid :
        (mid j : ℕ)
        → mid < length slice
        → j < mid + 1
        → key_at borrow slice j ≤ key_at borrow slice mid
    below_mid mid j len h = elim (order_cases j mid) [
      | inl lt ↦ omega (arith, key_at_mono borrow slice j mid asc lt len)
      | inr (inl gt) ↦ absurd (omega arith)
      | inr (inr eq) ↦ rw eq (omega arith)
    ]

    above_mid :
        (mid j : ℕ) → mid ≤ j → j < length slice → key_at borrow slice mid ≤ key_at borrow slice j
    above_mid mid j h len = below_mid j mid len (omega arith)

    bisect-Finds :
        (fuel left right : ℕ)
        → right - left ≤ fuel
        → Narrowed slice x left right
        → Finds borrow slice x (bisect borrow fuel slice x left right)
    unfolding bisect
    bisect-Finds zero left right enough n =
        (omega arith, n.below, λ j h len. n.above j (omega arith) len)
    bisect-Finds (suc fuel) left right enough n = elim (Bool-cases (ltb left right)) [
      | inr empty ↦
          rw empty
            (omega (arith, n.ordered, n.inside), n.below, λ j h len. n.above j (ground arith) len)
      | inl some_left ↦
          let mid = left + (right - left) / 2 in
          let lt : left < right = ground arith in
          let len : mid < length slice = omega (arith, n.inside) in
          elim (Bool-cases (ltb (key_at borrow slice mid) x)) [
            | inl low ↦
                rw (some_left, low)
                  (bisect-Finds fuel (mid + 1) right (omega arith) (record {
                    ordered = omega arith;
                    inside = n.inside;
                    below = λ j h. ground (arith, below_mid mid j len h);
                    above = n.above;
                  }))
            | inr high ↦ elim (Bool-cases (key_at borrow slice mid == x)) [
              | inl eq ↦ rw (some_left, high, eq) (len, ground arith)
              | inr ne ↦
                  rw (some_left, high, ne)
                    (bisect-Finds fuel left mid (omega arith) (record {
                      ordered = omega arith;
                      inside = omega arith;
                      below = n.below;
                      above = λ j h inside. ground (arith, above_mid mid j h inside);
                    }))
            ]
          ]
    ]

    -- The binary search of an ascending slice finds the key, or where it belongs.
    pub binary_search-Finds : Finds borrow slice x (binary_search borrow slice x)
    unfolding binary_search
    binary_search-Finds = bisect-Finds (length slice) 0 (length slice) (omega arith) (record {
      ordered = omega arith;
      inside = omega arith;
      below = λ j h. absurd (omega arith);
      above = λ j h len. absurd (omega arith);
    })

    -- The three searches of an ascending slice return the same result, whatever the key's size.
    pub optimal_search-linear_search :
        (size_of : ℕ)
        → (binary_search borrow slice x ≡ linear_search borrow slice x)
          × (optimal_search borrow size_of slice x ≡ linear_search borrow slice x)
    unfolding optimal_search
    optimal_search-linear_search size_of =
        let same =
          Finds-unique borrow slice x _ _ asc binary_search-Finds
            (linear_search-Finds borrow slice x asc) in
        (same, ground (arith, same))
