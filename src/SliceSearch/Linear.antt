-- ===== src/SliceSearch/Linear.antt =====
-- `LinearSearch` of utils/slice_search/src/lib.rs finds what it documents.
use clearned_immutable.Prelude.{
  ℕ, zero, suc, ◌+◌, ◌≤◌, ◌<◌, ◌≡◌, inl, inr, List, [], ◌∷◌, arith, length, ltb, ◌==◌,
  if◌then◌else◌, Bool-cases,
}
use clearned_immutable.SliceSearch.{
  SearchResult, found, missing, key_at, linear_from, linear_search,
}
use clearned_immutable.SliceSearch.Finds.{IsAscending, Finds, All-key_at}

-- The result for the slice behind one more element.
abbrev pub next : SearchResult → SearchResult
next (found i) = found (suc i)
next (missing i) = missing (suc i)

module _ {ℓ} {T : Type ℓ} (borrow : T → ℕ) where
  linear_from-next :
      (ys : List T) (x n : ℕ) → linear_from borrow ys x (n + 1) ≡ next (linear_from borrow ys x n)
  unfolding linear_from
  linear_from-next [] x n = ground arith
  linear_from-next (y ∷ ys) x n = ground (arith, linear_from-next ys x (n + 1))

  -- One step of the search.
  pub linear_search-cons :
      (y : T) (ys : List T) (x : ℕ)
      → linear_search borrow (y ∷ ys) x ≡ (
          if ltb (borrow y) x
          then next (linear_search borrow ys x)
          else if borrow y == x
          then found 0
          else missing 0)
  unfolding linear_search
  linear_search-cons y ys x = ground (arith, linear_from-next ys x 0)

  Finds-next :
      (y : T) (ys : List T) (x : ℕ) (r : SearchResult)
      → borrow y < x
      → Finds borrow ys x r
      → Finds borrow (y ∷ ys) x (next r)
  Finds-next y ys x (found i) lt f = (omega arith, f.1)
  Finds-next y ys x (missing i) lt f = (omega arith, before, after)
    where
      before : (j : ℕ) → j < suc i → key_at borrow (y ∷ ys) j < x
      before zero h = lt
      before (suc j) h = f.1 j (omega arith)

      after : (j : ℕ) → suc i ≤ j → j < suc (length ys) → x < key_at borrow (y ∷ ys) j
      after zero h len = absurd (omega arith)
      after (suc j) h len = f.2 j (omega arith) (omega arith)

  key_at_first :
      (y : T) (ys : List T) (j : ℕ)
      → IsAscending borrow (y ∷ ys)
      → j < suc (length ys)
      → borrow y ≤ key_at borrow (y ∷ ys) j
  key_at_first y ys zero asc h = omega arith
  key_at_first y ys (suc j) asc h =
      omega (arith, All-key_at borrow (λ k. borrow y < k) ys j asc.0 (omega arith))

  -- The linear search of a slice in ascending order finds the key, or where it belongs.
  pub linear_search-Finds :
      (slice : List T) (x : ℕ)
      → IsAscending borrow slice
      → Finds borrow slice x (linear_search borrow slice x)
  linear_search-Finds [] x asc =
      unfold linear_search in
      (omega arith, λ j h. absurd (omega arith), λ j h len. absurd (omega arith))
  linear_search-Finds (y ∷ ys) x asc = elim (Bool-cases (ltb (borrow y) x)) [
    | inl lt ↦
        rw (linear_search-cons, lt)
          (Finds-next y ys x _ (ground arith) (linear_search-Finds ys x asc.1))
    | inr ge ↦ elim (Bool-cases (borrow y == x)) [
      | inl eq ↦ rw (linear_search-cons, ge, eq) (omega arith, ground arith)
      | inr ne ↦
          rw (linear_search-cons, ge, ne)
            (
              omega arith,
              λ j h. absurd (omega arith),
              λ j h len. ground (arith, key_at_first y ys j asc len),
            )
    ]
  ]
