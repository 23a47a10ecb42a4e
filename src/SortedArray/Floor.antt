-- ===== src/SortedArray/Floor.antt =====
-- The lower bounds of utils/sorted_array/src/lib.rs.
use clearned_immutable.Prelude.{
  ℕ, zero, suc, ◌<◌, ◌≡◌, refl, sym, ◌∙◌, inl, inr, true, Option, none, some, List, [], ◌∷◌, All,
  arith, get_elem?, ltb, ◌==◌, if◌then◌else◌, Bool-cases, ok, ◌>>=◌,
}
use clearned_immutable.SliceSearch.{
  SearchResult, found, missing, linear_search, lower_bound, lower_bound_always,
}
use clearned_immutable.SliceSearch.Linear.{next, linear_search-cons}
use clearned_immutable.SortedArray.{
  SortedArrayEntry, SortedArray, borrow, at, get_lower_bound, get_lower_bound_always,
}
use clearned_immutable.SortedArray.Assoc.{IsMap, All-mono}
use clearned_immutable.SortedArray.Holds.{Holds, entries-ok, search-ok}

lower_bound-next :
    (r : SearchResult)
    → lower_bound (next r) ≡ some (elim (lower_bound r) [ none ↦ 0 | some i ↦ suc i ])
unfolding lower_bound
lower_bound-next (found i) = refl
lower_bound-next (missing zero) = refl
lower_bound-next (missing (suc i)) = refl

module _ {ℓ} {V : Type ℓ} where
  -- The value of the largest key that is at most `k`, or `d` where there is none.
  abbrev pub floor_or : Option V → ℕ → List (SortedArrayEntry V) → Option V
  floor_or d k [] = d
  floor_or d k (e ∷ es) = if ltb k e.key then d else floor_or (some e.value) k es

  abbrev pub first_value : List (SortedArrayEntry V) → Option V
  first_value [] = none
  first_value (e ∷ es) = some e.value

  -- What the index of a search's lower bound leads to.
  data Bound (d : Option V) (k : ℕ) (es : List (SortedArrayEntry V)) : Type ℓ where
    nowhere : lower_bound (linear_search borrow es k) ≡ none → floor_or d k es ≡ d → Bound d k es
    somewhere :
        (i : ℕ) (e : SortedArrayEntry V)
        → lower_bound (linear_search borrow es k) ≡ some i
        → get_elem? es i ≡ some e
        → floor_or d k es ≡ some e.value
        → Bound d k es

  floor_above :
      (d : Option V) (k : ℕ) (es : List (SortedArrayEntry V))
      → All (λ e. k < e.key) es
      → floor_or d k es ≡ d
  floor_above d k [] h = refl
  floor_above d k (e ∷ es) h = ground (arith, h.0)

  Bound-cons :
      (d : Option V) (k : ℕ) (e : SortedArrayEntry V) (es : List (SortedArrayEntry V))
      → ltb e.key k ≡ true
      → Bound (some e.value) k es
      → Bound d k (e ∷ es)
  Bound-cons d k e es below (nowhere lb f) =
      somewhere 0 e (rw (linear_search-cons, below) (lower_bound-next _ ∙ rw lb)) refl
        (ground arith)
  Bound-cons d k e es below (somewhere i e' lb at f) =
      somewhere (suc i) e' (rw (linear_search-cons, below) (lower_bound-next _ ∙ rw lb)) at
        (ground arith)

  Bound-of : (d : Option V) (k : ℕ) (es : List (SortedArrayEntry V)) → IsMap es → Bound d k es
  unfolding lower_bound
  Bound-of d k [] asc = nowhere (unfold linear_search in refl) refl
  Bound-of d k (e ∷ es) asc = elim (Bool-cases (ltb e.key k)) [
    | inl below ↦ Bound-cons d k e es below (Bound-of (some e.value) k es asc.1)
    | inr above ↦ elim (Bool-cases (e.key == k)) [
      | inl eq ↦ somewhere 0 e (rw (linear_search-cons, above, eq)) refl (
          ground
            (arith, floor_above (some e.value) k es (All-mono k e.key es (ground arith) asc.0)))
      | inr ne ↦ nowhere (rw (linear_search-cons, above, ne)) (ground arith)
    ]
  ]

  first_entry :
      (es : List (SortedArrayEntry V)) (v : V)
      → first_value es ≡ some v
      → (e : SortedArrayEntry V) × (get_elem? es 0 ≡ some e) × (e.value ≡ v)
  first_entry [] v h = cc
  first_entry (e ∷ es) v h = (e, refl, cc)

  module _ {a : SortedArray V} {es : List (SortedArrayEntry V)} (size_of k : ℕ)
      (h : Holds a es) where
    -- `get_lower_bound` returns the value of the largest key that is at most `k`, or `None` if
    -- there is none.
    pub get_lower_bound-floor : get_lower_bound size_of a k ≡ ok (floor_or none k es)
    unfolding get_lower_bound
    get_lower_bound-floor = at_bound (Bound-of none k es h.ascending)
      where
        at_bound : Bound none k es → get_lower_bound size_of a k ≡ ok (floor_or none k es)
        at_bound (nowhere lb f) = rw (get_lower_bound, search-ok size_of k h, ◌>>=◌, lb, f)
        at_bound (somewhere i e lb got f) =
            rw (get_lower_bound, search-ok size_of k h, ◌>>=◌, lb)
              (rw (entries-ok h) (rw (at, got, f)))

    -- `get_lower_bound_always` of an array that is not empty returns the value of the largest key
    -- that is at most `k`, or the first value if there is no such key.
    pub get_lower_bound_always-floor :
        (v : V)
        → floor_or (first_value es) k es ≡ some v
        → get_lower_bound_always size_of a k ≡ ok v
    unfolding get_lower_bound_always
    get_lower_bound_always-floor v e = at_bound (Bound-of (first_value es) k es h.ascending)
      where
        at_bound : Bound (first_value es) k es → get_lower_bound_always size_of a k ≡ ok v
        at_bound (nowhere lb f) =
            let (e', got, same) = first_entry es v (sym f ∙ e) in
            rw (get_lower_bound_always, search-ok size_of k h)
              (rw (entries-ok h, lower_bound_always, lb) (rw (at, got, same)))
        at_bound (somewhere i e' lb got f) =
            rw (get_lower_bound_always, search-ok size_of k h)
              (rw (entries-ok h, lower_bound_always, lb) (rw (at, got) (cc (sym f ∙ e))))
