-- ===== src/SortedArray/Assoc.antt =====
-- What the sorted array of utils/sorted_array/src/lib.rs stands for: a finite map, as the list of
-- its entries in ascending order of the keys.
use clearned_immutable.Prelude.{
  ℕ, ◌≤◌, ◌<◌, ◌≡◌, refl, ap, inl, inr, true, Option, none, some, List, [], ◌∷◌, ◌++◌, All, arith,
  length, ltb, ◌==◌, if◌then◌else◌, Bool-cases,
}
use clearned_immutable.SliceSearch.{found, missing, linear_search}
use clearned_immutable.SliceSearch.Finds.{IsAscending}
use clearned_immutable.SliceSearch.Linear.{linear_search-cons}
use clearned_immutable.SortedArray.{SortedArrayEntry, entry, borrow}

module _ {ℓ} {V : Type ℓ} where
  abbrev pub lookup : ℕ → List (SortedArrayEntry V) → Option V
  lookup k [] = none
  lookup k (e ∷ es) = if e.key == k then some e.value else lookup k es

  abbrev pub upsert : ℕ → V → List (SortedArrayEntry V) → List (SortedArrayEntry V)
  upsert k v [] = entry k v ∷ []
  upsert k v (e ∷ es) =
      if ltb e.key k
      then e ∷ upsert k v es
      else if e.key == k
      then entry k v ∷ es
      else entry k v ∷ e ∷ es

  abbrev pub erase : ℕ → List (SortedArrayEntry V) → List (SortedArrayEntry V)
  erase k [] = []
  erase k (e ∷ es) = if e.key == k then es else e ∷ erase k es

  abbrev pub IsMap : List (SortedArrayEntry V) → Type 0
  IsMap es = IsAscending borrow es

  pub lookup_above :
      (k : ℕ) (es : List (SortedArrayEntry V)) → All (λ e. k < e.key) es → lookup k es ≡ none
  lookup_above k [] h = refl
  lookup_above k (e ∷ es) h = ground (arith, h.0, lookup_above k es h.1)

  pub erase_above :
      (k : ℕ) (es : List (SortedArrayEntry V)) → All (λ e. k < e.key) es → erase k es ≡ es
  erase_above k [] h = refl
  erase_above k (e ∷ es) h = ground (arith, h.0, erase_above k es h.1)

  pub All-mono :
      (j k : ℕ) (es : List (SortedArrayEntry V))
      → j ≤ k
      → All (λ e. k < e.key) es
      → All (λ e. j < e.key) es
  All-mono j k [] le h = tt
  All-mono j k (e ∷ es) le h = (omega (arith, h.0), All-mono j k es le h.1)

  All-upsert :
      (j k : ℕ) (v : V) (es : List (SortedArrayEntry V))
      → j < k
      → All (λ e. j < e.key) es
      → All (λ e. j < e.key) (upsert k v es)
  All-upsert j k v [] lt h = (lt, tt)
  All-upsert j k v (e ∷ es) lt h = elim (Bool-cases (ltb e.key k)) [
    | inl below ↦ rw below (h.0, All-upsert j k v es lt h.1)
    | inr above ↦ elim (Bool-cases (e.key == k)) [
      | inl eq ↦ rw (above, eq) (lt, h.1)
      | inr ne ↦ rw (above, ne) (lt, h)
    ]
  ]

  -- The entries stay in order.
  pub upsert-IsMap :
      (k : ℕ) (v : V) (es : List (SortedArrayEntry V)) → IsMap es → IsMap (upsert k v es)
  upsert-IsMap k v [] asc = (tt, tt)
  upsert-IsMap k v (e ∷ es) asc = elim (Bool-cases (ltb e.key k)) [
    | inl below ↦ rw below (All-upsert e.key k v es (ground arith) asc.0, upsert-IsMap k v es asc.1)
    | inr above ↦ elim (Bool-cases (e.key == k)) [
      | inl eq ↦ rw (above, eq) (All-mono k e.key es (ground arith) asc.0, asc.1)
      | inr ne ↦ rw (above, ne) ((ground arith, All-mono k e.key es (ground arith) asc.0), asc)
    ]
  ]

  All-erase :
      (j k : ℕ) (es : List (SortedArrayEntry V))
      → All (λ e. j < e.key) es
      → All (λ e. j < e.key) (erase k es)
  All-erase j k [] h = tt
  All-erase j k (e ∷ es) h = elim (Bool-cases (e.key == k)) [
    | inl eq ↦ rw eq h.1
    | inr ne ↦ rw ne (h.0, All-erase j k es h.1)
  ]

  pub erase-IsMap : (k : ℕ) (es : List (SortedArrayEntry V)) → IsMap es → IsMap (erase k es)
  erase-IsMap k [] asc = tt
  erase-IsMap k (e ∷ es) asc = elim (Bool-cases (e.key == k)) [
    | inl eq ↦ rw eq asc.1
    | inr ne ↦ rw ne (All-erase e.key k es asc.0, erase-IsMap k es asc.1)
  ]

  -- A lookup after a removal.
  pub lookup-erase :
      (j k : ℕ) (es : List (SortedArrayEntry V))
      → IsMap es
      → lookup j (erase k es) ≡ (if k == j then none else lookup j es)
  lookup-erase j k [] asc = ground arith
  lookup-erase j k (e ∷ es) asc =
      ground (arith, lookup-erase j k es asc.1, lookup_above e.key es asc.0, lookup_above k es)

  -- A lookup after an insertion.
  pub lookup-upsert :
      (j k : ℕ) (v : V) (es : List (SortedArrayEntry V))
      → IsMap es
      → lookup j (upsert k v es) ≡ (if k == j then some v else lookup j es)
  lookup-upsert j k v [] asc = refl
  lookup-upsert j k v (e ∷ es) asc = ground (arith, lookup-upsert j k v es asc.1)

  -- Where a search leads: the entries before and behind the place, and what the map's operations do.
  pub data Located (k : ℕ) (es : List (SortedArrayEntry V)) : Type ℓ where
    hit :
        (pre post : List (SortedArrayEntry V)) (e : SortedArrayEntry V)
        → es ≡ pre ++ e ∷ post
        → e.key ≡ k
        → linear_search borrow es k ≡ found (length pre)
        → lookup k es ≡ some e.value
        → ((v : V) → upsert k v es ≡ pre ++ entry k v ∷ post)
        → erase k es ≡ pre ++ post
        → Located k es
    miss :
        (pre post : List (SortedArrayEntry V))
        → es ≡ pre ++ post
        → linear_search borrow es k ≡ missing (length pre)
        → lookup k es ≡ none
        → ((v : V) → upsert k v es ≡ pre ++ entry k v ∷ post)
        → erase k es ≡ es
        → Located k es

  Located-cons :
      (k : ℕ) (e : SortedArrayEntry V) (es : List (SortedArrayEntry V))
      → ltb e.key k ≡ true
      → Located k es
      → Located k (e ∷ es)
  Located-cons k e es below (hit pre post e' eq key s l u r) =
      hit (e ∷ pre) post e' (ap (λ t. e ∷ t) eq) key (rw (linear_search-cons, below, s))
        (ground arith) (λ v. rw below (ap (λ t. e ∷ t) (u v))) (ground arith)
  Located-cons k e es below (miss pre post eq s l u r) =
      miss (e ∷ pre) post (ap (λ t. e ∷ t) eq) (rw (linear_search-cons, below, s)) (ground arith)
        (λ v. rw below (ap (λ t. e ∷ t) (u v))) (ground arith)

  pub locate : (k : ℕ) (es : List (SortedArrayEntry V)) → IsMap es → Located k es
  locate k [] asc = miss [] [] refl (unfold linear_search in refl) refl (λ v. refl) refl
  locate k (e ∷ es) asc = elim (Bool-cases (ltb e.key k)) [
    | inl below ↦ Located-cons k e es below (locate k es asc.1)
    | inr above ↦ elim (Bool-cases (e.key == k)) [
      | inl eq ↦
          hit [] es e refl (ground arith) (rw (linear_search-cons, above, eq)) (rw eq)
            (λ v. rw (above, eq)) (rw eq)
      | inr ne ↦
          let later = All-mono k e.key es (ground arith) asc.0 in
          miss [] (e ∷ es) refl (rw (linear_search-cons, above, ne))
            (rw ne (lookup_above k es later)) (λ v. rw (above, ne))
            (rw ne (ap (λ t. e ∷ t) (erase_above k es later)))
    ]
  ]
