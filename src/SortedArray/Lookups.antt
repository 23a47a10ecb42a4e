-- ===== src/SortedArray/Lookups.antt =====
-- The lookups of utils/sorted_array/src/lib.rs read the map.
use clearned_immutable.Prelude.{
  ◌==◌, replicate, length-replicate, lt_or_le, get_elem?-lt, get_elem?-ge, inl, inr, ℕ, zero, suc,
  ◌≡◌, refl, ap, true, false, Option, none, some, List, [], ◌∷◌, ◌++◌, map, arith, length,
  get_elem?, ltb, ok,
}
use clearned_immutable.SortedArray.{
  SortedArrayEntry, SortedArray, capacity, read, get_exact, contains_key, get_index, is_full,
  is_empty, empty,
}
use clearned_immutable.SortedArray.Assoc.{lookup, Located, hit, miss, locate}
use clearned_immutable.SortedArray.Holds.{Holds, search-ok, read-ok}

get_elem?-map_left {ℓ} :
    {A : Type ℓ} (xs : List A) (rest : List (Option A)) (i : ℕ) (x : A)
    → get_elem? xs i ≡ some x
    → get_elem? (map some xs ++ rest) i ≡ some (some x)
get_elem?-map_left [] rest i x h = cc
get_elem?-map_left (y ∷ xs) rest zero x h = ap some h
get_elem?-map_left (y ∷ xs) rest (suc i) x h = get_elem?-map_left xs rest i x h

module _ {ℓ} {V : Type ℓ} (size_of : ℕ) where
  -- `get_exact` returns what the map that the array holds has under the key.
  pub get_exact-lookup :
      {a : SortedArray V} {es : List (SortedArrayEntry V)} (k : ℕ)
      → Holds a es
      → get_exact size_of a k ≡ ok (lookup k es)
  unfolding get_exact
  get_exact-lookup {a} {es} k h = at_place (locate k es h.ascending) h
    where
      at_place : Located k es → Holds a es → get_exact size_of a k ≡ ok (lookup k es)
      at_place (hit pre post e eq key s l u r) h =
          let place : Holds a (pre ++ e ∷ post) = rw eq at h in
          rw (get_exact, search-ok size_of k h, s) (rw (read-ok pre post e place, l))
      at_place (miss pre post eq s l u r) h = rw (get_exact, search-ok size_of k h, s, l)

  -- `contains_key` says whether the map that the array holds has the key.
  pub contains_key-lookup :
      {a : SortedArray V} {es : List (SortedArrayEntry V)} (k : ℕ)
      → Holds a es
      → contains_key size_of a k ≡ ok (elim (lookup k es) [ none ↦ false | some _ ↦ true ])
  unfolding contains_key
  contains_key-lookup {a} {es} k h = at_place (locate k es h.ascending)
    where
      at_place :
          Located k es
          → contains_key size_of a k ≡ ok (elim (lookup k es) [ none ↦ false | some _ ↦ true ])
      at_place (hit pre post e eq key s l u r) = rw (contains_key, search-ok size_of k h, s, l)
      at_place (miss pre post eq s l u r) = rw (contains_key, search-ok size_of k h, s, l)

module _ {ℓ} {V : Type ℓ} where
  -- `get_index` reads the entry of that rank, and `None` past the last.
  pub get_index-get_elem? :
      {a : SortedArray V} {es : List (SortedArrayEntry V)} (i : ℕ)
      → Holds a es
      → get_index a i ≡ ok (get_elem? es i)
  unfolding get_index read
  get_index-get_elem? {a} {es} i h = elim (lt_or_le i (length es)) [
    | inl lt ↦
        let (e, got) = get_elem?-lt es i lt in
        let test : ltb i a.len ≡ true = ground (arith, h.len) in
        rw (get_index, test, read, h.slots, get_elem?-map_left es h.rest i e got, got)
    | inr ge ↦
        let test : ltb i a.len ≡ false = ground (arith, h.len) in
        rw (get_index, test, get_elem?-ge es i ge)
  ]

  -- `is_full` says whether the map has as many entries as there are slots, `is_empty` whether it has
  -- none.
  pub is_full-length :
      {a : SortedArray V} {es : List (SortedArrayEntry V)}
      → Holds a es
      → (is_full a ≡ (length es == capacity a)) × (is_empty a ≡ (length es == 0))
  unfolding is_full is_empty
  is_full-length h = (rw h.len, rw h.len)

  -- A new array holds the empty map.
  pub empty-Holds : (n : ℕ) → Holds (empty {V = V} n) [] × (capacity (empty {V = V} n) ≡ n)
  unfolding empty
  empty-Holds n = (
    record { rest = replicate n none; slots = refl; len = refl; ascending = tt },
    length-replicate n none,
  )
