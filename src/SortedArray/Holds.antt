-- ===== src/SortedArray/Holds.antt =====
-- The array of utils/sorted_array/src/lib.rs in memory, and the map that it holds.
use clearned_immutable.Prelude.{
  ℕ, ◌+◌, ◌≡◌, refl, sym, ap, ◌∙◌, true, Option, some, List, [], ◌∷◌, ◌++◌, map, arith, length,
  get_elem?, set, length-append, leb, ok, length-map,
}
use clearned_immutable.SliceSearch.{linear_search}
use clearned_immutable.SliceSearch.Binary.{optimal_search-linear_search}
use clearned_immutable.SortedArray.{
  SortedArrayEntry, SortedArray, borrow, capacity, entries, search, read, write,
}
use clearned_immutable.SortedArray.Memory.{take-append_left, assume_init-some, write_to}
use clearned_immutable.SortedArray.Assoc.{IsMap}

module _ {ℓ} {V : Type ℓ} where
  get_elem?-map-some :
      (pre post : List (SortedArrayEntry V)) (e : SortedArrayEntry V)
      (rest : List (Option (SortedArrayEntry V)))
      → get_elem? (map some (pre ++ e ∷ post) ++ rest) (length pre) ≡ some (some e)
  get_elem?-map-some [] post e rest = refl
  get_elem?-map-some (x ∷ pre) post e rest = get_elem?-map-some pre post e rest

  set-map-some :
      (pre post : List (SortedArrayEntry V)) (e e' : SortedArrayEntry V)
      (rest : List (Option (SortedArrayEntry V)))
      → set (map some (pre ++ e ∷ post) ++ rest) (length pre) (some e')
        ≡ map some (pre ++ e' ∷ post) ++ rest
  set-map-some [] post e e' rest = refl
  set-map-some (x ∷ pre) post e e' rest = ap (λ t. some x ∷ t) (set-map-some pre post e e' rest)

  -- The first slots are initialised with the entries `es`, in order, and `rest` are the others.
  pub record Holds (a : SortedArray V) (es : List (SortedArrayEntry V)) : Type ℓ where
    pub rest : List (Option (SortedArrayEntry V))
    pub slots : a.inner ≡ map some es ++ rest
    pub len : a.len ≡ length es
    pub ascending : IsMap es

  pub capacity_of :
      {a : SortedArray V} {es : List (SortedArrayEntry V)} (h : Holds a es)
      → capacity a ≡ length es + length h.rest
  capacity_of {es} h =
      ap length h.slots ∙ omega (arith, length-append (map some es) h.rest, length-map es some)

  pub entries-ok :
      {a : SortedArray V} {es : List (SortedArrayEntry V)} → Holds a es → entries a ≡ ok es
  unfolding entries
  entries-ok {a} {es} h =
      let fits : leb a.len (capacity a) ≡ true = ground (arith, capacity_of h, h.len) in
      let n : a.len ≡ length (map some es) = h.len ∙ sym (length-map es some) in
      rw (entries, fits) (rw (h.slots, n, take-append_left) (assume_init-some es))

  pub search-ok :
      {a : SortedArray V} {es : List (SortedArrayEntry V)} (size_of k : ℕ)
      → Holds a es
      → search size_of a k ≡ ok (linear_search borrow es k)
  unfolding search
  search-ok {a} {es} size_of k h =
      rw (search, entries-ok h)
        (ap ok (optimal_search-linear_search borrow es k h.ascending size_of).1)

  pub read-ok :
      {a : SortedArray V} (pre post : List (SortedArrayEntry V)) (e : SortedArrayEntry V)
      → Holds a (pre ++ e ∷ post)
      → read a.inner (length pre) ≡ ok e
  unfolding read
  read-ok {a} pre post e h = rw (read, h.slots, get_elem?-map-some pre post e h.rest)

  pub write-ok :
      {a : SortedArray V} (pre post : List (SortedArrayEntry V)) (e e' : SortedArrayEntry V)
      (h : Holds a (pre ++ e ∷ post))
      → write a.inner (length pre) (some e') ≡ ok (map some (pre ++ e' ∷ post) ++ h.rest)
  write-ok {a} pre post e e' h = rw h.slots (
      write_to _ _ (length pre) (some e') (set-map-some pre post e e' h.rest) (
        omega (
          arith,
          length-append (map some (pre ++ e' ∷ post)) h.rest,
          length-map (pre ++ e' ∷ post) some,
          length-append pre (e' ∷ post),
        )))

  -- What an operation leaves: the old value, the new map, and the same capacity.
  abbrev pub Leaves :
      SortedArray V → Option V → List (SortedArrayEntry V) → Option V × SortedArray V → Type ℓ
  Leaves a old es (r, a') = (r ≡ old) × Holds a' es × (capacity a' ≡ capacity a)

  -- The length of a partly initialised array.
  pub length-map-some :
      (es : List (SortedArrayEntry V)) (rest : List (Option (SortedArrayEntry V)))
      → length (map some es ++ rest) ≡ length es + length rest
  length-map-some es rest = omega (arith, length-append (map some es) rest, length-map es some)
