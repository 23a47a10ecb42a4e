-- ===== src/SortedArray/Insert.antt =====
-- `insert` of utils/sorted_array/src/lib.rs implements the map's insertion.
use mathlib.Core.List.{map-append}
use clearned_immutable.Prelude.{
  ℕ, ◌+◌, ◌<◌, ◌≡◌, refl, sym, ap, ◌∙◌, true, false, Option, none, some, List, [], ◌∷◌, ◌++◌, map,
  append-nil, append_assoc, arith, length, length-append, ltb, ok, fault, assertion, length-map,
  Returns,
}
use clearned_immutable.SliceSearch.{found, missing}
use clearned_immutable.SortedArray.{
  SortedArrayEntry, SortedArray, entry, capacity, search, write, ptr_copy, insert_at, insert,
}
use clearned_immutable.SortedArray.Memory.{write-ptr_copy_up, write_to, set-append_mid}
use clearned_immutable.SortedArray.Assoc.{
  IsMap, lookup, upsert, Located, hit, miss, locate, upsert-IsMap,
}
use clearned_immutable.SortedArray.Holds.{Holds, Leaves, capacity_of, search-ok, read-ok, write-ok}

module _ {ℓ} {V : Type ℓ} (size_of : ℕ) where
  -- Making room at the end of `pre` and writing there.
  open_write :
      (a : SortedArray V) (pre post : List (SortedArrayEntry V)) (r : Option (SortedArrayEntry V))
      (rest : List (Option (SortedArrayEntry V))) (e : SortedArrayEntry V)
      → a.inner ≡ map some pre ++ map some post ++ r ∷ rest
      → a.len ≡ length pre + length post
      → insert_at a (length pre) e ≡ ok (map some pre ++ some e ∷ map some post ++ rest)
  unfolding ptr_copy write
  open_write a pre [] r rest e slots len =
      let test : ltb (length pre) a.len ≡ false = ground arith in
      let i : length pre ≡ length (map some pre) = sym (length-map pre some) in
      rw (test, slots, append-nil, append_assoc, i)
        (write_to _ _ (length (map some pre)) (some e)
          (set-append_mid (map some pre) rest r (some e))
          (omega (arith, length-append (map some pre) (some e ∷ rest))))
  open_write a pre (p ∷ post) r rest e slots len =
      let test : ltb (length pre) a.len ≡ true = ground arith in
      rw (test, slots)
        (write-ptr_copy_up (map some pre) (map some (p ∷ post)) rest r (some e) (length pre) _ _
          (sym (length-map pre some)) (omega arith) (omega (arith, length-map post some)))

  insert_miss :
      (a : SortedArray V) (pre post : List (SortedArrayEntry V)) (k : ℕ) (v : V)
      → search size_of a k ≡ ok (missing (length pre))
      → IsMap (pre ++ entry k v ∷ post)
      → Holds a (pre ++ post)
      → length (pre ++ post) < capacity a
      → Returns (insert size_of a k v) (Leaves a none (pre ++ entry k v ∷ post))
  unfolding insert
  insert_miss a pre post k v s asc h room = at_rest h.rest h.slots
    where
      at_rest :
          (rest : List (Option (SortedArrayEntry V)))
          → a.inner ≡ map some (pre ++ post) ++ rest
          → Returns (insert size_of a k v) (Leaves a none (pre ++ entry k v ∷ post))
      at_rest [] slots = absurd (
          omega (
            arith,
            ap length slots,
            length-append (map some (pre ++ post)) [],
            length-map (pre ++ post) some,
          ))
      at_rest (r ∷ rest) slots =
          let test : ltb a.len (capacity a) ≡ true = ground (arith, h.len) in
          let e = entry k v in
          let after = map some pre ++ some e ∷ map some post ++ rest in
          let written =
            open_write a pre post r rest e (rw map-append at slots)
              (h.len ∙ length-append pre post) in
          let back : after ≡ map some (pre ++ e ∷ post) ++ rest =
            sym (ap (λ t. t ++ rest) (map-append some pre (e ∷ post))) in
          (
            (none, record { inner = after; len = a.len + 1 }),
            rw (insert, s, test, written),
            (
              refl,
              record {
                rest = rest;
                slots = back;
                len = omega (arith, h.len, length-append pre post, length-append pre (e ∷ post));
                ascending = asc;
              },
              omega (
                arith,
                ap length slots,
                length-append (map some (pre ++ post)) (r ∷ rest),
                length-map (pre ++ post) some,
                length-append pre post,
                length-append (map some pre ++ some e ∷ map some post) rest,
                length-append (map some pre) (some e ∷ map some post),
                length-map pre some,
                length-map post some,
              ),
            ),
          )

  insert_hit :
      (a : SortedArray V) (pre post : List (SortedArrayEntry V)) (e : SortedArrayEntry V) (v : V)
      (k : ℕ)
      → search size_of a k ≡ ok (found (length pre))
      → IsMap (pre ++ entry e.key v ∷ post)
      → Holds a (pre ++ e ∷ post)
      → Returns (insert size_of a k v) (Leaves a (some e.value) (pre ++ entry e.key v ∷ post))
  unfolding insert
  insert_hit a pre post e v k s asc h =
      let e' = entry e.key v in
      let after = map some (pre ++ e' ∷ post) ++ h.rest in
      (
        (some e.value, record a { inner = after }),
        rw (insert, s) (rw (read-ok pre post e h, write-ok pre post e e' h)),
        (
          refl,
          record {
            rest = h.rest;
            slots = refl;
            len = omega (arith, h.len, length-append pre (e ∷ post), length-append pre (e' ∷ post));
            ascending = asc;
          },
          omega (
            arith,
            capacity_of h,
            length-append (map some (pre ++ e' ∷ post)) h.rest,
            length-map (pre ++ e' ∷ post) some,
            length-append pre (e ∷ post),
            length-append pre (e' ∷ post),
          ),
        ),
      )

  -- `insert` into an array that has the key, or room for it, returns what the map had under the key
  -- and leaves the map with the new value.
  pub insert-upsert :
      {a : SortedArray V} {es : List (SortedArrayEntry V)} (k : ℕ) (v : V)
      → Holds a es
      → (lookup k es ≡ none → length es < capacity a)
      → Returns (insert size_of a k v) (Leaves a (lookup k es) (upsert k v es))
  insert-upsert {a} {es} k v h room = at_place (locate k es h.ascending)
    where
      asc : IsMap (upsert k v es)
      asc = upsert-IsMap k v es h.ascending

      at_place :
          Located k es → Returns (insert size_of a k v) (Leaves a (lookup k es) (upsert k v es))
      at_place (hit pre post e eq key s l u r) =
          let same : upsert k v es ≡ pre ++ entry e.key v ∷ post = rw key (u v) in
          rw (l, same)
            (insert_hit a pre post e v k (search-ok size_of k h ∙ ap ok s) (rw same at asc)
              (rw eq at h))
      at_place (miss pre post eq s l u r) =
          rw (l, u v)
            (insert_miss a pre post k v (search-ok size_of k h ∙ ap ok s) (rw (u v) at asc)
              (rw eq at h) (rw eq at (room l)))

  -- `insert` of a new key into a full array panics.
  pub insert_full :
      {a : SortedArray V} {es : List (SortedArrayEntry V)} (k : ℕ) (v : V)
      → Holds a es
      → lookup k es ≡ none
      → length es ≡ capacity a
      → insert size_of a k v ≡ fault assertion
  unfolding insert
  insert_full {a} {es} k v h absent full = at_place (locate k es h.ascending)
    where
      at_place : Located k es → insert size_of a k v ≡ fault assertion
      at_place (hit pre post e eq key s l u r) = cc
      at_place (miss pre post eq s l u r) =
          let test : ltb a.len (capacity a) ≡ false = ground (arith, h.len) in
          rw (insert, search-ok size_of k h, s, test)
