-- ===== src/SortedArray/Remove.antt =====
-- `remove` of utils/sorted_array/src/lib.rs, with the slot that it copies too many.
use mathlib.Core.List.{map-append}
use clearned_immutable.Prelude.{
  ℕ, suc, ◌+◌, ◌-◌, ◌<◌, ◌≡◌, ◌≢◌, refl, sym, ap, ◌∙◌, true, false, Option, none, some, List, [],
  ◌∷◌, ◌++◌, map, append-nil, append_assoc, arith, length, length-append, leb, ltb, ok, fault,
  out_of_bounds, length-map, Returns,
}
use clearned_immutable.SliceSearch.{found}
use clearned_immutable.SortedArray.{
  SortedArrayEntry, SortedArray, capacity, search, read, ptr_copy, remove,
}
use clearned_immutable.SortedArray.Memory.{ptr_copy_down}
use clearned_immutable.SortedArray.Assoc.{
  IsMap, lookup, erase, Located, hit, miss, locate, erase-IsMap,
}
use clearned_immutable.SortedArray.Holds.{Holds, Leaves, length-map-some, search-ok, read-ok}

module _ {ℓ} {V : Type ℓ} (size_of : ℕ) where
  remove_hit :
      (a : SortedArray V) (pre post : List (SortedArrayEntry V)) (e : SortedArrayEntry V) (k : ℕ)
      → search size_of a k ≡ ok (found (length pre))
      → IsMap (pre ++ post)
      → Holds a (pre ++ e ∷ post)
      → length (pre ++ e ∷ post) < capacity a
      → Returns (remove size_of a k) (Leaves a (some e.value) (pre ++ post))
  unfolding remove
  remove_hit a pre post e k s asc h room =
      at_rest post h.rest h.slots h.len asc (read-ok pre post e h) room
    where
      at_rest :
          (post : List (SortedArrayEntry V)) (rest : List (Option (SortedArrayEntry V)))
          → a.inner ≡ map some (pre ++ e ∷ post) ++ rest
          → a.len ≡ length (pre ++ e ∷ post)
          → IsMap (pre ++ post)
          → read a.inner (length pre) ≡ ok e
          → length (pre ++ e ∷ post) < capacity a
          → Returns (remove size_of a k) (Leaves a (some e.value) (pre ++ post))
      at_rest [] rest slots len asc got room =
          let test : ltb (length pre + 1) a.len ≡ false =
            ground (arith, length-append pre (e ∷ [])) in
          (
            (some e.value, record a { len = a.len - 1 }),
            rw (remove, s) (rw (got, test)),
            (
              refl,
              record {
                rest = some e ∷ rest;
                slots = slots ∙ rw (map-append, append-nil, append_assoc);
                len = omega (arith, length-append pre (e ∷ []), length-append pre []);
                ascending = asc;
              },
              refl,
            ),
          )
      at_rest (p ∷ post) [] slots len asc got room =
          absurd (omega (arith, ap length slots, length-map-some (pre ++ e ∷ p ∷ post) []))
      at_rest (p ∷ post) (r ∷ rest) slots len asc got room =
          let test : ltb (length pre + 1) a.len ≡ true =
            ground (arith, length-append pre (e ∷ p ∷ post)) in
          let after = map some pre ++ map some (p ∷ post) ++ r ∷ r ∷ rest in
          let copied : ptr_copy a.inner (length pre + 1) (length pre) (a.len - length pre)
              ≡ ok after =
            rw (slots, map-append)
              (ptr_copy_down (map some pre) (map some (p ∷ post)) rest (some e) r _ _ _
                (sym (length-map pre some)) (omega arith)
                (omega (arith, length-map (p ∷ post) some, length-append pre (e ∷ p ∷ post)))) in
          (
            (some e.value, record { inner = after; len = a.len - 1 }),
            rw (remove, s) (rw (got, test, copied)),
            (
              refl,
              record {
                rest = r ∷ r ∷ rest;
                slots = sym (ap (λ t. t ++ r ∷ r ∷ rest) (map-append some pre (p ∷ post)));
                len = omega (arith, length-append pre (e ∷ p ∷ post), length-append pre (p ∷ post));
                ascending = asc;
              },
              omega (
                arith,
                ap length slots,
                length-map-some (pre ++ e ∷ p ∷ post) (r ∷ rest),
                length-append pre (e ∷ p ∷ post),
                length-append (map some pre ++ map some (p ∷ post)) (r ∷ r ∷ rest),
                length-append (map some pre) (map some (p ∷ post)),
                length-map pre some,
                length-map (p ∷ post) some,
              ),
            ),
          )

  -- `remove` from an array that is not full returns what the map had under the key, and leaves the
  -- map without the key.
  pub remove-erase :
      {a : SortedArray V} {es : List (SortedArrayEntry V)} (k : ℕ)
      → Holds a es
      → length es < capacity a
      → Returns (remove size_of a k) (Leaves a (lookup k es) (erase k es))
  unfolding remove
  remove-erase {a} {es} k h room = at_place (locate k es h.ascending)
    where
      asc : IsMap (erase k es)
      asc = erase-IsMap k es h.ascending

      at_place : Located k es → Returns (remove size_of a k) (Leaves a (lookup k es) (erase k es))
      at_place (hit pre post e eq key s l u r) =
          rw (l, r)
            (remove_hit a pre post e k (search-ok size_of k h ∙ ap ok s) (rw r at asc) (rw eq at h)
              (rw eq at room))
      at_place (miss pre post eq s l u r) =
          ((none, a), rw (remove, search-ok size_of k h, s), (sym l, rw r h, refl))

  abbrev pub last_key : ℕ → List (SortedArrayEntry V) → ℕ
  last_key d [] = d
  last_key d (e ∷ es) = last_key e.key es

  last_key-append :
      (d : ℕ) (pre : List (SortedArrayEntry V)) (e : SortedArrayEntry V)
      → last_key d (pre ++ e ∷ []) ≡ e.key
  last_key-append d [] e = refl
  last_key-append d (x ∷ pre) e = last_key-append x.key pre e

  -- `remove` of a key that is in a full array, but not the last one there, copies a slot from past
  -- the end.
  pub remove_full :
      {a : SortedArray V} {es : List (SortedArrayEntry V)} (k : ℕ)
      → Holds a es
      → lookup k es ≢ none
      → last_key k es ≢ k
      → length es ≡ capacity a
      → remove size_of a k ≡ fault out_of_bounds
  unfolding remove ptr_copy
  remove_full {a} {es} k h present inner full = at_place (locate k es h.ascending)
    where
      at_place : Located k es → remove size_of a k ≡ fault out_of_bounds
      at_place (hit pre [] e eq key s l u r) =
          absurd (inner (ap (last_key k) eq ∙ last_key-append k pre e ∙ key))
      at_place (hit pre (p ∷ post) e eq key s l u r) =
          let place : Holds a (pre ++ e ∷ p ∷ post) = rw eq at h in
          let size : length es ≡ length pre + suc (suc (length post)) =
            ap length eq ∙ length-append pre (e ∷ p ∷ post) in
          let test : ltb (length pre + 1) a.len ≡ true = ground (arith, h.len) in
          let late : leb (length pre + 1 + (a.len - length pre)) (capacity a) ≡ false =
            ground (arith, h.len) in
          rw (remove, search-ok size_of k h, s)
            (rw (read-ok pre (p ∷ post) e place, test) (rw (ptr_copy, late)))
      at_place (miss pre post eq s l u r) = absurd (present l)
