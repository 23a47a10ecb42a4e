-- ===== src/SortedArray/Split.antt =====
-- `split_off` of utils/sorted_array/src/lib.rs.
use clearned_immutable.Prelude.{
  ℕ, ◌+◌, ◌-◌, ◌≤◌, ◌<◌, ◌≡◌, refl, sym, ap, ◌∙◌, Option, none, some, List, [], ◌∷◌, ◌++◌, map,
  append-nil, append_assoc, All, arith, length, get_elem?, drop, replicate, length-append,
  length-drop, length-replicate, ok, length-map, Returns,
}
use mathlib.Core.List.{map-append}
use clearned_immutable.SortedArray.{
  SortedArrayEntry, SortedArray, at, write, capacity, move_slots, empty, split_off,
}
use clearned_immutable.SortedArray.Memory.{write_to, set-append_mid, get_elem?-append_mid}
use clearned_immutable.SortedArray.Assoc.{IsMap}
use clearned_immutable.SortedArray.Holds.{Holds, capacity_of, length-map-some}

module _ {ℓ} {V : Type ℓ} where
  pub All-append :
      (P : ℕ → Type 0) (pre post : List (SortedArrayEntry V))
      → All (λ e. P e.key) (pre ++ post)
      → All (λ e. P e.key) pre × All (λ e. P e.key) post
  All-append P [] post h = (tt, h)
  All-append P (e ∷ pre) post h =
      let (left, right) = All-append P pre post h.1 in ((h.0, left), right)

  -- Both halves of a map are maps.
  pub IsMap-append :
      (pre post : List (SortedArrayEntry V)) → IsMap (pre ++ post) → IsMap pre × IsMap post
  IsMap-append [] post h = (tt, h)
  IsMap-append (e ∷ pre) post h =
      let (left, right) = IsMap-append pre post h.1 in
      (((All-append (λ k. e.key < k) pre post h.0).0, left), right)

  -- The loop moves the slots of `post`, which stand behind `front`, to the end of `done`.
  move_slots-ok :
      (front back done spare src : List (Option (SortedArrayEntry V)))
      (post : List (SortedArrayEntry V)) (i j : ℕ)
      → src ≡ front ++ map some post ++ back
      → i ≡ length front
      → j ≡ length done
      → length post ≤ length spare
      → move_slots src (length post) i j (done ++ spare)
        ≡ ok (done ++ map some post ++ drop (length post) spare)
  unfolding move_slots
  move_slots-ok front back done spare src [] i j e ei ej room = rw append-nil
  move_slots-ok front back done [] src (p ∷ post) i j e ei ej room = absurd (omega arith)
  move_slots-ok front back done (x ∷ spare) src (p ∷ post) i j e ei ej room =
      let shape : src ≡ front ++ some p ∷ (map some post ++ back) = e ∙ append_assoc front _ back in
      let got : get_elem? src i ≡ some (some p) =
        rw (shape, ei) (get_elem?-append_mid front (map some post ++ back) (some p)) in
      let written : write (done ++ x ∷ spare) j (some p) ≡ ok (done ++ some p ∷ spare) = rw ej (
        write_to _ _ (length done) (some p) (set-append_mid done spare x (some p))
          (omega (arith, length-append done (some p ∷ spare)))) in
      let more =
        move_slots-ok (front ++ some p ∷ []) back (done ++ some p ∷ []) spare src post (i + 1)
          (j + 1)
          (shape
            ∙ sym (
                ap (λ t. t ++ back) (append_assoc front (some p ∷ []) (map some post))
                ∙ append_assoc front _ back))
          (omega (arith, length-append front (some p ∷ [])))
          (omega (arith, length-append done (some p ∷ []))) (omega arith) in
      rw (move_slots, at, got, written)
        (ap (move_slots src (length post) (i + 1) (j + 1))
            (sym (append_assoc done (some p ∷ []) spare))
          ∙ more
          ∙ ap (λ t. ok (t ++ drop (length post) spare))
              (append_assoc done (some p ∷ []) (map some post)))

  -- `split_off` at the end of the first part `pre` of the entries leaves `pre`, and returns an
  -- array of the same capacity with the other entries.
  pub split_off-append :
      {a : SortedArray V} (pre post : List (SortedArrayEntry V))
      → Holds a (pre ++ post)
      → Returns (split_off a (length pre)) λ (left, right).
        Holds left pre
        × Holds right post
        × (capacity left ≡ capacity a)
        × (capacity right ≡ capacity a)
  unfolding split_off
  split_off-append {a} pre post h =
      let cap = capacity a in
      let (left, right) = IsMap-append pre post h.ascending in
      let spare : List (Option (SortedArrayEntry V)) = replicate cap none in
      let rounds : a.len - length pre ≡ length post =
        omega (arith, h.len, length-append pre post) in
      let slots : a.inner ≡ map some pre ++ map some post ++ h.rest =
        h.slots ∙ ap (λ t. t ++ h.rest) (map-append some pre post) in
      let size : length spare ≡ cap = length-replicate cap none in
      let fits : length post ≤ length spare =
        omega (arith, capacity_of h, length-append pre post) in
      let moved =
        move_slots-ok (map some pre) h.rest [] spare a.inner post (length pre) 0 slots
          (sym (length-map pre some)) refl fits in
      (
        (
          record a { len = length pre },
          record { inner = map some post ++ drop (length post) spare; len = a.len - length pre },
        ),
        rw (split_off, rounds) (rw (empty, moved)),
        (
          record {
            rest = map some post ++ h.rest;
            slots = slots ∙ append_assoc (map some pre) _ _;
            len = refl;
            ascending = left;
          },
          record { rest = drop (length post) spare; slots = refl; len = rounds; ascending = right },
          refl,
          omega (
            arith,
            length-map-some post (drop (length post) spare),
            length-drop (length post) spare,
          ),
        ),
      )
