-- ===== src/Learned/Trained.antt =====
-- `from_trained` and `search_exact` of core/src/learned/node.rs on entries in ascending order.
use clearned_immutable.Prelude.{
  ℕ, ◌+◌, ◌-◌, ◌*◌, ◌≤◌, ◌<◌, ◌≡◌, ◌↔◌, ◌⊎◌, ◌∙◌, refl, sym, inl, inr, min, false, Option, none,
  some, List, [], ◌∷◌, All, arith, length, length-replicate, ok, Returns,
}
use clearned_immutable.GappedArray.{GappedKvArray, new, slot_count}
use clearned_immutable.GappedArray.Writes.{Result, success, failure, initial_model_based_insert}
use clearned_immutable.GappedArray.Slots.{HasKey, IsGapped, Stores, occupied_count}
use clearned_immutable.GappedArray.Floor.{IsAnswer, search_exact-IsAnswer}
use clearned_immutable.GappedArray.Upsert.{Upserted, key_from}
use clearned_immutable.GappedArray.Fresh.{none_free, none_counted, new-IsGapped}
use clearned_immutable.GappedArray.Appended.{IsTight, initial_model_based_insert-IsAppended}
use clearned_immutable.LearnedSegment.{FloatApi, LinearModel, hint, linear_simple_segmentation}
use clearned_immutable.LearnedSegment.Segments.{flatten, linear_simple_segmentation-IsDivision}
use clearned_immutable.LearnedSegment.Ascending.{IsAscending, IsAscending-parts}
use clearned_immutable.Learned.{fill_trained, from_trained, node_search_exact}

module _ {V : Type 0} where
  -- The entry is one of the list.
  abbrev pub Listed : ℕ → V → List (ℕ × V) → Type 0
  Listed k v [] = ⊥
  Listed k v ((key, value) ∷ entries) = ((k ≡ key) × (v ≡ value)) ⊎ Listed k v entries

  -- What a node with these entries answers.
  abbrev pub IsAnswerOf : List (ℕ × V) → ℕ → Option V → Type 0
  IsAnswerOf entries key none = (v : V) → ¬ Listed key v entries
  IsAnswerOf entries key (some v) = Listed key v entries

  All-imp :
      {P Q : ℕ × V → Type 0} (es : List (ℕ × V)) → ((e : ℕ × V) → P e → Q e) → All P es → All Q es
  All-imp [] f h = tt
  All-imp (e ∷ es) f h = (f e h.0, All-imp es f h.1)

  All-both :
      (P Q : ℕ × V → Type 0) (es : List (ℕ × V)) → All P es → All Q es → All (λ e. P e × Q e) es
  All-both P Q [] h h' = tt
  All-both P Q (e ∷ es) h h' = ((h.0, h'.0), All-both P Q es h.1 h'.1)

module _ (float : FloatApi) (model : LinearModel float) where
  abbrev place : ℕ → ℕ → ℕ
  place slots key = min (hint float model key) (slots - 1)

  hint_mono : (k l : ℕ) → k ≤ l → hint float model k ≤ hint float model l
  unfolding hint
  hint_mono k l le = float.index_mul_mono (k - model.key) (l - model.key) model.slope (omega arith)

  place_mono : (slots k l : ℕ) → k ≤ l → place slots k ≤ place slots l
  place_mono slots k l le = omega (arith, hint_mono k l le)

module _ (float : FloatApi) {V : Type 0} (model : LinearModel float) where
  -- What the loop leaves in the array.
  abbrev IsFilled : GappedKvArray V → List (ℕ × V) → GappedKvArray V → Type 0
  IsFilled a entries b =
      IsGapped b × ((k : ℕ) (v : V) → Stores b k v ↔ (Stores a k v ⊎ Listed k v entries))

  module _ {a b : GappedKvArray V} (key : ℕ) (value : V) (u : Upserted a b key value) where
    rest-IsFilled :
        (entries : List (ℕ × V)) (c : GappedKvArray V)
        → ((j l : ℕ) → HasKey a j l → l < key)
        → IsFilled b entries c
        → IsFilled a ((key, value) ∷ entries) c
    rest-IsFilled entries c greatest (gapped, stores) = (gapped, λ k v. (there k v, back k v))
      where
        there : (k : ℕ) (v : V) → Stores c k v → Stores a k v ⊎ Listed k v ((key, value) ∷ entries)
        there k v s = elim ((stores k v).0 s) [
          | inr listed ↦ inr (inr listed)
          | inl in_b ↦ elim ((u.stores k v).0 in_b) [
            | inl same ↦ inr (inl same)
            | inr (_, in_a) ↦ inl in_a
          ]
        ]

        back : (k : ℕ) (v : V) → Stores a k v ⊎ Listed k v ((key, value) ∷ entries) → Stores c k v
        back k v (inl (i, e)) =
            (stores k v).1
              (inl ((u.stores k v).1 (inr ((λ same. omega (arith, greatest i k e.0)), (i, e)))))
        back k v (inr (inl same)) = (stores k v).1 (inl ((u.stores k v).1 (inl same)))
        back k v (inr (inr listed)) = (stores k v).1 (inr listed)

  fill_trained_step :
      (entries : List (ℕ × V)) (a : GappedKvArray V) (key : ℕ) (value : V)
      (r : Result {0} Unit × GappedKvArray V)
      → initial_model_based_insert a key value (place float model (slot_count a) key) ≡ ok r
      → r.0 ≡ success tt
      → fill_trained float model ((key, value) ∷ entries) a ≡ fill_trained float model entries r.1
  fill_trained_step entries a key value (success _, b) run fine = rw run refl
  fill_trained_step entries a key value (failure e, b) run fine = absurd (cc)

  fill_trained-IsFilled :
      (entries : List (ℕ × V)) (a : GappedKvArray V) (old : ℕ)
      → IsGapped a
      → IsTight a old
      → IsAscending entries
      → All
          (λ e. ((j l : ℕ) → HasKey a j l → l < e.0) × (old ≤ place float model (slot_count a) e.0))
          entries
      → occupied_count a.bitmap + length entries ≤ slot_count a
      → Returns (fill_trained float model entries a) (IsFilled a entries)
  fill_trained-IsFilled [] a old g tight ascending fits room =
      (a, refl, (g, λ k v. ((λ s. inl s), λ s. elim s [ inl s' ↦ s' | inr no' ↦ absurd no' ])))
  fill_trained-IsFilled ((key, value) ∷ entries) a old g tight (above, ascending) (here, fits)
        room =
      let ((result, b), run, (fine, u, tight', count)) =
        initial_model_based_insert-IsAppended g key value old (place float model (slot_count a) key)
          tight here.1 (omega arith) here.0 (omega arith) in
      let (c, run', filled) =
        fill_trained-IsFilled entries b (place float model (slot_count a) key) u.gapped tight'
          ascending
          (All-imp entries
            (λ e h. (
              λ j l h'. elim (key_from u j l h') [
                | inl is_key ↦ omega (arith, h.0)
                | inr (i, h'') ↦ h.1.0 i l h''
              ],
              omega (
                arith,
                u.slots,
                place_mono float model (slot_count a) key e.0 (omega (arith, h.0)),
              ),
            ))
            (All-both _ _ entries above fits))
          (omega (arith, count, u.slots)) in
      (
        c,
        fill_trained_step entries a key value (result, b) run fine ∙ run',
        rest-IsFilled key value u entries c here.0 filled,
      )

  -- A node made from entries in ascending order, with any model: it is made without a panic, its array
  -- is well formed and holds these entries and no others, and the exact search for any key ends
  -- without a panic and finds the value that the entries have under the key, or nothing if they have
  -- none.
  pub from_trained-searchable :
      (entries : List (ℕ × V))
      → IsAscending entries
      → Returns (from_trained float model entries) λ node.
        IsGapped node.gapped
        × ((k : ℕ) (v : V) → Stores node.gapped k v ↔ Listed k v entries)
        × ((key : ℕ) → Returns (node_search_exact float node key) (IsAnswerOf entries key))
  unfolding from_trained node_search_exact new
  from_trained-searchable entries ascending =
      let n = length entries * 2 in
      let (b, run, (g, stores)) =
        fill_trained-IsFilled entries (new n) 0 (new-IsGapped n)
          (λ i j from le occ. absurd (none_free n j occ)) ascending (all_fit n entries)
          (omega (arith, none_counted n, length-replicate n false)) in
      let holds : (k : ℕ) (v : V) → Stores b k v ↔ Listed k v entries = λ k v. (
        λ s. elim ((stores k v).0 s) [
          | inl (i, e) ↦ absurd (none_free n i e.0.0)
          | inr listed ↦ listed
        ],
        λ listed. (stores k v).1 (inr listed),
      ) in
      (
        record { gapped = b; model = model },
        rw (from_trained, run) refl,
        (g, holds, λ key. answers b g holds key),
      )
    where
      all_fit :
          (n : ℕ) (es : List (ℕ × V))
          → All
              (λ e.
                ((j l : ℕ) → HasKey (new {V = V} n) j l → l < e.0)
                × (0 ≤ place float model (slot_count (new {V = V} n)) e.0))
              es
      all_fit n [] = tt
      all_fit n (e ∷ es) = ((λ j l h. absurd (none_free n j h.0), omega arith), all_fit n es)

      answers :
          (b : GappedKvArray V)
          → IsGapped b
          → ((k : ℕ) (v : V) → Stores b k v ↔ Listed k v entries)
          → (key : ℕ)
          → Returns
              (node_search_exact float (record { gapped = b; model = model }) key)
              (IsAnswerOf entries key)
      answers b g holds key =
          let (r, run, answer) = search_exact-IsAnswer g key (some (hint float model key)) in
          (r, run, of_answer r answer)
        where
          of_answer : (r : Option V) → IsAnswer g key r → IsAnswerOf entries key r
          of_answer none h = λ v listed. h v ((holds key v).1 listed)
          of_answer (some v) h = (holds key v).0 h

module _ (float : FloatApi) {V : Type 0} (epsilon : ℕ) where
  -- A node can be made of the segment, and finds its entries.
  abbrev pub IsSearchable : LinearModel float × List (ℕ × V) → Type 0
  IsSearchable (model, entries) =
      Returns (from_trained float model entries)
        λ node. (key : ℕ) → Returns (node_search_exact float node key) (IsAnswerOf entries key)

  All-IsSearchable :
      (segments : List (LinearModel float × List (ℕ × V)))
      → IsAscending (flatten float segments)
      → All IsSearchable segments
  All-IsSearchable [] h = tt
  All-IsSearchable ((model, entries) ∷ segments) h =
      let (here, later) = IsAscending-parts entries (flatten float segments) h in
      let (node, run, (_, _, search)) = from_trained-searchable float model entries here in
      ((node, run, search), All-IsSearchable segments later)

  -- For entries in ascending order the segmentation ends without a panic, in segments that are the
  -- entries in order, and the node that is made of each segment finds the entries of this segment
  -- under their keys, and nothing under any other key.
  pub linear_simple_segmentation-IsSearchable :
      (entries : List (ℕ × V))
      → IsAscending entries
      → Returns
          (linear_simple_segmentation float epsilon entries)
          λ segments. (flatten float segments ≡ entries) × All IsSearchable segments
  linear_simple_segmentation-IsSearchable entries ascending =
      let (segments, run, (whole, _)) =
        linear_simple_segmentation-IsDivision float epsilon entries in
      (segments, run, (whole, All-IsSearchable segments (rw (sym whole) at ascending)))
