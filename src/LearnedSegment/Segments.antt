-- ===== src/LearnedSegment/Segments.antt =====
-- The division of utils/learned_segment/src/segmentation.rs: its segments are the data in order, each with
-- a model of its first key and its size.
use clearned_immutable.Prelude.{
  ℕ, suc, ◌≡◌, ◌∙◌, refl, sym, subst, inl, inr, true, false, Option, none, some, List, [], ◌∷◌,
  ◌++◌, append_assoc, All, arith, length, length-append, ltb, ◌==◌, Bool-cases, Outcome, ok, fault,
  unwrapped_none, Returns,
}
use clearned_immutable.LearnedSegment.{
  FloatApi, LinearModel, Segmentation, new_segmentation, Added, added, refused, add_behind,
  extended, try_add_entry, to_linear_model, chosen_slope, first_entry, export, segments_from,
  linear_simple_segmentation, this_max, this_min,
}

first_run :
    {A : Type 0} {k : ℕ} (first : Option ℕ) (f : ℕ → A)
    → first ≡ some k
    → (elim first as (λ _. Outcome A) [ none ↦ fault unwrapped_none | some k' ↦ ok (f k') ])
      ≡ ok (f k)
first_run first f h = rw h refl

module _ (float : FloatApi) {V : Type 0} where
  -- All the entries of the segments.
  abbrev pub flatten : List (LinearModel float × List (ℕ × V)) → List (ℕ × V)
  flatten [] = []
  flatten ((model, entries) ∷ segments) = entries ++ flatten segments

  -- A segment has an entry, and its model the first key and the number of the entries.
  abbrev pub IsModelled : LinearModel float × List (ℕ × V) → Type 0
  IsModelled (model, []) = ⊥
  IsModelled (model, (key, value) ∷ entries) =
      (model.key ≡ key) × (model.size ≡ suc (length entries))

  abbrev pub IsDivision : List (ℕ × V) → List (LinearModel float × List (ℕ × V)) → Type 0
  IsDivision entries segments = (flatten segments ≡ entries) × All IsModelled segments

  -- The segment under construction.
  abbrev pub IsBegun : Segmentation float V → List (ℕ × V) → Type 0
  IsBegun cur [] = (cur.entries ≡ []) × (cur.num_entries ≡ 0)
  IsBegun cur ((key, value) ∷ entries) =
      (cur.entries ≡ (key, value) ∷ entries)
      × (cur.num_entries ≡ suc (length entries))
      × (cur.first_key ≡ some key)

module _ (float : FloatApi) {V : Type 0} (epsilon : ℕ) where
  -- The segment that is exported.
  abbrev pub finished :
      Segmentation float V → ℕ → V → List (ℕ × V) → LinearModel float × List (ℕ × V)
  finished cur key value es = (
    record { key = key; slope = chosen_slope float epsilon cur; size = cur.num_entries },
    (key, value) ∷ es,
  )

  export-finished :
      (cur : Segmentation float V) (key : ℕ) (value : V) (es : List (ℕ × V))
      → IsBegun float cur ((key, value) ∷ es)
      → export float epsilon cur ≡ ok (finished cur key value es)
  unfolding to_linear_model
  export-finished cur key value es (entries, num, first) =
      let some_entry : ltb 0 cur.num_entries ≡ true = ground (arith, num) in
      rw (to_linear_model, first, some_entry, entries) refl

  -- What becomes of the next entry.
  abbrev IsTried :
      Segmentation float V → List (ℕ × V) → ℕ × V → Added V × Segmentation float V → Type 0
  IsTried cur es entry (added, cur') = IsBegun float cur' (es ++ entry ∷ [])
  IsTried cur es entry (refused entry', cur') =
      (entry' ≡ entry) × (cur' ≡ cur) × ((e : ℕ × V) × (rest : List (ℕ × V)) × (es ≡ e ∷ rest))

  add_behind-IsTried :
      (cur : Segmentation float V) (e : ℕ × V) (es : List (ℕ × V)) (entry : ℕ × V) (first : ℕ)
      → IsBegun float cur (e ∷ es)
      → IsTried cur (e ∷ es) entry (add_behind float epsilon cur entry first)
  add_behind-IsTried cur (k, v) es (key, value) first (entries, num, first_key) =
      elim (Bool-cases (cur.num_entries == 1)) [
        | inl single ↦ rw single (
            grown (this_max float epsilon first key cur.num_entries)
              (this_min float epsilon first key cur.num_entries))
        | inr more ↦
            elim (Bool-cases (
              float.ge
                (float.max_of (this_min float epsilon first key cur.num_entries) cur.min_slope)
                (float.min_of (this_max float epsilon first key cur.num_entries) cur.max_slope))) [
                  | inl apart ↦ rw (more, apart) (refl, refl, ((k, v), es, refl))
                  | inr fits ↦
                      rw (more, fits)
                        (grown
                          (float.min_of (this_max float epsilon first key cur.num_entries)
                            cur.max_slope)
                          (float.max_of (this_min float epsilon first key cur.num_entries)
                            cur.min_slope))
                ]
      ]
    where
      grown :
          (high low : float.F)
          → IsTried cur
              ((k, v) ∷ es)
              (key, value)
              (extended float epsilon cur (key, value) high low)
      grown high low =
          (rw entries refl, omega (arith, num, length-append es ((key, value) ∷ [])), first_key)

  pub try_add_entry-behind :
      (cur : Segmentation float V) (k : ℕ) (v : V) (es : List (ℕ × V)) (entry : ℕ × V)
      → IsBegun float cur ((k, v) ∷ es)
      → try_add_entry float epsilon cur entry ≡ ok (add_behind float epsilon cur entry k)
  unfolding try_add_entry
  try_add_entry-behind cur k v es entry begun =
      let several : (cur.num_entries == 0) ≡ false = ground (arith, begun.1) in
      rw (try_add_entry, several) (first_run cur.first_key _ begun.2)

  try_add_entry-IsTried :
      (cur : Segmentation float V) (es : List (ℕ × V)) (entry : ℕ × V)
      → IsBegun float cur es
      → Returns (try_add_entry float epsilon cur entry) (IsTried cur es entry)
  unfolding try_add_entry
  try_add_entry-IsTried cur [] (key, value) (entries, num) = (
    (added, first_entry float epsilon cur (key, value)),
    rw (try_add_entry, num) refl,
    (refl, refl, refl),
  )
  try_add_entry-IsTried cur ((k, v) ∷ es) (key, value) begun = (
    add_behind float epsilon cur (key, value) k,
    try_add_entry-behind cur k v es (key, value) begun,
    add_behind-IsTried cur (k, v) es (key, value) k begun,
  )

module _ (float : FloatApi) {V : Type 0} (epsilon : ℕ) where
  -- A segment is exported at the end of the data, or where the next entry is refused.
  abbrev pub HasEnded : Segmentation float V → List (ℕ × V) → Type 0
  HasEnded cur [] = Unit
  HasEnded cur (entry ∷ rest) =
      (cur' : Segmentation float V) × (try_add_entry float epsilon cur entry
        ≡ ok (refused entry, cur'))

  -- A property of each segment and of the entries behind it.
  abbrev pub Each :
      (LinearModel float × List (ℕ × V) → List (ℕ × V) → Type 0)
      → List (LinearModel float × List (ℕ × V))
      → Type 0
  Each Good [] = Unit
  Each Good (segment ∷ segments) = Good segment (flatten float segments) × Each Good segments

module _ (float : FloatApi) {V : Type 0} (epsilon : ℕ)
    (Extra : Segmentation float V → List (ℕ × V) → List (ℕ × V) → Type 0)
    (Good : LinearModel float × List (ℕ × V) → List (ℕ × V) → Type 0)
    (exported : (cur : Segmentation float V) (k : ℕ) (v : V) (es rest : List (ℕ × V))
      → IsBegun float cur ((k, v) ∷ es)
      → Extra cur ((k, v) ∷ es) rest
      → HasEnded float epsilon cur rest
      → Good (finished float epsilon cur k v es) rest)
    (tries : (cur : Segmentation float V) (es : List (ℕ × V)) (entry : ℕ × V) (rest : List (ℕ × V))
      → IsBegun float cur es
      → Extra cur es (entry ∷ rest)
      → (cur' : Segmentation float V) → try_add_entry float epsilon cur entry ≡ ok (added, cur')
      → Extra cur' (es ++ entry ∷ []) rest)
    (restarts : (cur : Segmentation float V) (es : List (ℕ × V)) (entry : ℕ × V)
        (rest : List (ℕ × V))
      → Extra cur es (entry ∷ rest)
      → Extra (first_entry float epsilon (new_segmentation float) entry) (entry ∷ []) rest) where
  -- The segments of the remaining data.
  abbrev Segmented : Segmentation float V → List (ℕ × V) → List (ℕ × V) → Type 0
  Segmented cur es rest =
      Returns (segments_from float epsilon cur rest)
        λ segments. IsDivision float (es ++ rest) segments × Each float epsilon Good segments

  -- An induction over the data, for a property of the segments that are exported.
  pub segments_from_induction :
      (rest : List (ℕ × V)) (cur : Segmentation float V) (es : List (ℕ × V))
      → IsBegun float cur es
      → Extra cur es rest
      → Segmented cur es rest
  unfolding segments_from try_add_entry
  segments_from_induction [] cur [] begun extra =
      ([], rw (segments_from, begun.1) refl, ((refl, tt), tt))
  segments_from_induction [] cur ((k, v) ∷ es) begun extra =
      let several : (cur.num_entries == 0) ≡ false = ground (arith, begun.1) in
      (
        finished float epsilon cur k v es ∷ [],
        rw (segments_from, several, export-finished float epsilon cur k v es begun) refl,
        ((refl, ((refl, begun.1), tt)), (exported cur k v es [] begun extra tt, tt)),
      )
  segments_from_induction (entry ∷ rest) cur es begun extra =
      let ((result, cur'), run, tried) = try_add_entry-IsTried float epsilon cur es entry begun in
      after result cur' run tried
        (λ es' begun' extra'. segments_from_induction rest cur' es' begun' extra')
        (segments_from_induction rest (first_entry float epsilon (new_segmentation float) entry)
          (entry ∷ []) (refl, refl, refl) (restarts cur es entry rest extra))
    where
      after :
          (result : Added V) (cur' : Segmentation float V)
          → try_add_entry float epsilon cur entry ≡ ok (result, cur')
          → IsTried float epsilon cur es entry (result, cur')
          → ((es' : List (ℕ × V))
              → IsBegun float cur' es'
              → Extra cur' es' rest
              → Segmented cur' es' rest)
          → Segmented (first_entry float epsilon (new_segmentation float) entry) (entry ∷ []) rest
          → Segmented cur es (entry ∷ rest)
      after added cur' run begun' go fresh =
          let (segments, later, ((all, modelled), good)) =
            go (es ++ entry ∷ []) begun' (tries cur es entry rest begun extra cur' run) in
          (
            segments,
            rw (segments_from, run) later,
            ((all ∙ append_assoc es (entry ∷ []) rest, modelled), good),
          )
      after (refused entry') cur' run (same_entry, same_cur, ((k, v), es', is)) go fresh =
          let begun' : IsBegun float cur ((k, v) ∷ es') = rw is at begun in
          let (segments, later, ((all, modelled), good)) = fresh in
          (
            finished float epsilon cur k v es' ∷ segments,
            rw (segments_from, run)
                (rw (same_cur, export-finished float epsilon cur k v es' begun')
                  (rw (same_entry, try_add_entry) (rw later))),
            (
              (rw (all, is) refl, ((refl, begun'.1), modelled)),
              (
                subst (Good (finished float epsilon cur k v es')) (sym all) (
                    exported cur k v es' (entry ∷ rest) begun' (rw is at extra)
                      (cur', rw same_entry at run)),
                good,
              ),
            ),
          )

module _ (float : FloatApi) {V : Type 0} (epsilon : ℕ) where
  -- The division of any data ends without a panic. The segments are the data in order, none of them is
  -- empty, and the model of each has its first key and the number of its entries.
  pub linear_simple_segmentation-IsDivision :
      (entries : List (ℕ × V))
      → Returns (linear_simple_segmentation float epsilon entries) (IsDivision float entries)
  unfolding linear_simple_segmentation
  linear_simple_segmentation-IsDivision entries =
      let (segments, run, (division, _)) =
        segments_from_induction float epsilon (λ cur es rest. Unit) (λ segment rest. Unit)
          (λ cur k v es rest begun extra ended. tt) (λ cur es entry rest begun extra cur' run. tt)
          (λ cur es entry rest extra. tt) entries (new_segmentation float) [] (refl, refl) tt in
      (segments, run, division)
