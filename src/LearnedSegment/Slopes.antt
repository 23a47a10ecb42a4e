-- ===== src/LearnedSegment/Slopes.antt =====
-- The slopes of the models of utils/learned_segment/src/segmentation.rs against the bounds of their entries.
use clearned_immutable.Prelude.{ℕ, ◌≡◌, true, false, List, [], ◌∷◌, ◌++◌}
use clearned_immutable.LearnedSegment.{
  pos, FloatApi, LinearModel, Segmentation, Added, added, refused, this_max, this_min,
}
use clearned_immutable.LearnedSegment.Ascending.{IsAscending}
use clearned_immutable.LearnedSegment.Intervals.{IsWithin, IsSlope}

module _ (float : FloatApi) {V : Type 0} (epsilon : ℕ) where
  -- The slope of a segment of three entries or more fits the bounds of every entry. With two entries
  -- it is the middle of the bounds for the second one, and with one it is 1.
  abbrev pub IsFit : LinearModel float × List (ℕ × V) → Type 0
  IsFit (model, []) = ⊥
  IsFit (model, (key, value) ∷ []) = model.slope ≡ float.of_int (pos 1)
  IsFit (model, (key, value) ∷ (key', value') ∷ []) =
      model.slope
      ≡ float.div
          (float.add (this_max float epsilon key key' 1) (this_min float epsilon key key' 1))
          (float.of_int (pos 2))
  IsFit (model, (key, value) ∷ entry ∷ entry' ∷ entries) =
      IsWithin float epsilon key model.slope model.slope 1 (entry ∷ entry' ∷ entries)

  -- There are two entries at least, and at most one slope fits the bounds of all and of `next`.
  abbrev pub IsClosed : List (ℕ × V) → ℕ × V → Type 0
  IsClosed [] next = ⊥
  IsClosed (first ∷ []) next = ⊥
  IsClosed ((key, value) ∷ entry ∷ entries) next =
      (s t : float.F)
      → IsWithin float epsilon key s s 1 (entry ∷ entries ++ next ∷ [])
      → IsWithin float epsilon key t t 1 (entry ∷ entries ++ next ∷ [])
      → float.ge s t ≡ true

  -- The slope of a segment fits, and a segment ends only where the next entry does not.
  abbrev pub IsBest : LinearModel float × List (ℕ × V) → List (ℕ × V) → Type 0
  IsBest segment [] = IsFit segment
  IsBest segment (next ∷ later) = IsFit segment × IsClosed segment.1 next

  -- The interval of a segment that is under construction is that of the second entry, or not empty.
  abbrev IsOpen : float.F → float.F → ℕ → ℕ → List (ℕ × V) → Type 0
  IsOpen high low first key [] =
      (high ≡ this_max float epsilon first key 1) × (low ≡ this_min float epsilon first key 1)
  IsOpen high low first key (entry ∷ entries) = float.ge low high ≡ false

  abbrev IsRanked : Segmentation float V → List (ℕ × V) → Type 0
  IsRanked cur [] = Unit
  IsRanked cur (entry ∷ []) = Unit
  IsRanked cur ((first, value) ∷ entry ∷ entries) =
      IsWithin float epsilon first cur.max_slope cur.min_slope 1 (entry ∷ entries)
      × IsSlope float cur.max_slope
      × IsSlope float cur.min_slope
      × ((s : float.F)
          → IsWithin float epsilon first s s 1 (entry ∷ entries)
          → (float.ge cur.max_slope s ≡ true) × (float.ge s cur.min_slope ≡ true))
      × IsOpen cur.max_slope cur.min_slope first entry.0 entries

  abbrev IsAdded : List (ℕ × V) → ℕ × V → Added V × Segmentation float V → Type 0
  IsAdded entries next (added, cur) = IsRanked cur (entries ++ next ∷ [])
  IsAdded entries next (refused entry, cur) = IsClosed entries next

  -- What is kept while the data are divided.
  abbrev Extra : Segmentation float V → List (ℕ × V) → List (ℕ × V) → Type 0
  Extra cur entries rest = IsAscending (entries ++ rest) × IsRanked cur entries
