-- ===== src/LearnedSegment/Tests.antt =====
-- The division of utils/learned_segment/src/segmentation.rs at concrete data.
use clearned_immutable.Prelude.{ℕ, ◌≡◌, refl, List, [], ◌∷◌, ok}
use clearned_immutable.LearnedSegment.{
  linear_simple_segmentation, segments_from, try_add_entry, to_linear_model,
}
use clearned_immutable.LearnedSegment.Whole.{whole}

abbrev data' : List (ℕ × ℕ)
data' = (2, 20) ∷ (6, 60) ∷ (9, 90) ∷ (1000, 7) ∷ []

-- A second key is accepted, also if no slope fits it.
abbrev pair' : List (ℕ × ℕ)
pair' = (0, 0) ∷ (1, 1) ∷ []

one_segment :
    linear_simple_segmentation whole 0 pair'
    ≡ ok ((record { key = 0; slope = 2; size = 2 }, pair') ∷ [])
unfolding linear_simple_segmentation segments_from try_add_entry to_linear_model
one_segment = refl
