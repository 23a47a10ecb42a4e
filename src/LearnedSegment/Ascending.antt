-- ===== src/LearnedSegment/Ascending.antt =====
-- Entries in the order of their keys, as utils/learned_segment/src/segmentation.rs and the nodes of
-- core/src/learned are given them.
use clearned_immutable.Prelude.{ℕ, ◌<◌, List, [], ◌∷◌, ◌++◌, All}

module _ {V : Type 0} where
  abbrev pub IsAscending : List (ℕ × V) → Type 0
  IsAscending [] = Unit
  IsAscending ((key, value) ∷ entries) = All (λ e. key < e.0) entries × IsAscending entries

  pub All-append :
      (P : ℕ × V → Type 0) (xs ys : List (ℕ × V)) → All P (xs ++ ys) → All P xs × All P ys
  All-append P [] ys h = (tt, h)
  All-append P (x ∷ xs) ys h = let (l, r) = All-append P xs ys h.1 in ((h.0, l), r)

  pub IsAscending-parts :
      (xs ys : List (ℕ × V)) → IsAscending (xs ++ ys) → IsAscending xs × IsAscending ys
  IsAscending-parts [] ys h = (tt, h)
  IsAscending-parts (x ∷ xs) ys h =
      let (l, r) = IsAscending-parts xs ys h.1 in (((All-append _ xs ys h.0).0, l), r)
