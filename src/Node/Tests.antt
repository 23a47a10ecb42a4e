-- ===== src/Node/Tests.antt =====
-- The theorems on core/src/classical/node.rs at a concrete node.
use clearned_immutable.Prelude.{
  ℕ, ◌<◌, ◌/◌, ◌≡◌, refl, some, List, [], ◌∷◌, ◌++◌, arith, length, Returns,
}
use clearned_immutable.SortedArray.{SortedArrayEntry, entry, capacity}
use clearned_immutable.SortedArray.Holds.{Holds}
use clearned_immutable.Node.{BTreeNode, split}
use clearned_immutable.Node.Laws.{least, split_full}

abbrev three : List (SortedArrayEntry ℕ)
three = entry 2 20 ∷ entry 4 40 ∷ entry 6 60 ∷ []

abbrev full : BTreeNode ℕ
full = record { inner = some (entry 2 20) ∷ some (entry 4 40) ∷ some (entry 6 60) ∷ []; len = 3 }

full-Holds : Holds full three
full-Holds = record {
  rest = [];
  slots = refl;
  len = refl;
  ascending = ((omega arith, (omega arith, tt)), ((omega arith, tt), (tt, tt)));
}

split_full_example : Returns (split full) λ (key, left, right).
    (pre : List (SortedArrayEntry ℕ)) × (post : List (SortedArrayEntry ℕ)) × (three ≡ pre ++ post)
    × (length pre ≡ capacity full / 2)
    × Holds left pre
    × Holds right post
    × (key ≡ least post)
    × ((0 < length pre) × (length pre < capacity left))
    × ((0 < length post) × (length post < capacity right))
    × ((capacity left ≡ capacity full) × (capacity right ≡ capacity full))
split_full_example = split_full full-Holds (omega arith) refl
