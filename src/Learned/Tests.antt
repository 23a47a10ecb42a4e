-- ===== src/Learned/Tests.antt =====
-- The theorems on core/src/learned at concrete entries.
use clearned_immutable.Prelude.{
  ◌>>=◌, ◌<◌, true, zero, suc, some, ℕ, ◌≡◌, ◌↔◌, refl, List, [], ◌∷◌, ◌++◌, arith, fault,
  unwrapped_none, Returns,
}
use clearned_immutable.GappedArray.{
  new, price_is_right, move_left, next_ix_helper, scan_up, prev_ix_helper, scan_down, move_right,
}
use clearned_immutable.SortedArray.{read, write}
use clearned_immutable.GappedArray.Writes.{
  upsert_with_hint, upsert_first, initial_model_based_insert, upsert_at, insert_at_end, copy_within,
}
use clearned_immutable.GappedArray.Slots.{IsGapped, Stores}
use clearned_immutable.MemoryList.Api.{ArenaApi}
use clearned_immutable.MemoryList.{Slot}
use clearned_immutable.MemoryList.Links.{Cell, IsList}
use clearned_immutable.MemoryList.Growing.{growing}
use clearned_immutable.Learned.{PgmNode}
use clearned_immutable.GappedArray.Slots.{IsOccupied, HasKey, HasEntry}
use clearned_immutable.Learned.Grown.{IsGrown, grow_insert-IsGrown}
use clearned_immutable.Learned.Layer.{fill, empty}
use clearned_immutable.Learned.Filled.{AreSearched, fill-AreSearched}
use clearned_immutable.LearnedSegment.{LinearModel, hint, sentinel}
use clearned_immutable.LearnedSegment.Segments.{flatten}
use clearned_immutable.LearnedSegment.Whole.{whole}
use clearned_immutable.LearnedSegment.Ascending.{IsAscending}
use clearned_immutable.Learned.{from_trained, node_search_exact, grow_insert, default_node}
use clearned_immutable.Learned.Trained.{Listed, IsAnswerOf, from_trained-searchable}

abbrev entries : List (ℕ × ℕ)
entries = (2, 20) ∷ (6, 60) ∷ (9, 90) ∷ []

entries-IsAscending : IsAscending entries
entries-IsAscending = ((omega arith, (omega arith, tt)), ((omega arith, tt), (tt, tt)))

-- With this model the places of the last two keys are past the end.
abbrev steep : LinearModel whole
steep = record { key = 2; slope = 3; size = 3 }

from_trained-searchable_example : Returns (from_trained whole steep entries) λ node.
    IsGapped node.gapped
    × ((k v : ℕ) → Stores node.gapped k v ↔ Listed k v entries)
    × ((key : ℕ) → Returns (node_search_exact whole node key) (IsAnswerOf entries key))
from_trained-searchable_example = from_trained-searchable whole steep entries entries-IsAscending

abbrev arena : ArenaApi (Slot (PgmNode whole ℕ) ℕ)
arena = growing

fill-AreSearched_example :
    Returns (fill whole 1000 1 arena (empty whole 1000 1 arena) entries) λ layer.
      (cs : List (Cell (PgmNode whole ℕ) ℕ)) × (last : Cell (PgmNode whole ℕ) ℕ) × (segments : List
        (LinearModel whole × List (ℕ × ℕ)))
      × IsList arena layer (cs ++ last ∷ [])
      × (last.contents ≡ default_node whole 1000)
      × (flatten whole segments ≡ entries)
      × AreSearched whole 1000 1 arena layer cs segments
fill-AreSearched_example =
    fill-AreSearched whole 1000 1 arena (empty whole 1000 1 arena) entries entries-IsAscending

-- A node whose slots are all taken.
abbrev packed : PgmNode whole ℕ
packed = record {
  gapped = record {
    bitmap = true ∷ true ∷ [];
    keys = some 2 ∷ some 6 ∷ [];
    vals = some 20 ∷ some 60 ∷ [];
    size = 2;
  };
  model = steep;
}

packed-filled : (i : ℕ) → IsOccupied packed.gapped i → (k v : ℕ) × HasEntry packed.gapped i k v
packed-filled zero h = (2, 20, ((refl, refl), refl))
packed-filled (suc zero) h = (6, 60, ((refl, refl), refl))
packed-filled (suc (suc i)) h = cc

packed-ascending :
    (i j k l : ℕ) → i < j → HasKey packed.gapped i k → HasKey packed.gapped j l → k < l
packed-ascending zero (suc zero) k l lt h h' =
    let first : k ≡ 2 = cc in let second : l ≡ 6 = cc in omega arith
packed-ascending zero zero k l lt h h' = absurd (omega arith)
packed-ascending (suc i) zero k l lt h h' = absurd (omega arith)
packed-ascending (suc i) (suc zero) k l lt h h' = absurd (omega arith)
packed-ascending i (suc (suc j)) k l lt h h' = cc

packed-IsGapped : IsGapped packed.gapped
packed-IsGapped = record {
  keys_length = refl;
  vals_length = refl;
  filled = packed-filled;
  ascending = λ {i} {j} {k} {l}. packed-ascending i j k l;
}

grow_insert-IsGrown_example : IsGrown whole packed 4 40 (grow_insert whole packed 4 40)
grow_insert-IsGrown_example =
    grow_insert-IsGrown whole packed 4 40 packed-IsGapped (omega arith)
      (record { mono = λ i j le. omega arith; inside = λ i lt. omega arith; larger = omega arith })
      (omega arith)

abbrev two_entries : List (ℕ × ℕ)
two_entries = (10, 100) ∷ (20, 200) ∷ []

-- Insertions in front are not counted, so that the array fills up, does not grow and refuses a third.
in_front_panics :
    (do
      node ← from_trained whole steep two_entries
      node1 ← grow_insert whole node 5 50
      node2 ← grow_insert whole node1 4 40
      grow_insert whole node2 3 30)
    ≡ fault unwrapped_none
unfolding grow_insert from_trained initial_model_based_insert new hint upsert_at write
    next_ix_helper scan_up prev_ix_helper scan_down insert_at_end copy_within upsert_with_hint
    price_is_right move_left read upsert_first move_right
in_front_panics = refl

-- The node of an empty layer has no slot, and takes no entry.
default_refuses : grow_insert whole (default_node whole {V = ℕ} 1000) 3 30 ≡ fault unwrapped_none
unfolding grow_insert default_node upsert_with_hint new price_is_right move_left next_ix_helper
    scan_up hint sentinel upsert_first
default_refuses = refl
