-- ===== src/SortedArray/Tests.antt =====
-- Runs of utils/sorted_array, and its theorems at concrete arrays.
use clearned_immutable.Prelude.{
  ℕ, ◌≡◌, refl, none, some, List, [], ◌∷◌, arith, Outcome, ok, fault, out_of_bounds, assertion,
  ◌>>=◌, Returns,
}
use clearned_immutable.SortedArray.{
  SortedArray, SortedArrayEntry, entry, capacity, insert, remove, empty, entries,
}
use clearned_immutable.SortedArray.Assoc.{lookup, upsert, erase}
use clearned_immutable.SortedArray.Holds.{Holds, Leaves}
use clearned_immutable.SortedArray.Insert.{insert-upsert, insert_full}
use clearned_immutable.SortedArray.Remove.{remove-erase, remove_full}
use clearned_immutable.SortedArray.Serde.{decoded, serialize, deserialize, deserialize-serialize}

abbrev some_entries : List (SortedArrayEntry ℕ)
some_entries = entry 2 20 ∷ entry 4 40 ∷ []

-- Two entries in four slots, and two in two.
abbrev roomy : SortedArray ℕ
roomy = record { inner = some (entry 2 20) ∷ some (entry 4 40) ∷ none ∷ none ∷ []; len = 2 }

abbrev tight : SortedArray ℕ
tight = record { inner = some (entry 2 20) ∷ some (entry 4 40) ∷ []; len = 2 }

roomy-Holds : Holds roomy some_entries
roomy-Holds = record {
  rest = none ∷ none ∷ [];
  slots = refl;
  len = refl;
  ascending = ((omega arith, tt), (tt, tt));
}

tight-Holds : Holds tight some_entries
tight-Holds = record {
  rest = [];
  slots = refl;
  len = refl;
  ascending = ((omega arith, tt), (tt, tt));
}

insert_in_order : Outcome (List (SortedArrayEntry ℕ))
unfolding empty insert entries
insert_in_order = do
  (_, a) ← insert 8 (empty 4) 6 60
  (_, b) ← insert 8 a 2 20
  (_, c) ← insert 8 b 4 40
  (_, d) ← insert 8 c 2 21
  entries d

insert_in_order_result : insert_in_order ≡ ok (entry 2 21 ∷ entry 4 40 ∷ entry 6 60 ∷ [])
unfolding insert_in_order
insert_in_order_result = refl

insert-upsert_example :
    Returns (insert 8 roomy 3 30) (Leaves roomy (lookup 3 some_entries) (upsert 3 30 some_entries))
insert-upsert_example = insert-upsert 8 3 30 roomy-Holds (λ absent. omega arith)

insert_full_example : insert 8 tight 3 30 ≡ fault assertion
insert_full_example = insert_full 8 3 30 tight-Holds refl refl

remove-erase_example :
    Returns (remove 8 roomy 2) (Leaves roomy (lookup 2 some_entries) (erase 2 some_entries))
remove-erase_example = remove-erase 8 2 roomy-Holds (omega arith)

remove_full_example : remove 8 tight 2 ≡ fault out_of_bounds
remove_full_example = remove_full 8 2 tight-Holds (λ e. cc e) (λ e. absurd (omega arith)) refl

deserialize-serialize_example :
    Returns
      (serialize roomy >>= deserialize 8 3)
      λ r. (b : SortedArray ℕ) × (r ≡ decoded b) × Holds b some_entries × (capacity b ≡ 3)
deserialize-serialize_example = deserialize-serialize 8 3 roomy-Holds (omega arith)
