-- ===== src/GappedArray/Tests.antt =====
-- The theorems on utils/gapped_array/src/lib.rs at a concrete array.
use clearned_immutable.Prelude.{
  ℕ, zero, suc, ◌*◌, ◌≡◌, ◌⊎◌, inl, inr, refl, true, false, none, some, [], ◌∷◌, arith, ok, fault,
  out_of_bounds, Returns,
}
use clearned_immutable.GappedArray.{
  GappedKvArray, new, next_ix_helper, price_is_right, scan_up, scan_down, prev_ix_helper,
  move_right, move_left,
}
use clearned_immutable.GappedArray.Writes.{
  success, copy_within, upsert_at, upsert_with_hint, upsert_first, initial_model_based_insert,
}
use clearned_immutable.GappedArray.Removal.{
  remove_at, trim_window, trim_at, trim_right, rescale, reinsert,
}
use clearned_immutable.SortedArray.{read, write}
use clearned_immutable.GappedArray.Slots.{HasKey, HasEntry, IsGapped, IsFloor, IsOccupied}
use clearned_immutable.GappedArray.Floor.{price_is_right-IsFloor}
use clearned_immutable.GappedArray.Upsert.{Upserted}
use clearned_immutable.GappedArray.Inserted.{IsUpsert, upsert_with_hint-IsUpsert}
use clearned_immutable.GappedArray.Trim.{IsTrimmed, trim_window-IsTrimmed}
use clearned_immutable.GappedArray.Rescaled.{IsScale, IsRescaled, rescale-IsRescaled}
use clearned_immutable.GappedArray.Sizes.{upsert_with_hint-undercounts}

abbrev sparse : GappedKvArray ℕ
sparse = record {
  bitmap = true ∷ false ∷ true ∷ false ∷ [];
  keys = some 2 ∷ none ∷ some 6 ∷ none ∷ [];
  vals = some 20 ∷ none ∷ some 60 ∷ none ∷ [];
  size = 2;
}

sparse-keys : (i k : ℕ) → HasKey sparse i k → ((i ≡ 0) × (k ≡ 2)) ⊎ ((i ≡ 2) × (k ≡ 6))
sparse-keys zero k h = inl (refl, cc)
sparse-keys (suc zero) k h = cc
sparse-keys (suc (suc zero)) k h = inr (refl, cc)
sparse-keys (suc (suc (suc zero))) k h = cc
sparse-keys (suc (suc (suc (suc i)))) k h = cc

sparse-filled : (i : ℕ) → IsOccupied sparse i → (k : ℕ) × (v : ℕ) × HasEntry sparse i k v
sparse-filled zero h = (2, 20, ((refl, refl), refl))
sparse-filled (suc zero) h = cc
sparse-filled (suc (suc zero)) h = (6, 60, ((refl, refl), refl))
sparse-filled (suc (suc (suc zero))) h = cc
sparse-filled (suc (suc (suc (suc i)))) h = cc

sparse-IsGapped : IsGapped sparse
sparse-IsGapped = record {
  keys_length = refl;
  vals_length = refl;
  filled = sparse-filled;
  ascending = λ {i} {j} {k} {l} lt h h'.
      let at_i = sparse-keys i k h in let at_j = sparse-keys j l h' in omega arith;
}

price_is_right-IsFloor_example : Returns (price_is_right sparse 5 (some 9)) (IsFloor sparse 5)
price_is_right-IsFloor_example = price_is_right-IsFloor sparse-IsGapped 5 (some 9)

upsert_with_hint-IsUpsert_example : Returns (upsert_with_hint sparse 4 40 1) (IsUpsert sparse 4 40)
upsert_with_hint-IsUpsert_example = upsert_with_hint-IsUpsert sparse-IsGapped 4 40 1 (omega arith)

trim_window-IsTrimmed_example : Returns (trim_window sparse 2 1 3) (IsTrimmed 1 sparse 2)
trim_window-IsTrimmed_example = trim_window-IsTrimmed sparse-IsGapped 2 1 3

upsert_with_hint-undercounts_example :
    Returns
      (upsert_with_hint sparse 1 10 0)
      λ (r, b). (r ≡ success tt) × (b.size ≡ sparse.size) × Upserted sparse b 1 10
upsert_with_hint-undercounts_example =
    upsert_with_hint-undercounts sparse-IsGapped 1 10 0 1
      (λ j l h. let at_j = sparse-keys j l h in omega arith) refl refl (omega arith)

twice : IsScale (λ n. n * 2) 4
twice = record { mono = λ i j le. omega arith; inside = λ i lt. omega arith; larger = omega arith }

rescale-IsRescaled_example :
    Returns (rescale false (λ n. n * 2) sparse) (IsRescaled (λ n. n * 2) sparse)
rescale-IsRescaled_example = rescale-IsRescaled sparse-IsGapped twice

-- An insertion into an array of one slot copies to a slot past the end.
one_slot_copies_outside : upsert_with_hint {V = ℕ} (new 1) 3 30 0 ≡ fault out_of_bounds
unfolding upsert_with_hint price_is_right move_left upsert_first next_ix_helper scan_up
    prev_ix_helper scan_down copy_within new
one_slot_copies_outside = refl

-- A window of radius 0 takes the neighbours too.
trims_neighbours : Returns (trim_window sparse 2 0 0) λ (r, b). r ≡ success (20 ∷ 60 ∷ [])
unfolding trim_window price_is_right move_left move_right next_ix_helper scan_up read write
    remove_at trim_at trim_right prev_ix_helper scan_down
trims_neighbours = (_, refl, refl)

abbrev doubled : GappedKvArray ℕ
doubled = record {
  bitmap = true ∷ false ∷ false ∷ false ∷ true ∷ false ∷ false ∷ false ∷ [];
  keys = some 2 ∷ none ∷ none ∷ none ∷ some 6 ∷ none ∷ none ∷ none ∷ [];
  vals = some 20 ∷ none ∷ none ∷ none ∷ some 60 ∷ none ∷ none ∷ none ∷ [];
  size = 2;
}

rescales : rescale false (λ n. 2 * n) sparse ≡ ok (success tt, doubled)
unfolding rescale reinsert read write initial_model_based_insert upsert_at new
rescales = refl
