-- ===== src/GappedArray/Fresh.antt =====
-- A new array of utils/gapped_array/src/lib.rs.
use clearned_immutable.Prelude.{
  ℕ, zero, suc, ◌∙◌, sym, ◌≡◌, ◌≢◌, refl, true, false, none, some, replicate, length-replicate,
  get_elem?,
}
use clearned_immutable.GappedArray.{new}
use clearned_immutable.GappedArray.Slots.{IsGapped, occupied_count}

pub none_free : (n i : ℕ) → get_elem? (replicate n false) i ≢ some true
none_free zero i h = cc
none_free (suc n) zero h = cc
none_free (suc n) (suc i) h = none_free n i h

pub none_counted : (n : ℕ) → occupied_count (replicate n false) ≡ 0
none_counted zero = refl
none_counted (suc n) = none_counted n

module _ {ℓ} {V : Type ℓ} where
  pub new-IsGapped : (n : ℕ) → IsGapped (new {V = V} n)
  unfolding new
  new-IsGapped n = record {
    keys_length = length-replicate n none ∙ sym (length-replicate n false);
    vals_length = length-replicate n none ∙ sym (length-replicate n false);
    filled = λ i occ. absurd (none_free n i occ);
    ascending = λ lt h h'. absurd (none_free n _ h.0);
  }
