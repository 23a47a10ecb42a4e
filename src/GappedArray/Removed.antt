-- ===== src/GappedArray/Removed.antt =====
-- The array of utils/gapped_array/src/lib.rs after a removal.
use clearned_immutable.Prelude.{
  ℕ, ◌≡◌, ◌≢◌, ◌∙◌, refl, sym, true, false, none, some, arith, length, get_elem?, set, length-set,
  get_elem?-set_self, get_elem?-set_ne, ltb, ok,
}
use clearned_immutable.SortedArray.{at, read, write}
use clearned_immutable.GappedArray.{GappedKvArray, slot_count}
use clearned_immutable.GappedArray.Writes.{success}
use clearned_immutable.GappedArray.Removal.{decrement, remove_at}
use clearned_immutable.GappedArray.Slots.{IsOccupied, HasKey, HasEntry, IsGapped}
use clearned_immutable.GappedArray.Floor.{occupied_lt}

module _ {ℓ} {V : Type ℓ} where
  -- `b` is well formed, and its entries stand where they stood in `a`.
  pub record IsPart (b a : GappedKvArray V) : Type ℓ where
    pub gapped : IsGapped b
    pub slots : slot_count b ≡ slot_count a
    pub entries : (i k : ℕ) (v : V) → HasEntry b i k v → HasEntry a i k v

  pub IsPart-trans : {c b a : GappedKvArray V} → IsPart c b → IsPart b a → IsPart c a
  IsPart-trans p q = record {
    gapped = p.gapped;
    slots = p.slots ∙ q.slots;
    entries = λ i k v h. q.entries i k v (p.entries i k v h);
  }

  pub whole : (a : GappedKvArray V) → IsGapped a → IsPart a a
  whole a g = record { gapped = g; slots = refl; entries = λ i k v h. h }

  -- The array without the entry of the slot `i`.
  abbrev pub without : GappedKvArray V → ℕ → GappedKvArray V
  without a i = record {
    bitmap = set a.bitmap i false;
    keys = set a.keys i none;
    vals = set a.vals i none;
    size = decrement a.size;
  }

module _ {ℓ} {V : Type ℓ} {a : GappedKvArray V} (g : IsGapped a) (i : ℕ)
    (occ : IsOccupied a i) where
  pub emptied : get_elem? (without a i).bitmap i ≡ some false
  emptied = get_elem?-set_self a.bitmap i false (occupied_lt a i occ)

  elsewhere : (j : ℕ) → IsOccupied (without a i) j → i ≢ j
  elsewhere j h e = let h' = rw (sym e) at h in let free = emptied in cc

  kept_key : (j k : ℕ) → HasKey (without a i) j k → HasKey a j k
  kept_key j k h =
      let ne = elsewhere j h.0 in
      (sym (get_elem?-set_ne a.bitmap false ne) ∙ h.0, sym (get_elem?-set_ne a.keys none ne) ∙ h.1)

  pub without-IsPart : IsPart (without a i) a
  without-IsPart = record {
    gapped = record {
      keys_length =
          omega (arith, g.keys_length, length-set a.keys i none, length-set a.bitmap i false);
      vals_length =
          omega (arith, g.vals_length, length-set a.vals i none, length-set a.bitmap i false);
      filled = λ j h.
          let ne = elsewhere j h in
          let (k, v, e) = g.filled j (sym (get_elem?-set_ne a.bitmap false ne) ∙ h) in
          (
            k,
            v,
            ((h, get_elem?-set_ne a.keys none ne ∙ e.0.1), get_elem?-set_ne a.vals none ne ∙ e.1),
          );
      ascending = λ {i} {j} {k} {l} lt h h'. g.ascending lt (kept_key i k h) (kept_key j l h');
    };
    slots = length-set a.bitmap i false;
    entries =
        λ j k v h. (kept_key j k h.0, sym (get_elem?-set_ne a.vals none (elsewhere j h.0.0)) ∙ h.1);
  }

  -- Removing an occupied slot returns its entry.
  pub remove_at-without :
      (k : ℕ) × (v : V) × HasEntry a i k v × (remove_at a i ≡ ok (success (k, v), without a i))
  unfolding remove_at read write
  remove_at-without =
      let (k, v, e) = g.filled i occ in
      let lt = occupied_lt a i occ in
      let b : ltb i (length a.bitmap) ≡ true = ground arith in
      let tk : ltb i (length a.keys) ≡ true = ground (arith, g.keys_length) in
      let tv : ltb i (length a.vals) ≡ true = ground (arith, g.vals_length) in
      (
        k,
        v,
        e,
        rw (remove_at, at, occ)
            (rw (write, b) (rw (read, e.0.1) (rw (read, e.1) (rw (write, tk, tv))))),
      )
