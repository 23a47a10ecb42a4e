-- ===== src/GappedArray/Rescaled.antt =====
-- `rescale` of utils/gapped_array/src/lib.rs, whose loop moves the entries one by one into a longer array.
use clearned_immutable.Prelude.{
  ℕ, zero, suc, ◌+◌, ◌≤◌, ◌<◌, ◌≡◌, ◌≢◌, ◌↔◌, inl, inr, ◌∙◌, refl, true, false, none, some, arith,
  length, length-set, length-replicate, get_elem?, set, get_elem?-lt, get_elem?-set_ne, ltb,
  order_cases, Bool-cases, ok, Returns,
}
use clearned_immutable.SortedArray.{at, read, write}
use clearned_immutable.GappedArray.{GappedKvArray, new, slot_count}
use clearned_immutable.GappedArray.Writes.{Result, success, failure, initial_model_based_insert}
use clearned_immutable.GappedArray.Removal.{replace_entry, reinsert, rescale}
use clearned_immutable.GappedArray.Slots.{
  IsOccupied, HasKey, HasEntry, IsGapped, Stores, occupied_count,
}
use clearned_immutable.GappedArray.Floor.{occupied_lt}
use clearned_immutable.GappedArray.Upsert.{Upserted, key_from}
use clearned_immutable.GappedArray.Fresh.{none_free, none_counted, new-IsGapped}
use clearned_immutable.GappedArray.Appended.{IsTight, initial_model_based_insert-IsAppended}

-- What is relied on in the scaling of the indices of an array of `slots` slots.
pub record IsScale (scaled : ℕ → ℕ) (slots : ℕ) : Type 0 where
  pub mono : (i j : ℕ) → i ≤ j → scaled i ≤ scaled j
  pub inside : (i : ℕ) → i < slots → scaled i < scaled slots
  pub larger : slots ≤ scaled slots

module _ {ℓ} {V : Type ℓ} where
  -- The slots of `a` below `ix` are moved from `self` to `temp`, and the others are as they were.
  record IsMoved (scaled : ℕ → ℕ) (a self temp : GappedKvArray V) (ix : ℕ) : Type ℓ where
    bits : self.bitmap ≡ a.bitmap
    keys_length : length self.keys ≡ length a.bitmap
    vals_length : length self.vals ≡ length a.bitmap
    same_size : self.size ≡ a.size
    ahead :
        (i : ℕ)
        → ix ≤ i
        → (get_elem? self.keys i ≡ get_elem? a.keys i)
          × (get_elem? self.vals i ≡ get_elem? a.vals i)
    gapped : IsGapped temp
    slots : slot_count temp ≡ scaled (slot_count a)
    old_hint : ℕ
    hint_le : (i : ℕ) → ix ≤ i → old_hint ≤ scaled i
    tight : IsTight temp old_hint
    below : (i j k l : ℕ) → ix ≤ i → HasKey a i k → HasKey temp j l → l < k
    count : occupied_count temp.bitmap ≤ ix
    stores : (k : ℕ) (v : V) → Stores temp k v ↔ ((i : ℕ) × (i < ix) × HasEntry a i k v)

  -- The array is longer, with the same entries.
  abbrev pub IsRescaled : (ℕ → ℕ) → GappedKvArray V → Result {0} Unit × GappedKvArray V → Type ℓ
  IsRescaled scaled a (result, b) =
      (result ≡ success tt)
      × IsGapped b
      × (slot_count b ≡ scaled (slot_count a))
      × (b.size ≡ a.size)
      × (occupied_count b.bitmap ≤ slot_count a)
      × ((k : ℕ) (v : V) → Stores b k v ↔ Stores a k v)

  emptied_at : GappedKvArray V → ℕ → GappedKvArray V
  emptied_at self ix = record self { keys = set self.keys ix none; vals = set self.vals ix none }

  reinsert_step :
      (rounds : ℕ) (scaled : ℕ → ℕ) (self temp : GappedKvArray V) (ix key : ℕ) (val : V)
      (r : Result {0} Unit × GappedKvArray V)
      → get_elem? self.bitmap ix ≡ some true
      → replace_entry self ix ≡ ok ((key, val), emptied_at self ix)
      → initial_model_based_insert temp key val (scaled ix) ≡ ok r
      → r.0 ≡ success tt
      → reinsert (suc rounds) scaled self temp ix
        ≡ reinsert rounds scaled (emptied_at self ix) r.1 (ix + 1)
  unfolding reinsert
  reinsert_step rounds scaled self temp ix key val (success tt, temp') bit out run fine =
      rw (reinsert, at, bit) (rw out (rw run refl))
  reinsert_step rounds scaled self temp ix key val (failure e, temp') bit out run fine = absurd cc

module _ {ℓ} {V : Type ℓ} {scaled : ℕ → ℕ} {a self temp : GappedKvArray V} {ix : ℕ} (g : IsGapped a)
    (scale : IsScale scaled (slot_count a)) (m : IsMoved scaled a self temp ix) where
  skip : get_elem? a.bitmap ix ≡ some false → IsMoved scaled a self temp (ix + 1)
  skip free = record {
    bits = m.bits;
    keys_length = m.keys_length;
    vals_length = m.vals_length;
    same_size = m.same_size;
    gapped = m.gapped;
    slots = m.slots;
    old_hint = m.old_hint;
    tight = m.tight;
    ahead = λ i le. m.ahead i (omega arith);
    hint_le = λ i le. m.hint_le i (omega arith);
    below = λ i j k l le. m.below i j k l (omega arith);
    count = omega (arith, m.count);
    stores = λ k v. (
      λ s. let (i, lt, e) = (m.stores k v).0 s in (i, omega arith, e),
      λ (i, lt, e). elim (order_cases i ix) [
        | inl before ↦ (m.stores k v).1 (i, before, e)
        | inr (inl after) ↦ absurd (omega arith)
        | inr (inr same) ↦ let occ = e.0.0 in let occ' = rw same at occ in absurd cc
      ],
    );
  }

  module _ (key : ℕ) (val : V) (e : HasEntry a ix key val) where
    replaced : replace_entry self ix ≡ ok ((key, val), emptied_at self ix)
    unfolding emptied_at read write
    replaced =
        let lt = occupied_lt a ix e.0.0 in
        let (keys, vals) = m.ahead ix (omega arith) in
        let key_there = keys ∙ e.0.1 in
        let val_there = vals ∙ e.1 in
        let key_in : ltb ix (length self.keys) ≡ true = ground (arith, m.keys_length) in
        let val_in : ltb ix (length self.vals) ≡ true = ground (arith, m.vals_length) in
        rw (read, key_there, val_there) (rw (write, key_in, val_in) refl)

    move :
        (temp' : GappedKvArray V)
        → Upserted temp temp' key val
        → IsTight temp' (scaled ix)
        → occupied_count temp'.bitmap ≡ suc (occupied_count temp.bitmap)
        → IsMoved scaled a (emptied_at self ix) temp' (ix + 1)
    unfolding emptied_at
    move temp' u tight' count' = record {
      bits = m.bits;
      keys_length = length-set self.keys ix none ∙ m.keys_length;
      vals_length = length-set self.vals ix none ∙ m.vals_length;
      same_size = m.same_size;
      ahead = λ i le.
          let (keys, vals) = m.ahead i (omega arith) in
          let ne : ix ≢ i = λ same. omega arith in
          (get_elem?-set_ne self.keys none ne ∙ keys, get_elem?-set_ne self.vals none ne ∙ vals);
      gapped = u.gapped;
      slots = u.slots ∙ m.slots;
      old_hint = scaled ix;
      hint_le = λ i le. scale.mono ix i (omega arith);
      tight = tight';
      below = λ i j k l le h h'. elim (key_from u j l h') [
        | inl is_key ↦ let above : key < k = g.ascending (omega arith) e.0 h in omega arith
        | inr (j', h'') ↦ m.below i j' k l (omega arith) h h''
      ];
      count = omega (arith, m.count);
      stores = λ k v. (
        λ s. elim ((u.stores k v).0 s) [
          | inl (is_key, is_val) ↦ (ix, omega arith, rw (is_key, is_val) e)
          | inr (_, s') ↦ let (i, lt, e') = (m.stores k v).0 s' in (i, omega arith, e')
        ],
        λ (i, lt, e'). elim (order_cases i ix) [
          | inl before ↦
              let less : k < key = g.ascending before e'.0 e.0 in
              (u.stores k v).1 (inr ((λ same. omega arith), (m.stores k v).1 (i, before, e')))
          | inr (inl after) ↦ absurd (omega arith)
          | inr (inr same) ↦
              let (h, is_val) = e' in
              let key_here = rw same at h.1 in
              let val_here = rw same at is_val in
              let key_there = e.0.1 in let val_there = e.1 in (u.stores k v).1 (inl (cc, cc))
        ],
      );
    }

module _ {ℓ} {V : Type ℓ} {scaled : ℕ → ℕ} {a : GappedKvArray V} (g : IsGapped a)
    (scale : IsScale scaled (slot_count a)) where
  -- The end of the loop.
  abbrev IsReinserted : Result {0} Unit × (GappedKvArray V × GappedKvArray V) → Type ℓ
  IsReinserted (result, (self, temp)) =
      (result ≡ success tt) × IsMoved scaled a self temp (slot_count a)

  reinsert-IsMoved :
      (rounds ix : ℕ) (self temp : GappedKvArray V)
      → rounds + ix ≡ slot_count a
      → IsMoved scaled a self temp ix
      → Returns (reinsert rounds scaled self temp ix) IsReinserted
  unfolding reinsert
  reinsert-IsMoved zero ix self temp end m =
      let same : ix ≡ slot_count a = omega arith in
      ((success tt, (self, temp)), refl, (refl, rw same at m))
  reinsert-IsMoved (suc rounds) ix self temp end m =
      let (b, bit) = get_elem?-lt a.bitmap ix (omega arith) in
      elim (Bool-cases b) [
        | inl yes' ↦
            moved (rw yes' at bit)
              (λ self' temp' m'. reinsert-IsMoved rounds (ix + 1) self' temp' (omega arith) m')
        | inr no' ↦
            let free : get_elem? a.bitmap ix ≡ some false = rw no' at bit in
            let (r, run, done') =
              reinsert-IsMoved rounds (ix + 1) self temp (omega arith) (skip g scale m free) in
            let here : get_elem? self.bitmap ix ≡ some false = rw m.bits free in
            (r, rw (reinsert, at, here) run, done')
      ]
    where
      moved :
          IsOccupied a ix
          → ((self' temp' : GappedKvArray V)
              → IsMoved scaled a self' temp' (ix + 1)
              → Returns (reinsert rounds scaled self' temp' (ix + 1)) IsReinserted)
          → Returns (reinsert (suc rounds) scaled self temp ix) IsReinserted
      moved occ later =
          let (key, val, e) = g.filled ix occ in
          let room : occupied_count temp.bitmap < slot_count temp =
            omega (arith, m.slots, m.count, scale.larger) in
          let inside = scale.inside ix (omega arith) in
          let ((result, temp'), put, (fine, u, tight', count')) =
            initial_model_based_insert-IsAppended m.gapped key val m.old_hint (scaled ix) m.tight
              (m.hint_le ix (omega arith)) (omega (arith, m.slots, inside))
              (λ j l h. m.below ix j key l (omega arith) e.0 h) room in
          let (r, run, done') =
            later (emptied_at self ix) temp' (move g scale m key val e temp' u tight' count') in
          (
            r,
            reinsert_step rounds scaled self temp ix key val (result, temp') (rw m.bits occ)
                  (replaced g scale m key val e) put fine
                ∙ run,
            done',
          )

  rescale_run :
      (r : Result {0} Unit × (GappedKvArray V × GappedKvArray V))
      → reinsert (slot_count a) scaled a (new (scaled (slot_count a))) 0 ≡ ok r
      → r.0 ≡ success tt
      → rescale false scaled a ≡ ok (success tt, record r.1.1 { size = r.1.0.size })
  unfolding rescale
  rescale_run (success tt, (self, temp)) run fine = rw (rescale, run) refl
  rescale_run (failure e, (self, temp)) run fine = absurd cc

  -- `rescale` of a well-formed array, with a factor above 1 by which the indices of the slots are
  -- scaled in order and stay inside the longer array: it ends without a panic or an error, and
  -- leaves a well-formed array of the scaled length and the same size, with no more occupied slots
  -- than the old one has slots, that stores the same entries.
  pub rescale-IsRescaled : Returns (rescale false scaled a) (IsRescaled scaled a)
  unfolding rescale new
  rescale-IsRescaled =
      let n = scaled (slot_count a) in
      let ((result, (self, temp)), run, (fine, m)) =
        reinsert-IsMoved (slot_count a) 0 a (new n) (omega arith) start in
      (
        (success tt, record temp { size = self.size }),
        rescale_run (result, (self, temp)) run fine,
        (
          refl,
          record {
            keys_length = m.gapped.keys_length;
            vals_length = m.gapped.vals_length;
            filled = m.gapped.filled;
            ascending = λ lt h h'. m.gapped.ascending lt h h';
          },
          m.slots,
          m.same_size,
          m.count,
          λ k v. (
            λ s. let (i, _, e) = (m.stores k v).0 s in (i, e),
            λ (i, e). (m.stores k v).1 (i, occupied_lt a i e.0.0, e),
          ),
        ),
      )
    where
      start : IsMoved scaled a a (new (scaled (slot_count a))) 0
      start = record {
        bits = refl;
        keys_length = g.keys_length;
        vals_length = g.vals_length;
        same_size = refl;
        ahead = λ i le. (refl, refl);
        gapped = new-IsGapped (scaled (slot_count a));
        slots = length-replicate (scaled (slot_count a)) false;
        old_hint = 0;
        hint_le = λ i le. omega arith;
        tight = λ i j from le occ. absurd (none_free _ j occ);
        below = λ i j k l le h h'. absurd (none_free _ j h'.0);
        count = omega (arith, none_counted (scaled (slot_count a)));
        stores =
            λ k v. (λ (i, e). absurd (none_free _ i e.0.0), λ (i, lt, e). absurd (omega arith));
      }
