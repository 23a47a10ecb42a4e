-- ===== src/GappedArray/Removal.antt =====
-- Removals and `rescale` of utils/gapped_array/src/lib.rs. The floating point factor of `rescale`
-- enters as the function that scales an index with it.
use clearned_immutable.Prelude.{
  ℕ, zero, suc, ◌+◌, ◌-◌, ◌^◌, Bool, true, false, Option, none, some, List, [], ◌∷◌, ◌++◌, ltb, leb,
  ◌==◌, if◌then◌else◌, Outcome, ok, fault, unwrapped_none, endless, ◌>>=◌,
}
use clearned_immutable.SortedArray.{at, read, write}
use clearned_immutable.GappedArray.{
  GappedKvArray, slot_count, next_occupied_ix, prev_occupied_ix, price_is_right, new,
}
use clearned_immutable.GappedArray.Writes.{
  Result, success, failure, no_such_element, absent_key, scale_too_small, not_reinserted, Reply,
  done, initial_model_based_insert,
}

-- `self.size -= 1` on a `usize`, as a release build computes it
abbrev pub decrement : ℕ → ℕ
decrement size = if size == 0 then 2 ^ 64 - 1 else size - 1

module _ {ℓ} {V : Type ℓ} where
  -- The entry of an occupied slot, which is left uninitialised.
  abbrev pub take_out : GappedKvArray V → ℕ → Outcome (Result (ℕ × V) × GappedKvArray V)
  take_out self ix = do
    bitmap ← write self.bitmap ix false
    key ← read self.keys ix
    val ← read self.vals ix
    keys ← write self.keys ix none
    vals ← write self.vals ix none
    ok (
      success (key, val),
      record { bitmap = bitmap; keys = keys; vals = vals; size = decrement self.size },
    )

  unfoldable pub remove_at : GappedKvArray V → ℕ → Outcome (Result (ℕ × V) × GappedKvArray V)
  remove_at self ix = at self.bitmap ix >>= λ occupied.
      if occupied then take_out self ix else ok (failure no_such_element, self)

  -- `remove_at(ix).unwrap()`, of which the value is kept
  abbrev pub unwrap_removed : Result (ℕ × V) × GappedKvArray V → Outcome (V × GappedKvArray V)
  unwrap_removed (success (k, v), self) = ok (v, self)
  unwrap_removed (failure _, self) = fault unwrapped_none

  -- The loops of `trim_window`: at most one entry per unit of fuel, and one at least.
  unfoldable pub trim_left :
      ℕ → GappedKvArray V → ℕ → ℕ → Option ℕ → List V → Outcome (List V × GappedKvArray V)
  trim_left fuel self window_radius num_left none in_order = ok (in_order, self)
  trim_left zero self window_radius num_left (some jx) in_order = fault endless
  trim_left (suc fuel) self window_radius num_left (some jx) in_order = do
    removed ← remove_at self jx
    (v, self') ← unwrap_removed removed
    let further = prev_occupied_ix self' (jx - 1) >>= λ kx.
        if leb window_radius (num_left + 1)
        then ok (v ∷ in_order, self')
        else trim_left fuel self' window_radius (num_left + 1) kx (v ∷ in_order)
    if jx == 0 then ok (v ∷ in_order, self') else further

  unfoldable pub trim_right :
      ℕ → GappedKvArray V → ℕ → ℕ → Option ℕ → List V → Outcome (List V × GappedKvArray V)
  trim_right fuel self window_radius num_right none in_order = ok (in_order, self)
  trim_right zero self window_radius num_right (some jx) in_order = fault endless
  trim_right (suc fuel) self window_radius num_right (some jx) in_order = do
    removed ← remove_at self jx
    (v, self') ← unwrap_removed removed
    let further =
        trim_right fuel self' window_radius (num_right + 1) (next_occupied_ix self' (jx + 1))
          (in_order ++ v ∷ [])
    if leb window_radius (num_right + 1) then ok (in_order ++ v ∷ [], self') else further

  -- The entry in the slot `ix`, and those around it.
  unfoldable pub trim_at : GappedKvArray V → ℕ → ℕ → Outcome (List V × GappedKvArray V)
  trim_at self window_radius ix = do
    removed ← remove_at self ix
    (v, self1) ← unwrap_removed removed
    let left = prev_occupied_ix self1 (ix - 1) >>= λ kx.
        trim_left (slot_count self) self1 window_radius 0 kx (v ∷ [])
    (in_order, self2) ← if ltb 0 ix then left else ok (v ∷ [], self1)
    trim_right (slot_count self) self2 window_radius 0 (next_occupied_ix self2 (ix + 1)) in_order

  unfoldable pub trim_window :
      GappedKvArray V → ℕ → ℕ → ℕ → Outcome (Result (List V) × GappedKvArray V)
  trim_window self needle window_radius hint = do
    maybe_ix ← price_is_right self needle (some hint)
    elim maybe_ix [
      | none ↦ ok (failure absent_key, self)
      | some ix ↦ do
        key ← read self.keys ix
        let trimmed = trim_at self window_radius ix >>= λ (vs, self'). ok (success vs, self')
        if key == needle then trimmed else ok (failure absent_key, self)
    ]

  -- `std::mem::replace` of the key and the value of a slot
  abbrev pub replace_entry : GappedKvArray V → ℕ → Outcome ((ℕ × V) × GappedKvArray V)
  replace_entry self ix = do
    key ← read self.keys ix
    val ← read self.vals ix
    keys ← write self.keys ix none
    vals ← write self.vals ix none
    ok ((key, val), record self { keys = keys; vals = vals })

  -- The slots from `ix` on are moved into `temp`. The bitmap of `self` stays as it is meanwhile.
  unfoldable pub reinsert :
      ℕ
      → (ℕ → ℕ)
      → GappedKvArray V
      → GappedKvArray V
      → ℕ
      → Outcome {ℓ} (Result {0} Unit × (GappedKvArray V × GappedKvArray V))
  reinsert zero scaled self temp ix = ok (success tt, (self, temp))
  reinsert (suc rounds) scaled self temp ix =
      let skipped = reinsert rounds scaled self temp (ix + 1) in
      let moved = replace_entry self ix >>= λ ((key, val), self').
      initial_model_based_insert temp key val (scaled ix) >>= λ (result, temp'). elim result [
        | failure _ ↦ ok (failure not_reinserted, (self', temp'))
        | success _ ↦ reinsert rounds scaled self' temp' (ix + 1)
      ] in
      at self.bitmap ix >>= λ occupied. if occupied then moved else skipped

  -- `at_most_one` is the test `c <= 1.0`, and `scaled n` is `(n as f32 * c) as usize`.
  unfoldable pub rescale : Bool → (ℕ → ℕ) → GappedKvArray V → Reply V
  rescale true scaled self = ok (failure scale_too_small, self)
  rescale false scaled self = do
    (result, (self', temp)) ←
        reinsert (slot_count self) scaled self (new (scaled (slot_count self))) 0
    elim result [
      | failure e ↦ ok (failure e, self')
      | success _ ↦
          done
            (record { bitmap = temp.bitmap; keys = temp.keys; vals = temp.vals; size = self'.size })
    ]
