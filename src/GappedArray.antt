-- ===== src/GappedArray.antt =====
-- utils/gapped_array/src/lib.rs: a sorted array with gaps between its entries. A slot of `keys` or
-- `vals` is `none` where it is uninitialised. The `hint` of a search is any number.
pub mod Writes
pub mod Removal
pub mod Scan
pub mod Slots
pub mod Floor
pub mod Copies
pub mod Shifts
pub mod Upsert
pub mod Inserted
pub mod Removed
pub mod Sizes
pub mod Fresh
pub mod Stretch
pub mod Window
pub mod Loops
pub mod Counts
pub mod Appended
pub mod Rescaled
pub mod Trim
mod Tests
use clearned_immutable.Prelude.{
  ℕ, zero, suc, ◌+◌, ◌-◌, ◌*◌, ◌/◌, ◌^◌, Bool, true, false, not, ◌&&◌, Option, none, some, List, [],
  ◌∷◌, ◌++◌, length, get_elem?, set, take, drop, replicate, ltb, leb, ◌==◌, if◌then◌else◌, Outcome,
  ok, fault, out_of_bounds, unwrapped_none, endless, ◌>>=◌,
}
use clearned_immutable.SortedArray.{at, read, write}

pub record GappedKvArray {ℓ} (V : Type ℓ) : Type ℓ where
  pub bitmap : List Bool
  pub keys : List (Option ℕ)
  pub vals : List (Option V)
  pub size : ℕ

-- `==` of two `bool`s
abbrev pub same : Bool → Bool → Bool
same true b = b
same false b = not b

-- The loop of `next_ix_helper`; `fuel` bounds the slots from `ix` on.
unfoldable pub scan_up : ℕ → List Bool → ℕ → Bool → Option ℕ
scan_up zero bitmap ix val = none
scan_up (suc fuel) bitmap ix val =
    let rest = scan_up fuel bitmap (ix + 1) val in
    elim (get_elem? bitmap ix) [ none ↦ none | some b ↦ if same b val then some ix else rest ]

-- The loop of `prev_ix_helper`, which panics if it starts past the end.
unfoldable pub scan_down : List Bool → ℕ → Bool → Outcome (Option ℕ)
scan_down bitmap zero val = do b ← at bitmap 0; ok (if same b val then some 0 else none)
scan_down bitmap (suc ix) val =
    let rest = scan_down bitmap ix val in
    at bitmap (suc ix) >>= λ b. if same b val then ok (some (suc ix)) else rest

abbrev pub count_unoccupied : List Bool → ℕ
count_unoccupied [] = 0
count_unoccupied (b ∷ bs) = if b then count_unoccupied bs else count_unoccupied bs + 1

module _ {ℓ} {V : Type ℓ} where
  unfoldable pub new : ℕ → GappedKvArray V
  new size = record {
    bitmap = replicate size false;
    keys = replicate size none;
    vals = replicate size none;
    size = 0;
  }

  -- `len`
  abbrev pub slot_count : GappedKvArray V → ℕ
  slot_count self = length self.bitmap

  unfoldable pub is_full : GappedKvArray V → Bool
  is_full self = leb (slot_count self) self.size

  unfoldable pub next_ix_helper : GappedKvArray V → ℕ → Bool → Option ℕ
  next_ix_helper self ix val = scan_up (slot_count self - ix) self.bitmap ix val

  abbrev pub next_occupied_ix : GappedKvArray V → ℕ → Option ℕ
  next_occupied_ix self ix = next_ix_helper self ix true

  abbrev pub next_free_ix : GappedKvArray V → ℕ → Option ℕ
  next_free_ix self ix = next_ix_helper self ix false

  unfoldable pub prev_ix_helper : GappedKvArray V → ℕ → Bool → Outcome (Option ℕ)
  prev_ix_helper self ix val = scan_down self.bitmap ix val

  abbrev pub prev_occupied_ix : GappedKvArray V → ℕ → Outcome (Option ℕ)
  prev_occupied_ix self ix = prev_ix_helper self ix true

  abbrev pub prev_free_ix : GappedKvArray V → ℕ → Outcome (Option ℕ)
  prev_free_ix self ix = prev_ix_helper self ix false

  -- The first loop of `price_is_right`, from an occupied slot to the right.
  unfoldable pub move_right : ℕ → GappedKvArray V → ℕ → ℕ → Outcome ℕ
  move_right zero self needle check = fault endless
  move_right (suc fuel) self needle check = elim (next_occupied_ix self (check + 1)) [
    | none ↦ ok check
    | some next_ix ↦ do
      key ← read self.keys next_ix
      if ltb needle key then ok check else move_right fuel self needle next_ix
  ]

  -- Its second loop, from an occupied slot to the left.
  unfoldable pub move_left : ℕ → GappedKvArray V → ℕ → Option ℕ → Outcome (Option ℕ)
  move_left fuel self needle none = ok none
  move_left zero self needle (some ix) = fault endless
  move_left (suc fuel) self needle (some ix) =
      let further = prev_occupied_ix self (ix - 1) >>= move_left fuel self needle in
      read self.keys ix >>= λ key.
      if leb key needle then ok (some ix) else if ix == 0 then ok none else further

  abbrev pub start_at : GappedKvArray V → Option ℕ → ℕ
  start_at self none = slot_count self / 2
  start_at self (some hint) = hint

  -- After the first loop: the occupied slot it ended at, or else the last one of the array.
  abbrev pub snap : GappedKvArray V → ℕ → Option ℕ → Outcome (Option ℕ)
  snap self needle none =
      if ltb 0 (slot_count self) then prev_occupied_ix self (slot_count self - 1) else ok none
  snap self needle (some check) = do
    ix ← move_right (slot_count self) self needle check
    ok (some ix)

  unfoldable pub price_is_right : GappedKvArray V → ℕ → Option ℕ → Outcome (Option ℕ)
  price_is_right self needle hint = do
    check ← snap self needle (next_occupied_ix self (start_at self hint))
    move_left (slot_count self) self needle check

  -- `self.vals.get(ix)`, and the read of the slot
  abbrev pub value_at : GappedKvArray V → ℕ → Outcome (Option V)
  value_at self ix = elim (get_elem? self.vals ix) [
    | none ↦ ok none
    | some _ ↦ do v ← read self.vals ix; ok (some v)
  ]

  unfoldable pub search_pir : GappedKvArray V → ℕ → Option ℕ → Outcome (Option V)
  search_pir self needle hint = do
    found ← price_is_right self needle hint
    elim found [ none ↦ ok none | some ix ↦ value_at self ix ]

  unfoldable pub search_exact : GappedKvArray V → ℕ → Option ℕ → Outcome (Option V)
  search_exact self needle hint = do
    found ← price_is_right self needle hint
    elim found [
      | none ↦ ok none
      | some ix ↦ do key ← read self.keys ix; if key == needle then value_at self ix else ok none
    ]

  -- `self_size`, `key_size` and `val_size` are the sizes of the types in bytes.
  unfoldable pub size_in_bytes : ℕ → ℕ → ℕ → GappedKvArray V → ℕ
  size_in_bytes self_size key_size val_size self =
      self_size + (key_size + val_size + 1) * slot_count self

  unfoldable pub excess_size_in_bytes : ℕ → ℕ → GappedKvArray V → ℕ
  excess_size_in_bytes key_size val_size self =
      slot_count self + (key_size + val_size) * count_unoccupied self.bitmap

  unfoldable pub min_key : GappedKvArray V → Outcome (Option ℕ)
  min_key self = elim (next_occupied_ix self 0) [
    | none ↦ ok none
    | some ix ↦ elim (get_elem? self.keys ix) [
      | none ↦ ok none
      | some _ ↦ do k ← read self.keys ix; ok (some k)
    ]
  ]

  unfoldable pub min_val : GappedKvArray V → Outcome (Option V)
  min_val self = elim (next_occupied_ix self 0) [ none ↦ ok none | some ix ↦ value_at self ix ]
