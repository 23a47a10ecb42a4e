-- ===== src/GappedArray/Slots.antt =====
-- What a gapped array of utils/gapped_array/src/lib.rs holds, slot by slot.
use clearned_immutable.Prelude.{
  ℕ, suc, ◌<◌, ◌≤◌, ◌≡◌, Bool, true, Option, none, some, List, [], ◌∷◌, length, get_elem?,
  if◌then◌else◌,
}
use clearned_immutable.GappedArray.{GappedKvArray}

module _ {ℓ} {V : Type ℓ} where
  abbrev pub IsOccupied : GappedKvArray V → ℕ → Type 0
  IsOccupied a i = get_elem? a.bitmap i ≡ some true

  -- An occupied slot with the key `k`.
  abbrev pub HasKey : GappedKvArray V → ℕ → ℕ → Type 0
  HasKey a i k = IsOccupied a i × (get_elem? a.keys i ≡ some (some k))

  abbrev pub HasEntry : GappedKvArray V → ℕ → ℕ → V → Type ℓ
  HasEntry a i k v = HasKey a i k × (get_elem? a.vals i ≡ some (some v))

  -- The arrays have one length, the occupied slots are initialised, and their keys ascend.
  pub record IsGapped (a : GappedKvArray V) : Type ℓ where
    pub keys_length : length a.keys ≡ length a.bitmap
    pub vals_length : length a.vals ≡ length a.bitmap
    pub filled : (i : ℕ) → IsOccupied a i → (k : ℕ) × (v : V) × HasEntry a i k v
    pub ascending : {i j k l : ℕ} → i < j → HasKey a i k → HasKey a j l → k < l

  -- The key `k` is stored in some slot, with the value `v`.
  abbrev pub Stores : GappedKvArray V → ℕ → V → Type ℓ
  Stores a k v = (i : ℕ) × HasEntry a i k v

  -- The slot of the largest key at most `needle`, if there is one.
  abbrev pub IsFloor : GappedKvArray V → ℕ → Option ℕ → Type 0
  IsFloor a needle none = (j l : ℕ) → HasKey a j l → needle < l
  IsFloor a needle (some ix) =
      (k : ℕ) × HasKey a ix k × (k ≤ needle) × ((j l : ℕ) → ix < j → HasKey a j l → needle < l)

-- The number of occupied slots.
abbrev pub occupied_count : List Bool → ℕ
occupied_count [] = 0
occupied_count (b ∷ bs) = if b then suc (occupied_count bs) else occupied_count bs
