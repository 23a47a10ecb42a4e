-- ===== src/GappedArray/Sizes.antt =====
-- The field `size` of the array of utils/gapped_array/src/lib.rs against the bits that are set.
use clearned_immutable.Prelude.{
  ℕ, zero, suc, ◌+◌, ◌<◌, ◌≡◌, ◌∙◌, inl, inr, true, false, Bool, Option, none, some, List, [], ◌∷◌,
  arith, get_elem?, set, get_elem?-lt, if◌then◌else◌, Bool-cases, Returns, order_cases,
}
use clearned_immutable.GappedArray.{GappedKvArray, slot_count, price_is_right}
use clearned_immutable.GappedArray.Writes.{
  copy_slice, success, upsert_at, upsert_first, upsert_with_hint,
}
use clearned_immutable.GappedArray.Removal.{remove_at, decrement}
use clearned_immutable.GappedArray.Slots.{IsOccupied, HasKey, IsGapped, IsFloor, occupied_count}
use clearned_immutable.GappedArray.Scan.{next_ix_helper-IsNext, IsNext}
use clearned_immutable.GappedArray.Floor.{price_is_right-IsFloor}
use clearned_immutable.GappedArray.Copies.{upsert_at-placed, kept}
use clearned_immutable.GappedArray.Shifts.{upsert_first-Inserts}
use clearned_immutable.GappedArray.Upsert.{Upserted, IsFree, from_left-Upserted}
use clearned_immutable.GappedArray.Removed.{remove_at-without}

abbrev bit : Bool → ℕ
bit b = if b then 1 else 0

pub count-set :
    (bitmap : List Bool) (i : ℕ) (old now : Bool)
    → get_elem? bitmap i ≡ some old
    → occupied_count (set bitmap i now) + bit old ≡ occupied_count bitmap + bit now
count-set [] i old now h = cc
count-set (b ∷ bs) zero true now h =
    let e : b ≡ true = cc in
    rw e (elim (Bool-cases now) [ inl t ↦ rw t (omega arith) | inr f ↦ rw f (omega arith) ])
count-set (b ∷ bs) zero false now h =
    let e : b ≡ false = cc in
    rw e (elim (Bool-cases now) [ inl t ↦ rw t (omega arith) | inr f ↦ rw f (omega arith) ])
count-set (b ∷ bs) (suc i) old now h =
    let rest = count-set bs i old now h in
    elim (Bool-cases b) [ inl t ↦ rw t (omega arith) | inr f ↦ rw f (omega arith) ]

module _ {ℓ} {V : Type ℓ} where
  -- The size is the number of occupied slots.
  abbrev pub IsCounted : GappedKvArray V → Type 0
  IsCounted a = a.size ≡ occupied_count a.bitmap

  -- In a well-formed array whose size is the number of its occupied slots, putting an entry at a
  -- slot of the array, and removing that of an occupied slot, keep the size that number.
  pub upsert_at-remove_at-IsCounted :
      {a : GappedKvArray V} (key : ℕ) (val : V) (i j : ℕ)
      → IsGapped a
      → IsCounted a
      → i < slot_count a
      → IsOccupied a j
      → Returns (upsert_at a key val i) IsCounted × Returns (remove_at a j) (λ (_, b). IsCounted b)
  upsert_at-remove_at-IsCounted {a} key val i j g counted lt occ =
      let (b, here) = get_elem?-lt a.bitmap i lt in
      let (k, v, e, removed) = remove_at-without g j occ in
      (
        (_, upsert_at-placed a key val i b (g.keys_length, g.vals_length) lt here, put b here),
        (_, removed, taken),
      )
    where
      put :
          (b : Bool)
          → get_elem? a.bitmap i ≡ some b
          → (if b then a.size else a.size + 1) ≡ occupied_count (set a.bitmap i true)
      put true here = omega (arith, count-set a.bitmap i true true here)
      put false here = omega (arith, count-set a.bitmap i false true here)

      taken : decrement a.size ≡ occupied_count (set a.bitmap j false)
      taken = ground (arith, count-set a.bitmap j true false occ)

module _ {ℓ} {V : Type ℓ} {a : GappedKvArray V} (g : IsGapped a) (key : ℕ) (val : V) where
  first_bit :
      (hole : ℕ)
      → 0 < hole
      → hole < slot_count a
      → IsOccupied a 0
      → get_elem? (copy_slice a.bitmap 0 hole 1) 0 ≡ some true
  first_bit hole pos lt occ =
      kept a.bitmap 0 hole 1 (omega arith) (omega arith) (omega arith) 0 (inl (omega arith)) ∙ occ

  -- An insertion of a key below all the others into a well-formed array whose slot 0 is occupied and
  -- which has a free slot stores the entry, and leaves the size as it was.
  pub upsert_with_hint-undercounts :
      (hint hole : ℕ)
      → ((j l : ℕ) → HasKey a j l → key < l)
      → IsOccupied a 0
      → IsFree a hole
      → hole < slot_count a
      → Returns
          (upsert_with_hint a key val hint)
          λ (r, b). (r ≡ success tt) × (b.size ≡ a.size) × Upserted a b key val
  unfolding upsert_with_hint
  upsert_with_hint-undercounts hint hole low occ free lt =
      from_floor (price_is_right-IsFloor g key (some hint))
    where
      first_free : (h : ℕ) → IsNext a.bitmap false 0 (some h) → h < slot_count a
      first_free h next = elim (order_cases hole h) [
        | inl before ↦ absurd (next.2 hole (omega arith) before free)
        | inr (inl gt) ↦ omega arith
        | inr (inr eq) ↦ omega arith
      ]

      behind : (h : ℕ) → IsFree a h → 0 < h
      behind zero free_first = let both = occ in absurd cc
      behind (suc h) free_h = omega arith

      from_next :
          (o : Option ℕ)
          → IsNext a.bitmap false 0 o
          → Returns
              (upsert_first a key val o)
              λ (r, b). (r ≡ success tt) × (b.size ≡ a.size) × Upserted a b key val
      from_next none next = absurd (next hole (omega arith) free)
      from_next (some h) next =
          let h_lt = first_free h next in
          let pos = behind h next.1 in
          let ((r, b), run, (fine, same, moved)) =
            upsert_first-Inserts a (g.keys_length, g.vals_length) key val h true h_lt (omega arith)
              (first_bit h pos h_lt occ) in
          (
            (r, b),
            run,
            (
              fine,
              same,
              from_left-Upserted g h moved (omega arith) next.1
                  (λ j l none_before k. absurd (omega arith)) (λ j l le k. low j l k),
            ),
          )

      from_floor :
          Returns (price_is_right a key (some hint)) (IsFloor a key)
          → Returns
              (upsert_with_hint a key val hint)
              λ (r, b). (r ≡ success tt) × (b.size ≡ a.size) × Upserted a b key val
      from_floor (none, run, floor) =
          rw (upsert_with_hint, run) (from_next _ (next_ix_helper-IsNext a false 0))
      from_floor (some i, run, (k, here, fits, beyond)) = absurd (omega (arith, low i k here))
