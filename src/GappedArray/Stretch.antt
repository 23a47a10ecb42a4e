-- ===== src/GappedArray/Stretch.antt =====
-- The entries of a stretch of slots of the array of utils/gapped_array/src/lib.rs, in order.
use clearned_immutable.Prelude.{
  ℕ, zero, suc, ◌+◌, ◌-◌, ◌≤◌, ◌<◌, ◌≡◌, ◌≢◌, ◌∙◌, refl, sym, ap, Bool, true, false, Option, none,
  some, List, [], ◌∷◌, ◌++◌, append_assoc, append-nil, arith, get_elem?, get_elem?-set_ne,
}
use clearned_immutable.GappedArray.{GappedKvArray, slot_count}
use clearned_immutable.GappedArray.Slots.{IsOccupied, HasEntry, IsGapped}
use clearned_immutable.GappedArray.Removed.{without, emptied}

module _ {ℓ} {V : Type ℓ} where
  abbrev pub with_value : ℕ → Option (Option V) → List (ℕ × V)
  with_value key none = []
  with_value key (some none) = []
  with_value key (some (some val)) = (key, val) ∷ []

  abbrev pub with_key : Option (Option ℕ) → Option (Option V) → List (ℕ × V)
  with_key none val = []
  with_key (some none) val = []
  with_key (some (some key)) val = with_value key val

  abbrev pub if_occupied : Option Bool → Option (Option ℕ) → Option (Option V) → List (ℕ × V)
  if_occupied none key val = []
  if_occupied (some false) key val = []
  if_occupied (some true) key val = with_key key val

  -- The entry of a slot, if it is occupied.
  abbrev pub slot_entry : GappedKvArray V → ℕ → List (ℕ × V)
  slot_entry a i = if_occupied (get_elem? a.bitmap i) (get_elem? a.keys i) (get_elem? a.vals i)

  -- The entries of `n` slots from `i` on.
  abbrev pub stretch : GappedKvArray V → ℕ → ℕ → List (ℕ × V)
  stretch a i zero = []
  stretch a i (suc n) = slot_entry a i ++ stretch a (i + 1) n

  -- The entries of the slots from `i` to before `j`.
  abbrev pub between : GappedKvArray V → ℕ → ℕ → List (ℕ × V)
  between a i j = stretch a i (j - i)

  -- All the entries.
  abbrev pub contents : GappedKvArray V → List (ℕ × V)
  contents a = between a 0 (slot_count a)

  stretch-append :
      (a : GappedKvArray V) (i m n : ℕ) → stretch a i (m + n) ≡ stretch a i m ++ stretch a (i + m) n
  stretch-append a i zero n =
      let e : i + 0 ≡ i = omega arith in let e' : 0 + n ≡ n = omega arith in rw (e, e') refl
  stretch-append a i (suc m) n =
      let e : suc m + n ≡ suc (m + n) = omega arith in
      let e' : i + suc m ≡ i + 1 + m = omega arith in
      rw (e, e', stretch-append a (i + 1) m n)
        (sym (append_assoc (slot_entry a i) (stretch a (i + 1) m) (stretch a (i + 1 + m) n)))

  pub between_split :
      (a : GappedKvArray V) (i m j : ℕ)
      → i ≤ m
      → m ≤ j
      → between a i j ≡ between a i m ++ between a m j
  between_split a i m j le le' =
      let e : j - i ≡ (m - i) + (j - m) = omega arith in
      let e' : i + (m - i) ≡ m = omega arith in
      ap (stretch a i) e
      ∙ stretch-append a i (m - i) (j - m)
      ∙ ap (λ s. between a i m ++ stretch a s (j - m)) e'

  pub slot_full :
      (a : GappedKvArray V) (i k : ℕ) (v : V) → HasEntry a i k v → slot_entry a i ≡ (k, v) ∷ []
  slot_full a i k v ((occ, key), val) = rw (occ, key, val) refl

  pub slot_free : (a : GappedKvArray V) (i : ℕ) → ¬ IsOccupied a i → slot_entry a i ≡ []
  slot_free a i free = by_bit (get_elem? a.bitmap i) refl
    where
      by_bit :
          (b : Option Bool)
          → get_elem? a.bitmap i ≡ b
          → if_occupied b (get_elem? a.keys i) (get_elem? a.vals i) ≡ []
      by_bit none e = refl
      by_bit (some false) e = refl
      by_bit (some true) e = absurd (free e)

  pub one_slot_between : (a : GappedKvArray V) (i : ℕ) → between a i (i + 1) ≡ slot_entry a i
  one_slot_between a i =
      let e : i + 1 - i ≡ suc 0 = omega arith in ap (stretch a i) e ∙ append-nil (slot_entry a i)

  pub stretch_free :
      (a : GappedKvArray V) (i n : ℕ)
      → ((s : ℕ) → i ≤ s → s < i + n → slot_entry a s ≡ [])
      → stretch a i n ≡ []
  stretch_free a i zero free = refl
  stretch_free a i (suc n) free =
      rw (free i (omega arith) (omega arith))
        (stretch_free a (i + 1) n (λ s le lt. free s (omega arith) (omega arith)))

  pub between_free :
      (a : GappedKvArray V) (i j : ℕ)
      → ((s : ℕ) → i ≤ s → s < j → slot_entry a s ≡ [])
      → between a i j ≡ []
  between_free a i j free = stretch_free a i (j - i) (λ s le lt. free s le (omega arith))

  stretch_same :
      (a b : GappedKvArray V) (i n : ℕ)
      → ((s : ℕ) → i ≤ s → s < i + n → slot_entry b s ≡ slot_entry a s)
      → stretch b i n ≡ stretch a i n
  stretch_same a b i zero same = refl
  stretch_same a b i (suc n) same =
      rw
        (
          same i (omega arith) (omega arith),
          stretch_same a b (i + 1) n (λ s le lt. same s (omega arith) (omega arith)),
        )
        refl

  pub between_same :
      (a b : GappedKvArray V) (i j : ℕ)
      → ((s : ℕ) → i ≤ s → s < j → slot_entry b s ≡ slot_entry a s)
      → between b i j ≡ between a i j
  between_same a b i j same = stretch_same a b i (j - i) (λ s le lt. same s le (omega arith))

  pub without_apart :
      (a : GappedKvArray V) (i s : ℕ) → i ≢ s → slot_entry (without a i) s ≡ slot_entry a s
  without_apart a i s ne =
      rw
        (
          get_elem?-set_ne a.bitmap false ne,
          get_elem?-set_ne a.keys none ne,
          get_elem?-set_ne a.vals none ne,
        )
        refl

  pub without_here :
      (a : GappedKvArray V) (i : ℕ) → IsGapped a → IsOccupied a i → slot_entry (without a i) i ≡ []
  without_here a i g occ = slot_free (without a i) i (λ h. let free = emptied g i occ in cc)
