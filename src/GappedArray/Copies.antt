-- ===== src/GappedArray/Copies.antt =====
-- The shifts of utils/gapped_array/src/lib.rs, slot by slot: where each slot is copied from.
use clearned_immutable.Prelude.{
  ℕ, zero, suc, ◌+◌, ◌-◌, ◌≤◌, ◌<◌, ◌≡◌, ◌≢◌, ◌⊎◌, inl, inr, ◌∙◌, ap, refl, true, Bool, some, List,
  [], ◌∷◌, ◌++◌, arith, length, get_elem?, set, take, drop, length-append, length-take, length-drop,
  ltb, ok, if◌then◌else◌,
}
use clearned_immutable.SortedArray.{at, write}
use clearned_immutable.GappedArray.{GappedKvArray, slot_count}
use clearned_immutable.GappedArray.Writes.{copy_slice, upsert_at}
use clearned_immutable.GappedArray.Slots.{HasEntry}

module _ {ℓ} {A : Type ℓ} where
  append_lt : (xs ys : List A) (j : ℕ) → j < length xs → get_elem? (xs ++ ys) j ≡ get_elem? xs j
  append_lt [] ys j h = absurd (omega arith)
  append_lt (x ∷ xs) ys zero h = refl
  append_lt (x ∷ xs) ys (suc j) h = append_lt xs ys j (omega arith)

  append_ge :
      (xs ys : List A) (n j : ℕ)
      → length xs ≡ n
      → n ≤ j
      → get_elem? (xs ++ ys) j ≡ get_elem? ys (j - n)
  append_ge [] ys n j e h = ap (get_elem? ys) (omega arith)
  append_ge (x ∷ xs) ys zero j e h = absurd (omega arith)
  append_ge (x ∷ xs) ys (suc n) zero e h = absurd (omega arith)
  append_ge (x ∷ xs) ys (suc n) (suc j) e h =
      append_ge xs ys n j (omega arith) (omega arith) ∙ ap (get_elem? ys) (omega arith)

  take_lt : (n : ℕ) (xs : List A) (j : ℕ) → j < n → get_elem? (take n xs) j ≡ get_elem? xs j
  take_lt zero xs j h = absurd (omega arith)
  take_lt (suc n) [] j h = refl
  take_lt (suc n) (x ∷ xs) zero h = refl
  take_lt (suc n) (x ∷ xs) (suc j) h = take_lt n xs j (omega arith)

  drop_at : (n : ℕ) (xs : List A) (j : ℕ) → get_elem? (drop n xs) j ≡ get_elem? xs (n + j)
  drop_at zero xs j = ap (get_elem? xs) (omega arith)
  drop_at (suc n) [] j = refl
  drop_at (suc n) (x ∷ xs) j =
      let sum : suc (n + j) ≡ suc n + j = omega arith in
      drop_at n xs j ∙ ap (get_elem? (x ∷ xs)) sum

  module _ (xs : List A) (start stop dest : ℕ) (ordered : start ≤ stop) (inside : stop ≤ length xs)
      (room : dest + (stop - start) ≤ length xs) where
    abbrev front : List A
    front = take dest xs

    abbrev middle : List A
    middle = take (stop - start) (drop start xs)

    abbrev back : List A
    back = drop (dest + (stop - start)) xs

    length-front : length front ≡ dest
    length-front = omega (arith, length-take dest xs)

    length-middle : length middle ≡ stop - start
    length-middle = omega (arith, length-take (stop - start) (drop start xs), length-drop start xs)

    pub length-copy_slice : length (copy_slice xs start stop dest) ≡ length xs
    unfolding copy_slice
    length-copy_slice =
        rw
          (
            copy_slice,
            length-append front (middle ++ back),
            length-append middle back,
            length-front,
            length-middle,
            length-drop (dest + (stop - start)) xs,
          )
          (omega arith)

    -- A slot of the destination comes from the source; the others stay.
    pub copied :
        (j : ℕ)
        → dest ≤ j
        → j < dest + (stop - start)
        → get_elem? (copy_slice xs start stop dest) j ≡ get_elem? xs (start + (j - dest))
    unfolding copy_slice
    copied j le lt =
        append_ge front (middle ++ back) dest j length-front le
        ∙ append_lt middle back (j - dest) (omega (arith, length-middle))
        ∙ take_lt (stop - start) (drop start xs) (j - dest) (omega arith)
        ∙ drop_at start xs (j - dest)

    pub kept :
        (j : ℕ)
        → (j < dest) ⊎ (dest + (stop - start) ≤ j)
        → get_elem? (copy_slice xs start stop dest) j ≡ get_elem? xs j
    unfolding copy_slice
    kept j (inl before) =
        append_lt front (middle ++ back) j (omega (arith, length-front)) ∙ take_lt dest xs j before
    kept j (inr behind) =
        let n = dest + (stop - start) in
        let sum : n + (j - n) ≡ j = omega arith in
        let rest : j - dest - (stop - start) ≡ j - n = omega arith in
        append_ge front (middle ++ back) dest j length-front (omega arith)
        ∙ append_ge middle back (stop - start) (j - dest) length-middle (omega arith)
        ∙ ap (get_elem? back) rest
        ∙ drop_at n xs (j - n)
        ∙ ap (get_elem? xs) sum

module _ {ℓ} {V : Type ℓ} where
  -- Every slot of `b` but `p` is the slot `src` of `a`, and the entry stands in `p`.
  pub record Moved (a b : GappedKvArray V) (p key : ℕ) (val : V) (src : ℕ → ℕ) : Type ℓ where
    pub slots : slot_count b ≡ slot_count a
    pub keys_length : length b.keys ≡ slot_count b
    pub vals_length : length b.vals ≡ slot_count b
    pub here : HasEntry b p key val
    pub bit : (j : ℕ) → j ≢ p → get_elem? b.bitmap j ≡ get_elem? a.bitmap (src j)
    pub key_of : (j : ℕ) → j ≢ p → get_elem? b.keys j ≡ get_elem? a.keys (src j)
    pub val_of : (j : ℕ) → j ≢ p → get_elem? b.vals j ≡ get_elem? a.vals (src j)

  -- The slots with the entry at `p`.
  abbrev pub placed : GappedKvArray V → ℕ → V → ℕ → ℕ → GappedKvArray V
  placed c key val p size = record {
    bitmap = set c.bitmap p true;
    keys = set c.keys p (some key);
    vals = set c.vals p (some val);
    size = size;
  }

  abbrev pub AreAligned : GappedKvArray V → Type 0
  AreAligned a = (length a.keys ≡ slot_count a) × (length a.vals ≡ slot_count a)

  pub upsert_at-placed :
      (c : GappedKvArray V) (key : ℕ) (val : V) (p : ℕ) (occupied : Bool)
      → AreAligned c
      → p < slot_count c
      → get_elem? c.bitmap p ≡ some occupied
      → upsert_at c key val p ≡ ok (placed c key val p (if occupied then c.size else c.size + 1))
  unfolding upsert_at write
  upsert_at-placed c key val p occupied (same_keys, same_vals) lt bit =
      let b : ltb p (length c.bitmap) ≡ true = ground arith in
      let k : ltb p (length c.keys) ≡ true = ground (arith, same_keys) in
      let v : ltb p (length c.vals) ≡ true = ground (arith, same_vals) in
      rw (upsert_at, at, bit, write, b, k, v)
