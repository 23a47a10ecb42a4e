-- ===== src/GappedArray/Upsert.antt =====
-- The insertions of utils/gapped_array/src/lib.rs as updates of the map from keys to values.
use clearned_immutable.Prelude.{
  List, ℕ, ◌+◌, ◌-◌, ◌≤◌, ◌<◌, ◌≡◌, ◌≢◌, ◌↔◌, ◌⊎◌, inl, inr, ◌∙◌, refl, sym, true, false, Bool,
  some, arith, get_elem?, order_cases, lt_or_le,
}
use clearned_immutable.GappedArray.{GappedKvArray, slot_count}
use clearned_immutable.GappedArray.Slots.{IsOccupied, HasKey, HasEntry, IsGapped, Stores}
use clearned_immutable.GappedArray.Floor.{HasKey-unique}
use clearned_immutable.GappedArray.Copies.{Moved}
use clearned_immutable.GappedArray.Shifts.{from_left, from_right}

module _ {ℓ} {V : Type ℓ} where
  -- `b` is well formed, as long as `a`, and maps `key` to `val` and the other keys as `a` does.
  pub record Upserted (a b : GappedKvArray V) (key : ℕ) (val : V) : Type ℓ where
    pub gapped : IsGapped b
    pub slots : slot_count b ≡ slot_count a
    pub stores :
        (k : ℕ) (v : V) → Stores b k v ↔ (((k ≡ key) × (v ≡ val)) ⊎ ((k ≢ key) × Stores a k v))

  -- Every slot is taken.
  abbrev pub IsFullOf : GappedKvArray V → Type 0
  IsFullOf a = (i : ℕ) → i < slot_count a → IsOccupied a i

  abbrev pub IsFree : GappedKvArray V → ℕ → Type 0
  IsFree a i = get_elem? a.bitmap i ≡ some false

module _ {ℓ} {V : Type ℓ} {a b : GappedKvArray V} {p key : ℕ} {val : V} {src : ℕ → ℕ}
    (g : IsGapped a) (m : Moved a b p key val src)
    (mono : (i j : ℕ) → i < j → i ≢ p → j ≢ p → src i < src j)
    (onto : (i k : ℕ) → HasKey a i k → k ≢ key → (j : ℕ) × (j ≢ p) × (src j ≡ i))
    (below : (j k : ℕ) → j < p → HasKey a (src j) k → k < key)
    (above : (j k : ℕ) → p < j → HasKey a (src j) k → key < k) where
  came_from : (j k : ℕ) → j ≢ p → HasKey b j k → HasKey a (src j) k
  came_from j k ne h = (sym (m.bit j ne) ∙ h.0, sym (m.key_of j ne) ∙ h.1)

  at_p : (k : ℕ) → HasKey b p k → k ≡ key
  at_p k h = HasKey-unique b p k key h m.here.0

  ascending : {i j k l : ℕ} → i < j → HasKey b i k → HasKey b j l → k < l
  ascending {i} {j} {k} {l} lt h h' = elim (order_cases i p) [
    | inr (inr eq) ↦
        let same = at_p k (rw eq at h) in
        omega (arith, same, above j l (omega arith) (came_from j l (λ e. omega arith) h'))
    | inr (inl gt) ↦
        g.ascending (mono i j lt (λ e. omega arith) (λ e. omega arith))
          (came_from i k (λ e. omega arith) h) (came_from j l (λ e. omega arith) h')
    | inl before ↦
        let low = came_from i k (λ e. omega arith) h in
        elim (order_cases j p) [
          | inr (inr eq) ↦
              let same = at_p l (rw eq at h') in omega (arith, same, below i k before low)
          | inl lt' ↦
              g.ascending (mono i j lt (λ e. omega arith) (λ e. omega arith)) low
                (came_from j l (λ e. omega arith) h')
          | inr (inl gt) ↦
              omega
                (arith, below i k before low, above j l gt (came_from j l (λ e. omega arith) h'))
        ]
  ]

  filled : (i : ℕ) → IsOccupied b i → (k : ℕ) × (v : V) × HasEntry b i k v
  filled i occ = elim (order_cases i p) [
    | inr (inr eq) ↦ rw eq (key, val, m.here)
    | inl lt ↦ other i (λ e. omega arith) occ
    | inr (inl gt) ↦ other i (λ e. omega arith) occ
  ]
    where
      other : (i : ℕ) → i ≢ p → IsOccupied b i → (k : ℕ) × (v : V) × HasEntry b i k v
      other i ne occ =
          let (k, v, (h, e)) = g.filled (src i) (sym (m.bit i ne) ∙ occ) in
          (k, v, ((occ, m.key_of i ne ∙ h.1), m.val_of i ne ∙ e))

  stored : (k : ℕ) (v : V) → Stores b k v → ((k ≡ key) × (v ≡ val)) ⊎ ((k ≢ key) × Stores a k v)
  stored k v (i, (h, e)) = elim (order_cases i p) [
    | inr (inr eq) ↦
        let value : some (some v) ≡ some (some val) = sym (rw eq at e) ∙ m.here.1 in
        inl (at_p k (rw eq at h), cc)
    | inl lt ↦
        let from = came_from i k (λ e. omega arith) h in
        inr (
          (λ same. omega (arith, below i k lt from)),
          (src i, (from, sym (m.val_of i (λ e. omega arith)) ∙ e)),
        )
    | inr (inl gt) ↦
        let from = came_from i k (λ e. omega arith) h in
        inr (
          (λ same. omega (arith, above i k gt from)),
          (src i, (from, sym (m.val_of i (λ e. omega arith)) ∙ e)),
        )
  ]

  kept_in : (k : ℕ) (v : V) → ((k ≡ key) × (v ≡ val)) ⊎ ((k ≢ key) × Stores a k v) → Stores b k v
  kept_in k v (inl (same_key, same_val)) = rw (same_key, same_val) (p, m.here)
  kept_in k v (inr (ne, (i, (h, e)))) =
      let (j, apart, from) = onto i k h ne in
      (
        j,
        (
          (m.bit j apart ∙ rw from h.0, m.key_of j apart ∙ rw from h.1),
          m.val_of j apart ∙ rw from e,
        ),
      )

  pub Moved-Upserted : Upserted a b key val
  Moved-Upserted = record {
    gapped = record {
      keys_length = m.keys_length;
      vals_length = m.vals_length;
      filled = filled;
      ascending = ascending;
    };
    slots = m.slots;
    stores = λ k v. (stored k v, kept_in k v);
  }

not_free :
    (bitmap : List Bool) (hole i : ℕ)
    → get_elem? bitmap i ≡ some true
    → get_elem? bitmap hole ≡ some false
    → i ≢ hole
not_free bitmap hole i occ free e = let occ' = rw e at occ in cc

module _ {ℓ} {V : Type ℓ} {a b : GappedKvArray V} {p key : ℕ} {val : V} (g : IsGapped a) where
  -- A shift to the right out of the slots from `p` on, which hold the greater keys.
  pub from_left-Upserted :
      (hole : ℕ)
      → Moved a b p key val (from_left p hole)
      → p ≤ hole
      → IsFree a hole
      → ((j l : ℕ) → j < p → HasKey a j l → l < key)
      → ((j l : ℕ) → p ≤ j → HasKey a j l → key < l)
      → Upserted a b key val
  from_left-Upserted hole m le free lower upper =
      Moved-Upserted g m (λ i j lt ne ne'. ground arith)
        (λ i k h other. elim (lt_or_le i p) [
          | inl before ↦ (i, (λ e. omega arith), ground arith)
          | inr behind ↦ elim (lt_or_le hole i) [
            | inl past ↦ (i, (λ e. omega arith), ground arith)
            | inr inside ↦
                let short : i < hole = omega (arith, not_free a.bitmap hole i h.0 free) in
                (i + 1, (λ e. omega arith), ground arith)
          ]
        ])
        (λ j k lt h. lower (from_left p hole j) k (ground arith) h)
        (λ j k gt h. upper (from_left p hole j) k (ground arith) h)

  -- A shift to the left out of the slots up to `p`, which hold the lesser keys.
  pub from_right-Upserted :
      (hole : ℕ)
      → Moved a b p key val (from_right p hole)
      → hole < p
      → IsFree a hole
      → ((j l : ℕ) → j ≤ p → HasKey a j l → l < key)
      → ((j l : ℕ) → p < j → HasKey a j l → key < l)
      → Upserted a b key val
  from_right-Upserted hole m lt free lower upper =
      Moved-Upserted g m (λ i j lt' ne ne'. ground arith)
        (λ i k h other. elim (lt_or_le p i) [
          | inl past ↦ (i, (λ e. omega arith), ground arith)
          | inr inside ↦ elim (lt_or_le i hole) [
            | inl before ↦ (i, (λ e. omega arith), ground arith)
            | inr behind ↦
                let long : hole < i = omega (arith, not_free a.bitmap hole i h.0 free) in
                (i - 1, (λ e. omega arith), ground arith)
          ]
        ])
        (λ j k before h. lower (from_right p hole j) k (ground arith) h)
        (λ j k gt h. upper (from_right p hole j) k (ground arith) h)

  -- The entry is put at a free slot, or replaces that of its key.
  pub in_place-Upserted :
      Moved a b p key val (λ j. j)
      → ((k : ℕ) → HasKey a p k → k ≡ key)
      → ((j l : ℕ) → j < p → HasKey a j l → l < key)
      → ((j l : ℕ) → p < j → HasKey a j l → key < l)
      → Upserted a b key val
  in_place-Upserted m replaced lower upper =
      Moved-Upserted g m (λ i j lt ne ne'. lt)
        (λ i k h other. (i, (λ e. other (replaced k (rw e at h))), refl)) lower upper

module _ {ℓ} {V : Type ℓ} {a b : GappedKvArray V} {key : ℕ} {value : V}
    (u : Upserted a b key value) where
  -- A key of `b` is the new one, or one of `a`.
  pub key_from : (j l : ℕ) → HasKey b j l → (l ≡ key) ⊎ ((i : ℕ) × HasKey a i l)
  key_from j l h =
      let (k, v, e) = u.gapped.filled j h.0 in
      let same : l ≡ k = HasKey-unique b j l k h e.0 in
      elim ((u.stores k v).0 (j, e)) [
        | inl (is_key, _) ↦ inl (same ∙ is_key)
        | inr (_, (i, e')) ↦ inr (i, rw same e'.0)
      ]
