-- ===== src/GappedArray/Trim.antt =====
-- `trim_window` of utils/gapped_array/src/lib.rs: what it leaves and what it returns.
use clearned_immutable.Prelude.{
  ℕ, ◌+◌, ◌-◌, ◌≤◌, ◌<◌, ◌≡◌, ◌≢◌, ◌∙◌, inl, inr, refl, sym, ap, subst, true, false, none, some,
  List, [], ◌∷◌, ◌++◌, append_assoc, max, min, arith, length, ltb, ◌==◌, if◌then◌else◌, order_cases,
  Bool-cases, ok, ◌>>=◌, Returns,
}
use clearned_immutable.GappedArray.{
  GappedKvArray, slot_count, next_occupied_ix, prev_occupied_ix, price_is_right,
}
use clearned_immutable.GappedArray.Writes.{Result, success, failure, absent_key}
use clearned_immutable.GappedArray.Removal.{trim_left, trim_at, trim_window}
use clearned_immutable.GappedArray.Slots.{HasKey, HasEntry, IsGapped, Stores, IsFloor}
use clearned_immutable.GappedArray.Scan.{next_ix_helper-IsNext, prev_ix_helper-IsPrev}
use clearned_immutable.GappedArray.Floor.{
  HasKey-unique, occupied_lt, read-key, price_is_right-IsFloor,
}
use clearned_immutable.GappedArray.Removed.{
  IsPart, IsPart-trans, whole, without, remove_at-without, without-IsPart,
}
use clearned_immutable.GappedArray.Stretch.{
  slot_entry, between, contents, between_split, between_free, between_same, one_slot_between,
  slot_full, without_apart, without_here,
}
use clearned_immutable.GappedArray.Window.{budget, values, IsTrimmedLeft, IsTrimmedRight}
use clearned_immutable.GappedArray.Loops.{
  last_of_prev, trim_left-IsTrimmedLeft, trim_right-IsTrimmedRight,
}

-- A key stands in one slot only.
one_slot {ℓ} :
    {V : Type ℓ} {a : GappedKvArray V}
    → IsGapped a
    → (i j k : ℕ) → HasKey a i k
    → HasKey a j k
    → i ≡ j
one_slot g i j k h h' = elim (order_cases i j) [
  | inl lt ↦ absurd (omega (arith, g.ascending lt h h'))
  | inr (inl gt) ↦ absurd (omega (arith, g.ascending gt h' h))
  | inr (inr eq) ↦ eq
]

module _ {ℓ} {V : Type ℓ} (window_radius : ℕ) where
  -- The entry with the key `needle` is taken out, with the entries next to it on each side, as many
  -- as the radius, or one for the radius 0, if there are so many; and the values are returned in
  -- order.
  abbrev pub IsWindow : GappedKvArray V → ℕ → List V → GappedKvArray V → Type ℓ
  IsWindow a needle vs b =
      (low : List (ℕ × V)) × (left : List (ℕ × V)) × (v : V) × (right : List (ℕ × V)) × (high : List
        (ℕ × V))
      × (contents a ≡ (low ++ left) ++ (needle, v) ∷ (right ++ high))
      × (contents b ≡ low ++ high)
      × (vs ≡ values left ++ v ∷ values right)
      × (length left ≡ min (max 1 window_radius) (length low + length left))
      × (length right ≡ min (max 1 window_radius) (length right + length high))

  -- The entries before a slot, in it, and behind it.
  contents_at :
      (a : GappedKvArray V) (i : ℕ)
      → i < slot_count a
      → contents a ≡ between a 0 i ++ (slot_entry a i ++ between a (i + 1) (slot_count a))
  contents_at a i lt =
      between_split a 0 i (slot_count a) (omega arith) (omega arith)
      ∙ ap (λ es. between a 0 i ++ es)
          (between_split a i (i + 1) (slot_count a) (omega arith) (omega arith)
            ∙ ap (λ es. es ++ between a (i + 1) (slot_count a)) (one_slot_between a i))

  to_left :
      (fuel : ℕ) (c : GappedKvArray V) (ix : ℕ) (v : V)
      → IsGapped c
      → ix < slot_count c
      → ix ≤ fuel
      → Returns
          (if ltb 0 ix
            then (prev_occupied_ix c (ix - 1) >>= λ kx.
                trim_left fuel c window_radius 0 kx (v ∷ []))
            else ok (v ∷ [], c))
          (IsTrimmedLeft c ix (budget window_radius 0) (v ∷ []))
  to_left fuel c ix v gc lt enough = elim (Bool-cases (ltb 0 ix)) [
    | inr first ↦
        let is : ix ≡ 0 = ground arith in
        let nothing : between c 0 ix ≡ [] =
          between_free c 0 ix (λ j le lt'. absurd (omega arith)) in
        (
          (v ∷ [], c),
          rw first,
          (whole c gc, [], [], nothing, nothing, refl, omega arith, λ j le. refl),
        )
    | inl inner ↦
        let pos : 0 < ix = ground arith in
        let (r, run, prev) = prev_ix_helper-IsPrev c true (ix - 1) (omega arith) in
        let (t, trim_run, post) =
          trim_left-IsTrimmedLeft window_radius fuel c 0 ix r (v ∷ []) gc
            (last_of_prev window_radius c ix pos r prev) enough in
        (t, rw (inner, run, trim_run), post)
  ]

  -- What the two loops leave, put together.
  window :
      (a c b : GappedKvArray V) (g : IsGapped a) (ix k : ℕ) (v : V) (ws vs : List V)
      → HasEntry a ix k v
      → IsTrimmedLeft (without a ix) ix (budget window_radius 0) (v ∷ []) (ws, c)
      → IsTrimmedRight c (ix + 1) (budget window_radius 0) ws (vs, b)
      → IsPart b a × (slot_entry b ix ≡ []) × IsWindow a k vs b
  window a c b g ix k v ws vs e (part, low, left, before, rest, out, size, same)
        (part', right, high, behind, rest', out', size', same') =
      let here = without-IsPart g ix e.0.0 in
      let inside = occupied_lt a ix e.0.0 in
      let of_c : slot_count c ≡ slot_count a = part.slots ∙ here.slots in
      let of_b : slot_count b ≡ slot_count a = part'.slots ∙ of_c in
      let apart : (j : ℕ) → ix ≢ j → slot_entry (without a ix) j ≡ slot_entry a j =
        without_apart a ix in
      let gone : slot_entry b ix ≡ [] =
        same' ix (omega arith) ∙ same ix (omega arith) ∙ without_here a ix g e.0.0 in
      let a_before : between a 0 ix ≡ low ++ left =
        sym (between_same a (without a ix) 0 ix (λ j le lt. apart j (λ is. omega arith)))
        ∙ before in
      let a_behind : between a (ix + 1) (slot_count a) ≡ right ++ high =
        sym (
          between_same a c (ix + 1) (slot_count a)
            (λ j le lt. same j (omega arith) ∙ apart j (λ is. omega arith)))
        ∙ subst (λ n. between c (ix + 1) n ≡ right ++ high) of_c behind in
      let b_before : between b 0 ix ≡ low =
        between_same c b 0 ix (λ j le lt. same' j (omega arith)) ∙ rest in
      let b_behind : between b (ix + 1) (slot_count b) ≡ high =
        subst (λ n. between b (ix + 1) n ≡ high) (sym part'.slots) rest' in
      (
        IsPart-trans part' (IsPart-trans part here),
        gone,
        (
          low,
          left,
          v,
          right,
          high,
          contents_at a ix inside ∙ rw (a_before, slot_full a ix k v e, a_behind) refl,
          contents_at b ix (omega (arith, of_b)) ∙ rw (b_before, gone, b_behind) refl,
          out' ∙ rw out (append_assoc (values left) (v ∷ []) (values right)),
          omega (arith, size),
          omega (arith, size'),
        ),
      )

  trim_at-IsWindow :
      (a : GappedKvArray V) (ix k : ℕ)
      → IsGapped a
      → HasKey a ix k
      → Returns
          (trim_at a window_radius ix)
          λ (vs, b). IsPart b a × (slot_entry b ix ≡ []) × IsWindow a k vs b
  unfolding trim_at
  trim_at-IsWindow a ix k g here =
      let (l, v, e, removed) = remove_at-without g ix here.0 in
      let same : l ≡ k = HasKey-unique a ix l k e.0 here in
      let part = without-IsPart g ix here.0 in
      let inside = occupied_lt a ix here.0 in
      let ((ws, c), left_run, left) =
        to_left (slot_count a) (without a ix) ix v part.gapped (omega (arith, part.slots))
          (omega arith) in
      let ((vs, b), right_run, right) =
        trim_right-IsTrimmedRight window_radius (slot_count a) c 0 (ix + 1)
          (next_occupied_ix c (ix + 1)) ws left.0.gapped (next_ix_helper-IsNext c true (ix + 1))
          (omega (arith, left.0.slots, part.slots)) in
      (
        (vs, b),
        rw (trim_at, removed) (rw (left_run, right_run)),
        window a c b g ix k v ws vs (rw same at e) left right,
      )

  -- The entry is gone, with those around it; or it was not there.
  abbrev pub IsTrimmed : GappedKvArray V → ℕ → Result (List V) × GappedKvArray V → Type ℓ
  IsTrimmed a needle (success vs, b) =
      IsPart b a × ((v : V) → ¬ Stores b needle v) × IsWindow a needle vs b
  IsTrimmed a needle (failure _, b) = (b ≡ a) × ((v : V) → ¬ Stores a needle v)

module _ {ℓ} {V : Type ℓ} {a : GappedKvArray V} (g : IsGapped a) (needle window_radius : ℕ) where
  absent :
      (r k : ℕ)
      → HasKey a r k
      → k ≤ needle
      → ((j l : ℕ) → r < j → HasKey a j l → needle < l)
      → (k == needle) ≡ false
      → (v : V) → ¬ Stores a needle v
  absent r k here fits beyond ne v (j, h) = elim (order_cases r j) [
    | inl after ↦ absurd (omega (arith, beyond j needle after h.0))
    | inr (inl before) ↦ absurd (ground (arith, g.ascending before h.0 here))
    | inr (inr eq) ↦ absurd (ground (arith, HasKey-unique a j k needle (rw eq at here) h.0))
  ]

  -- Trimming a well-formed array ends without a panic, whatever the hint. Either the key was stored:
  -- then its entry is taken out, and on each side the entries next to it, as many as the radius, or
  -- one for the radius 0, if there are so many; all other entries stay in their slots, the array is
  -- well formed, and the values taken out are returned in order. Or the key was not stored, and the
  -- array is as it was.
  pub trim_window-IsTrimmed :
      (hint : ℕ)
      → Returns (trim_window a needle window_radius hint) (IsTrimmed window_radius a needle)
  unfolding trim_window
  trim_window-IsTrimmed hint = from_floor (price_is_right-IsFloor g needle (some hint))
    where
      from_floor :
          Returns (price_is_right a needle (some hint)) (IsFloor a needle)
          → Returns (trim_window a needle window_radius hint) (IsTrimmed window_radius a needle)
      from_floor (none, run, floor) = (
        (failure absent_key, a),
        rw (trim_window, run),
        (refl, λ v (j, h). absurd (omega (arith, floor j needle h.0))),
      )
      from_floor (some r, run, (k, here, fits, beyond)) = elim (Bool-cases (k == needle)) [
        | inr other ↦ (
          (failure absent_key, a),
          rw (trim_window, run) (rw (read-key a r k here) (rw other)),
          (refl, absent r k here fits beyond other),
        )
        | inl found ↦
            let same : k ≡ needle = ground arith in
            let ((vs, b), trim_run, (part, gone, window')) =
              trim_at-IsWindow window_radius a r needle g (rw same at here) in
            (
              (success vs, b),
              rw (trim_window, run) (rw (read-key a r k here) (rw (found, trim_run))),
              (
                part,
                (λ v (j, h).
                    let at_r =
                      one_slot g j r needle (part.entries j needle v h).0 (rw same at here) in
                    let there = rw at_r at h in let full = slot_full b r needle v there in cc),
                window',
              ),
            )
      ]
