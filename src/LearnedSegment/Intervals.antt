-- ===== src/LearnedSegment/Intervals.antt =====
-- Intervals of slopes between points of utils/learned_segment/src/segmentation.rs.
use clearned_immutable.Prelude.{
  ℕ, suc, ◌+◌, ◌-◌, ◌<◌, ◌≡◌, ◌≢◌, refl, inl, inr, true, false, List, [], ◌∷◌, ◌++◌, arith, length,
}
use clearned_immutable.LearnedSegment.{
  ℤ, pos, negsuc, IsSmall, FloatApi, clamped, difference, saturating_sub, this_max, this_min,
  max_point, min_point,
}

clamped-IsSmall : (z : ℤ) → IsSmall (clamped z)
clamped-IsSmall (pos n) = omega arith
clamped-IsSmall (negsuc n) = omega arith

module _ (float : FloatApi) {V : Type 0} (epsilon first : ℕ) where
  -- Each slope from `low` to `high` leads from the first key to a rank of every entry that is within
  -- the bounds for its rank.
  abbrev pub IsWithin : float.F → float.F → ℕ → List (ℕ × V) → Type 0
  IsWithin high low rank [] = Unit
  IsWithin high low rank ((key, value) ∷ entries) =
      (float.ge (this_max float epsilon first key rank) high ≡ true)
      × (float.ge low (this_min float epsilon first key rank) ≡ true)
      × IsWithin high low (suc rank) entries

  pub narrower :
      (high low high' low' : float.F) (rank : ℕ) (entries : List (ℕ × V))
      → float.ge high high' ≡ true
      → float.ge low' low ≡ true
      → IsWithin high low rank entries
      → IsWithin high' low' rank entries
  narrower high low high' low' rank [] below above within = tt
  narrower high low high' low' rank ((key, value) ∷ entries) below above (hi, lo, within) = (
    float.ge_trans _ high _ hi below,
    float.ge_trans _ low _ above lo,
    narrower high low high' low' (suc rank) entries below above within,
  )

  pub IsWithin-append :
      (high low : float.F) (rank n : ℕ) (entries : List (ℕ × V)) (key : ℕ) (value : V)
      → n ≡ rank + length entries
      → IsWithin high low rank entries
      → float.ge (this_max float epsilon first key n) high ≡ true
      → float.ge low (this_min float epsilon first key n) ≡ true
      → IsWithin high low rank (entries ++ (key, value) ∷ [])
  IsWithin-append high low rank n [] key value is within hi lo =
      let here : n ≡ rank = omega arith in (rw here at hi, rw here at lo, tt)
  IsWithin-append high low rank n ((key', value') ∷ entries) key value is (h, l, within) hi lo =
      (h, l, IsWithin-append high low (suc rank) n entries key value (omega arith) within hi lo)

  -- A slope that fits the entries and one more fits both.
  pub IsWithin-last :
      (high low : float.F) (rank n : ℕ) (entries : List (ℕ × V)) (key : ℕ) (value : V)
      → n ≡ rank + length entries
      → IsWithin high low rank (entries ++ (key, value) ∷ [])
      → IsWithin high low rank entries
        × (float.ge (this_max float epsilon first key n) high ≡ true)
        × (float.ge low (this_min float epsilon first key n) ≡ true)
  IsWithin-last high low rank n [] key value is (hi, lo, _) =
      let here : n ≡ rank = omega arith in (tt, rw here hi, rw here lo)
  IsWithin-last high low rank n ((key', value') ∷ entries) key value is (h, l, within) =
      let (rest, hi, lo) =
        IsWithin-last high low (suc rank) n entries key value (omega arith) within in
      ((h, l, rest), hi, lo)

saturating_sub-IsSmall : (a b : ℤ) → IsSmall (saturating_sub a b)
saturating_sub-IsSmall (pos a) (pos b) = clamped-IsSmall (difference a b)
saturating_sub-IsSmall (pos a) (negsuc b) = clamped-IsSmall (pos (a + b + 1))
saturating_sub-IsSmall (negsuc a) (pos b) = clamped-IsSmall (negsuc (a + b))
saturating_sub-IsSmall (negsuc a) (negsuc b) = clamped-IsSmall (difference b a)

module _ (float : FloatApi) where
  -- The slope to a point that is right of the first one.
  abbrev pub IsSlope : float.F → Type 0
  IsSlope s =
      (y : ℤ) × (x : ℕ) × IsSmall y × (x ≢ 0) × (s ≡ float.div (float.of_int y) (float.of_key x))

  pub IsSlope-number : (s : float.F) → IsSlope s → float.is_nan s ≡ false
  IsSlope-number s (y, x, small, ne, same) = rw same (float.div_number y x ne)

  pub middle_fits :
      (high low : float.F)
      → IsSlope high
      → IsSlope low
      → float.ge low high ≡ false
      → let slope = float.div (float.add high low) (float.of_int (pos 2)) in
        (float.ge high slope ≡ true) × (float.ge slope low ≡ true)
  middle_fits high low h l apart =
      let over : float.ge high low ≡ true =
        float.ge_total low high (IsSlope-number low l) (IsSlope-number high h) apart in
      let (y, x, small, ne, same) = h in
      let (y', x', small', ne', same') = l in
      rw (same, same')
        (float.middle_between y y' x x' small small' ne ne' (rw (same, same') at over))

  pub one_of_max :
      (x y s : float.F)
      → float.ge x s ≡ true
      → float.ge y s ≡ true
      → float.ge (float.min_of x y) s ≡ true
  one_of_max x y s hx hy = elim (float.min_one x y) [
    | inl same ↦ rw same hx
    | inr same ↦ rw same hy
  ]

  pub one_of_min :
      (x y s : float.F)
      → float.ge s x ≡ true
      → float.ge s y ≡ true
      → float.ge s (float.max_of x y) ≡ true
  one_of_min x y s hx hy = elim (float.max_one x y) [
    | inl same ↦ rw same hx
    | inr same ↦ rw same hy
  ]

  pub min_of-IsSlope : (x y : float.F) → IsSlope x → IsSlope y → IsSlope (float.min_of x y)
  min_of-IsSlope x y hx hy = elim (float.min_one x y) [
    | inl same ↦ rw same hx
    | inr same ↦ rw same hy
  ]

  pub max_of-IsSlope : (x y : float.F) → IsSlope x → IsSlope y → IsSlope (float.max_of x y)
  max_of-IsSlope x y hx hy = elim (float.max_one x y) [
    | inl same ↦ rw same hx
    | inr same ↦ rw same hy
  ]

module _ (float : FloatApi) (epsilon first key rank : ℕ) (lt : first < key) where
  pub max-IsSlope : IsSlope float (this_max float epsilon first key rank)
  max-IsSlope = (
    _,
    key - first,
    saturating_sub-IsSmall (max_point float epsilon key rank).y (pos 0),
    (λ e. omega arith),
    refl,
  )

  pub min-IsSlope : IsSlope float (this_min float epsilon first key rank)
  min-IsSlope = (
    _,
    key - first,
    saturating_sub-IsSmall (min_point float epsilon key rank).y (pos 0),
    (λ e. omega arith),
    refl,
  )
