-- ===== src/LearnedSegment/Whole.antt =====
-- An instance of the arithmetic that utils/learned_segment uses: whole numbers in place of those of f64,
-- rounded down, without the negative ones.
use clearned_immutable.Prelude.{
  ℕ, ◌+◌, ◌*◌, ◌/◌, ◌^◌, ◌≤◌, ◌≡◌, ◌⊎◌, inl, inr, lt_or_le, refl, min, max, Bool, true, false,
  arith, ltb, leb, if◌then◌else◌,
}
use native.Mathlib.Nat.{mul-le-mul_right}
use clearned_immutable.LearnedSegment.{ℤ, pos, negsuc, FloatApi}

abbrev pub whole_part : ℤ → ℕ
whole_part (pos n) = n
whole_part (negsuc n) = 0

abbrev pub at_least : ℕ → ℕ → Bool
at_least x y = leb y x

pub at_least_of_le : (x y : ℕ) → y ≤ x → at_least x y ≡ true
at_least_of_le x y le = ground arith

pub le_of_at_least : (x y : ℕ) → at_least x y ≡ true → y ≤ x
le_of_at_least x y h = ground arith

pub middle :
    (x y : ℕ)
    → at_least x y ≡ true
    → (at_least x ((x + y) / 2) ≡ true) × (at_least ((x + y) / 2) y ≡ true)
middle x y h =
    let le = le_of_at_least x y h in
    (at_least_of_le x _ (omega arith), at_least_of_le _ y (omega arith))

pub other_way : (x y : ℕ) → at_least x y ≡ false → at_least y x ≡ true
other_way x y h = ground arith

pub min_either : (x y : ℕ) → (min x y ≡ x) ⊎ (min x y ≡ y)
min_either x y = elim (lt_or_le x y) [ inl lt ↦ inl (omega arith) | inr le ↦ inr (omega arith) ]

pub max_either : (x y : ℕ) → (max x y ≡ x) ⊎ (max x y ≡ y)
max_either x y = elim (lt_or_le x y) [ inl lt ↦ inr (omega arith) | inr le ↦ inl (omega arith) ]

abbrev pub whole : FloatApi
whole = record {
  F = ℕ;
  of_int = whole_part;
  of_key = λ x. x;
  add = λ x y. x + y;
  mul = λ x y. x * y;
  div = λ x y. x / y;
  ge = at_least;
  min_of = min;
  max_of = max;
  max_value = 2 ^ 64;
  min_value = 0;
  index = λ x. x;
  is_dense = λ size len. if ltb 0 len then leb (len * 4) (size * 5) else false;
  doubled = λ n. n * 2;
  is_nan = λ x. false;
  index_mul_mono = λ x y slope le. mul-le-mul_right slope le;
  div_number = λ y x ne. refl;
  middle_between =
      λ y y' x x' small small' ne ne' h. middle (whole_part y / x) (whole_part y' / x') h;
  ge_total = λ x y number number' h. other_way x y h;
  min_one = min_either;
  max_one = max_either;
  ge_refl = λ x number. at_least_of_le x x (omega arith);
  ge_trans = λ x y z h h'.
      let first = le_of_at_least x y h in
      let second = le_of_at_least y z h' in at_least_of_le x z (omega arith);
  min_below = λ x y h h'.
      (refl, at_least_of_le x (min x y) (omega arith), at_least_of_le y (min x y) (omega arith));
  max_above = λ x y h h'.
      (refl, at_least_of_le (max x y) x (omega arith), at_least_of_le (max x y) y (omega arith));
}
