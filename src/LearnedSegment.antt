-- ===== src/LearnedSegment.antt =====
-- utils/learned_segment/src (point.rs, model.rs and segmentation.rs): linear models of the ranks of keys,
-- and the division of a sequence into segments with a model each. Keys are unsigned integers, `epsilon`
-- is the constant `EPSILON`, and the arithmetic of f64 is the parameter `float`. The debug assertions are
-- left out.
pub mod Ascending
pub mod Segments
pub mod Intervals
pub mod Slopes
pub mod Whole
mod Tests
use clearned_immutable.Prelude.{
  ℕ, zero, suc, ◌+◌, ◌-◌, ◌*◌, ◌%◌, ◌^◌, ◌≤◌, ◌<◌, ◌≡◌, ◌⊎◌, ◌≢◌, min, Bool, true, false, Option,
  none, some, List, [], ◌∷◌, ◌++◌, ltb, leb, ◌==◌, if◌then◌else◌, Outcome, ok, fault, assertion,
  unwrapped_none, ◌>>=◌,
}

pub data ℤ : Type 0 where
  pos negsuc : ℕ → ℤ

-- The values of an i32.
abbrev pub IsSmall : ℤ → Type 0
IsSmall (pos n) = n < 2 ^ 31
IsSmall (negsuc n) = n < 2 ^ 31

-- The operations of f64 that the code uses, with what it relies on. `index x` is
-- `(x.floor() as i64).max(0) as usize`.
pub record FloatApi : Type 1 where
  pub F : Type 0
  pub of_int : ℤ → F
  pub of_key : ℕ → F
  pub add : F → F → F
  pub mul : F → F → F
  pub div : F → F → F
  pub ge : F → F → Bool
  pub min_of : F → F → F
  pub max_of : F → F → F
  pub max_value : F
  pub min_value : F
  pub index : F → ℕ
  -- `size as f32 / len as f32 >= 0.8`, and `(n as f32 * 2.0) as usize`
  pub is_dense : ℕ → ℕ → Bool
  pub doubled : ℕ → ℕ
  pub is_nan : F → Bool
  -- A negative product, and one that is not a number, have the index 0.
  pub index_mul_mono :
      (x y : ℕ) (slope : F) → x ≤ y → index (mul (of_key x) slope) ≤ index (mul (of_key y) slope)
  pub div_number : (y : ℤ) (x : ℕ) → x ≢ 0 → is_nan (div (of_int y) (of_key x)) ≡ false
  -- The middle of two slopes, whose sum does not overflow, is between them.
  pub middle_between :
      (y y' : ℤ) (x x' : ℕ)
      → IsSmall y
      → IsSmall y'
      → x ≢ 0
      → x' ≢ 0
      → ge (div (of_int y) (of_key x)) (div (of_int y') (of_key x')) ≡ true
      → (ge
            (div (of_int y) (of_key x))
            (div (add (div (of_int y) (of_key x)) (div (of_int y') (of_key x'))) (of_int (pos 2)))
          ≡ true)
        × (ge
              (div (add (div (of_int y) (of_key x)) (div (of_int y') (of_key x'))) (of_int (pos 2)))
              (div (of_int y') (of_key x'))
            ≡ true)
  pub ge_total : (x y : F) → is_nan x ≡ false → is_nan y ≡ false → ge x y ≡ false → ge y x ≡ true
  pub min_one : (x y : F) → (min_of x y ≡ x) ⊎ (min_of x y ≡ y)
  pub max_one : (x y : F) → (max_of x y ≡ x) ⊎ (max_of x y ≡ y)
  pub ge_refl : (x : F) → is_nan x ≡ false → ge x x ≡ true
  pub ge_trans : (x y z : F) → ge x y ≡ true → ge y z ≡ true → ge x z ≡ true
  pub min_below :
      (x y : F)
      → is_nan x ≡ false
      → is_nan y ≡ false
      → (is_nan (min_of x y) ≡ false) × (ge x (min_of x y) ≡ true) × (ge y (min_of x y) ≡ true)
  pub max_above :
      (x y : F)
      → is_nan x ≡ false
      → is_nan y ≡ false
      → (is_nan (max_of x y) ≡ false) × (ge (max_of x y) x ≡ true) × (ge (max_of x y) y ≡ true)

-- `as i32` of a usize
abbrev pub as_i32 : ℕ → ℤ
as_i32 n = let low = n % 2 ^ 32 in if ltb low (2 ^ 31) then pos low else negsuc (2 ^ 32 - 1 - low)

abbrev pub difference : ℕ → ℕ → ℤ
difference a b = if leb b a then pos (a - b) else negsuc (b - a - 1)

abbrev pub clamped : ℤ → ℤ
clamped (pos n) = pos (min n (2 ^ 31 - 1))
clamped (negsuc n) = negsuc (min n (2 ^ 31 - 1))

-- `saturating_sub` of i32
abbrev pub saturating_sub : ℤ → ℤ → ℤ
saturating_sub (pos a) (pos b) = clamped (difference a b)
saturating_sub (pos a) (negsuc b) = clamped (pos (a + b + 1))
saturating_sub (negsuc a) (pos b) = clamped (negsuc (a + b))
saturating_sub (negsuc a) (negsuc b) = clamped (difference b a)

-- `saturating_add` of usize
abbrev pub saturating_add : ℕ → ℕ → ℕ
saturating_add a b = min (a + b) (2 ^ 64 - 1)

pub record Point : Type 0 where
  pub x : ℕ
  pub y : ℤ

-- `Sub` of points
abbrev pub minus : Point → Point → Point
minus a b = record { x = a.x - b.x; y = saturating_sub a.y b.y }

module _ (float : FloatApi) where
  abbrev pub slope_of : Point → float.F
  slope_of p = float.div (float.of_int p.y) (float.of_key p.x)

  pub record LinearModel : Type 0 where
    pub key : ℕ
    pub slope : float.F
    pub size : ℕ

  -- `epsilon` on both sides of the predicted rank
  unfoldable pub approximate : ℕ → LinearModel → ℕ → ℕ × ℕ
  approximate epsilon model key =
      let run = float.of_key (key - model.key) in
      let position = float.index (float.mul run model.slope) in
      (position - epsilon, position + epsilon + 2)

  unfoldable pub hint : LinearModel → ℕ → ℕ
  hint model key = float.index (float.mul (float.of_key (key - model.key)) model.slope)

  -- `max_key` is `K::max_value()`
  unfoldable pub sentinel : ℕ → LinearModel
  sentinel max_key = record { key = max_key; slope = float.of_int (pos 0); size = 0 }

  unfoldable pub rescale : LinearModel → float.F → LinearModel
  rescale model c = record model { slope = float.mul model.slope c }

  pub record Segmentation (V : Type 0) : Type 0 where
    pub first_key : Option ℕ
    pub entries : List (ℕ × V)
    pub max_slope : float.F
    pub min_slope : float.F
    pub num_entries : ℕ

  abbrev pub new_segmentation : {V : Type 0} → Segmentation V
  new_segmentation = record {
    first_key = none;
    entries = [];
    max_slope = float.max_value;
    min_slope = float.min_value;
    num_entries = 0;
  }

-- `Result<(), (K, V)>` of `try_add_entry`
pub data Added (V : Type 0) : Type 0 where
  added : Added V
  refused : ℕ × V → Added V

module _ (float : FloatApi) (epsilon : ℕ) where
  -- The slopes of the lines from the first point to the worst cases for the entry of the rank
  -- `num_entries`.
  abbrev pub max_point : ℕ → ℕ → Point
  max_point key num_entries = record {
    x = key;
    y = as_i32 (saturating_add (saturating_add num_entries 1 - 1) epsilon);
  }

  abbrev pub min_point : ℕ → ℕ → Point
  min_point key num_entries = record {
    x = key;
    y = as_i32 (saturating_add (saturating_add num_entries 1) 1 - epsilon);
  }

  abbrev pub this_max : ℕ → ℕ → ℕ → float.F
  this_max first key num_entries =
      slope_of float (minus (max_point key num_entries) (record { x = first; y = pos 0 }))

  abbrev pub this_min : ℕ → ℕ → ℕ → float.F
  this_min first key num_entries =
      slope_of float (minus (min_point key num_entries) (record { x = first; y = pos 0 }))

module _ (float : FloatApi) {V : Type 0} (epsilon : ℕ) where
  abbrev pub extended :
      Segmentation float V → ℕ × V → float.F → float.F → Added V × Segmentation float V
  extended self entry max_slope min_slope = (
    added,
    record self {
      max_slope = max_slope;
      min_slope = min_slope;
      num_entries = self.num_entries + 1;
      entries = self.entries ++ entry ∷ [];
    },
  )

  -- The branch for a segment that is not empty, with the first key.
  abbrev pub add_behind : Segmentation float V → ℕ × V → ℕ → Added V × Segmentation float V
  add_behind self (key, value) first =
      let this_max' = this_max float epsilon first key self.num_entries in
      let this_min' = this_min float epsilon first key self.num_entries in
      let new_max_slope = float.min_of this_max' self.max_slope in
      let new_min_slope = float.max_of this_min' self.min_slope in
      if self.num_entries == 1
      then extended self (key, value) this_max' this_min'
      else if float.ge new_min_slope new_max_slope
      then (refused (key, value), self)
      else extended self (key, value) new_max_slope new_min_slope

  abbrev pub first_entry : Segmentation float V → ℕ × V → Segmentation float V
  first_entry self (key, value) = record self {
    first_key = some key;
    entries = (key, value) ∷ [];
    num_entries = 1;
  }

  unfoldable pub try_add_entry :
      Segmentation float V → ℕ × V → Outcome (Added V × Segmentation float V)
  try_add_entry self entry =
      if self.num_entries == 0 then ok (added, first_entry self entry) else elim self.first_key [
        | none ↦ fault unwrapped_none
        | some first ↦ ok (add_behind self entry first)
      ]

  -- A segment of one entry may have any slope.
  abbrev pub chosen_slope : Segmentation float V → float.F
  chosen_slope self =
      if ltb 1 self.num_entries
      then float.div (float.add self.max_slope self.min_slope) (float.of_int (pos 2))
      else float.of_int (pos 1)

  unfoldable pub to_linear_model : Segmentation float V → Outcome (LinearModel float)
  to_linear_model self = elim self.first_key [
    | none ↦ fault assertion
    | some first ↦
        if ltb 0 self.num_entries
        then ok (record { key = first; slope = chosen_slope self; size = self.num_entries })
        else fault assertion
  ]

  abbrev pub is_empty_segment : Segmentation float V → Bool
  is_empty_segment self = self.num_entries == 0

  -- The model of a segment, with its entries, which are taken out.
  abbrev pub export : Segmentation float V → Outcome (LinearModel float × List (ℕ × V))
  export self = to_linear_model self >>= λ model. ok (model, self.entries)

  -- The loop over the data, and the last segment.
  unfoldable pub segments_from :
      Segmentation float V → List (ℕ × V) → Outcome (List (LinearModel float × List (ℕ × V)))
  segments_from cur_segment [] =
      if is_empty_segment cur_segment then ok [] else export cur_segment >>= λ last. ok (last ∷ [])
  segments_from cur_segment (entry ∷ data') = do
    (result, cur_segment') ← try_add_entry cur_segment entry
    elim result [
      | added ↦ segments_from cur_segment' data'
      | refused entry' ↦ do
        exported ← export cur_segment'
        (_, fresh) ← try_add_entry (new_segmentation float) entry'
        later ← segments_from fresh data'
        ok (exported ∷ later)
    ]

  unfoldable pub linear_simple_segmentation :
      List (ℕ × V) → Outcome (List (LinearModel float × List (ℕ × V)))
  linear_simple_segmentation entries = segments_from (new_segmentation float) entries
