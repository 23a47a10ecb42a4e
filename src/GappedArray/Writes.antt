-- ===== src/GappedArray/Writes.antt =====
-- The insertions of utils/gapped_array/src/lib.rs.
use clearned_immutable.Prelude.{
  ℕ, ◌+◌, ◌-◌, Bool, true, false, ◌&&◌, Option, none, some, List, ◌++◌, length, take, drop, ltb,
  leb, ◌==◌, if◌then◌else◌, Outcome, ok, fault, out_of_bounds, ◌>>=◌,
}
use clearned_immutable.SortedArray.{at, read, write}
use clearned_immutable.GappedArray.{
  GappedKvArray, slot_count, next_free_ix, prev_free_ix, price_is_right,
}

-- The messages of the `Err` values, and `Result<T, String>`.
pub data Refusal : Type 0 where
  no_such_element full_beginning full_end full_middle full : Refusal
  absent_key scale_too_small not_reinserted : Refusal

pub data Result {ℓ} (T : Type ℓ) : Type ℓ where
  success : T → Result T
  failure : Refusal → Result T

abbrev pub abs_diff : ℕ → ℕ → ℕ
abs_diff a b = (a - b) + (b - a)

module _ {ℓ} {A : Type ℓ} where
  -- `copy_within(src, dest)` of a slice; the raw copies of the keys and the values have its effect.
  unfoldable pub copy_slice : List A → ℕ → ℕ → ℕ → List A
  copy_slice slots start stop dest =
      take dest slots
      ++ (take (stop - start) (drop start slots) ++ drop (dest + (stop - start)) slots)

-- What an insertion into `self` returns, and leaves in `self`.
abbrev pub Reply {ℓ} : Type ℓ → Type ℓ
Reply V = Outcome {ℓ} (Result {0} Unit × GappedKvArray {ℓ} V)

module _ {ℓ} {V : Type ℓ} where
  -- All three arrays are copied; a raw copy may start at a slot of the array only.
  unfoldable pub copy_within : GappedKvArray V → ℕ → ℕ → ℕ → Outcome (GappedKvArray V)
  unfolding copy_slice
  copy_within self start stop dest =
      if leb start stop
        && leb stop (slot_count self)
        && leb (dest + (stop - start)) (slot_count self)
        && ltb start (length self.keys)
        && ltb dest (length self.keys)
      then ok (record {
        bitmap = copy_slice self.bitmap start stop dest;
        keys = copy_slice self.keys start stop dest;
        vals = copy_slice self.vals start stop dest;
        size = self.size;
      })
      else fault out_of_bounds

  abbrev pub set_bit : GappedKvArray V → ℕ → Bool → Outcome (GappedKvArray V)
  set_bit self ix b = do bitmap ← write self.bitmap ix b; ok (record self { bitmap = bitmap })

  unfoldable pub upsert_at : GappedKvArray V → ℕ → V → ℕ → Outcome (GappedKvArray V)
  upsert_at self key val ix = do
    occupied ← at self.bitmap ix
    bitmap ← write self.bitmap ix true
    keys ← write self.keys ix (some key)
    vals ← write self.vals ix (some val)
    ok (record {
      bitmap = bitmap;
      keys = keys;
      vals = vals;
      size = if occupied then self.size else self.size + 1;
    })

  abbrev pub done : GappedKvArray V → Reply V
  done self = ok (success tt, self)

  -- Room is made at `ix` from the free slot `lix` on its left, and from `rix` on its right.
  abbrev pub shift_left : GappedKvArray V → ℕ → V → ℕ → ℕ → ℕ → Reply V
  shift_left self key val lix stop ix = do
    moved ← copy_within self (lix + 1) stop lix
    cleared ← set_bit moved ix false
    self' ← upsert_at cleared key val ix
    done self'

  abbrev pub shift_right : GappedKvArray V → ℕ → V → ℕ → ℕ → Reply V
  shift_right self key val rix ix = do
    moved ← copy_within self ix rix (ix + 1)
    cleared ← set_bit moved ix false
    self' ← upsert_at cleared key val ix
    done self'

  -- The match on the nearest free slots around `ix`.
  unfoldable pub upsert_shifting : GappedKvArray V → ℕ → V → ℕ → Option ℕ → Option ℕ → Reply V
  upsert_shifting self key val ix (some lix) (some rix) =
      if ltb (abs_diff lix ix) (abs_diff rix ix)
      then shift_left self key val lix (ix + 1) (ix - 1)
      else shift_right self key val rix ix
  upsert_shifting self key val ix (some lix) none = shift_left self key val lix (ix + 1) (ix - 1)
  upsert_shifting self key val ix none (some rix) = shift_right self key val rix ix
  upsert_shifting self key val ix none none = ok (failure full_middle, self)

  -- The key is less than all the others; the bit of slot 0 is not cleared.
  unfoldable pub upsert_first : GappedKvArray V → ℕ → V → Option ℕ → Reply V
  upsert_first self key val none = ok (failure full_beginning, self)
  upsert_first self key val (some closest_ix) = do
    moved ← copy_within self 0 closest_ix 1
    self' ← upsert_at moved key val 0
    done self'

  unfoldable pub upsert_last : GappedKvArray V → ℕ → V → Option ℕ → Reply V
  upsert_last self key val none = ok (failure full_end, self)
  upsert_last self key val (some closest_ix) =
      shift_left self key val closest_ix (slot_count self) (slot_count self - 1)

  -- The slot `ix` comes after the entries with lesser keys.
  unfoldable pub upsert_middle : GappedKvArray V → ℕ → V → ℕ → Reply V
  upsert_middle self key val ix =
      let easy_win = upsert_at self key val ix >>= done in
      let shifted = prev_free_ix self (ix - 1) >>= λ shift_left_ix.
      upsert_shifting self key val ix shift_left_ix (next_free_ix self (ix + 1)) in
      at self.bitmap ix >>= λ occupied. if occupied then shifted else easy_win

  unfoldable pub upsert_behind : GappedKvArray V → ℕ → V → ℕ → Reply V
  upsert_behind self key val ix =
      let update = upsert_at self key val ix >>= done in
      let at_end = prev_free_ix self (slot_count self - 1) >>= upsert_last self key val in
      let middle = upsert_middle self key val (ix + 1) in
      read self.keys ix >>= λ found.
      if found == key then update else if ix + 1 == slot_count self then at_end else middle

  unfoldable pub upsert_with_hint : GappedKvArray V → ℕ → V → ℕ → Reply V
  upsert_with_hint self key val hint = do
    maybe_ix ← price_is_right self key (some hint)
    elim maybe_ix [
      | none ↦ upsert_first self key val (next_free_ix self 0)
      | some ix ↦ upsert_behind self key val ix
    ]

  -- The free slots right of the hint are used up: the entries move to the left, and the bit of the
  -- last slot is not cleared.
  unfoldable pub insert_at_end : GappedKvArray V → ℕ → V → Option ℕ → Reply V
  insert_at_end self key val none = ok (failure full, self)
  insert_at_end self key val (some free_ix) = do
    moved ← copy_within self (free_ix + 1) (slot_count self) free_ix
    self' ← upsert_at moved key val (slot_count self - 1)
    done self'

  abbrev pub insert_after_hint : GappedKvArray V → ℕ → V → Option ℕ → Reply V
  insert_after_hint self key val (some free_ix) = upsert_at self key val free_ix >>= done
  insert_after_hint self key val none =
      prev_free_ix self (slot_count self - 1) >>= insert_at_end self key val

  unfoldable pub initial_model_based_insert : GappedKvArray V → ℕ → V → ℕ → Reply V
  initial_model_based_insert self key val hint = at self.bitmap hint >>= λ occupied.
      if occupied
      then insert_after_hint self key val (next_free_ix self (hint + 1))
      else upsert_at self key val hint >>= done
