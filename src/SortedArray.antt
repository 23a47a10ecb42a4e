-- ===== src/SortedArray.antt =====
-- utils/sorted_array/src/lib.rs, entry.rs and serde.rs: a sorted array of fixed capacity on raw
-- memory. `inner` holds the `N` slots, `none` where a slot is uninitialised; `size_of` is the size
-- of a key in bytes, on which the choice of the search depends.
pub mod Memory
pub mod Assoc
pub mod Holds
pub mod Lookups
pub mod Insert
pub mod Remove
pub mod Split
pub mod Floor
pub mod Serde
mod Tests
use clearned_immutable.Prelude.{
  ℕ, zero, suc, ◌+◌, ◌-◌, ◌*◌, ◌/◌, Bool, true, false, ◌&&◌, Option, none, some, List, [], ◌∷◌,
  ◌++◌, length, get_elem?, set, take, drop, replicate, ltb, leb, ◌==◌, if◌then◌else◌, Outcome, ok,
  fault, out_of_bounds, uninitialized, assertion, ◌>>=◌,
}
use clearned_immutable.SliceSearch.{
  SearchResult, found, missing, optimal_search, lower_bound, lower_bound_always,
}

pub record SortedArrayEntry {ℓ} (V : Type ℓ) : Type ℓ where
  pub key : ℕ
  pub value : V

abbrev pub entry {ℓ} : {V : Type ℓ} → ℕ → V → SortedArrayEntry V
entry k v = record { key = k; value = v }

abbrev pub borrow {ℓ} : {V : Type ℓ} → SortedArrayEntry V → ℕ
borrow e = e.key

pub record SortedArray {ℓ} (V : Type ℓ) : Type ℓ where
  pub inner : List (Option (SortedArrayEntry V))
  pub len : ℕ

module _ {ℓ} {A : Type ℓ} where
  -- `slice[index]`
  abbrev pub at : List A → ℕ → Outcome A
  at xs index = elim (get_elem? xs index) [ none ↦ fault out_of_bounds | some x ↦ ok x ]

  -- `core::ptr::copy` inside one array of slots
  unfoldable pub ptr_copy : List A → ℕ → ℕ → ℕ → Outcome (List A)
  ptr_copy slots src dst count =
      if leb (src + count) (length slots) && leb (dst + count) (length slots)
      then ok (take dst slots ++ take count (drop src slots) ++ drop (dst + count) slots)
      else fault out_of_bounds

  -- A write through `get_unchecked_mut`.
  unfoldable pub write : List A → ℕ → A → Outcome (List A)
  write slots index x =
      if ltb index (length slots) then ok (set slots index x) else fault out_of_bounds

  -- The slots seen as initialised values.
  unfoldable pub assume_init : List (Option A) → Outcome (List A)
  assume_init [] = ok []
  assume_init (none ∷ slots) = fault uninitialized
  assume_init (some x ∷ slots) = assume_init slots >>= λ xs. ok (x ∷ xs)

  -- A read of one slot through `get_unchecked`.
  unfoldable pub read : List (Option A) → ℕ → Outcome A
  read slots index = elim (get_elem? slots index) [
    | none ↦ fault out_of_bounds
    | some none ↦ fault uninitialized
    | some (some x) ↦ ok x
  ]

module _ {ℓ} {V : Type ℓ} where
  -- The capacity, `N`
  abbrev pub capacity : SortedArray V → ℕ
  capacity a = length a.inner

  unfoldable pub empty : ℕ → SortedArray V
  empty n = record { inner = replicate n none; len = 0 }

  unfoldable pub entries : SortedArray V → Outcome (List (SortedArrayEntry V))
  unfolding assume_init
  entries a =
      if leb a.len (capacity a) then assume_init (take a.len a.inner) else fault out_of_bounds

  unfoldable pub is_full : SortedArray V → Bool
  is_full a = a.len == capacity a

  unfoldable pub is_empty : SortedArray V → Bool
  is_empty a = a.len == 0

  unfoldable pub get_index : SortedArray V → ℕ → Outcome (Option (SortedArrayEntry V))
  unfolding read
  get_index a index = if ltb index a.len then (read a.inner index >>= λ e. ok (some e)) else ok none

  unfoldable pub first : SortedArray V → Outcome (Option (SortedArrayEntry V))
  unfolding get_index
  first a = get_index a 0

  unfoldable pub last : SortedArray V → Outcome (Option (SortedArrayEntry V))
  unfolding get_index is_empty
  last a = if is_empty a then ok none else get_index a (a.len - 1)

  -- `split_idx .. len`, one slot at a time into the new array
  unfoldable pub move_slots :
      List (Option (SortedArrayEntry V))
      → ℕ
      → ℕ
      → ℕ
      → List (Option (SortedArrayEntry V))
      → Outcome (List (Option (SortedArrayEntry V)))
  unfolding write
  move_slots src zero i dst_i rhs = ok rhs
  move_slots src (suc rounds) i dst_i rhs = do
    slot ← at src i
    rhs' ← write rhs dst_i slot
    move_slots src rounds (i + 1) (dst_i + 1) rhs'

  -- The array keeps what stands before `split_idx`; the second result is the new array.
  unfoldable pub split_off : SortedArray V → ℕ → Outcome (SortedArray V × SortedArray V)
  unfolding move_slots empty
  split_off a split_idx = do
    rhs ← move_slots a.inner (a.len - split_idx) split_idx 0 (empty (capacity a)).inner
    ok (record a { len = split_idx }, record { inner = rhs; len = a.len - split_idx })

  -- The slots after making room at `index`.
  abbrev pub open_slot : SortedArray V → ℕ → Outcome (List (Option (SortedArrayEntry V)))
  unfolding ptr_copy
  open_slot a index =
      if ltb index a.len then ptr_copy a.inner index (index + 1) (a.len - index) else ok a.inner

  -- The slots after a new entry was put at `index`.
  abbrev pub insert_at :
      SortedArray V → ℕ → SortedArrayEntry V → Outcome (List (Option (SortedArrayEntry V)))
  unfolding ptr_copy write
  insert_at a index e = do moved ← open_slot a index; write moved index (some e)

module _ {ℓ} {V : Type ℓ} (size_of : ℕ) where
  unfoldable pub search : SortedArray V → ℕ → Outcome SearchResult
  unfolding entries optimal_search
  search a key = do es ← entries a; ok (optimal_search borrow size_of es key)

  unfoldable pub get_exact : SortedArray V → ℕ → Outcome (Option V)
  unfolding search read
  get_exact a key = do
    r ← search a key
    elim r [
      | found index ↦ (read a.inner index >>= λ e. ok (some e.value))
      | missing index ↦ ok none
    ]

  unfoldable pub contains_key : SortedArray V → ℕ → Outcome Bool
  unfolding search
  contains_key a key = do
    r ← search a key
    elim r [ found index ↦ ok true | missing index ↦ ok false ]

  unfoldable pub insert : SortedArray V → ℕ → V → Outcome (Option V × SortedArray V)
  unfolding search read ptr_copy write
  insert a key value = do
    r ← search a key
    elim r [
      | found index ↦ do
        slot ← read a.inner index
        inner' ← write a.inner index (some (entry slot.key value))
        ok (some slot.value, record a { inner = inner' })
      | missing index ↦
          if ltb a.len (capacity a)
          then (do
            inner' ← insert_at a index (entry key value)
            ok (none, record { inner = inner'; len = a.len + 1 }))
          else fault assertion
    ]

  -- The copy counts one slot more than there are behind the removed one.
  unfoldable pub remove : SortedArray V → ℕ → Outcome (Option V × SortedArray V)
  unfolding search read ptr_copy
  remove a key = do
    r ← search a key
    elim r [
      | found index ↦ do
        ret ← read a.inner index
        inner' ←
            if ltb (index + 1) a.len
            then ptr_copy a.inner (index + 1) index (a.len - index)
            else ok a.inner
        ok (some ret.value, record { inner = inner'; len = a.len - 1 })
      | missing index ↦ ok (none, a)
    ]

  unfoldable pub get_lower_bound : SortedArray V → ℕ → Outcome (Option V)
  unfolding search lower_bound entries
  get_lower_bound a key = do
    r ← search a key
    elim (lower_bound r) [
      | none ↦ ok none
      | some index ↦ do es ← entries a; e ← at es index; ok (some e.value)
    ]

  unfoldable pub get_lower_bound_always : SortedArray V → ℕ → Outcome V
  unfolding search lower_bound_always entries
  get_lower_bound_always a key = do
    r ← search a key
    es ← entries a
    e ← at es (lower_bound_always r)
    ok e.value
