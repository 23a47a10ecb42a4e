-- ===== src/SliceSearch.antt =====
-- utils/slice_search/src/lib.rs: searching a sorted slice by key. A key (`Key`, a primitive integer)
-- is the number of values of its type below it, since the searches use nothing but its order;
-- `borrow` is the `Borrow<K>` of an element.
pub mod Finds
pub mod Linear
pub mod Binary
pub mod Bounds
mod Tests
use clearned_immutable.Prelude.{
  ℕ, zero, suc, ◌+◌, ◌-◌, ◌*◌, ◌/◌, Option, none, some, List, [], ◌∷◌, length, get_elem?, ltb, ◌==◌,
  if◌then◌else◌,
}

-- `Result<usize, usize>`: `Ok` and `Err`
pub data SearchResult : Type 0 where
  found : ℕ → SearchResult
  missing : ℕ → SearchResult

unfoldable pub upper_bound : SearchResult → ℕ → Option ℕ
upper_bound (found index) cap = some index
upper_bound (missing index) cap = if ltb index cap then some index else none

abbrev pub unwrap_or : Option ℕ → ℕ → ℕ
unwrap_or none d = d
unwrap_or (some i) d = i

unfoldable pub upper_bound_always : SearchResult → ℕ → ℕ
unfolding upper_bound
upper_bound_always search cap = unwrap_or (upper_bound search cap) (cap - 1)

unfoldable pub lower_bound : SearchResult → Option ℕ
lower_bound (found index) = some index
lower_bound (missing zero) = none
lower_bound (missing (suc index)) = some index

unfoldable pub lower_bound_always : SearchResult → ℕ
unfolding lower_bound
lower_bound_always search = unwrap_or (lower_bound search) 0

module _ {ℓ} {T : Type ℓ} (borrow : T → ℕ) where
  -- The elements from `index` on, as the loop of `LinearSearch` walks them.
  unfoldable pub linear_from : List T → ℕ → ℕ → SearchResult
  linear_from [] x index = missing index
  linear_from (y ∷ ys) x index =
      let rest = linear_from ys x (index + 1) in
      if ltb (borrow y) x then rest else if borrow y == x then found index else missing index

  unfoldable pub linear_search : List T → ℕ → SearchResult
  unfolding linear_from
  linear_search slice x = linear_from slice x 0

  abbrev pub key_at : List T → ℕ → ℕ
  key_at [] i = 0
  key_at (y ∷ ys) zero = borrow y
  key_at (y ∷ ys) (suc i) = key_at ys i

  -- The standard library's `binary_search_by`: the rest of its loop over `left .. right`. It reads
  -- the slice below `right` only, and each round shortens the range, so `right - left` is fuel.
  unfoldable pub bisect : ℕ → List T → ℕ → ℕ → ℕ → SearchResult
  bisect zero slice x left right = missing left
  bisect (suc fuel) slice x left right =
      let mid = left + (right - left) / 2 in
      let above = bisect fuel slice x (mid + 1) right in
      let below = bisect fuel slice x left mid in
      if ltb left right
      then (if ltb (key_at slice mid) x
          then above
          else if key_at slice mid == x
          then found mid
          else below)
      else missing left

  unfoldable pub binary_search : List T → ℕ → SearchResult
  unfolding bisect
  binary_search slice x = bisect (length slice) slice x 0 (length slice)

  -- `size_of` is the size of a key in bytes
  unfoldable pub optimal_search : ℕ → List T → ℕ → SearchResult
  unfolding binary_search linear_search
  optimal_search size_of slice x =
      if ltb 1024 (length slice * size_of) then binary_search slice x else linear_search slice x
