-- ===== src/Node.antt =====
-- core/src/classical/node.rs: a B-tree node is a sorted array, which it passes on by `Deref`.
pub mod Laws
mod Tests
use clearned_immutable.Prelude.{ℕ, ◌/◌, Bool, List, leb, if◌then◌else◌, Outcome, ok, ◌>>=◌}
use clearned_immutable.SortedArray.{
  SortedArrayEntry, SortedArray, capacity, entries, is_empty, at, split_off,
}
use clearned_immutable.SortedArray

abbrev pub BTreeNode {ℓ} : Type ℓ → Type ℓ
BTreeNode V = SortedArray V

module _ {ℓ} {V : Type ℓ} where
  -- `fanout` is the constant `FANOUT`, the capacity of the array
  unfoldable pub empty : ℕ → BTreeNode V
  unfolding SortedArray.empty
  empty fanout = SortedArray.empty fanout

  unfoldable pub is_half_full : BTreeNode V → Bool
  is_half_full node = leb (capacity node / 2) node.len

  -- `K::min_ref()` is the least key, 0
  unfoldable pub min_key : BTreeNode V → Outcome ℕ
  unfolding entries is_empty
  min_key node = if is_empty node then ok 0 else (do es ← entries node; e ← at es 0; ok e.key)

  -- The node keeps the lower half; the results are the first key of the new node, and the two nodes.
  unfoldable pub split : BTreeNode V → Outcome (ℕ × BTreeNode V × BTreeNode V)
  unfolding entries split_off
  split node = do
    es ← entries node
    e ← at es (capacity node / 2)
    (left, right) ← split_off node (capacity node / 2)
    ok (e.key, left, right)
