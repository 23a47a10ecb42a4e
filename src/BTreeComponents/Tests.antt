-- ===== src/BTreeComponents/Tests.antt =====
-- The theorems on the components of core/src/classical/btree_memory/mod.rs at a concrete layer.
use clearned_immutable.Prelude.{
  ℕ, ◌≡◌, refl, arith, none, some, List, [], ◌∷◌, ◌==◌, if◌then◌else◌, ok, Returns, Outcome, Option,
  ◌>>=◌,
}
use clearned_immutable.SortedArray.{SortedArrayEntry, entry}
use clearned_immutable.SortedArray.Assoc.{lookup}
use clearned_immutable.SortedArray.Holds.{Holds}
use clearned_immutable.Node.{BTreeNode}
use clearned_immutable.MemoryList.{MemoryList}
use clearned_immutable.MemoryList.Growing.{growing}
use clearned_immutable.MemoryList.Links.{Cell, IsList}
use clearned_immutable.NodeLayer.Memory.{memory_layer}
use clearned_immutable.SortedArray
use clearned_immutable.Node.{is_half_full}
use clearned_immutable.Node
use clearned_immutable.MemoryList
use clearned_immutable.MemoryList.{index, set_index, insert_after, set_next, set_previous, parent}
use clearned_immutable.NodeLayer.{range_mut, range, step_mut, step}
use clearned_immutable.BTreeMemory
use clearned_immutable.BTreeMemory.{carry_over, insert_in_node}
use clearned_immutable.BTreeComponents.{
  internal_build, fill_with_parent, fill_with_parent_from, base_insert, base_search,
}
use clearned_immutable.BTreeComponents.Laws.{base_search-insert}

abbrev pairs : List (SortedArrayEntry ℕ)
pairs = entry 2 20 ∷ entry 4 40 ∷ []

abbrev node : BTreeNode ℕ
node = record { inner = some (entry 2 20) ∷ some (entry 4 40) ∷ none ∷ []; len = 2 }

abbrev only_cell : Cell (BTreeNode ℕ) ℕ
only_cell = record { id = 0; contents = node; above = none }

abbrev one : MemoryList {N = BTreeNode ℕ} {PA = ℕ} growing
one = record {
  arena = (record { inner = node; next = none; previous = none }, none) ∷ [];
  first = 0;
  last = 0;
}

one-IsList : IsList growing one (only_cell ∷ [])
one-IsList = record { linked = (refl, tt); distinct = (refl, tt); first = refl; last = refl }

node-Holds : Holds node pairs
node-Holds = record {
  rest = none ∷ [];
  slots = refl;
  len = refl;
  ascending = ((omega arith, tt), (tt, tt));
}

base_search-insert_example : Returns (base_insert growing 8 3 one 0 3 30) λ (r, layer').
    (r ≡ none)
    × ((j : ℕ)
        → base_search growing 8 3 layer' 0 j ≡ ok (if 3 == j then some 30 else lookup j pairs))
base_search-insert_example =
    base_search-insert growing 8 3 [] only_cell [] 3 30 one-IsList node-Holds (omega arith)

-- An internal layer over three nodes with the least keys 1, 2 and 3, two entries to a full node: each
-- node below gets the address of the one that holds it as its parent.
abbrev three : MemoryList {N = ℕ} {PA = ℕ} growing
three = record {
  arena =
      (record { inner = 1; next = some 1; previous = none }, none)
      ∷ (record { inner = 2; next = some 2; previous = some 0 }, none)
      ∷ (record { inner = 3; next = none; previous = some 1 }, none)
      ∷ [];
  first = 0;
  last = 2;
}

built : Outcome (List (Option ℕ))
unfolding internal_build fill_with_parent fill_with_parent_from range_mut range step_mut step
    BTreeMemory.empty MemoryList.empty MemoryList.clear Node.empty SortedArray.empty carry_over
    insert_in_node index set_index insert_after set_next set_previous SortedArray.insert parent
    MemoryList.set_parent MemoryList.lower_bound MemoryList.next
built = do
  (_, base) ← internal_build {PA = ℕ} growing 8 4 (memory_layer growing ok) 4 three
  a ← parent growing base 0
  b ← parent growing base 1
  c ← parent growing base 2
  ok (a ∷ b ∷ c ∷ [])

built_parents : built ≡ ok (some 0 ∷ some 0 ∷ some 1 ∷ [])
unfolding built is_half_full
built_parents = refl
