-- ===== src/BTreeMemory/Tests.antt =====
-- Runs of core/src/classical/btree_memory/layer.rs, and its theorems at concrete layers.
use clearned_immutable.Prelude.{
  ℕ, ◌≡◌, refl, arith, Option, none, some, List, [], ◌∷◌, Outcome, ok, ◌>>=◌, Returns,
}
use clearned_immutable.SortedArray.{SortedArrayEntry, SortedArray, entry, entries, capacity}
use clearned_immutable.SortedArray
use clearned_immutable.SortedArray.Assoc.{upsert}
use clearned_immutable.SortedArray.Holds.{Holds}
use clearned_immutable.Node.{BTreeNode}
use clearned_immutable.Node
use clearned_immutable.MemoryList.{
  MemoryList, set_parent, index, insert_after, set_next, set_previous, clear, parent, set_index,
}
use clearned_immutable.MemoryList
use clearned_immutable.MemoryList.Growing.{growing}
use clearned_immutable.MemoryList.Links.{Cell, IsList}
use clearned_immutable.BTreeMemory.{
  empty, fill, insert, insert_in_node, carry_over, fill_from, split_insert,
}
use clearned_immutable.BTreeMemory.Contents.{Contents}
use clearned_immutable.BTreeMemory.Insert.{insert_split, LeavesSplit}
use clearned_immutable.BTreeMemory.Fill.{fill-Contents}

abbrev pairs : List (SortedArrayEntry ℕ)
pairs = entry 2 20 ∷ entry 4 40 ∷ []

abbrev roomy : BTreeNode ℕ
roomy = record { inner = some (entry 2 20) ∷ some (entry 4 40) ∷ none ∷ []; len = 2 }

abbrev full : BTreeNode ℕ
full = record { inner = some (entry 2 20) ∷ some (entry 4 40) ∷ []; len = 2 }

abbrev cell_of : BTreeNode ℕ → Option ℕ → Cell (BTreeNode ℕ) ℕ
cell_of node p = record { id = 0; contents = node; above = p }

-- A layer of one node.
abbrev only : BTreeNode ℕ → Option ℕ → MemoryList {N = BTreeNode ℕ} {PA = ℕ} growing
only node p = record {
  arena = (record { inner = node; next = none; previous = none }, p) ∷ [];
  first = 0;
  last = 0;
}

only-IsList :
    (node : BTreeNode ℕ) (p : Option ℕ) → IsList growing (only node p) (cell_of node p ∷ [])
only-IsList node p = record {
  linked = (refl, tt);
  distinct = (refl, tt);
  first = refl;
  last = refl;
}

roomy-Holds : Holds roomy pairs
roomy-Holds = record {
  rest = none ∷ [];
  slots = refl;
  len = refl;
  ascending = ((omega arith, tt), (tt, tt));
}

full-Holds : Holds full pairs
full-Holds = record {
  rest = [];
  slots = refl;
  len = refl;
  ascending = ((omega arith, tt), (tt, tt));
}

insert_split_example :
    Returns
      (insert growing 8 2 (only full (some 5)) 3 30 0)
      (LeavesSplit growing 8 2 [] (cell_of full (some 5)) [] 5 (upsert 3 30 pairs))
insert_split_example =
    insert_split growing 8 2 [] (cell_of full (some 5)) [] 3 30 5 (only-IsList full (some 5))
      full-Holds (omega arith) refl refl

fill-Contents_example :
    Returns
      (fill growing 8 2 (only full none) pairs)
      λ layer'. (cs : List (Cell (BTreeNode ℕ) ℕ)) × IsList growing layer' cs × Contents 2 cs pairs
fill-Contents_example =
    fill-Contents growing 8 2 (omega arith) (only full none) pairs ((omega arith, tt), (tt, tt))

-- Five entries in nodes of capacity four: two to a node, and an insertion that fills none.
five : Outcome (List (List (SortedArrayEntry ℕ)))
unfolding empty fill fill_from carry_over insert_in_node insert split_insert MemoryList.empty clear
    Node.empty SortedArray.empty index set_index insert_after set_next set_previous entries
    SortedArray.insert
five = do
  layer ←
      fill {PA = ℕ} growing 8 4 (empty growing 8 4)
        (entry 1 10 ∷ entry 2 20 ∷ entry 3 30 ∷ entry 4 40 ∷ entry 5 50 ∷ [])
  (_, layer') ← insert growing 8 4 layer 6 60 2
  a ← index growing layer' 0
  b ← index growing layer' 1
  c ← index growing layer' 2
  xs ← entries a
  ys ← entries b
  zs ← entries c
  ok (xs ∷ ys ∷ zs ∷ [])

five_in_order :
    five
    ≡ ok (
        (entry 1 10 ∷ entry 2 20 ∷ [])
        ∷ (entry 3 30 ∷ entry 4 40 ∷ [])
        ∷ (entry 5 50 ∷ entry 6 60 ∷ [])
        ∷ [])
unfolding five Node.is_half_full SortedArray.is_full
five_in_order = refl
