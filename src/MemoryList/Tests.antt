-- ===== src/MemoryList/Tests.antt =====
-- Runs of core/src/common/list/memory.rs, and its theorems at concrete lists.
use clearned_immutable.Prelude.{
  ℕ, ◌≡◌, refl, Option, some, List, [], ◌∷◌, Outcome, ok, ◌>>=◌, Returns,
}
use clearned_immutable.MemoryList.Growing.{growing}
use clearned_immutable.MemoryList.{
  MemoryList, empty, insert_after, next, prev, set_next, set_previous,
}
use clearned_immutable.MemoryList.Links.{IsList}
use clearned_immutable.MemoryList.Runs.{orphan}
use clearned_immutable.MemoryList.Access.{clear-IsList}
use clearned_immutable.MemoryList.Inserts.{Inserted, insert_after-IsList}

abbrev start : MemoryList {N = ℕ} {PA = ℕ} growing
unfolding empty
start = empty growing 7

start-IsList : IsList growing start (orphan 0 7 ∷ [])
unfolding empty
start-IsList = (clear-IsList growing 7 (empty growing 7)).0

-- A node behind the first one, and then one between the two.
three : Outcome (List (Option ℕ))
unfolding insert_after set_next set_previous next prev
three = do
  (one, a) ← insert_after growing 8 0 start
  (two, b) ← insert_after growing 9 0 a
  x ← next growing b 0
  y ← next growing b two
  z ← prev growing b one
  ok (x ∷ y ∷ z ∷ some b.last ∷ [])

three_links : three ≡ ok (some 2 ∷ some 1 ∷ some 2 ∷ some 1 ∷ [])
unfolding three start
three_links = refl

insert_after-IsList_example :
    Returns (insert_after growing 8 0 start) (Inserted growing start (orphan 0 7 ∷ []) 8 [])
insert_after-IsList_example = insert_after-IsList growing 8 [] (orphan 0 7) [] start-IsList
