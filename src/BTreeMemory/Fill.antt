-- ===== src/BTreeMemory/Fill.antt =====
-- `fill` of core/src/classical/btree_memory/layer.rs.
use clearned_immutable.Prelude.{
  ℕ, ◌<◌, ◌/◌, ◌≡◌, refl, sym, ◌∙◌, inl, inr, false, List, [], ◌∷◌, ◌++◌, append_assoc, arith,
  length, leb, Bool-cases, Returns,
}
use clearned_immutable.SortedArray.{SortedArrayEntry, capacity}
use clearned_immutable.SortedArray.Assoc.{IsMap}
use clearned_immutable.SortedArray.Holds.{Holds}
use clearned_immutable.SortedArray.Lookups.{empty-Holds}
use clearned_immutable.SortedArray.Split.{IsMap-append}
use clearned_immutable.SortedArray.Serde.{upsert_last}
use clearned_immutable.Node.{BTreeNode, is_half_full, empty}
use clearned_immutable.MemoryList.Api.{ArenaApi}
use clearned_immutable.MemoryList.{Slot, MemoryList}
use clearned_immutable.MemoryList.Links.{Cell, IsList}
use clearned_immutable.MemoryList.Runs.{orphan}
use clearned_immutable.MemoryList.Access.{holding, reads_cell, clear-IsList}
use clearned_immutable.MemoryList.Inserts.{insert_after-IsList}
use clearned_immutable.BTreeMemory.{carry_over, fill_from, fill}
use clearned_immutable.BTreeMemory.Contents.{Contents}
use clearned_immutable.BTreeMemory.Insert.{insert_in_node-upsert}

module _ {ℓ} {V PA : Type ℓ} (api : ArenaApi (Slot (BTreeNode V) PA)) (size_of fanout : ℕ)
    (some_room : 0 < fanout) where
  empty_node : Holds (empty {V = V} fanout) [] × (capacity (empty {V = V} fanout) ≡ fanout)
  unfolding empty
  empty_node = empty-Holds fanout

  -- A node that is less than half full has room.
  fits :
      (c : Cell (BTreeNode V) PA) (own : List (SortedArrayEntry V))
      → Holds c.contents own
      → capacity c.contents ≡ fanout
      → is_half_full c.contents ≡ false
      → length own < capacity c.contents
  unfolding is_half_full
  fits c own held size room =
      let below : leb (capacity c.contents / 2) c.contents.len ≡ false = room in
      ground (arith, held.len)

  -- An entry above all others goes to the last node, or to a new one behind it.
  pub fill_from-Contents :
      (pre : List (Cell (BTreeNode V) PA)) (c : Cell (BTreeNode V) PA)
      (own iter : List (SortedArrayEntry V)) {layer : MemoryList api}
      → IsList api layer (pre ++ c ∷ [])
      → Holds c.contents own
      → capacity c.contents ≡ fanout
      → IsMap (own ++ iter)
      → Returns (fill_from api size_of fanout iter c.id layer) λ layer'.
        (cs : List (Cell (BTreeNode V) PA)) × IsList api layer' (pre ++ cs)
        × Contents fanout cs (own ++ iter)
  unfolding fill_from carry_over
  fill_from-Contents pre c own [] {layer} h held full asc =
      (layer, refl, (c ∷ [], h, (own, [], refl, held, full, refl)))
  fill_from-Contents pre c own (e ∷ iter) {layer} h held full asc =
      let read = (reads_cell api pre c [] h).0 in
      elim (Bool-cases (is_half_full c.contents)) [
        | inl half ↦
            let ((id, layer₁), put, (unused, size, h₁)) =
              insert_after-IsList api (empty fanout) pre c [] h in
            let (held₀, cap₀) = empty_node in
            let (layer₂, run, (node, h₂, held₂, cap₂)) =
              insert_in_node-upsert api size_of fanout (pre ++ c ∷ []) (orphan id (empty fanout)) []
                e.key e.value h₁ held₀ (λ absent. omega (arith, cap₀)) in
            let (layer₃, rest, (cs, h₃, contents)) =
              fill_from-Contents (pre ++ c ∷ []) (orphan id node) (e ∷ []) iter h₂ held₂
                (cap₂ ∙ cap₀) (IsMap-append own (e ∷ iter) asc).1 in
            (
              layer₃,
              rw (fill_from, carry_over, read) (rw (half, put) (rw (run, rest))),
              (c ∷ cs, rw append_assoc at h₃, (own, e ∷ iter, refl, held, full, contents)),
            )
        | inr room ↦
            let shape : own ++ e ∷ iter ≡ own ++ e ∷ [] ++ iter =
              sym (append_assoc own (e ∷ []) iter) in
            let asc' : IsMap (own ++ e ∷ [] ++ iter) = rw shape at asc in
            let above = (upsert_last own e (IsMap-append (own ++ e ∷ []) iter asc').0).0 in
            let (layer₂, run, (node, h₂, held₂, cap₂)) =
              insert_in_node-upsert api size_of fanout pre c [] e.key e.value h held
                (λ absent. fits c own held full room) in
            let (layer₃, rest, (cs, h₃, contents)) =
              fill_from-Contents pre (holding node c) (own ++ e ∷ []) iter h₂ (rw above at held₂)
                (cap₂ ∙ full) asc' in
            (
              layer₃,
              rw (fill_from, carry_over, read) (rw (room, run, rest)),
              (cs, h₃, rw shape contents),
            )
      ]

  -- If `fanout` is positive, `fill` with ascending entries leaves a well linked list of nodes that
  -- hold these entries and no others, in order, each of the capacity `fanout`, whatever the layer
  -- had.
  pub fill-Contents :
      (layer : MemoryList api) (iter : List (SortedArrayEntry V))
      → IsMap iter
      → Returns (fill api size_of fanout layer iter) λ layer'.
        (cs : List (Cell (BTreeNode V) PA)) × IsList api layer' cs × Contents fanout cs iter
  unfolding fill
  fill-Contents layer iter asc =
      let (start, h, one, size) = clear-IsList api (empty fanout) layer in
      let (held, full) = empty_node in
      fill_from-Contents [] (orphan _ (empty fanout)) [] iter h held full asc
