-- ===== src/BTreeMemory/Insert.antt =====
-- `insert` of core/src/classical/btree_memory/layer.rs.
use clearned_immutable.Prelude.{
  ℕ, ◌<◌, ◌≤◌, ◌≡◌, refl, sym, ap, ◌∙◌, inl, inr, true, false, Option, none, some, List, [], ◌∷◌,
  ◌++◌, append_assoc, arith, length, ltb, if◌then◌else◌, Bool-cases, ok, fault, unwrapped_none,
  Returns,
}
use clearned_immutable.SortedArray.{SortedArrayEntry, capacity, is_full}
use clearned_immutable.SortedArray.Assoc.{lookup, upsert}
use clearned_immutable.SortedArray.Holds.{Holds}
use clearned_immutable.SortedArray.Insert.{insert-upsert}
use clearned_immutable.SortedArray.Lookups.{is_full-length}
use clearned_immutable.Node.{BTreeNode, split, min_key}
use clearned_immutable.Node.Laws.{least, min_key-least, split_full}
use clearned_immutable.MemoryList.Api.{ArenaApi}
use clearned_immutable.MemoryList.{Slot, MemoryList, index, set_index, parent, insert_after}
use clearned_immutable.MemoryList.Links.{Cell, IsList}
use clearned_immutable.MemoryList.Runs.{orphan}
use clearned_immutable.MemoryList.Access.{holding, reads_cell, set_index-IsList}
use clearned_immutable.MemoryList.Inserts.{insert_after-IsList}
use clearned_immutable.BTreeMemory.{unwrap, insert_in_node, split_insert, insert}
use clearned_immutable.BTreeMemory.Contents.{upsert_halves, upsert_nonempty}

module _ {ℓ} {V PA : Type ℓ} (api : ArenaApi (Slot (BTreeNode V) PA)) (size_of fanout : ℕ) where
  -- An insertion into one node that has the key, or room for it.
  pub insert_in_node-upsert :
      {layer : MemoryList api} (pre : List (Cell (BTreeNode V) PA)) (c : Cell (BTreeNode V) PA)
      (post : List (Cell (BTreeNode V) PA)) {es : List (SortedArrayEntry V)} (k : ℕ) (v : V)
      → IsList api layer (pre ++ c ∷ post)
      → Holds c.contents es
      → (lookup k es ≡ none → length es < capacity c.contents)
      → Returns (insert_in_node api size_of fanout layer c.id k v) λ layer'.
        (node : BTreeNode V) × IsList api layer' (pre ++ holding node c ∷ post)
        × Holds node (upsert k v es)
        × (capacity node ≡ capacity c.contents)
  unfolding insert_in_node
  insert_in_node-upsert {layer} pre c post {es} k v h held room =
      let ((old, node), run, (same, held', cap)) = insert-upsert size_of k v held room in
      let (layer', run', h') = set_index-IsList api pre c post h node in
      let read = (reads_cell api pre c post h).0 in
      (layer', rw (insert_in_node, read) (rw (run, run')), (node, h', held', cap))

  -- `insert` into a node that is not full: the node at `ptr` gets the entry, and nothing else changes.
  pub insert_room :
      {layer : MemoryList api} (pre : List (Cell (BTreeNode V) PA)) (c : Cell (BTreeNode V) PA)
      (post : List (Cell (BTreeNode V) PA)) {es : List (SortedArrayEntry V)} (k : ℕ) (v : V)
      → IsList api layer (pre ++ c ∷ post)
      → Holds c.contents es
      → length es < capacity c.contents
      → Returns (insert api size_of fanout layer k v c.id) λ (r, layer').
        (r ≡ none)
        × ((node : BTreeNode V) × IsList api layer' (pre ++ holding node c ∷ post)
            × Holds node (upsert k v es)
            × (capacity node ≡ capacity c.contents))
  unfolding insert
  insert_room {layer} pre c post {es} k v h held room =
      let not_full : is_full c.contents ≡ false = (is_full-length held).0 ∙ ground arith in
      let (layer', run, rest) = insert_in_node-upsert pre c post k v h held (λ absent. room) in
      let read = (reads_cell api pre c post h).0 in
      ((none, layer'), rw (insert, read) (rw (not_full, run)), (refl, rest))

  split_insert-run :
      (layer : MemoryList api) (node : BTreeNode V) (k : ℕ) (v : V) (ptr : ℕ)
      {layer₁ layer₂ layer₃ : MemoryList api} {left right right' : BTreeNode V} {key low id : ℕ}
      {p : PA}
      → parent api layer ptr ≡ ok (some p)
      → split node ≡ ok (key, left, right)
      → set_index api layer ptr left ≡ ok layer₁
      → insert_after api right ptr layer₁ ≡ ok (id, layer₂)
      → insert_in_node api size_of fanout layer₂ (if ltb k key then ptr else id) k v ≡ ok layer₃
      → index api layer₃ id ≡ ok right'
      → min_key right' ≡ ok low
      → split_insert api size_of fanout layer node k v ptr ≡ ok (some (low, id, p), layer₃)
  unfolding split_insert
  split_insert-run layer node k v ptr above parts written put run read least_key =
      rw (split_insert, above, unwrap, parts) (rw (written, put) (rw run (rw (read, least_key))))

  -- What the split of the node `c` leaves: the entries `es` in two nodes of its capacity, neither of
  -- them empty, of which the second is new, and the result, with the parent `p`.
  abbrev pub LeavesSplit :
      List (Cell (BTreeNode V) PA)
      → Cell (BTreeNode V) PA
      → List (Cell (BTreeNode V) PA)
      → PA
      → List (SortedArrayEntry V)
      → Option (ℕ × ℕ × PA) × MemoryList api
      → Type ℓ
  LeavesSplit pre c post p es (r, layer) =
      (id : ℕ) × (left : BTreeNode V) × (right : BTreeNode V) × (low : List (SortedArrayEntry V))
      × (high : List (SortedArrayEntry V)) × (r ≡ some (least high, id, p))
      × (es ≡ low ++ high)
      × IsList api layer (pre ++ holding left c ∷ orphan id right ∷ post)
      × Holds left low
      × Holds right high
      × ((0 < length low) × (0 < length high))
      × ((capacity left ≡ capacity c.contents) × (capacity right ≡ capacity c.contents))

  split_insert-upsert :
      {layer : MemoryList api} (pre : List (Cell (BTreeNode V) PA)) (c : Cell (BTreeNode V) PA)
      (post : List (Cell (BTreeNode V) PA)) {es : List (SortedArrayEntry V)} (k : ℕ) (v : V)
      (p : PA)
      → IsList api layer (pre ++ c ∷ post)
      → Holds c.contents es
      → 2 ≤ length es
      → length es ≡ capacity c.contents
      → c.above ≡ some p
      → Returns
          (split_insert api size_of fanout layer c.contents k v c.id)
          (LeavesSplit pre c post p (upsert k v es))
  unfolding split_insert
  split_insert-upsert {layer} pre c post {es} k v p h held big full above =
      let ((key, left, right), parts, (lo, hi, e, _, hl, hr, ek, (l0, l1), (h0, h1), caps)) =
        split_full held big full in
      let (layer₁, written, h₁) = set_index-IsList api pre c post h left in
      let ((id, layer₂), put, (unused, size, h₂)) =
        insert_after-IsList api right pre (holding left c) post h₁ in
      let halves = upsert_halves k v lo hi (rw e at held.ascending) h0 in
      let up = (reads_cell api pre c post h).1 ∙ ap ok above in
      let n = orphan {PA = PA} id right in
      elim (Bool-cases (ltb k key)) [
        | inl below ↦
            let (layer₃, run, (left', h₃, hl', cap)) =
              insert_in_node-upsert pre (holding left c) (n ∷ post) k v (rw append_assoc at h₂) hl
                (λ absent. l1) in
            let h₄ : IsList api layer₃ (pre ++ holding left' c ∷ [] ++ n ∷ post) =
              rw append_assoc h₃ in
            let read = (reads_cell api (pre ++ holding left' c ∷ []) n post h₄).0 in
            (
              (some (least hi, id, p), layer₃),
              split_insert-run layer c.contents k v c.id up parts written put (rw below run) read
                  (min_key-least hi hr),
              (
                id,
                left',
                right,
                upsert k v lo,
                hi,
                refl,
                rw e (halves ∙ rw (sym ek, below)),
                h₃,
                hl',
                hr,
                (upsert_nonempty k v lo, h0),
                (cap ∙ caps.0, caps.1),
              ),
            )
        | inr from ↦
            let (layer₃, run, (right', h₃, hr', cap)) =
              insert_in_node-upsert (pre ++ holding left c ∷ []) n post k v h₂ hr (λ absent. h1) in
            let h₄ : IsList api layer₃ (pre ++ holding left c ∷ orphan id right' ∷ post) =
              rw append_assoc at h₃ in
            let read = (reads_cell api (pre ++ holding left c ∷ []) (orphan id right') post h₃).0 in
            (
              (some (least (upsert k v hi), id, p), layer₃),
              split_insert-run layer c.contents k v c.id up parts written put (rw from run) read
                  (min_key-least (upsert k v hi) hr'),
              (
                id,
                left,
                right',
                lo,
                upsert k v hi,
                refl,
                rw e (halves ∙ rw (sym ek, from)),
                h₄,
                hl,
                hr',
                (l0, upsert_nonempty k v hi),
                (caps.0, cap ∙ caps.1),
              ),
            )
      ]

  -- `insert` into a full node that has a parent and at least two entries divides the map with the
  -- new entry between the node at `ptr`, which keeps the lower part, and a new node linked behind
  -- it, which has no parent yet. Neither is empty, both have the old capacity, the other nodes are
  -- unchanged, and the least key of the new node, its address and the parent are returned.
  pub insert_split :
      {layer : MemoryList api} (pre : List (Cell (BTreeNode V) PA)) (c : Cell (BTreeNode V) PA)
      (post : List (Cell (BTreeNode V) PA)) {es : List (SortedArrayEntry V)} (k : ℕ) (v : V)
      (p : PA)
      → IsList api layer (pre ++ c ∷ post)
      → Holds c.contents es
      → 2 ≤ length es
      → length es ≡ capacity c.contents
      → c.above ≡ some p
      → Returns
          (insert api size_of fanout layer k v c.id)
          (LeavesSplit pre c post p (upsert k v es))
  unfolding insert
  insert_split {layer} pre c post {es} k v p h held big full above =
      let is : is_full c.contents ≡ true = (is_full-length held).0 ∙ ground arith in
      let (result, run, rest) = split_insert-upsert pre c post k v p h held big full above in
      (result, rw (insert, (reads_cell api pre c post h).0) (rw (is, run)), rest)

  -- `insert` into a full node that has no parent panics.
  pub insert_orphan :
      {layer : MemoryList api} (pre : List (Cell (BTreeNode V) PA)) (c : Cell (BTreeNode V) PA)
      (post : List (Cell (BTreeNode V) PA)) {es : List (SortedArrayEntry V)} (k : ℕ) (v : V)
      → IsList api layer (pre ++ c ∷ post)
      → Holds c.contents es
      → length es ≡ capacity c.contents
      → c.above ≡ none
      → insert api size_of fanout layer k v c.id ≡ fault unwrapped_none
  unfolding insert split_insert
  insert_orphan {layer} pre c post {es} k v h held full above =
      let is : is_full c.contents ≡ true = (is_full-length held).0 ∙ ground arith in
      let (read, up, _, _) = reads_cell api pre c post h in
      rw (insert, read) (rw is (rw (split_insert, up ∙ ap ok above)))
