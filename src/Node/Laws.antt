-- ===== src/Node/Laws.antt =====
-- The nodes of core/src/classical/node.rs hold maps, and a full node splits in two that are not full.
use clearned_immutable.Prelude.{
  Bool-cases, inl, inr, min, ℕ, ◌-◌, ◌/◌, ◌≤◌, ◌<◌, ◌≡◌, refl, sym, false, List, [], ◌∷◌, ◌++◌,
  arith, length, take, drop, take-append-drop, length-take, length-drop, ltb, ◌==◌, if◌then◌else◌,
  ok, Returns,
}
use clearned_immutable.Node.{BTreeNode, min_key, split}
use clearned_immutable.SortedArray.{SortedArrayEntry, capacity, at, is_empty}
use clearned_immutable.SortedArray.Assoc.{IsMap, All-mono, lookup, lookup_above}
use clearned_immutable.SortedArray.Holds.{Holds, entries-ok}
use clearned_immutable.SortedArray.Memory.{get_elem?-append_mid}
use clearned_immutable.SortedArray.Split.{All-append, split_off-append}

module _ {ℓ} {V : Type ℓ} where
  -- The least key of a map, or the least key of all.
  abbrev pub least : List (SortedArrayEntry V) → ℕ
  least [] = 0
  least (e ∷ es) = e.key

  -- `min` returns the least key of the map, or the least key of all if the map is empty.
  pub min_key-least :
      {node : BTreeNode V} (es : List (SortedArrayEntry V))
      → Holds node es
      → min_key node ≡ ok (least es)
  unfolding min_key is_empty
  min_key-least [] h = rw (min_key, h.len)
  min_key-least {node} (e ∷ es) h =
      let test : (node.len == 0) ≡ false = ground (arith, h.len) in rw (min_key, test, entries-ok h)

  -- A split at a place that the node has: the two halves, and the key at which they part.
  split_at :
      {node : BTreeNode V} (pre : List (SortedArrayEntry V)) (e : SortedArrayEntry V)
      (post : List (SortedArrayEntry V))
      → Holds node (pre ++ e ∷ post)
      → capacity node / 2 ≡ length pre
      → Returns (split node) λ (key, left, right).
        (key ≡ e.key)
        × Holds left pre
        × Holds right (e ∷ post)
        × (capacity left ≡ capacity node)
        × (capacity right ≡ capacity node)
  unfolding split
  split_at {node} pre e post h half =
      let ((left, right), run, (l, r, cl, cr)) = split_off-append pre (e ∷ post) h in
      (
        (e.key, left, right),
        rw (split, entries-ok h, half) (rw (at, get_elem?-append_mid) (rw run)),
        (refl, l, r, cl, cr),
      )

  -- A key on one side of the parting key is looked up on that side.
  pub lookup_halves :
      (k : ℕ) (pre post : List (SortedArrayEntry V)) (e : SortedArrayEntry V)
      → IsMap (pre ++ e ∷ post)
      → lookup k (pre ++ e ∷ post) ≡ (if ltb k e.key then lookup k pre else lookup k (e ∷ post))
  lookup_halves k [] post e asc = elim (Bool-cases (ltb k e.key)) [
    | inl below ↦
        rw below
          (lookup_above k (e ∷ post) (ground arith, All-mono k e.key post (ground arith) asc.0))
    | inr above ↦ rw above
  ]
  lookup_halves k (x ∷ pre) post e asc =
      let before : x.key < e.key = (All-append (λ j. x.key < j) pre (e ∷ post) asc.0).1.0 in
      ground (arith, lookup_halves k pre post e asc.1)

  -- A full node of at least two entries splits at half of its capacity: the lower half stays, the
  -- upper half moves to a new node, neither half is empty or full, and the key returned is the
  -- least of the new node.
  pub split_full :
      {node : BTreeNode V} {es : List (SortedArrayEntry V)}
      → Holds node es
      → 2 ≤ length es
      → length es ≡ capacity node
      → Returns (split node) λ (key, left, right).
        (pre : List (SortedArrayEntry V)) × (post : List (SortedArrayEntry V)) × (es ≡ pre ++ post)
        × (length pre ≡ capacity node / 2)
        × Holds left pre
        × Holds right post
        × (key ≡ least post)
        × ((0 < length pre) × (length pre < capacity left))
        × ((0 < length post) × (length post < capacity right))
        × ((capacity left ≡ capacity node) × (capacity right ≡ capacity node))
  split_full {node} {es} h big full =
      at_half (take half es) (drop half es) (sym (take-append-drop half es)) (length-take half es)
        (length-drop half es)
    where
      half : ℕ
      half = capacity node / 2

      at_half :
          (pre rest : List (SortedArrayEntry V))
          → es ≡ pre ++ rest
          → length pre ≡ min half (length es)
          → length rest ≡ length es - half
          → Returns (split node) λ (key, left, right).
            (pre : List (SortedArrayEntry V)) × (post : List (SortedArrayEntry V)) × (es
              ≡ pre ++ post)
            × (length pre ≡ capacity node / 2)
            × Holds left pre
            × Holds right post
            × (key ≡ least post)
            × ((0 < length pre) × (length pre < capacity left))
            × ((0 < length post) × (length post < capacity right))
            × ((capacity left ≡ capacity node) × (capacity right ≡ capacity node))
      at_half pre [] e a b = absurd (omega arith)
      at_half pre (x ∷ post) e a b =
          let ((key, left, right), run, (same, l, r, cl, cr)) =
            split_at pre x post (rw e at h) (omega arith) in
          (
            (key, left, right),
            run,
            (
              pre,
              x ∷ post,
              e,
              omega arith,
              l,
              r,
              same,
              (omega arith, omega arith),
              (omega arith, omega arith),
              (cl, cr),
            ),
          )
