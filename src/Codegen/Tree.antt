-- ===== src/Codegen/Tree.antt =====
-- What `search` and `insert` of a store are to do: go down from the top component to the base, and hand
-- what a component has split up to the one above. The components are numbered from the base, which is 0.
use clearned_immutable.Prelude.{ℕ, zero, suc, Option, none, some}
use clearned_immutable.BTreeComponents.{PropagateInsert}
use clearned_immutable.PageStore.{Attempt, done}
use clearned_immutable.DiskList.{continue}
use clearned_immutable.Codegen.{Ident, ident, lower_c}
use clearned_immutable.Codegen.Running.{Components}

abbrev pub component : ℕ → Ident
component n = ident lower_c n

module _ {S V : Type 0} (c : Components S V) where
  -- From the node `a` of the component `level` to the node of the base, and what it has under the key.
  abbrev pub locate : ℕ → S → ℕ → ℕ → Attempt (ℕ × Option V) × S
  locate zero s a key = continue (c.base_search (component 0) s a key) λ r s'. (done (a, r), s')
  locate (suc level) s a key =
      continue (c.internal_search (component (suc level)) (component level) s a key)
        λ a' s'. locate level s' a' key

  -- `internals` is the number of the components between the top and the base.
  abbrev pub descend : ℕ → S → ℕ → Attempt (ℕ × Option V) × S
  descend internals s key =
      continue (c.top_search (component (suc internals)) (component internals) s key)
        λ a s'. locate internals s' a key

  abbrev pub search_tree : ℕ → S → ℕ → Attempt (Option V) × S
  search_tree internals s key = continue (descend internals s key) λ (a, r) s'. (done r, s')

  -- `left` internal components are above the one that has split.
  abbrev pub climb : ℕ → ℕ → S → PropagateInsert ℕ → Attempt Unit × S
  climb zero level s p = c.top_insert (component (suc level)) (component level) s p
  climb (suc left) level s p =
      continue (c.internal_insert (component (suc level)) (component level) s p)
        λ r s'. elim r [ none ↦ (done tt, s') | some p' ↦ climb left (suc level) s' p' ]

  abbrev pub climb_if : ℕ → ℕ → S → Option (PropagateInsert ℕ) → Attempt Unit × S
  climb_if left level s none = (done tt, s)
  climb_if left level s (some p) = climb left level s p

  -- What the key had before is returned.
  abbrev pub insert_tree : ℕ → S → ℕ → V → Attempt (Option V) × S
  insert_tree internals s key value = continue (descend internals s key) λ (a, old) s1.
      continue (c.base_insert (component 0) s1 a key value)
        λ r s2. continue (climb_if internals 0 s2 r) λ _ s3. (done old, s3)
