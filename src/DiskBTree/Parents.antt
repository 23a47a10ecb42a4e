-- ===== src/DiskBTree/Parents.antt =====
-- core/src/classical/btree_disk (boundary_layer.rs, deep_layer.rs and mod.rs): the layers that keep the
-- parents of the layer below, and the components. The layer below is a `NodeLayer`, with a state
-- of its own.
use clearned_immutable.Prelude.{
  ℕ, zero, suc, Option, none, some, List, [], ◌∷◌, ltb, if◌then◌else◌, Outcome, ok, fault,
  not_implemented, endless, ◌>>=◌,
}
use clearned_immutable.SortedArray.{
  SortedArrayEntry, is_full, entries, get_exact, get_lower_bound_always,
}
use clearned_immutable.Node.{BTreeNode, split}
use clearned_immutable.NodeLayer.{NodeLayer, Iter, unbounded, range_mut, step_mut, set_view}
use clearned_immutable.BTreeComponents.{PropagateInsert, single, replace, propagate}
use clearned_immutable.PageStore.{Attempt, done, panicked}
use clearned_immutable.DiskList.{continue}
use clearned_immutable.DiskBTree.{
  DiskListOps, attempt, unwrapped, divided, get_node, insert_into_node, carry_over, report, insert,
}

-- A step of the layer, beside which the layer below stays.
abbrev pub beside : {A S B : Type 0} → B → Attempt A × S → Attempt A × (S × B)
beside base (r, s) = (r, (s, base))

-- A step of the layer below, which may only panic.
abbrev pub under : {S B : Type 0} → S → B → Outcome B → Attempt Unit × (S × B)
under s base (ok base') = (done tt, (s, base'))
under s base (fault e) = (panicked e, (s, base))

module _ {L B PA : Type 0} (ops : DiskListOps L (BTreeNode ℕ) PA) (size_of fanout : ℕ)
    (below : NodeLayer B ℕ) where
  unfoldable pub set_parents : List (SortedArrayEntry ℕ) → ℕ → B → Outcome B
  set_parents [] ptr base = ok base
  set_parents (e ∷ es) ptr base = below.set_parent base e.value ptr >>= set_parents es ptr

  unfoldable pub fill_with_parent_from : ℕ → Iter → ℕ → L → B → Attempt Unit × (L × B)
  fill_with_parent_from zero iter ptr layer base = (panicked endless, (layer, base))
  fill_with_parent_from (suc fuel) iter ptr layer base = elim (step_mut below base iter) [
    | fault e ↦ (panicked e, (layer, base))
    | ok (none, iter') ↦ (done tt, (layer, base))
    | ok (some (key, address), iter') ↦
        continue (beside base (carry_over ops size_of fanout ptr layer)) λ ptr' (layer1, base1).
          continue (beside base1 (insert_into_node ops size_of fanout layer1 key address ptr'))
            λ _ (layer2, base2).
              continue (under layer2 base2 (set_view below base2 address ptr'))
                λ _ (layer3, base3). fill_with_parent_from fuel iter' ptr' layer3 base3
  ]

  -- As in `fill`, a layer that is not empty is left alone.
  unfoldable pub fill_with_parent : ℕ → L → B → Attempt Unit × (L × B)
  fill_with_parent fuel layer base =
      continue (beside base (ops.is_empty layer)) λ first (layer1, base1). elim first [
        | none ↦ (done tt, (layer1, base1))
        | some ptr ↦ elim (range_mut below base1 unbounded unbounded) [
          | fault e ↦ (panicked e, (layer1, base1))
          | ok iter ↦ fill_with_parent_from fuel iter ptr layer1 base1
        ]
      ]

  unfoldable pub split_insert_with_parent :
      L → ℕ → ℕ → B → ℕ → Attempt (Option (ℕ × ℕ × PA)) × (L × B)
  split_insert_with_parent layer key value base ptr =
      continue (beside base (unwrapped (ops.parent layer ptr, layer))) λ parent (layer0, _).
        continue
          (beside base (
            ops.transform_node (ℕ × BTreeNode ℕ) layer0 ptr λ node. divided (attempt (split node))))
          λ (split_point, new_node) (layer1, _).
            continue (beside base (ops.insert_after layer1 new_node ptr))
              λ new_node_ptr (layer2, _).
                continue (beside base (get_node ops size_of fanout layer2 new_node_ptr))
                  λ moved (layer3, _).
                    continue
                      (under layer3 base (entries moved >>= λ es. set_parents es new_node_ptr base))
                      λ _ (layer4, base1).
                        let target = if ltb key split_point then ptr else new_node_ptr in
                        continue
                          (beside base1
                            (insert_into_node ops size_of fanout layer4 key value target))
                          λ _ (layer5, _).
                            continue (under layer5 base1 (below.set_parent base1 value target))
                              λ _ (layer6, base2).
                                beside base2 (report ops size_of fanout layer6 new_node_ptr parent)

  unfoldable pub insert_with_parent : L → ℕ → ℕ → B → ℕ → Attempt (Option (ℕ × ℕ × PA)) × (L × B)
  insert_with_parent layer key value base ptr =
      continue (beside base (get_node ops size_of fanout layer ptr)) λ node (layer1, _).
        let room =
          continue (beside base (insert_into_node ops size_of fanout layer1 key value ptr))
            λ _ (layer2, _).
              continue (under layer2 base (below.set_parent base value ptr))
                λ _ s. (done none, s) in
        if is_full node then split_insert_with_parent layer1 key value base ptr else room

  -- The internal components
  unfoldable pub internal_search : L → ℕ → ℕ → Attempt ℕ × L
  internal_search layer ptr key =
      continue (get_node ops size_of fanout layer ptr)
        λ node layer1. (attempt (get_lower_bound_always size_of node key), layer1)

  unfoldable pub internal_insert :
      L → B → PropagateInsert ℕ → Attempt (Option (PropagateInsert PA)) × (L × B)
  internal_insert layer base (single key address ptr) =
      continue (insert_with_parent layer key address base ptr) λ r s. (done (propagate r), s)
  internal_insert layer base (replace from to) = (panicked not_implemented, (layer, base))

module _ {L V PA : Type 0} (ops : DiskListOps L (BTreeNode V) PA) (size_of fanout : ℕ) where
  -- The base components
  unfoldable pub base_insert : L → ℕ → ℕ → V → Attempt (Option (PropagateInsert PA)) × L
  base_insert layer ptr key value =
      continue (insert ops size_of fanout layer key value ptr)
        λ r layer1. (done (propagate r), layer1)

  unfoldable pub base_search : L → ℕ → ℕ → Attempt (Option V) × L
  base_search layer ptr key =
      continue (get_node ops size_of fanout layer ptr)
        λ node layer1. (attempt (get_exact size_of node key), layer1)
