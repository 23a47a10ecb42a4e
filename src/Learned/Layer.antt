-- ===== src/Learned/Layer.antt =====
-- core/src/learned/pgm_memory (layer.rs and mod.rs): a layer of learned nodes in memory, and the components
-- made of it. The layer is its field `inner`, the list of its nodes.
use clearned_immutable.Prelude.{
  ℕ, Option, none, List, [], ◌∷◌, ◌++◌, Outcome, ok, fault, not_implemented, ◌>>=◌,
}
use clearned_immutable.MemoryList.Api.{ArenaApi}
use clearned_immutable.MemoryList.{Slot, MemoryList, clear, insert_before, index, set_index}
use clearned_immutable.MemoryList
use clearned_immutable.NodeLayer.{NodeLayer, unbounded, range, collect}
use clearned_immutable.BTreeComponents.{PropagateInsert, single, replace, propagate}
use clearned_immutable.LearnedSegment.{FloatApi, LinearModel, linear_simple_segmentation}
use clearned_immutable.Learned.{
  PgmNode, default_node, from_trained, node_search_exact, node_search_pir, grow_insert,
}

-- `into_iter().rev()`
abbrev pub backwards {ℓ} : {A : Type ℓ} → List A → List A
backwards [] = []
backwards (x ∷ xs) = backwards xs ++ x ∷ []

module _ (float : FloatApi) (max_key epsilon : ℕ) {V PA : Type 0}
    (api : ArenaApi (Slot (PgmNode float V) PA)) where
  abbrev pub MemoryPgmLayer : Type 0
  MemoryPgmLayer = MemoryList api

  unfoldable pub empty : MemoryPgmLayer
  empty = MemoryList.empty api (default_node float max_key)

  -- The segments are put in front of the node that `clear` leaves, from the last one on.
  unfoldable pub fill_backwards :
      List (LinearModel float × List (ℕ × V)) → ℕ → MemoryPgmLayer → Outcome MemoryPgmLayer
  fill_backwards [] ptr layer = ok layer
  fill_backwards ((model, entries) ∷ trained) ptr layer = do
    node ← from_trained float model entries
    (ptr', layer') ← insert_before api node ptr layer
    fill_backwards trained ptr' layer'

  unfoldable pub fill : MemoryPgmLayer → List (ℕ × V) → Outcome MemoryPgmLayer
  fill layer iter = do
    trained ← linear_simple_segmentation float epsilon iter
    let (ptr, layer') = clear api (default_node float max_key) layer
    fill_backwards (backwards trained) ptr layer'

  unfoldable pub insert :
      MemoryPgmLayer → ℕ → V → ℕ → Outcome (Option (ℕ × ℕ × PA) × MemoryPgmLayer)
  insert layer key value ptr = do
    node ← index api layer ptr
    node' ← grow_insert float node key value
    layer' ← set_index api layer ptr node'
    ok (none, layer')

  -- The base component
  unfoldable pub base_insert :
      MemoryPgmLayer → ℕ → ℕ → V → Outcome (Option (PropagateInsert PA) × MemoryPgmLayer)
  base_insert layer ptr key value = do
    (r, layer') ← insert layer key value ptr
    ok (propagate r, layer')

  unfoldable pub base_search : MemoryPgmLayer → ℕ → ℕ → Outcome (Option V)
  base_search layer ptr key = do node ← index api layer ptr; node_search_exact float node key

  unfoldable pub base_build : List (ℕ × V) → Outcome MemoryPgmLayer
  base_build iter = fill empty iter

-- The layers above another, whose entries are addresses. `below` is the trait of the layer below.
module _ (float : FloatApi) (max_key epsilon : ℕ) {PA B : Type 0}
    (api : ArenaApi (Slot (PgmNode float ℕ) PA)) (below : NodeLayer B ℕ) where
  abbrev Layer : Type 0
  Layer = MemoryList api

  unfoldable pub set_parents : List (ℕ × ℕ) → ℕ → B → Outcome B
  set_parents [] ptr base = ok base
  set_parents ((key, value) ∷ entries) ptr base =
      below.set_parent base value ptr >>= set_parents entries ptr

  unfoldable pub fill_above :
      List (LinearModel float × List (ℕ × ℕ)) → ℕ → Layer → B → Outcome (Layer × B)
  fill_above [] ptr layer base = ok (layer, base)
  fill_above ((model, entries) ∷ trained) ptr layer base = do
    node ← from_trained float model entries
    (ptr', layer') ← insert_before api node ptr layer
    base' ← set_parents entries ptr' base
    fill_above trained ptr' layer' base'

  -- `fill_will_parent`; the walk over the layer below runs on fuel.
  unfoldable pub fill_will_parent : ℕ → Layer → B → Outcome (Layer × B)
  fill_will_parent fuel layer base = do
    iter ← range below base unbounded unbounded
    items ← collect below fuel base iter
    trained ← linear_simple_segmentation float epsilon items
    let (ptr, layer') = clear api (default_node float max_key) layer
    fill_above (backwards trained) ptr layer' base

  unfoldable pub insert_with_parent :
      Layer → ℕ → ℕ → B → ℕ → Outcome (Option (ℕ × ℕ × PA) × Layer × B)
  insert_with_parent layer key value base ptr = do
    node ← index api layer ptr
    node' ← grow_insert float node key value
    layer' ← set_index api layer ptr node'
    base' ← below.set_parent base value ptr
    ok (none, layer', base')

  -- The internal component
  unfoldable pub internal_search : Layer → ℕ → ℕ → Outcome ℕ
  internal_search layer ptr key = do node ← index api layer ptr; node_search_pir float node key

  unfoldable pub internal_insert :
      Layer → B → PropagateInsert ℕ → Outcome (Option (PropagateInsert PA) × Layer × B)
  internal_insert layer base (single key address ptr) = do
    (r, layer', base') ← insert_with_parent layer key address base ptr
    ok (propagate r, layer', base')
  internal_insert layer base (replace from to) = fault not_implemented

  unfoldable pub internal_build : ℕ → B → Outcome (Layer × B)
  internal_build fuel base = fill_will_parent fuel (empty float max_key epsilon api) base
