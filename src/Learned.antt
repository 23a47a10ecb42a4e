-- ===== src/Learned.antt =====
-- core/src/learned/node.rs: a node with a linear model of the places of its keys in a gapped array. The
-- `unwrap` of an `Err` is a fault like that of a `None`.
pub mod Layer
pub mod Trained
pub mod Filled
pub mod Grown
mod Tests
use clearned_immutable.Prelude.{
  ℕ, ◌*◌, ◌-◌, min, Bool, true, false, Option, none, some, List, [], ◌∷◌, length, if◌then◌else◌,
  Outcome, ok, fault, unwrapped_none, ◌>>=◌,
}
use clearned_immutable.GappedArray.{
  GappedKvArray, new, slot_count, min_key, min_val, search_exact, search_pir,
}
use clearned_immutable.GappedArray.Writes.{
  Result, success, failure, initial_model_based_insert, upsert_with_hint,
}
use clearned_immutable.GappedArray.Removal
use clearned_immutable.LearnedSegment.{FloatApi, pos, LinearModel, hint, sentinel}
use clearned_immutable.LearnedSegment

pub record PgmNode (float : FloatApi) (V : Type 0) : Type 0 where
  pub gapped : GappedKvArray V
  pub model : LinearModel float

-- `unwrap` of a `Result`, with the array that is left.
abbrev pub unwrap_result :
    {V : Type 0} → Result {0} Unit × GappedKvArray V → Outcome (GappedKvArray V)
unwrap_result (success _, gapped) = ok gapped
unwrap_result (failure _, gapped) = fault unwrapped_none

-- `max_key` is `K::max_ref()`
module _ (float : FloatApi) {V : Type 0} (max_key : ℕ) where
  unfoldable pub lower_bound : PgmNode float V → Outcome ℕ
  lower_bound node = do
    least ← min_key node.gapped
    elim least [ none ↦ ok max_key | some key ↦ ok key ]

  unfoldable pub default_node : PgmNode float V
  default_node = record { gapped = new 0; model = sentinel float max_key }

module _ (float : FloatApi) {V : Type 0} where
  abbrev pub fill_trained :
      LinearModel float → List (ℕ × V) → GappedKvArray V → Outcome (GappedKvArray V)
  fill_trained model [] gapped = ok gapped
  fill_trained model ((key, value) ∷ entries) gapped = do
    let place = min (hint float model key) (slot_count gapped - 1)
    inserted ← initial_model_based_insert gapped key value place
    gapped' ← unwrap_result inserted
    fill_trained model entries gapped'

  unfoldable pub from_trained : LinearModel float → List (ℕ × V) → Outcome (PgmNode float V)
  from_trained model entries = do
    gapped ← fill_trained model entries (new (length entries * 2))
    ok (record { gapped = gapped; model = model })

  unfoldable pub node_search_exact : PgmNode float V → ℕ → Outcome (Option V)
  node_search_exact node key = search_exact node.gapped key (some (hint float node.model key))

  unfoldable pub node_search_pir : PgmNode float V → ℕ → Outcome V
  node_search_pir node key = do
    below ← search_pir node.gapped key (some (hint float node.model key))
    elim below [
      | some val ↦ ok val
      | none ↦ do
        least ← min_val node.gapped
        elim least [ none ↦ fault unwrapped_none | some val ↦ ok val ]
    ]

  -- The array is doubled, and the model with it, if the array is dense.
  abbrev pub grown : PgmNode float V → Outcome (PgmNode float V)
  grown node = do
    rescaled ← Removal.rescale false float.doubled node.gapped
    gapped ← unwrap_result rescaled
    ok (record {
      gapped = gapped;
      model = LearnedSegment.rescale float node.model (float.of_int (pos 2));
    })

  abbrev pub put_in : PgmNode float V → ℕ → V → Outcome (PgmNode float V)
  put_in node key value = do
    inserted ← upsert_with_hint node.gapped key value (hint float node.model key)
    gapped ← unwrap_result inserted
    ok (record node { gapped = gapped })

  unfoldable pub grow_insert : PgmNode float V → ℕ → V → Outcome (PgmNode float V)
  grow_insert node key value =
      let larger = grown node >>= λ node'. put_in node' key value in
      if float.is_dense node.gapped.size (slot_count node.gapped)
      then larger
      else put_in node key value
