-- ===== src/Learned/Grown.antt =====
-- `grow_insert` of core/src/learned/node.rs.
use clearned_immutable.Prelude.{
  ℕ, ◌<◌, ◌≡◌, ◌≢◌, ◌↔◌, ◌⊎◌, inl, inr, refl, false, arith, Bool-cases, ok, fault, unwrapped_none,
  Outcome, Returns,
}
use clearned_immutable.GappedArray.{GappedKvArray, slot_count}
use clearned_immutable.GappedArray.Writes.{Result, success, failure, upsert_with_hint}
use clearned_immutable.GappedArray.Removal
use clearned_immutable.GappedArray.Slots.{IsGapped, Stores}
use clearned_immutable.GappedArray.Upsert.{IsFullOf}
use clearned_immutable.GappedArray.Counts.{count_full}
use clearned_immutable.GappedArray.Inserted.{IsUpsert, upsert_with_hint-IsUpsert}
use clearned_immutable.GappedArray.Rescaled.{IsScale, rescale-IsRescaled}
use clearned_immutable.LearnedSegment.{FloatApi, LinearModel, hint, pos}
use clearned_immutable.LearnedSegment
use clearned_immutable.Learned.{PgmNode, grown, put_in, grow_insert}

put_over :
    {Here Apart Old Old' New : Type 0}
    → Old ↔ Old'
    → New ↔ (Here ⊎ (Apart × Old))
    → New ↔ (Here ⊎ (Apart × Old'))
put_over same put = (
  λ s. elim (put.0 s) [ inl here ↦ inl here | inr (ne, s') ↦ inr (ne, same.0 s') ],
  λ s. put.1 (elim s [ inl here ↦ inl here | inr (ne, s') ↦ inr (ne, same.1 s') ]),
)

module _ (float : FloatApi) {V : Type 0} where
  -- The node is well formed, and maps the key to the value and the other keys as before.
  abbrev pub IsPut : PgmNode float V → ℕ → V → PgmNode float V → Type 0
  IsPut node key value node' =
      IsGapped node'.gapped
      × ((k : ℕ) (v : V)
          → Stores node'.gapped k v
            ↔ (((k ≡ key) × (v ≡ value)) ⊎ ((k ≢ key) × Stores node.gapped k v)))

  -- What an insertion comes to: a node, or the panic of the `unwrap` where no slot is free.
  abbrev pub IsPutIn : PgmNode float V → ℕ → V → Outcome (PgmNode float V) → Type 0
  IsPutIn node key value (ok node') = IsPut node key value node'
  IsPutIn node key value (fault e) =
      (e ≡ unwrapped_none) × IsFullOf node.gapped × ((v : V) → ¬ Stores node.gapped key v)

  -- The same, for the array as it was; it is full, and its size does not show it.
  abbrev pub IsGrown : PgmNode float V → ℕ → V → Outcome (PgmNode float V) → Type 0
  IsGrown node key value (ok node') = IsPut node key value node'
  IsGrown node key value (fault e) =
      (e ≡ unwrapped_none)
      × IsFullOf node.gapped
      × ((v : V) → ¬ Stores node.gapped key v)
      × (float.is_dense node.gapped.size (slot_count node.gapped) ≡ false)

  put_in-IsPutIn :
      (node : PgmNode float V) (key : ℕ) (value : V)
      → IsGapped node.gapped
      → 1 < slot_count node.gapped
      → IsPutIn node key value (put_in float node key value)
  put_in-IsPutIn node key value g several =
      after (upsert_with_hint-IsUpsert g key value (hint float node.model key) several)
    where
      after :
          Returns
            (upsert_with_hint node.gapped key value (hint float node.model key))
            (IsUpsert node.gapped key value)
          → IsPutIn node key value (put_in float node key value)
      after ((success _, b), run, u) = rw run (u.gapped, u.stores)
      after ((failure e, b), run, (_, full, absent)) = rw run (refl, full, absent)

  IsPutIn-IsPut :
      (node : PgmNode float V) (key : ℕ) (value : V) (r : Outcome (PgmNode float V))
      → ¬ IsFullOf node.gapped
      → IsPutIn node key value r
      → Returns r (IsPut node key value)
  IsPutIn-IsPut node key value (ok node') free h = (node', refl, h)
  IsPutIn-IsPut node key value (fault e) free (_, full, _) = absurd (free full)

  not_dense :
      (node : PgmNode float V) (key : ℕ) (value : V) (r : Outcome (PgmNode float V))
      → float.is_dense node.gapped.size (slot_count node.gapped) ≡ false
      → IsPutIn node key value r
      → IsGrown node key value r
  not_dense node key value (ok node') sparse h = h
  not_dense node key value (fault e) sparse (is, full, absent) = (is, full, absent, sparse)

  rescaled_node : PgmNode float V → GappedKvArray V → PgmNode float V
  rescaled_node node b = record {
    gapped = b;
    model = LearnedSegment.rescale float node.model (float.of_int (pos 2));
  }

  grown_run :
      (node : PgmNode float V) (r : Result {0} Unit × GappedKvArray V)
      → Removal.rescale false float.doubled node.gapped ≡ ok r
      → r.0 ≡ success tt
      → grown float node ≡ ok (rescaled_node node r.1)
  unfolding rescaled_node
  grown_run node (success tt, b) run fine = rw run refl
  grown_run node (failure e, b) run fine = absurd cc

  -- An insertion into a well-formed node of more than one slot, where doubling scales the slots in
  -- order, inside the new array and beyond the old one: either it returns, whether the array grew or
  -- not, and the node is well formed and maps the key to the value and every other key as before; or
  -- it panics at the `unwrap`, and then the key is new and every slot was taken although the `size` of the array, which
  -- may be less than the number of its entries, did not make it dense.
  pub grow_insert-IsGrown :
      (node : PgmNode float V) (key : ℕ) (value : V)
      → IsGapped node.gapped
      → 1 < slot_count node.gapped
      → IsScale float.doubled (slot_count node.gapped)
      → slot_count node.gapped < float.doubled (slot_count node.gapped)
      → IsGrown node key value (grow_insert float node key value)
  unfolding grow_insert rescaled_node
  grow_insert-IsGrown node key value g several scale more =
      elim (Bool-cases (float.is_dense node.gapped.size (slot_count node.gapped))) [
        | inr sparse ↦
            rw (grow_insert, sparse)
              (not_dense node key value _ sparse (put_in-IsPutIn node key value g several))
        | inl dense ↦
            let ((result, b), run, (fine, gb, slots, _, count, stores)) =
              rescale-IsRescaled g scale in
            let (node', put, (g', stores')) =
              IsPutIn-IsPut (rescaled_node node b) key value _
                (λ taken. omega (arith, slots, count, count_full b.bitmap taken))
                (put_in-IsPutIn (rescaled_node node b) key value gb (omega (arith, slots))) in
            rw (grow_insert, dense)
              (rw (grown_run node (result, b) run fine)
                (rw put (g', λ k v. put_over (stores k v) (stores' k v))))
      ]
