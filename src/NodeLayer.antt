-- ===== src/NodeLayer.antt =====
-- core/src/node_layer.rs and iter.rs: what the layers have in common, and the walk over the nodes of
-- a layer between two bounds. An address is a number: the code only copies addresses and compares
-- them. The trait is the record `NodeLayer` of its operations, and the layer the state they act on.
pub mod Memory
pub mod Walk
pub mod Yields
mod Tests
use clearned_immutable.Prelude.{
  ℕ, zero, suc, Bool, true, false, Option, none, some, List, [], ◌∷◌, ◌==◌, if◌then◌else◌, Outcome,
  ok, fault, endless, ◌>>=◌,
}

pub record NodeLayer {ℓ} (L PA : Type ℓ) : Type ℓ where
  pub parent : L → ℕ → Outcome (Option PA)
  pub set_parent : L → ℕ → PA → Outcome L
  pub lower_bound : L → ℕ → Outcome ℕ
  pub next : L → ℕ → Outcome (Option ℕ)
  pub prev : L → ℕ → Outcome (Option ℕ)
  pub first : L → ℕ
  pub last : L → ℕ

pub data Bound : Type 0 where
  included : ℕ → Bound
  excluded : ℕ → Bound
  unbounded : Bound

-- `stop` is the field `end`
pub record Iter : Type 0 where
  pub current : Option ℕ
  pub stop : Bound

abbrev pub is_excluded : Bound → ℕ → Bool
is_excluded (excluded stop) current = current == stop
is_excluded (included stop) current = false
is_excluded unbounded current = false

abbrev pub is_included : Bound → ℕ → Bool
is_included (included stop) current = current == stop
is_included (excluded stop) current = false
is_included unbounded current = false

module _ {ℓ} {L PA : Type ℓ} (layer : NodeLayer L PA) where
  unfoldable pub range : L → Bound → Bound → Outcome Iter
  range l (excluded start) stop = do
    current ← layer.next l start
    ok (record { current = current; stop = stop })
  range l (included start) stop = ok (record { current = some start; stop = stop })
  range l unbounded stop = ok (record { current = some (layer.first l); stop = stop })

  -- `self.layer.next(current)`, if there is a current address
  abbrev pub advance : L → Option ℕ → Outcome (Option ℕ)
  advance l none = ok none
  advance l (some current) = layer.next l current

  -- The item at the current address, after which the iterator is advanced.
  abbrev pub emit : L → Iter → ℕ → Outcome (Option (ℕ × ℕ) × Iter)
  emit l iter current = do
    following ← advance l (if is_included iter.stop current then none else some current)
    key ← layer.lower_bound l current
    ok (some (key, current), record iter { current = following })

  unfoldable pub step : L → Iter → Outcome (Option (ℕ × ℕ) × Iter)
  step l iter = elim iter.current [
    | none ↦ ok (none, iter)
    | some current ↦ if is_excluded iter.stop current then ok (none, iter) else emit l iter current
  ]

  -- `IterMut` has the statements of `Iter`; its view on the parent is the address of the node.
  unfoldable pub range_mut : L → Bound → Bound → Outcome Iter
  range_mut l start stop = range l start stop

  unfoldable pub step_mut : L → Iter → Outcome (Option (ℕ × ℕ) × Iter)
  step_mut l iter = step l iter

  abbrev pub set_view : L → ℕ → PA → Outcome L
  set_view l address parent = layer.set_parent l address parent

  -- A loop over the iterator: what it yields. A loop that is still running at the end of the fuel is
  -- a fault.
  unfoldable pub collect : ℕ → L → Iter → Outcome (List (ℕ × ℕ))
  collect zero l iter = fault endless
  collect (suc fuel) l iter = do
    (item, iter') ← step l iter
    elim item [ none ↦ ok [] | some pair ↦ do rest ← collect fuel l iter'; ok (pair ∷ rest) ]
