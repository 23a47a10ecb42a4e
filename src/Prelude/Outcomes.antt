-- ===== src/Prelude/Outcomes.antt =====
-- Runs of Rust code that may panic, or step outside what the language defines.
use mathlib.Core.Path.{◌≡◌}

-- `null_index`: an `expect` on an absent value; `unwrapped_none`: an `unwrap` of `None`;
-- `out_of_bounds`: an index or a raw copy past the end; `uninitialized`: a read of uninitialised
-- memory; `assertion`: an `assert!`; `unreachable_id`: an index that the arena does not hold;
-- `not_implemented`: an `unimplemented!`; `already_loaded`: the `panic!` of a second load;
-- `endless`: a loop that the fuel of the model does not end.
pub data Fault : Type 0 where
  null_index unwrapped_none out_of_bounds uninitialized assertion unreachable_id : Fault
  not_implemented already_loaded endless : Fault

pub data Outcome {ℓ} (A : Type ℓ) : Type ℓ where
  ok : A → Outcome A
  fault : Fault → Outcome A

module _ {ℓ κ} {A : Type ℓ} {B : Type κ} where
  infixl 5 ◌>>=◌
  abbrev pub ◌>>=◌ : Outcome A → (A → Outcome B) → Outcome B
  ok a >>= f = f a
  fault e >>= f = fault e

-- The run ends normally, in a value that satisfies `P`.
abbrev pub Returns {ℓ κ} : {A : Type ℓ} → Outcome A → (A → Type κ) → Type (ℓ ⊔ κ)
Returns {A} r P = (a : A) × (r ≡ ok a) × P a
