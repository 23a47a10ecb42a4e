-- ===== src/Codegen/Running.antt =====
-- What the statements that derive/src/codegen emits do: the emitted methods `search` and `insert` run on
-- the components of a store, with the calls of the traits in core/src/component.rs.
use clearned_immutable.Prelude.{
  ℕ, Bool, true, false, ◌&&◌, Option, none, some, List, [], ◌∷◌, ◌==◌, if◌then◌else◌,
}
use clearned_immutable.BTreeComponents.{PropagateInsert}
use clearned_immutable.PageStore.{Attempt, done, failed, panicked}
use clearned_immutable.Codegen.{
  Letter, upper_a, upper_c, lower_a, lower_c, lower_s, lower_i, result_word, Ident, ident,
  Statement, let_top_search, let_search, let_base_search, return_var, let_result, insert_base,
  insert_internal, insert_top, return_result,
}

-- The components of one store, in the fields of the emitted struct, over a state `S` of all of them.
-- A component whose methods return a `Result` is persisted; the calls of the others do not fail.
pub record Components (S V : Type 0) : Type 0 where
  pub is_persisted : Ident → Bool
  pub top_search : Ident → Ident → S → ℕ → Attempt ℕ × S
  pub internal_search : Ident → Ident → S → ℕ → ℕ → Attempt ℕ × S
  pub base_search : Ident → S → ℕ → ℕ → Attempt (Option V) × S
  pub base_insert : Ident → S → ℕ → ℕ → V → Attempt (Option (PropagateInsert ℕ)) × S
  pub internal_insert :
      Ident → Ident → S → PropagateInsert ℕ → Attempt (Option (PropagateInsert ℕ)) × S
  pub top_insert : Ident → Ident → S → PropagateInsert ℕ → Attempt Unit × S

abbrev pub same_letter : Letter → Letter → Bool
same_letter upper_a upper_a = true
same_letter upper_c upper_c = true
same_letter lower_a lower_a = true
same_letter lower_c lower_c = true
same_letter lower_s lower_s = true
same_letter lower_i lower_i = true
same_letter result_word result_word = true
same_letter _ _ = false

abbrev pub same_ident : Ident → Ident → Bool
same_ident a b = same_letter a.letter b.letter && (a.number == b.number)

-- What a variable of the emitted code holds.
pub data Value (V : Type 0) : Type 0 where
  address : ℕ → Value V
  found : Option V → Value V
  split : PropagateInsert ℕ → Value V

abbrev pub Env : Type 0 → Type 0
Env V = List (Ident × Value V)

abbrev pub find_var : {V : Type 0} → Ident → Env V → Option (Value V)
find_var x [] = none
find_var x ((y, v) ∷ env) = if same_ident x y then some v else find_var x env

module _ {V : Type 0} where
  -- A variable of one type; `none` where rustc would refuse the program.
  abbrev address_of : Option (Value V) → Option ℕ
  address_of (some (address a)) = some a
  address_of _ = none

  abbrev found_of : Option (Value V) → Option (Option V)
  found_of (some (found r)) = some r
  found_of _ = none

  abbrev split_of : Option (Value V) → Option (PropagateInsert ℕ)
  split_of (some (split p)) = some p
  split_of _ = none

abbrev pub same_bool : Bool → Bool → Bool
same_bool true b = b
same_bool false true = false
same_bool false false = true

-- A run of a method body, or `none` where rustc would refuse it.
abbrev pub Run : Type 0 → Type 0 → Type 0
Run S V = Option (Attempt (Option V) × S)

module _ {S V : Type 0} where
  -- Goes on after a call that succeeds; the method returns the error of one that fails.
  abbrev pub proceed : {A : Type 0} → Attempt A × S → (A → S → Run S V) → Run S V
  proceed (done a, s) next = next a s
  proceed (failed e, s) next = some (failed e, s)
  proceed (panicked e, s) next = some (panicked e, s)

  abbrev pub given : {A : Type 0} → Option A → (A → Run S V) → Run S V
  given none next = none
  given (some a) next = next a

  -- `if let Some(x) = .. { .. } else { return result; }`
  abbrev pub or_return :
      Option V → Option (PropagateInsert ℕ) → S → (PropagateInsert ℕ → Run S V) → Run S V
  or_return old none s next = some (done old, s)
  or_return old (some p) s next = next p

  abbrev checked : Bool → Run S V → Run S V
  checked true run = run
  checked false run = none

abbrev pub result_var : Ident
result_var = ident result_word 0

module _ {S V : Type 0} (c : Components S V) (fallible : Bool) (key : ℕ) (value : V) where
  -- `fallible` says whether the emitted method returns a `Result`. A call must have the `?` just when
  -- its method returns a `Result`.
  unfoldable pub exec : List Statement → Env V → S → Run S V
  exec [] env s = none
  exec (let_top_search var field next ∷ rest) env s =
      proceed (c.top_search field next s key) λ a s'. exec rest ((var, address a) ∷ env) s'
  exec (let_search tried var field next prev ∷ rest) env s =
      checked (same_bool tried (c.is_persisted field)) (
        given (address_of (find_var prev env)) λ a.
          proceed (c.internal_search field next s a key)
            λ a' s'. exec rest ((var, address a') ∷ env) s')
  exec (let_base_search tried var field prev ∷ rest) env s =
      checked (same_bool tried (c.is_persisted field)) (
        given (address_of (find_var prev env))
          λ a. proceed (c.base_search field s a key) λ r s'. exec rest ((var, found r) ∷ env) s')
  exec (return_var wrapped var ∷ rest) env s =
      checked (same_bool wrapped fallible)
        (given (found_of (find_var var env)) λ r. some (done r, s))
  exec (let_result ∷ rest) env s =
      given (found_of (find_var (ident lower_s 0) env))
        λ r. exec rest ((result_var, found r) ∷ env) s
  exec (insert_base tried var field search ∷ rest) env s =
      checked (same_bool tried (c.is_persisted field)) (
        given (address_of (find_var search env)) λ a.
          given (found_of (find_var result_var env)) λ old.
            proceed (c.base_insert field s a key value)
              λ r s'. or_return old r s' λ p. exec rest ((var, split p) ∷ env) s')
  exec (insert_internal tried var field prev_field prev_var ∷ rest) env s =
      checked (same_bool tried (c.is_persisted field)) (
        given (split_of (find_var prev_var env)) λ up.
          given (found_of (find_var result_var env)) λ old.
            proceed (c.internal_insert field prev_field s up)
              λ r s'. or_return old r s' λ p. exec rest ((var, split p) ∷ env) s')
  exec (insert_top var field prev_field prev_var ∷ rest) env s =
      given (split_of (find_var prev_var env))
        λ up. proceed (c.top_insert field prev_field s up) λ _ s'. exec rest env s'
  exec (return_result wrapped ∷ rest) env s =
      checked (same_bool wrapped fallible)
        (given (found_of (find_var result_var env)) λ r. some (done r, s))
