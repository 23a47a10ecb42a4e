-- ===== src/Layout.antt =====
-- derive/src/component.rs and layout.rs: the layout of a store, from the components that the macro's
-- input names. Idents, tokens and literals are of the library syn: a component comes as its name and
-- its attributes, and an integer literal as what `base10_parse` makes of it.
pub mod Regions
pub mod Accepts
pub mod Limits
pub mod Emit
mod Tests
use Prim.Native.String.{String}
use text.Mathlib.Text.{◌==◌}
use clearned_immutable.Prelude.{
  ℕ, Bool, true, false, not, ◌&&◌, ◌||◌, Option, none, some, List, [], ◌∷◌, leb, ltb, if◌then◌else◌,
}

pub data LayoutError : Type 0 where
  invalid_top empty_layout no_base in_memory_below_persisted invalid_internal invalid_base :
      LayoutError
  unknown_component missing_attribute bad_attribute small_fanout epsilon_not_positive : LayoutError

-- `syn::Result`
pub data Parsed {ℓ} (A : Type ℓ) : Type ℓ where
  parsed : A → Parsed A
  bail : LayoutError → Parsed A

module _ {ℓ κ} {A : Type ℓ} {B : Type κ} where
  infixl 5 ◌>>=◌
  abbrev pub ◌>>=◌ : Parsed A → (A → Parsed B) → Parsed B
  parsed a >>= f = f a
  bail e >>= f = bail e

pub data Component : Type 0 where
  btree_top : Component
  btree : ℕ → Bool → Component
  pgm : ℕ → Component

abbrev pub is_persisted : Component → Bool
is_persisted btree_top = false
is_persisted (btree fanout persist) = persist
is_persisted (pgm epsilon) = false

pub data Expr : Type 0 where
  int_literal : Parsed ℕ → Expr
  other_expr : Expr

pub record Attribute : Type 0 where
  pub key : String
  pub value : Option Expr

-- `self.attrs.take(name)`: of equal keys the set has kept the first.
abbrev pub take_attr : String → List Attribute → Option Attribute
take_attr name [] = none
take_attr name (a ∷ attrs) = if a.key == name then some a else take_attr name attrs

unfoldable pub try_get_integer : List Attribute → String → Parsed ℕ
try_get_integer attrs name = elim (take_attr name attrs) [
  | none ↦ bail missing_attribute
  | some a ↦ elim a.value [
    | some (int_literal value) ↦ value
    | some other_expr ↦ bail bad_attribute
    | none ↦ bail bad_attribute
  ]
]

unfoldable pub try_get_bool : List Attribute → String → Parsed Bool
try_get_bool attrs name = elim (take_attr name attrs) [
  | none ↦ parsed false
  | some a ↦ elim a.value [ none ↦ parsed true | some _ ↦ bail bad_attribute ]
]

unfoldable pub parse_component : String → List Attribute → Parsed Component
unfolding try_get_integer try_get_bool
parse_component ident attrs =
    if ident == "btree_top"
    then parsed btree_top
    else if ident == "btree"
    then (do
      fanout ← try_get_integer attrs "fanout"
      persist ← try_get_bool attrs "persist"
      if leb 2 fanout then parsed (btree fanout persist) else bail small_fanout)
    else if ident == "pgm"
    then (do
      epsilon ← try_get_integer attrs "epsilon"
      if ltb 0 epsilon then parsed (pgm epsilon) else bail epsilon_not_positive)
    else bail unknown_component

pub data TopComponent : Type 0 where
  top_btree : TopComponent

abbrev pub top_try_new : Component → Option TopComponent
top_try_new btree_top = some top_btree
top_try_new (btree fanout persist) = none
top_try_new (pgm epsilon) = none

pub data PersistType : Type 0 where
  in_memory boundary_disk deep_disk : PersistType

pub data InternalComponent : Type 0 where
  internal_btree : ℕ → PersistType → InternalComponent
  internal_pgm : ℕ → InternalComponent

abbrev pub internal_try_new : Component → Bool → Option InternalComponent
internal_try_new (btree fanout false) false = some (internal_btree fanout in_memory)
internal_try_new (btree fanout true) false = some (internal_btree fanout boundary_disk)
internal_try_new (btree fanout true) true = some (internal_btree fanout deep_disk)
internal_try_new (pgm epsilon) is_parent_persisted = some (internal_pgm epsilon)
internal_try_new (btree fanout false) true = none
internal_try_new btree_top is_parent_persisted = none

pub data BaseComponent : Type 0 where
  base_btree : ℕ → PersistType → BaseComponent
  base_pgm : ℕ → BaseComponent

abbrev pub base_try_new : Component → Bool → Option BaseComponent
base_try_new (btree fanout false) false = some (base_btree fanout in_memory)
base_try_new (btree fanout true) false = some (base_btree fanout boundary_disk)
base_try_new (btree fanout true) true = some (base_btree fanout deep_disk)
base_try_new (pgm epsilon) is_parent_persisted = some (base_pgm epsilon)
base_try_new (btree fanout false) true = none
base_try_new btree_top is_parent_persisted = none

pub record HybridLayout : Type 0 where
  pub top : TopComponent
  pub internal : List InternalComponent
  pub base : BaseComponent

-- The components behind the first one: all but the last, and the last.
abbrev pub split_last : Component → List Component → List Component × Component
split_last c [] = ([], c)
split_last c (d ∷ ds) = let (init, last) = split_last d ds in (c ∷ init, last)

-- The loop over the internal components, and the flag `in_persisted_region` behind it.
unfoldable pub parse_internal : List Component → Bool → Parsed (List InternalComponent × Bool)
parse_internal [] in_persisted_region = parsed ([], in_persisted_region)
parse_internal (c ∷ cs) in_persisted_region =
    let rest = parse_internal cs (in_persisted_region || is_persisted c) in
    if not (is_persisted c) && in_persisted_region
    then bail in_memory_below_persisted
    else elim (internal_try_new c (is_persisted c && in_persisted_region)) [
      | none ↦ bail invalid_internal
      | some i ↦ (rest >>= λ (is, region). parsed (i ∷ is, region))
    ]

unfoldable pub parse : List Component → Parsed HybridLayout
unfolding parse_internal
parse [] = bail empty_layout
parse (first ∷ components) = elim (top_try_new first) [
  | none ↦ bail invalid_top
  | some top ↦ elim components [
    | [] ↦ bail no_base
    | second ∷ others ↦
        let (init, last) = split_last second others in
        parse_internal init (is_persisted first) >>= λ (internal, region).
        elim (base_try_new last region) [
          | none ↦ bail invalid_base
          | some base ↦ parsed (record { top = top; internal = internal; base = base })
        ]
  ]
]
