-- ===== src/Layout/Limits.antt =====
-- The bounds that derive/src/component.rs puts on the attributes.
use Prim.Native.String.{String}
use text.Mathlib.Text.{◌==◌}
use clearned_immutable.Prelude.{
  ℕ, ◌≤◌, ◌<◌, ◌≡◌, inl, inr, List, arith, leb, ltb, if◌then◌else◌, Bool-cases,
}
use clearned_immutable.Layout.{
  parsed, bail, Component, btree_top, btree, pgm, Attribute, try_get_integer, try_get_bool,
  parse_component, small_fanout, epsilon_not_positive, unknown_component,
}
use clearned_immutable.Layout.Accepts.{bind-inv}

-- A node of a B-tree has at least two entries, and the error of a model is positive.
abbrev pub IsWithin : Component → Type 0
IsWithin btree_top = Unit
IsWithin (btree fanout persist) = 2 ≤ fanout
IsWithin (pgm epsilon) = 0 < epsilon

btree-IsWithin :
    (fanout : ℕ) (persist : _) (c : Component)
    → (if leb 2 fanout then parsed (btree fanout persist) else bail small_fanout) ≡ parsed c
    → IsWithin c
btree-IsWithin fanout persist c h = elim (Bool-cases (leb 2 fanout)) [
  | inl enough ↦
      let made : parsed (btree fanout persist) ≡ parsed c = rw enough at h in
      let e : btree fanout persist ≡ c = cc in rw⁻¹ e (ground arith)
  | inr small ↦ let bad : bail small_fanout ≡ parsed c = rw small at h in cc
]

pgm-IsWithin :
    (epsilon : ℕ) (c : Component)
    → (if ltb 0 epsilon then parsed (pgm epsilon) else bail epsilon_not_positive) ≡ parsed c
    → IsWithin c
pgm-IsWithin epsilon c h = elim (Bool-cases (ltb 0 epsilon)) [
  | inl enough ↦
      let made : parsed (pgm epsilon) ≡ parsed c = rw enough at h in
      let e : pgm epsilon ≡ c = cc in rw⁻¹ e (ground arith)
  | inr small ↦ let bad : bail epsilon_not_positive ≡ parsed c = rw small at h in cc
]

-- A component that parses has a fanout of at least two, or a positive epsilon.
pub parse_component-IsWithin :
    (ident : String) (attrs : List Attribute) (c : Component)
    → parse_component ident attrs ≡ parsed c
    → IsWithin c
unfolding parse_component
parse_component-IsWithin ident attrs c h = elim (Bool-cases (ident == "btree_top")) [
  | inl top ↦
      let made : parsed btree_top ≡ parsed c = rw top at h in
      let e : btree_top ≡ c = cc in rw⁻¹ e tt
  | inr other ↦ elim (Bool-cases (ident == "btree")) [
    | inl tree ↦
        let (fanout, _, rest) =
          bind-inv (try_get_integer attrs "fanout") _ c (rw (other, tree) at h) in
        let (persist, _, made) = bind-inv (try_get_bool attrs "persist") _ c rest in
        btree-IsWithin fanout persist c made
    | inr no_tree ↦ elim (Bool-cases (ident == "pgm")) [
      | inl model ↦
          let (epsilon, _, made) =
            bind-inv (try_get_integer attrs "epsilon") _ c (rw (other, no_tree, model) at h) in
          pgm-IsWithin epsilon c made
      | inr unknown ↦
          let bad : bail unknown_component ≡ parsed c = rw (other, no_tree, unknown) at h in cc
    ]
  ]
]
