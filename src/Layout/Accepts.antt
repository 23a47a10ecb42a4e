-- ===== src/Layout/Accepts.antt =====
-- What derive/src/layout.rs accepts is a regular layout.
use clearned_immutable.Prelude.{
  ◌≡◌, refl, ap, ◌∙◌, inl, inr, Bool, true, false, not, ◌&&◌, ◌||◌, none, some, List, [], ◌∷◌, ◌++◌,
  map, Bool-cases, Option-cases,
}
use clearned_immutable.Layout.{
  Parsed, parsed, bail, ◌>>=◌, Component, btree_top, btree, pgm, is_persisted, top_btree, in_memory,
  boundary_disk, deep_disk, InternalComponent, internal_btree, internal_pgm, internal_try_new,
  BaseComponent, base_btree, base_pgm, base_try_new, HybridLayout, split_last, parse_internal,
  parse, in_memory_below_persisted, invalid_internal, invalid_base,
}
use clearned_immutable.Layout.Regions.{
  written_internal, written_base, written, fits_internal, fits_base, region_after, all_fit,
  is_regular,
}

pub bind-inv {ℓ κ} :
    {A : Type ℓ} {B : Type κ} (r : Parsed A) (f : A → Parsed B) (b : B)
    → (r >>= f) ≡ parsed b
    → (a : A) × (r ≡ parsed a) × (f a ≡ parsed b)
bind-inv (parsed a) f b h = (a, refl, h)
bind-inv (bail e) f b h = cc

internal_try_new-inv :
    (c : Component) (region : Bool) (i : InternalComponent)
    → (not (is_persisted c) && region) ≡ false
    → internal_try_new c (is_persisted c && region) ≡ some i
    → (written_internal i ≡ c) × (fits_internal region i ≡ true)
internal_try_new-inv btree_top region i out h = cc
internal_try_new-inv (btree fanout false) true i out h = cc
internal_try_new-inv (btree fanout false) false i out h =
    let e : internal_btree fanout in_memory ≡ i = cc in rw⁻¹ e (refl, refl)
internal_try_new-inv (btree fanout true) true i out h =
    let e : internal_btree fanout deep_disk ≡ i = cc in rw⁻¹ e (refl, refl)
internal_try_new-inv (btree fanout true) false i out h =
    let e : internal_btree fanout boundary_disk ≡ i = cc in rw⁻¹ e (refl, refl)
internal_try_new-inv (pgm epsilon) true i out h = cc
internal_try_new-inv (pgm epsilon) false i out h =
    let e : internal_pgm epsilon ≡ i = cc in rw⁻¹ e (refl, refl)

base_try_new-inv :
    (c : Component) (region : Bool) (b : BaseComponent)
    → base_try_new c region ≡ some b
    → (written_base b ≡ c) × (fits_base region b ≡ true)
base_try_new-inv btree_top region b h = cc
base_try_new-inv (btree fanout false) true b h = cc
base_try_new-inv (btree fanout false) false b h =
    let e : base_btree fanout in_memory ≡ b = cc in rw⁻¹ e (refl, refl)
base_try_new-inv (btree fanout true) true b h =
    let e : base_btree fanout deep_disk ≡ b = cc in rw⁻¹ e (refl, refl)
base_try_new-inv (btree fanout true) false b h =
    let e : base_btree fanout boundary_disk ≡ b = cc in rw⁻¹ e (refl, refl)
base_try_new-inv (pgm epsilon) region b h = let e : base_pgm epsilon ≡ b = cc in rw⁻¹ e (refl, refl)

parse_internal-inv :
    (cs : List Component) (region : Bool) (is : List InternalComponent) (r : Bool)
    → parse_internal cs region ≡ parsed (is, r)
    → (map written_internal is ≡ cs) × (all_fit region is ≡ true) × (region_after region is ≡ r)
unfolding parse_internal
parse_internal-inv [] region is r h =
    let e : [] ≡ is = cc in let f : region ≡ r = cc in rw⁻¹ e (refl, refl, f)
parse_internal-inv (c ∷ cs) region is r h = elim (Bool-cases (not (is_persisted c) && region)) [
  | inl out ↦ let bad : bail in_memory_below_persisted ≡ parsed (is, r) = rw out at h in cc
  | inr out ↦ elim (Option-cases (internal_try_new c (is_persisted c && region))) [
    | inl refused ↦ let bad : bail invalid_internal ≡ parsed (is, r) = rw (out, refused) at h in cc
    | inr (i, made) ↦
        let ((is', r'), e, f) =
          bind-inv (parse_internal cs (region || is_persisted c)) (λ (is, r). parsed (i ∷ is, r))
            (is, r) (rw (out, made) at h) in
        let (same, fits) = internal_try_new-inv c region i out made in
        let (w, fit, after) = parse_internal-inv cs (region || is_persisted c) is' r' e in
        let shape : i ∷ is' ≡ is = cc in
        let end : r' ≡ r = cc in
        rw⁻¹ shape (rw (same, w) refl, rw (same, fits) fit, rw (region_after, same) (after ∙ end))
  ]
]

split_last-inv :
    (c : Component) (cs : List Component) → (split_last c cs).0 ++ (split_last c cs).1 ∷ [] ≡ c ∷ cs
split_last-inv c [] = refl
split_last-inv c (d ∷ ds) = ap (λ t. c ∷ t) (split_last-inv d ds)

-- The end of a parse, where the internal layers are known.
base_is :
    (layout : HybridLayout) (c : Component) (cs : List Component) (is : List InternalComponent)
    (region : Bool)
    → map written_internal is ≡ (split_last c cs).0
    → all_fit false is ≡ true
    → region_after false is ≡ region
    → elim (base_try_new (split_last c cs).1 region) [
      | none ↦ bail invalid_base
      | some base ↦ parsed (record { top = top_btree; internal = is; base = base })
    ]
      ≡ parsed layout
    → (written layout ≡ btree_top ∷ c ∷ cs) × (is_regular layout ≡ true)
base_is layout c cs is region w fit after f =
    elim (Option-cases (base_try_new (split_last c cs).1 region)) [
      | inl refused ↦ let bad : bail invalid_base ≡ parsed layout = rw refused at f in cc
      | inr (b, made) ↦
          let (same, fits) = base_try_new-inv (split_last c cs).1 region b made in
          let got : HybridLayout = record { top = top_btree; internal = is; base = b } in
          let e : parsed got ≡ parsed layout = rw made at f in
          let shape : got ≡ layout = cc in
          rw⁻¹ shape
            (ap (λ t. btree_top ∷ t) (rw (w, same) (split_last-inv c cs)), rw (fit, after) fits)
    ]

-- A layout that the macro accepts has the layers that were written and no others, and is regular: of its
-- B-tree and internal layers, those in memory come first, then at most one boundary, then those deep on
-- disk. A learned base, which is in memory, may stand below any of them.
pub parse-inv :
    (cs : List Component) (layout : HybridLayout)
    → parse cs ≡ parsed layout
    → (written layout ≡ cs) × (is_regular layout ≡ true)
unfolding parse
parse-inv [] layout h = cc
parse-inv (btree fanout persist ∷ cs) layout h = cc
parse-inv (pgm epsilon ∷ cs) layout h = cc
parse-inv (btree_top ∷ []) layout h = cc
parse-inv (btree_top ∷ c ∷ cs) layout h =
    let ((is, region), e, f) = bind-inv (parse_internal (split_last c cs).0 false) _ layout h in
    let (w, fit, after) = parse_internal-inv (split_last c cs).0 false is region e in
    base_is layout c cs is region w fit after f
