-- ===== src/Codegen/Aliases.antt =====
-- `create_type_aliases` of derive/src/codegen/mod.rs: the names that the emitted module gives to the
-- address types and to the types of the components, from the base to the top.
use Prim.Native.String.{String}
use clearned_immutable.Prelude.{
  ℕ, zero, suc, ◌+◌, ◌-◌, ◌≡◌, refl, ap, ◌∙◌, List, [], ◌∷◌, ◌++◌, arith, length, length-append,
  Outcome, ok, fault, unwrapped_none, ◌>>=◌, Returns,
}
use clearned_immutable.SortedArray.{at}
use clearned_immutable.Layout.{InternalComponent, HybridLayout}
use clearned_immutable.Layout.Emit.{
  TypeExpr, top_component_type, internal_component_type, internal_address_type, base_component_type,
  base_address_type,
}
use clearned_immutable.Codegen.{upper_a, upper_c, Ident, ident, idents, count_from, reverse}
use clearned_immutable.Codegen.Emitted.{at-idents}

-- `type #alias = #body;`, where the top has the unit type
pub data AddressBody : Type 0 where
  address_named : String → AddressBody
  address_unit : AddressBody

pub record Aliases : Type 0 where
  pub addresses : List (Ident × AddressBody)
  pub components : List (Ident × TypeExpr Ident)

abbrev pub last_of : List Ident → Outcome Ident
last_of [] = fault unwrapped_none
last_of (x ∷ []) = ok x
last_of (x ∷ y ∷ xs) = last_of (y ∷ xs)

module _ (address_alias type_alias : List Ident) where
  -- The rounds for the components from `index` on.
  unfoldable pub internal_addresses :
      List InternalComponent → ℕ → Outcome (List (Ident × AddressBody))
  internal_addresses [] index = ok []
  internal_addresses (c ∷ cs) index = do
    alias ← at address_alias index
    later ← internal_addresses cs (index + 1)
    ok ((alias, address_named (internal_address_type c)) ∷ later)

  unfoldable pub internal_components :
      List InternalComponent → ℕ → Outcome (List (Ident × TypeExpr Ident))
  internal_components [] index = ok []
  internal_components (c ∷ cs) index = do
    base_address_alias ← at address_alias (index - 1)
    parent_address_alias ← at address_alias (index + 1)
    alias ← at type_alias index
    later ← internal_components cs (index + 1)
    ok ((alias, internal_component_type c base_address_alias parent_address_alias) ∷ later)

unfoldable pub create_type_aliases : HybridLayout → Outcome Aliases
create_type_aliases layout =
    let n = length layout.internal in
    let address_alias = idents upper_a n in
    let type_alias = idents upper_c n in
    do
      base_alias ← at address_alias 0
      internal ← internal_addresses address_alias type_alias (reverse layout.internal) 1
      top_alias ← last_of address_alias
      base_parent ← at address_alias 1
      base_type ← at type_alias 0
      types ← internal_components address_alias type_alias (reverse layout.internal) 1
      top_base ← at address_alias (n + 1 - 1)
      top_type ← at type_alias (n + 1)
      ok (record {
        addresses =
            (base_alias, address_named (base_address_type layout.base))
            ∷ (internal ++ (top_alias, address_unit) ∷ []);
        components =
            (base_type, base_component_type layout.base base_parent)
            ∷ (types ++ (top_type, top_component_type layout.top top_base) ∷ []);
      })

-- What the two aliases at the place `index` are, for the internal components `cs` from there on.
abbrev pub address_name : ℕ → Ident
address_name n = ident upper_a n

abbrev pub type_name : ℕ → Ident
type_name n = ident upper_c n

abbrev pub addresses_from : List InternalComponent → ℕ → List (Ident × AddressBody)
addresses_from [] index = (address_name index, address_unit) ∷ []
addresses_from (c ∷ cs) index =
    (address_name index, address_named (internal_address_type c)) ∷ addresses_from cs (suc index)

-- A component is given the address type below it, and the one above it.
abbrev pub components_from :
    HybridLayout → List InternalComponent → ℕ → List (Ident × TypeExpr Ident)
components_from layout [] below =
    (type_name (suc below), top_component_type layout.top (address_name below)) ∷ []
components_from layout (c ∷ cs) below =
    (
      type_name (suc below),
      internal_component_type c (address_name below) (address_name (suc (suc below))),
    )
    ∷ components_from layout cs (suc below)

last_of-count : (st n : ℕ) → last_of (count_from upper_a st (suc n)) ≡ ok (address_name (st + n))
last_of-count st zero = let e : st ≡ st + 0 = omega arith in ap (λ i. ok (address_name i)) e
last_of-count st (suc n) =
    let e : suc st + n ≡ st + suc n = omega arith in
    last_of-count (suc st) n ∙ ap (λ i. ok (address_name i)) e

length-reverse {ℓ} : {A : Type ℓ} (xs : List A) → length (reverse xs) ≡ length xs
length-reverse [] = refl
length-reverse (x ∷ xs) = length-append (reverse xs) _ ∙ omega (arith, length-reverse xs)

module _ (layout : HybridLayout) where
  abbrev n : ℕ
  n = length layout.internal

  internal_addresses-from :
      (cs : List InternalComponent) (index : ℕ)
      → index + length cs ≡ suc n
      → Returns
          (internal_addresses (idents upper_a n) (idents upper_c n) cs index)
          λ xs. xs ++ (address_name (suc n), address_unit) ∷ [] ≡ addresses_from cs index
  unfolding internal_addresses
  internal_addresses-from [] index e =
      let end : suc n ≡ index = omega arith in
      ([], refl, ap (λ i. (address_name i, address_unit) ∷ []) end)
  internal_addresses-from (c ∷ cs) index e =
      let (xs, run, same) = internal_addresses-from cs (suc index) (omega arith) in
      let next : index + 1 ≡ suc index = omega arith in
      (
        _ ∷ xs,
        rw (internal_addresses, at-idents upper_a n index (omega arith)) (rw next (rw (run))),
        ap (λ ys. (address_name index, address_named (internal_address_type c)) ∷ ys) same,
      )

  internal_components-from :
      (cs : List InternalComponent) (below : ℕ)
      → below + length cs ≡ n
      → Returns (internal_components (idents upper_a n) (idents upper_c n) cs (suc below)) λ xs.
        xs ++ (type_name (suc n), top_component_type layout.top (address_name n)) ∷ []
        ≡ components_from layout cs below
  unfolding internal_components
  internal_components-from [] below e =
      let end : n ≡ below = omega arith in
      (
        [],
        refl,
        ap (λ i. (type_name (suc i), top_component_type layout.top (address_name i)) ∷ []) end,
      )
  internal_components-from (c ∷ cs) below e =
      let (xs, run, same) = internal_components-from cs (suc below) (omega arith) in
      let next : suc below + 1 ≡ suc (suc below) = omega arith in
      let before : suc below - 1 ≡ below = omega arith in
      (
        _ ∷ xs,
        rw (internal_components, before)
            (rw (at-idents upper_a n below (omega arith), next)
              (rw
                (
                  at-idents upper_a n (suc (suc below)) (omega arith),
                  at-idents upper_c n (suc below) (omega arith),
                )
                (rw (run)))),
        ap
            (λ ys.
              (
                type_name (suc below),
                internal_component_type c (address_name below) (address_name (suc (suc below))),
              )
              ∷ ys)
            same,
      )

  -- The aliases never have an index out of range. The address type of a component is the one that the
  -- component above it names as that of its base, and that the one below names as that of its parent;
  -- the components are numbered from the base, and the top has the unit type as its address.
  pub create_type_aliases-link :
      create_type_aliases layout
      ≡ ok (record {
        addresses =
            (address_name 0, address_named (base_address_type layout.base))
            ∷ addresses_from (reverse layout.internal) 1;
        components =
            (type_name 0, base_component_type layout.base (address_name 1))
            ∷ components_from layout (reverse layout.internal) 0;
      })
  unfolding create_type_aliases
  create_type_aliases-link =
      let (xs, run_a, same_a) =
        internal_addresses-from (reverse layout.internal) 1
          (omega (arith, length-reverse layout.internal)) in
      let (cs, run_c, same_c) =
        internal_components-from (reverse layout.internal) 0
          (omega (arith, length-reverse layout.internal)) in
      let top : last_of (idents upper_a n) ≡ ok (address_name (suc n)) =
        let whole : n + 2 ≡ suc (suc n) = omega arith in
        rw whole (last_of-count 0 (suc n) ∙ ap (λ i. ok (address_name i)) (omega arith)) in
      let below : at (idents upper_a n) (n + 1 - 1) ≡ ok (address_name n) =
        let last : n + 1 - 1 ≡ n = omega arith in rw last (at-idents upper_a n n (omega arith)) in
      let above : at (idents upper_c n) (n + 1) ≡ ok (type_name (suc n)) =
        let last : n + 1 ≡ suc n = omega arith in
        rw last (at-idents upper_c n (suc n) (omega arith)) in
      rw (create_type_aliases, at-idents upper_a n 0 (omega arith))
        (rw (run_a, top)
          (rw (at-idents upper_a n 1 (omega arith)) (
            rw (at-idents upper_c n 0 (omega arith), run_c)
              (rw (below) (rw (above) (rw (same_a, same_c) refl))))))
