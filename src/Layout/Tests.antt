-- ===== src/Layout/Tests.antt =====
-- Layouts that derive/src/layout.rs accepts and rejects, and its theorems at concrete layouts.
use clearned_immutable.Prelude.{◌≡◌, refl, true, false, none, some, List, [], ◌∷◌}
use clearned_immutable.Layout.{
  btree_top, btree, pgm, parsed, bail, top_btree, HybridLayout, internal_btree, base_btree,
  base_pgm, in_memory, boundary_disk, deep_disk, in_memory_below_persisted, parse, Attribute,
  int_literal, parse_component,
}
use clearned_immutable.Layout.Regions.{written, is_regular, parse-written}
use clearned_immutable.Layout.Accepts.{parse-inv}
use clearned_immutable.Layout.Limits.{IsWithin, parse_component-IsWithin}

abbrev hybrid : HybridLayout
hybrid = record {
  top = top_btree;
  internal = internal_btree 8 in_memory ∷ internal_btree 16 boundary_disk ∷ [];
  base = base_btree 32 deep_disk;
}

parse-written_example : parse (written hybrid) ≡ parsed hybrid
parse-written_example = parse-written hybrid refl

hybrid_parses :
    parse (btree_top ∷ btree 8 false ∷ btree 16 true ∷ btree 32 true ∷ []) ≡ parsed hybrid
unfolding parse
hybrid_parses = refl

parse-inv_example :
    (written hybrid ≡ btree_top ∷ btree 8 false ∷ btree 16 true ∷ btree 32 true ∷ [])
    × (is_regular hybrid ≡ true)
parse-inv_example =
    parse-inv (btree_top ∷ btree 8 false ∷ btree 16 true ∷ btree 32 true ∷ []) hybrid hybrid_parses

in_memory_internal :
    parse (btree_top ∷ btree 8 true ∷ btree 16 false ∷ btree 32 true ∷ [])
    ≡ bail in_memory_below_persisted
unfolding parse
in_memory_internal = refl

-- The base is not asked whether it is in memory below a persisted layer, and a learned one is.
in_memory_base :
    parse (btree_top ∷ btree 8 true ∷ pgm 4 ∷ [])
    ≡ parsed (record {
      top = top_btree;
      internal = internal_btree 8 boundary_disk ∷ [];
      base = base_pgm 4;
    })
unfolding parse
in_memory_base = refl

abbrev attributes : List Attribute
attributes =
    record { key = "fanout"; value = some (int_literal (parsed 32)) }
    ∷ record { key = "persist"; value = none }
    ∷ []

btree_parses : parse_component "btree" attributes ≡ parsed (btree 32 true)
unfolding parse_component
btree_parses = refl

parse_component-IsWithin_example : IsWithin (btree 32 true)
parse_component-IsWithin_example =
    parse_component-IsWithin "btree" attributes (btree 32 true) btree_parses
