-- ===== src/Layout/Regions.antt =====
-- The layouts that derive/src/layout.rs accepts.
use clearned_immutable.Prelude.{
  ◌≡◌, refl, Bool, true, false, not, ◌&&◌, ◌||◌, some, List, [], ◌∷◌, ◌++◌, map, arith,
}
use clearned_immutable.Layout.{
  parsed, ◌>>=◌, Component, btree_top, btree, pgm, is_persisted, TopComponent, top_btree,
  PersistType, in_memory, boundary_disk, deep_disk, InternalComponent, internal_btree, internal_pgm,
  internal_try_new, BaseComponent, base_btree, base_pgm, base_try_new, HybridLayout, split_last,
  parse_internal, parse,
}

abbrev pub on_disk : PersistType → Bool
on_disk in_memory = false
on_disk boundary_disk = true
on_disk deep_disk = true

-- The component that a layer was made of.
abbrev pub written_internal : InternalComponent → Component
written_internal (internal_btree fanout p) = btree fanout (on_disk p)
written_internal (internal_pgm epsilon) = pgm epsilon

abbrev pub written_base : BaseComponent → Component
written_base (base_btree fanout p) = btree fanout (on_disk p)
written_base (base_pgm epsilon) = pgm epsilon

abbrev pub written : HybridLayout → List Component
written layout = btree_top ∷ (map written_internal layout.internal ++ written_base layout.base ∷ [])

-- A B-tree below layers in memory is in memory or the boundary, and below a layer on disk it is deep
-- on disk.
abbrev pub fits_btree : Bool → PersistType → Bool
fits_btree region in_memory = not region
fits_btree region boundary_disk = not region
fits_btree region deep_disk = region

abbrev pub fits_internal : Bool → InternalComponent → Bool
fits_internal region (internal_btree fanout p) = fits_btree region p
fits_internal region (internal_pgm epsilon) = not region

-- A base of the learned kind is in memory, and fits below any layer, also one on disk.
abbrev pub fits_base : Bool → BaseComponent → Bool
fits_base region (base_btree fanout p) = fits_btree region p
fits_base region (base_pgm epsilon) = true

abbrev pub below : Bool → InternalComponent → Bool
below region i = region || is_persisted (written_internal i)

abbrev pub region_after : Bool → List InternalComponent → Bool
region_after region [] = region
region_after region (i ∷ is) = region_after (below region i) is

abbrev pub all_fit : Bool → List InternalComponent → Bool
all_fit region [] = true
all_fit region (i ∷ is) = fits_internal region i && all_fit (below region i) is

-- Every layer fits below those above it: of the B-tree and internal layers, those in memory come first,
-- then at most one boundary, then those deep on disk; a learned base, which is in memory, may stand
-- below any of them.
abbrev pub is_regular : HybridLayout → Bool
is_regular layout =
    all_fit false layout.internal && fits_base (region_after false layout.internal) layout.base

split_last-append :
    (c : Component) (cs : List Component) (b : Component)
    → split_last c (cs ++ b ∷ []) ≡ (c ∷ cs, b)
split_last-append c [] b = refl
split_last-append c (d ∷ ds) b = rw (split_last-append d ds b)

internal_try_new-written :
    (i : InternalComponent) (region : Bool)
    → fits_internal region i ≡ true
    → internal_try_new (written_internal i) (is_persisted (written_internal i) && region) ≡ some i
      × ((not (is_persisted (written_internal i)) && region) ≡ false)
internal_try_new-written (internal_btree fanout in_memory) true h = absurd (ground arith)
internal_try_new-written (internal_btree fanout in_memory) false h = (refl, refl)
internal_try_new-written (internal_btree fanout boundary_disk) true h = absurd (ground arith)
internal_try_new-written (internal_btree fanout boundary_disk) false h = (refl, refl)
internal_try_new-written (internal_btree fanout deep_disk) true h = (refl, refl)
internal_try_new-written (internal_btree fanout deep_disk) false h = absurd (ground arith)
internal_try_new-written (internal_pgm epsilon) true h = absurd (ground arith)
internal_try_new-written (internal_pgm epsilon) false h = (refl, refl)

base_try_new-written :
    (b : BaseComponent) (region : Bool)
    → fits_base region b ≡ true
    → base_try_new (written_base b) region ≡ some b
base_try_new-written (base_btree fanout in_memory) true h = absurd (ground arith)
base_try_new-written (base_btree fanout in_memory) false h = refl
base_try_new-written (base_btree fanout boundary_disk) true h = absurd (ground arith)
base_try_new-written (base_btree fanout boundary_disk) false h = refl
base_try_new-written (base_btree fanout deep_disk) true h = refl
base_try_new-written (base_btree fanout deep_disk) false h = absurd (ground arith)
base_try_new-written (base_pgm epsilon) true h = refl
base_try_new-written (base_pgm epsilon) false h = refl

parse_internal-written :
    (is : List InternalComponent) (region : Bool)
    → all_fit region is ≡ true
    → parse_internal (map written_internal is) region ≡ parsed (is, region_after region is)
unfolding parse_internal
parse_internal-written [] region h = refl
parse_internal-written (i ∷ is) region h =
    let (made, allowed) = internal_try_new-written i region (ground arith) in
    let rest = parse_internal-written is (below region i) (ground arith) in rw (allowed, made, rest)

parse_parts :
    (t : TopComponent) (is : List InternalComponent) (b : BaseComponent)
    → all_fit false is ≡ true
    → fits_base (region_after false is) b ≡ true
    → parse (btree_top ∷ (map written_internal is ++ written_base b ∷ []))
      ≡ parsed (record { top = t; internal = is; base = b })
unfolding parse
parse_parts top_btree [] b fit fits =
    let base = base_try_new-written b false fits in
    unfold parse_internal in rw (parse, parse_internal, ◌>>=◌, base)
parse_parts top_btree (i ∷ is) b fit fits =
    let parts = split_last-append (written_internal i) (map written_internal is) (written_base b) in
    let internals = parse_internal-written (i ∷ is) false fit in
    let base = base_try_new-written b (region_after false (i ∷ is)) fits in
    rw parts (rw internals (rw (◌>>=◌, base)))

-- A regular layout is what its components parse to.
pub parse-written :
    (layout : HybridLayout) → is_regular layout ≡ true → parse (written layout) ≡ parsed layout
parse-written layout h =
    parse_parts layout.top layout.internal layout.base (ground arith) (ground arith)
