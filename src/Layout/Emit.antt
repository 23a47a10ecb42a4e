-- ===== src/Layout/Emit.antt =====
-- The types that derive/src/component.rs names in the code it emits, and the labels of which
-- derive/src/layout.rs takes a checksum. A type is its name, its number and its address types; a label
-- is its text and the number behind it.
use Prim.Native.String.{String}
use clearned_immutable.Prelude.{
  ℕ, Bool, true, false, ◌||◌, Option, none, some, List, [], ◌∷◌, if◌then◌else◌,
}
use clearned_immutable.Layout.{
  TopComponent, top_btree, in_memory, boundary_disk, deep_disk, InternalComponent, internal_btree,
  internal_pgm, BaseComponent, base_btree, base_pgm, HybridLayout,
}

-- `Name<K, V, #number, #address, ..>`, where `A` are the names of addresses
pub record TypeExpr (A : Type 0) : Type 0 where
  pub name : String
  pub number : Option ℕ
  pub addresses : List A

abbrev pub top_component_type : {A : Type 0} → TopComponent → A → TypeExpr A
top_component_type top_btree base_address = record {
  name = "BTreeTopComponent";
  number = none;
  addresses = base_address ∷ [];
}

abbrev pub internal_type_name : InternalComponent → String
internal_type_name (internal_btree fanout in_memory) = "BTreeInternalComponent"
internal_type_name (internal_btree fanout boundary_disk) = "BoundaryDiskBTreeInternalComponent"
internal_type_name (internal_btree fanout deep_disk) = "DeepDiskBTreeInternalComponent"
internal_type_name (internal_pgm epsilon) = "PGMInternalComponent"

abbrev pub internal_number : InternalComponent → ℕ
internal_number (internal_btree fanout persist) = fanout
internal_number (internal_pgm epsilon) = epsilon

abbrev pub internal_component_type : {A : Type 0} → InternalComponent → A → A → TypeExpr A
internal_component_type c base_address parent_address = record {
  name = internal_type_name c;
  number = some (internal_number c);
  addresses = base_address ∷ parent_address ∷ [];
}

abbrev pub internal_address_type : InternalComponent → String
internal_address_type (internal_btree fanout in_memory) = "BTreeInternalAddress"
internal_address_type (internal_btree fanout boundary_disk) = "BoundaryDiskBTreeInternalAddress"
internal_address_type (internal_btree fanout deep_disk) = "DeepDiskBTreeInternalAddress"
internal_address_type (internal_pgm epsilon) = "PGMInternalAddress"

abbrev pub base_type_name : BaseComponent → String
base_type_name (base_btree fanout in_memory) = "BTreeBaseComponent"
base_type_name (base_btree fanout boundary_disk) = "BoundaryDiskBTreeBaseComponent"
base_type_name (base_btree fanout deep_disk) = "DeepDiskBTreeBaseComponent"
base_type_name (base_pgm epsilon) = "PGMBaseComponent"

abbrev pub base_number : BaseComponent → ℕ
base_number (base_btree fanout persist) = fanout
base_number (base_pgm epsilon) = epsilon

-- The argument is called `base_address` in the code; it is the parent's.
abbrev pub base_component_type : {A : Type 0} → BaseComponent → A → TypeExpr A
base_component_type c base_address = record {
  name = base_type_name c;
  number = some (base_number c);
  addresses = base_address ∷ [];
}

abbrev pub base_address_type : BaseComponent → String
base_address_type (base_btree fanout in_memory) = "BTreeBaseAddress"
base_address_type (base_btree fanout boundary_disk) = "BoundaryDiskBTreeBaseAddress"
base_address_type (base_btree fanout deep_disk) = "DeepDiskBTreeBaseAddress"
base_address_type (base_pgm epsilon) = "PGMBaseAddress"

-- `PersistType` compared with `InMemory`
abbrev pub internal_is_persisted : InternalComponent → Bool
internal_is_persisted (internal_btree fanout in_memory) = false
internal_is_persisted (internal_btree fanout boundary_disk) = true
internal_is_persisted (internal_btree fanout deep_disk) = true
internal_is_persisted (internal_pgm epsilon) = false

abbrev pub base_is_persisted : BaseComponent → Bool
base_is_persisted (base_btree fanout in_memory) = false
base_is_persisted (base_btree fanout boundary_disk) = true
base_is_persisted (base_btree fanout deep_disk) = true
base_is_persisted (base_pgm epsilon) = false

abbrev pub any_persisted : List InternalComponent → Bool
any_persisted [] = false
any_persisted (c ∷ cs) = internal_is_persisted c || any_persisted cs

abbrev pub layout_is_persisted : HybridLayout → Bool
layout_is_persisted layout = any_persisted layout.internal || base_is_persisted layout.base

abbrev pub internal_label : InternalComponent → String × ℕ
internal_label (internal_btree fanout in_memory) = ("InMemoryBTreeInternal", fanout)
internal_label (internal_btree fanout boundary_disk) = ("BoundaryDiskBTreeInternal", fanout)
internal_label (internal_btree fanout deep_disk) = ("DeepDiskBTreeInternal", fanout)
internal_label (internal_pgm epsilon) = ("PGMInternal", epsilon)

abbrev pub base_label : BaseComponent → String × ℕ
base_label (base_btree fanout in_memory) = ("InMemoryBTreeBase", fanout)
base_label (base_btree fanout boundary_disk) = ("BoundaryDiskBTreeBase", fanout)
base_label (base_btree fanout deep_disk) = ("DeepDiskBTreeBase", fanout)
base_label (base_pgm epsilon) = ("PGMBase", epsilon)

abbrev pub persisted_labels : List InternalComponent → List (String × ℕ)
persisted_labels [] = []
persisted_labels (c ∷ cs) =
    if internal_is_persisted c then internal_label c ∷ persisted_labels cs else persisted_labels cs

-- The labels that `persist_checksum` feeds to the digest, in their order.
abbrev pub checksum_feed : HybridLayout → List (String × ℕ)
checksum_feed layout = base_label layout.base ∷ persisted_labels layout.internal
