-- ===== src/Codegen/Tests.antt =====
-- What derive/src/codegen emits for one layout, and its theorems on a store that writes down the calls.
use clearned_immutable.Prelude.{
  ℕ, zero, suc, ◌+◌, ◌≡◌, refl, sym, Bool, true, false, none, some, List, [], ◌∷◌, arith, get_elem?,
  ◌==◌, ok, ◌>>=◌, Returns,
}
use clearned_immutable.Layout.{
  top_btree, in_memory, boundary_disk, deep_disk, InternalComponent, internal_btree, base_btree,
  base_pgm, HybridLayout,
}
use clearned_immutable.Layout.Emit.{internal_is_persisted, base_component_type}
use clearned_immutable.BTreeComponents.{single}
use clearned_immutable.PageStore.{done}
use clearned_immutable.Codegen.{
  upper_c, lower_c, Ident, idents, create_fields, internal_searches, base_searches, searches,
  search_body, disk_search_body, emitted_search, emitted_insert,
}
use clearned_immutable.Codegen.Aliases.{
  address_named, address_unit, create_type_aliases, address_name, type_name, components_from,
  create_type_aliases-link,
}
use clearned_immutable.Codegen.Builds.{
  load_store, let_load_base, let_build, let_load, return_self_with_store, create_load_body,
  create_load_body-made,
}
use clearned_immutable.Codegen.Running.{Components, exec}
use clearned_immutable.Codegen.Tree.{component, search_tree, insert_tree}
use clearned_immutable.Codegen.Stores.{IsStoreOf, emitted_search-runs, emitted_insert-runs}

abbrev hybrid : HybridLayout
hybrid = record {
  top = top_btree;
  internal = internal_btree 8 in_memory ∷ internal_btree 16 boundary_disk ∷ [];
  base = base_btree 32 deep_disk;
}

abbrev on_disk : ℕ → Bool
on_disk zero = true
on_disk (suc zero) = true
on_disk (suc (suc n)) = false

-- The state is the list of the components that were called. The first component above the base does
-- not split.
abbrev calls : Components (List Ident) ℕ
calls = record {
  is_persisted = λ field. on_disk field.number;
  top_search = λ field next s key. (done 30, field ∷ s);
  internal_search = λ field next s a key. (done (a + 1), field ∷ s);
  base_search = λ field s a key. (done (some a), field ∷ s);
  base_insert = λ field s a key value. (done (some (single key a a)), field ∷ s);
  internal_insert = λ field prev s p. (done none, field ∷ s);
  top_insert = λ field prev s p. (done tt, field ∷ s);
}

calls-IsStoreOf : IsStoreOf hybrid calls
calls-IsStoreOf = record { base = refl; internal = internal }
  where
    internal :
        (left k : ℕ) (i : InternalComponent)
        → suc left + k ≡ 2
        → get_elem? hybrid.internal k ≡ some i
        → on_disk (suc left) ≡ internal_is_persisted i
    internal left zero i e h =
        let same : internal_btree 8 in_memory ≡ i = cc in
        let one : left ≡ 1 = omega arith in rw (sym same, one) refl
    internal left (suc zero) i e h =
        let same : internal_btree 16 boundary_disk ≡ i = cc in
        let one : left ≡ 0 = omega arith in rw (sym same, one) refl
    internal left (suc (suc k)) i e h = absurd (omega arith)

emitted_search-runs_example :
    Returns
      (emitted_search hybrid)
      λ body. exec calls true 5 50 body [] [] ≡ some (search_tree calls 2 [] 5)
emitted_search-runs_example = emitted_search-runs hybrid calls calls-IsStoreOf 5 50 [] refl

emitted_insert-runs_example :
    Returns
      (emitted_insert hybrid)
      λ body. exec calls true 5 50 body [] [] ≡ some (insert_tree calls 2 [] 5 50)
emitted_insert-runs_example = emitted_insert-runs hybrid calls calls-IsStoreOf 5 50 [] refl

calls_in_order : insert_tree calls 2 [] 5 50 ≡ (
  done (some 32),
  component 1 ∷ component 0 ∷ component 0 ∷ component 1 ∷ component 2 ∷ component 3 ∷ [],
)
calls_in_order = refl

create_type_aliases-link_example :
    create_type_aliases hybrid
    ≡ ok (record {
      addresses =
          (address_name 0, address_named "DeepDiskBTreeBaseAddress")
          ∷ (address_name 1, address_named "BoundaryDiskBTreeInternalAddress")
          ∷ (address_name 2, address_named "BTreeInternalAddress")
          ∷ (address_name 3, address_unit)
          ∷ [];
      components =
          (type_name 0, base_component_type (base_btree 32 deep_disk) (address_name 1))
          ∷ components_from hybrid
              (internal_btree 16 boundary_disk ∷ internal_btree 8 in_memory ∷ [])
              0;
    })
create_type_aliases-link_example = create_type_aliases-link hybrid

create_load_body-made_example :
    create_load_body hybrid (idents upper_c 2) (create_fields (idents upper_c 2))
    ≡ ok (
        load_store
        ∷ let_load_base (component 0) (type_name 0)
        ∷ let_load (component 1) (type_name 1) (component 0)
        ∷ let_build (component 2) (type_name 2) (component 1)
        ∷ let_build (component 3) (type_name 3) (component 2)
        ∷ return_self_with_store (idents lower_c 2)
        ∷ [])
create_load_body-made_example = create_load_body-made hybrid

-- A layout that the macro accepts, whose base is in memory below a layer on disk: rustc refuses the
-- emitted body, which has a `?` behind the search of the base.
abbrev mixed : HybridLayout
mixed = record {
  top = top_btree;
  internal = internal_btree 8 boundary_disk ∷ [];
  base = base_pgm 4;
}

abbrev mixed_calls : Components (List Ident) ℕ
mixed_calls = record calls { is_persisted = λ field. field.number == 1 }

mixed_refused :
    (emitted_search mixed >>= λ body. ok (exec mixed_calls true 5 50 body [] [])) ≡ ok none
unfolding emitted_search disk_search_body search_body searches internal_searches base_searches exec
mixed_refused = refl
