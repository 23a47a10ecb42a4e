-- ===== src/Codegen/Builds.antt =====
-- The bodies of `empty`, `build` and `open` that derive/src/codegen (memory.rs and disk.rs) emits: a
-- store is made from the base to the top.
use clearned_immutable.Prelude.{
  ℕ, zero, suc, ◌+◌, ◌-◌, ◌≡◌, refl, Bool, false, none, some, List, [], ◌∷◌, ◌++◌, arith, length,
  get_elem?, get_elem?-lt, if◌then◌else◌, Outcome, ok, ◌>>=◌,
}
use clearned_immutable.SortedArray.{at}
use clearned_immutable.Layout.{HybridLayout}
use clearned_immutable.Layout.Emit.{internal_is_persisted}
use clearned_immutable.Codegen.{
  lower_c, upper_c, Ident, ident, idents, create_fields, insert_tries, never,
}
use clearned_immutable.Codegen.Emitted.{at-idents, fields-idents}
use clearned_immutable.Codegen.Tree.{component}

pub data BuildStatement : Type 0 where
  -- `let mut store = GlobalStore::load(path)?;`
  load_store : BuildStatement
  -- `let mut #var = #alias::empty();`
  let_empty : Ident → Ident → BuildStatement
  -- `let mut #var = #alias::build(iter);`
  let_build_from_iter : Ident → Ident → BuildStatement
  -- `let mut #var = #alias::load(&mut store, #alias_name)?;`
  let_load_base : Ident → Ident → BuildStatement
  -- `let mut #var = #alias::build(&mut #prev_var);`
  let_build : Ident → Ident → Ident → BuildStatement
  -- `let mut #var = #alias::load(&mut #prev_var, &mut store, #alias_name)?;`
  let_load : Ident → Ident → Ident → BuildStatement
  -- `Self { #(#fields,)* }`
  return_self : List Ident → BuildStatement
  -- `Ok(Self { #(#fields,)* store})`
  return_self_with_store : List Ident → BuildStatement

module _ (tries : ℕ → Outcome Bool) (aliases fields : List Ident) where
  -- The rounds of `for index in 1..=layout.internal.len()` that are left.
  unfoldable pub internal_builds : ℕ → ℕ → Outcome (List BuildStatement)
  internal_builds zero index = ok []
  internal_builds (suc left) index = do
    alias ← at aliases index
    var ← at fields index
    prev_var ← at fields (index - 1)
    persisted ← tries index
    later ← internal_builds left (suc index)
    ok ((if persisted then let_load var alias prev_var else let_build var alias prev_var) ∷ later)

  -- `first` makes the base; the top is always built.
  unfoldable pub build_statements :
      ℕ → (Ident → Ident → BuildStatement) → BuildStatement → Outcome (List BuildStatement)
  build_statements internals first finish = do
    alias ← at aliases 0
    var ← at fields 0
    internal ← internal_builds internals 1
    top_alias ← at aliases (internals + 1)
    top_var ← at fields (internals + 1)
    prev_var ← at fields (internals + 1 - 1)
    ok (first var alias ∷ (internal ++ let_build top_var top_alias prev_var ∷ finish ∷ []))

unfoldable pub create_empty_body :
    HybridLayout → List Ident → List Ident → Outcome (List BuildStatement)
create_empty_body layout aliases fields =
    build_statements never aliases fields (length layout.internal) let_empty (return_self fields)

unfoldable pub create_build_body :
    HybridLayout → List Ident → List Ident → Outcome (List BuildStatement)
create_build_body layout aliases fields =
    build_statements never aliases fields (length layout.internal) let_build_from_iter
      (return_self fields)

unfoldable pub create_load_body :
    HybridLayout → List Ident → List Ident → Outcome (List BuildStatement)
create_load_body layout aliases fields =
    build_statements (insert_tries layout) aliases fields (length layout.internal) let_load_base
      (return_self_with_store fields)
    >>= λ body. ok (load_store ∷ body)

-- What makes the component `level`, of the type with the same number, from the one below.
abbrev pub type_name : ℕ → Ident
type_name n = ident upper_c n

abbrev pub made : Bool → ℕ → BuildStatement
made persisted below =
    if persisted
    then let_load (component (suc below)) (type_name (suc below)) (component below)
    else let_build (component (suc below)) (type_name (suc below)) (component below)

-- The internal components `flags` from `below` on, and the top.
abbrev pub made_from : (ℕ → Bool) → BuildStatement → ℕ → ℕ → List BuildStatement
made_from flag finish zero below = made false below ∷ finish ∷ []
made_from flag finish (suc left) below =
    made (flag (suc below)) below ∷ made_from flag finish left (suc below)

module _ (tries : ℕ → Outcome Bool) (flag : ℕ → Bool) (n : ℕ) (finish : BuildStatement)
    (flags : (left k : ℕ) → suc left + k ≡ n → tries (suc k) ≡ ok (flag (suc k))) where
  internal_builds-made :
      (left k : ℕ)
      → left + k ≡ n
      → (xs : List BuildStatement) × (internal_builds tries
            (idents upper_c n)
            (idents lower_c n)
            left
            (suc k)
          ≡ ok xs)
        × (xs ++ made false n ∷ finish ∷ [] ≡ made_from flag finish left k)
  unfolding internal_builds
  internal_builds-made zero k e = let same : n ≡ k = omega arith in ([], refl, rw same refl)
  internal_builds-made (suc left) k e =
      let (xs, run, same) = internal_builds-made left (suc k) (omega arith) in
      let before : suc k - 1 ≡ k = omega arith in
      (
        made (flag (suc k)) k ∷ xs,
        rw (internal_builds, at-idents upper_c n (suc k) (omega arith))
            (rw (at-idents lower_c n (suc k) (omega arith), before)
              (rw (at-idents lower_c n k (omega arith), flags left k e) (rw (run)))),
        rw same refl,
      )

  pub build_statements-made :
      (first : Ident → Ident → BuildStatement)
      → build_statements tries (idents upper_c n) (idents lower_c n) n first finish
        ≡ ok (first (component 0) (type_name 0) ∷ made_from flag finish n 0)
  unfolding build_statements
  build_statements-made first =
      let (xs, run, same) = internal_builds-made n 0 (omega arith) in
      let above : n + 1 ≡ suc n = omega arith in
      let below : n + 1 - 1 ≡ n = omega arith in
      rw (build_statements, at-idents upper_c n 0 (omega arith))
        (rw (at-idents lower_c n 0 (omega arith), run)
          (rw below (
            rw above (
              rw
                (
                  at-idents upper_c n (suc n) (omega arith),
                  at-idents lower_c n (suc n) (omega arith),
                )
                (rw (at-idents lower_c n n (omega arith)) (rw same refl))))))

-- Whether the component `level` of the layout is persisted.
abbrev pub level_persisted : HybridLayout → ℕ → Bool
level_persisted layout level = elim (get_elem? layout.internal (length layout.internal - level)) [
  | none ↦ false
  | some c ↦ internal_is_persisted c
]

-- The emitted body of `open` loads the store, then the base from it, and then each component in turn:
-- one that is persisted is loaded, and any other is built, from the one just below it.
pub create_load_body-made :
    (layout : HybridLayout)
    → create_load_body layout
        (idents upper_c (length layout.internal))
        (create_fields (idents upper_c (length layout.internal)))
      ≡ ok (
          load_store
          ∷ let_load_base (component 0) (type_name 0)
          ∷ made_from
              (level_persisted layout)
              (return_self_with_store (idents lower_c (length layout.internal)))
              (length layout.internal)
              0)
unfolding create_load_body
create_load_body-made layout =
    rw (create_load_body, fields-idents (length layout.internal))
      (rw (
        build_statements-made (insert_tries layout) (level_persisted layout) _ _ flags
          let_load_base))
  where
    flags :
        (left k : ℕ)
        → suc left + k ≡ length layout.internal
        → insert_tries layout (suc k) ≡ ok (level_persisted layout (suc k))
    flags left k e =
        let (i, at_k) =
          get_elem?-lt layout.internal (length layout.internal - suc k) (omega arith) in
        rw (at, level_persisted, at_k)
