-- ===== src/Codegen.antt =====
-- derive/src/codegen (mod.rs, memory.rs and disk.rs): the bodies of the methods that the macro emits. A
-- body is the list of its statements, one constructor for each `quote!`, with the identifiers that are
-- interpolated as arguments. memory.rs and disk.rs build `search` and `insert` alike, but for the `?`
-- behind a call and the `Ok` around a result: these are the arguments `tries` and `wraps`.
pub mod Aliases
pub mod Builds
pub mod Running
pub mod Tree
pub mod Emitted
pub mod Correct
pub mod Stores
mod Tests
use clearned_immutable.Prelude.{
  ℕ, zero, suc, ◌+◌, ◌-◌, Bool, true, false, List, [], ◌∷◌, ◌++◌, map, length, Outcome, ok, fault,
  ◌>>=◌, if◌then◌else◌,
}
use clearned_immutable.SortedArray.{at}
use clearned_immutable.Layout.{InternalComponent, HybridLayout}
use clearned_immutable.Layout.Emit.{internal_is_persisted, layout_is_persisted}

-- An identifier is its letter and its number; `result` has a letter of its own.
pub data Letter : Type 0 where
  upper_a upper_c lower_a lower_c lower_s lower_i result_word : Letter

pub record Ident : Type 0 where
  pub letter : Letter
  pub number : ℕ

abbrev pub ident : Letter → ℕ → Ident
ident letter number = record { letter = letter; number = number }

abbrev pub lowercase : Letter → Letter
lowercase upper_a = lower_a
lowercase upper_c = lower_c
lowercase lower_a = lower_a
lowercase lower_c = lower_c
lowercase lower_s = lower_s
lowercase lower_i = lower_i
lowercase result_word = result_word

pub data Statement : Type 0 where
  -- `let #var = self.#field.search(&self.#next, &key);`
  let_top_search : Ident → Ident → Ident → Statement
  -- `let #var = self.#field.search(&self.#next, #prev, &key);`, with `?` or without
  let_search : Bool → Ident → Ident → Ident → Ident → Statement
  -- `let #var = self.#field.search(#prev, &key);`
  let_base_search : Bool → Ident → Ident → Ident → Statement
  -- `#var`, or `Ok(#var)`
  return_var : Bool → Ident → Statement
  -- `let result = s0;`
  let_result : Statement
  -- `let #var; if let Some(x) = self.#field.insert(#search, key, value) { #var = x; } else
  -- { return result; }`
  insert_base : Bool → Ident → Ident → Ident → Statement
  -- the same for `self.#field.insert(&mut self.#prev_field, #prev_var)`
  insert_internal : Bool → Ident → Ident → Ident → Ident → Statement
  -- `let #var = self.#field.insert(&mut self.#prev_field, #prev_var);`
  insert_top : Ident → Ident → Ident → Ident → Statement
  -- `result`, or `Ok(result)`
  return_result : Bool → Statement

abbrev pub count_from : Letter → ℕ → ℕ → List Ident
count_from letter start zero = []
count_from letter start (suc n) = ident letter start ∷ count_from letter (suc start) n

-- `(0..=layout.internal.len() + 1)`
abbrev pub idents : Letter → ℕ → List Ident
idents letter internals = count_from letter 0 (internals + 2)

abbrev pub reverse {ℓ} : {A : Type ℓ} → List A → List A
reverse [] = []
reverse (x ∷ xs) = reverse xs ++ x ∷ []

-- The names of the fields, of which `create_index_struct` makes the declarations.
abbrev pub create_fields : List Ident → List Ident
create_fields alias = map (λ component. ident (lowercase component.letter) component.number) alias

-- The part that both bodies start with. `internals` is `layout.internal.len()`.
module _ (tries : ℕ → Outcome Bool) (base_tries : Bool) (internals : ℕ)
    (search_vars component_vars : List Ident) where
  -- The rounds of `for index in 1..=layout.internal.len()` that are left.
  unfoldable pub internal_searches : ℕ → ℕ → Outcome (List Statement)
  internal_searches zero index = ok []
  internal_searches (suc left) index = do
    search ← at search_vars index
    prev_search ← at search_vars (index - 1)
    field ← at component_vars index
    next ← at component_vars (index + 1)
    tried ← tries index
    later ← internal_searches left (suc index)
    ok (let_search tried search field next prev_search ∷ later)

  unfoldable pub base_searches : Outcome (List Statement)
  base_searches = do
    search ← at search_vars (internals + 1)
    prev_search ← at search_vars (internals + 1 - 1)
    field ← at component_vars (internals + 1)
    ok (let_base_search base_tries search field prev_search ∷ [])

  unfoldable pub searches : Outcome (List Statement)
  searches = do
    search ← at search_vars 0
    field ← at component_vars 0
    next ← at component_vars 1
    internal ← internal_searches internals 1
    base ← base_searches
    ok (let_top_search search field next ∷ (internal ++ base))

-- The insert stage.
module _ (tries : ℕ → Outcome Bool) (wraps : Bool) (internals : ℕ)
    (insert_vars fields : List Ident) where
  unfoldable pub internal_inserts : ℕ → ℕ → Outcome (List Statement)
  internal_inserts zero index = ok []
  internal_inserts (suc left) index = do
    var ← at insert_vars index
    prev_var ← at insert_vars (index - 1)
    field ← at fields index
    prev_field ← at fields (index - 1)
    tried ← tries index
    later ← internal_inserts left (suc index)
    ok (insert_internal tried var field prev_field prev_var ∷ later)

  unfoldable pub top_inserts : Outcome (List Statement)
  top_inserts = do
    var ← at insert_vars (internals + 1)
    prev_var ← at insert_vars (internals + 1 - 1)
    field ← at fields (internals + 1)
    prev_field ← at fields (internals + 1 - 1)
    ok (insert_top var field prev_field prev_var ∷ return_result wraps ∷ [])

  unfoldable pub inserts : Bool → Ident → Outcome (List Statement)
  inserts base_tries search = do
    var ← at insert_vars 0
    field ← at fields 0
    internal ← internal_inserts internals 1
    top ← top_inserts
    ok (insert_base base_tries var field search ∷ (internal ++ top))

module _ (search_tries insert_tries : ℕ → Outcome Bool) (wraps : Bool) where
  unfoldable pub search_body : HybridLayout → List Ident → Outcome (List Statement)
  search_body layout fields =
      let internals = length layout.internal in
      let search_vars = reverse (idents lower_s internals) in
      do
        body ← searches search_tries wraps internals search_vars (reverse fields)
        search ← at search_vars (internals + 1)
        ok (body ++ return_var wraps search ∷ [])

  unfoldable pub insert_body : HybridLayout → List Ident → Outcome (List Statement)
  insert_body layout fields =
      let internals = length layout.internal in
      let search_vars = reverse (idents lower_s internals) in
      do
        body ← searches search_tries wraps internals search_vars (reverse fields)
        search ← at search_vars (length search_vars - 2)
        inserted ←
            inserts insert_tries wraps internals (idents lower_i internals) fields wraps search
        ok (body ++ let_result ∷ inserted)

-- memory.rs
abbrev pub never : ℕ → Outcome Bool
never index = ok false

unfoldable pub memory_search_body : HybridLayout → List Ident → Outcome (List Statement)
memory_search_body layout fields = search_body never never false layout fields

unfoldable pub memory_insert_body : HybridLayout → List Ident → Outcome (List Statement)
memory_insert_body layout fields = insert_body never never false layout fields

-- disk.rs: `layout.internal[index - 1].is_persisted()` on the way down, and
-- `layout.internal[layout.internal.len() - index].is_persisted()` on the way up
abbrev pub persisted_at : HybridLayout → ℕ → Outcome Bool
persisted_at layout index = at layout.internal index >>= λ c. ok (internal_is_persisted c)

abbrev pub search_tries : HybridLayout → ℕ → Outcome Bool
search_tries layout index = persisted_at layout (index - 1)

abbrev pub insert_tries : HybridLayout → ℕ → Outcome Bool
insert_tries layout index = persisted_at layout (length layout.internal - index)

unfoldable pub disk_search_body : HybridLayout → List Ident → Outcome (List Statement)
disk_search_body layout fields =
    search_body (search_tries layout) (insert_tries layout) true layout fields

unfoldable pub disk_insert_body : HybridLayout → List Ident → Outcome (List Statement)
disk_insert_body layout fields =
    insert_body (search_tries layout) (insert_tries layout) true layout fields

-- `create_implementation`: what is emitted for a layout.
unfoldable pub emitted_search : HybridLayout → Outcome (List Statement)
emitted_search layout =
    let fields = create_fields (idents upper_c (length layout.internal)) in
    if layout_is_persisted layout
    then disk_search_body layout fields
    else memory_search_body layout fields

unfoldable pub emitted_insert : HybridLayout → Outcome (List Statement)
emitted_insert layout =
    let fields = create_fields (idents upper_c (length layout.internal)) in
    if layout_is_persisted layout
    then disk_insert_body layout fields
    else memory_insert_body layout fields
