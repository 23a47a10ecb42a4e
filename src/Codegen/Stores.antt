-- ===== src/Codegen/Stores.antt =====
-- The methods that derive/src/codegen emits for a layout, on any store with its components.
use clearned_immutable.Prelude.{
  ℕ, zero, suc, ◌+◌, ◌-◌, ◌≡◌, refl, sym, ap, ◌∙◌, inl, inr, Bool, true, false, ◌||◌, some, List,
  [], ◌∷◌, ◌++◌, arith, length, get_elem?, get_elem?-lt, Bool-cases, Outcome, ok, Returns,
}
use clearned_immutable.SortedArray.{at}
use clearned_immutable.Layout.{InternalComponent, HybridLayout}
use clearned_immutable.Layout.Emit.{
  internal_is_persisted, base_is_persisted, any_persisted, layout_is_persisted,
}
use clearned_immutable.Codegen.{
  lower_c, lower_s, idents, reverse, search_body, insert_body, return_var, let_result, never,
  memory_search_body, memory_insert_body, persisted_at, search_tries, insert_tries,
  disk_search_body, disk_insert_body, emitted_search, emitted_insert,
}
use clearned_immutable.Codegen.Running.{Components, exec}
use clearned_immutable.Codegen.Tree.{component, search_tree, insert_tree}
use clearned_immutable.Codegen.Emitted.{
  at-reverse, fields-idents, searches-down, inserts-up, search_var, descent, ascent,
  length-reverse-count,
}
use clearned_immutable.Codegen.Correct.{exec-search, exec-insert}

-- The components of the store are those of the layout, whose internal components are written from the
-- top.
pub record IsStoreOf {S V : Type 0} (layout : HybridLayout) (c : Components S V) : Type 0 where
  pub base : c.is_persisted (component 0) ≡ base_is_persisted layout.base
  pub internal :
      (left k : ℕ) (i : InternalComponent)
      → suc left + k ≡ length layout.internal
      → get_elem? layout.internal k ≡ some i
      → c.is_persisted (component (suc left)) ≡ internal_is_persisted i

or_false : (a b : Bool) → (a || b) ≡ false → (a ≡ false) × (b ≡ false)
or_false true b h = absurd (cc)
or_false false b h = (refl, h)

none_persisted :
    (cs : List InternalComponent) (k : ℕ) (i : InternalComponent)
    → any_persisted cs ≡ false
    → get_elem? cs k ≡ some i
    → internal_is_persisted i ≡ false
none_persisted [] k i h e = absurd (cc)
none_persisted (c ∷ cs) zero i h e = let same : c ≡ i = cc in rw (sym same) (or_false _ _ h).0
none_persisted (c ∷ cs) (suc k) i h e = none_persisted cs k i (or_false _ _ h).1 e

module _ {S V : Type 0} (layout : HybridLayout) (c : Components S V) (store : IsStoreOf layout c)
    (key : ℕ) (value : V) (s : S) where
  abbrev n : ℕ
  n = length layout.internal

  abbrev flag : ℕ → Bool
  flag j = c.is_persisted (component j)

  persisted-flag : (left k : ℕ) → suc left + k ≡ n → persisted_at layout k ≡ ok (flag (suc left))
  persisted-flag left k e =
      let (i, at_k) = get_elem?-lt layout.internal k (omega arith) in
      rw (at, at_k) (rw (store.internal left k i e at_k))

  unpersisted :
      layout_is_persisted layout ≡ false
      → (left k : ℕ) → suc left + k ≡ n
      → ok false ≡ ok (flag (suc left))
  unpersisted memory left k e =
      let (i, at_k) = get_elem?-lt layout.internal k (omega arith) in
      sym (
        ap ok (
          store.internal left k i e at_k
          ∙ none_persisted layout.internal k i (or_false _ _ memory).0 at_k))

  down_tries : (left k : ℕ) → suc left + k ≡ n → search_tries layout (suc k) ≡ ok (flag (suc left))
  down_tries left k e = let same : suc k - 1 ≡ k = omega arith in rw same (persisted-flag left k e)

  up_tries : (left k : ℕ) → suc left + k ≡ n → insert_tries layout (suc k) ≡ ok (flag (suc k))
  up_tries left k e = persisted-flag k (n - suc k) (omega arith)

  search_body-runs :
      (tries insert_tries : ℕ → Outcome Bool) (wraps : Bool)
      → ((left k : ℕ) → suc left + k ≡ n → tries (suc k) ≡ ok (flag (suc left)))
      → wraps ≡ flag 0
      → Returns
          (search_body tries insert_tries wraps layout (idents lower_c n))
          λ body. exec c wraps key value body [] s ≡ some (search_tree c n s key)
  unfolding search_body
  search_body-runs tries insert_tries wraps flags base = (
    descent flag wraps n ++ return_var wraps (search_var 0) ∷ [],
    rw (search_body, searches-down tries flag wraps n flags)
        (rw (at-reverse lower_s n (n + 1) 0 (omega arith))),
    rw base (exec-search c (flag 0) key value n s),
  )

  insert_body-runs :
      (tries insert_tries : ℕ → Outcome Bool) (wraps : Bool)
      → ((left k : ℕ) → suc left + k ≡ n → tries (suc k) ≡ ok (flag (suc left)))
      → ((left k : ℕ) → suc left + k ≡ n → insert_tries (suc k) ≡ ok (flag (suc k)))
      → wraps ≡ flag 0
      → Returns
          (insert_body tries insert_tries wraps layout (idents lower_c n))
          λ body. exec c wraps key value body [] s ≡ some (insert_tree c n s key value)
  unfolding insert_body
  insert_body-runs tries insert_tries wraps down_flags up_flags base = (
    descent flag wraps n ++ let_result ∷ ascent flag wraps n wraps (search_var 1),
    rw (insert_body, searches-down tries flag wraps n down_flags)
        (rw (second) (rw (inserts-up insert_tries flag wraps n up_flags wraps (search_var 1)))),
    rw base (exec-insert c (flag 0) key value n s),
  )
    where
      second :
          at (reverse (idents lower_s n)) (length (reverse (idents lower_s n)) - 2)
          ≡ ok (search_var 1)
      second =
          at-reverse lower_s n (length (reverse (idents lower_s n)) - 2) 1
            (omega (arith, length-reverse-count lower_s 0 (n + 2)))

  -- For a layout whose base is on disk just if any of its layers is, and a store with its components,
  -- the macro emits a body of `search` without an index out of range. The body binds its variables
  -- before their use and has the `?` just where a call returns a `Result`. Its run is the descent from
  -- the top component through the internal ones to the base, and returns what the base has under the
  -- key, or the first error.
  pub emitted_search-runs :
      base_is_persisted layout.base ≡ layout_is_persisted layout
      → Returns (emitted_search layout) λ body.
        exec c (layout_is_persisted layout) key value body [] s ≡ some (search_tree c n s key)
  unfolding emitted_search memory_search_body disk_search_body
  emitted_search-runs base = elim (Bool-cases (layout_is_persisted layout)) [
    | inl disk ↦
        rw (emitted_search, disk, fields-idents n)
          (search_body-runs (search_tries layout) (insert_tries layout) true down_tries
            (sym (store.base ∙ base ∙ disk)))
    | inr memory ↦
        rw (emitted_search, memory, fields-idents n)
          (search_body-runs never never false (unpersisted memory)
            (sym (store.base ∙ base ∙ memory)))
  ]

  -- For a layout whose base is on disk just if any of its layers is, and a store with its components,
  -- the macro emits a body of `insert` without an index out of range. The body binds its variables
  -- before their use and has the `?` just where a call returns a `Result`. Its run is the descent,
  -- then the insertion into the node of the base that it has led to, then, as long as a component
  -- has split, the insertion into the one above; it returns what the base had under the key before,
  -- or the first error.
  pub emitted_insert-runs :
      base_is_persisted layout.base ≡ layout_is_persisted layout
      → Returns (emitted_insert layout) λ body.
        exec c (layout_is_persisted layout) key value body [] s ≡ some (insert_tree c n s key value)
  unfolding emitted_insert memory_insert_body disk_insert_body
  emitted_insert-runs base = elim (Bool-cases (layout_is_persisted layout)) [
    | inl disk ↦
        rw (emitted_insert, disk, fields-idents n)
          (insert_body-runs (search_tries layout) (insert_tries layout) true down_tries up_tries
            (sym (store.base ∙ base ∙ disk)))
    | inr memory ↦
        rw (emitted_insert, memory, fields-idents n)
          (insert_body-runs never never false (unpersisted memory)
            (λ left k e. unpersisted memory k (n - suc k) (omega arith))
            (sym (store.base ∙ base ∙ memory)))
  ]
