-- ===== src/Codegen/Correct.antt =====
-- The statements that derive/src/codegen emits go down and up the components of a store.
use clearned_immutable.Prelude.{
  ℕ, zero, suc, ◌+◌, ◌≡◌, refl, sym, ◌∙◌, Bool, true, false, Option, none, some, List, [], ◌∷◌,
  ◌++◌, append_assoc, arith, ==-refl,
}
use clearned_immutable.BTreeComponents.{PropagateInsert}
use clearned_immutable.PageStore.{Attempt, done, failed, panicked}
use clearned_immutable.DiskList.{continue}
use clearned_immutable.Codegen.{
  Statement, let_base_search, let_result, insert_base, insert_top, return_result, return_var,
}
use clearned_immutable.Codegen.Running.{
  Components, address, found, split, Env, find_var, same_bool, Run, proceed, exec, or_return,
  result_var,
}
use clearned_immutable.Codegen.Tree.{
  component, locate, descend, search_tree, climb, climb_if, insert_tree,
}
use clearned_immutable.Codegen.Emitted.{search_var, insert_var, down, up, descent, ascent}

module _ {S V A : Type 0} where
  proceed_congr :
      (r : Attempt A × S) {f g : A → S → Run S V}
      → ((a : A) (s : S) → f a s ≡ g a s)
      → proceed r f ≡ proceed r g
  proceed_congr (done a, s) same = same a s
  proceed_congr (failed e, s) same = refl
  proceed_congr (panicked e, s) same = refl

  proceed-continue :
      {B : Type 0} (r : Attempt B × S) (f : B → S → Attempt A × S) (g : A → S → Run S V)
      → proceed (continue r f) g ≡ proceed r (λ b s. proceed (f b s) g)
  proceed-continue (done b, s) f g = refl
  proceed-continue (failed e, s) f g = refl
  proceed-continue (panicked e, s) f g = refl

same_bool_refl : (b : Bool) → same_bool b b ≡ true
same_bool_refl true = refl
same_bool_refl false = refl

module _ {S V : Type 0} (c : Components S V) (fallible : Bool) (key : ℕ) (value : V) where
  abbrev runs : List Statement → Env V → S → Run S V
  runs body env s = exec c fallible key value body env s

  abbrev flag : ℕ → Bool
  flag n = c.is_persisted (component n)

  abbrev base_part : List Statement → List Statement
  base_part rest = let_base_search (flag 0) (search_var 0) (component 0) (search_var 1) ∷ rest

  -- The way down finds the node of the base, and what it has under the key; then `rest` runs.
  exec-down :
      (rest : List Statement) (next : ℕ → Option V → S → Run S V)
      → ((a : ℕ) (r : Option V) (env : Env V) (s : S)
          → runs rest ((search_var 0, found r) ∷ (search_var 1, address a) ∷ env) s ≡ next a r s)
      → (level a : ℕ) (env : Env V) (s : S)
      → runs (down flag level ++ base_part rest) ((search_var (suc level), address a) ∷ env) s
        ≡ proceed (locate c level s a key) λ (a', r) s'. next a' r s'
  unfolding exec
  exec-down rest next after zero a env s =
      rw (exec, same_bool_refl (flag 0))
        (proceed_congr (c.base_search (component 0) s a key) (λ r s'. after a r env s')
          ∙ sym (proceed-continue (c.base_search (component 0) s a key) _ _))
  exec-down rest next after (suc level) a env s =
      let call = c.internal_search (component (suc level)) (component level) s a key in
      rw (exec, same_bool_refl (flag (suc level)), ==-refl (suc (suc level)))
        (proceed_congr call (λ a' s'. exec-down rest next after level a' _ s')
          ∙ sym (proceed-continue call _ _))

  abbrev top_part : ℕ → List Statement
  top_part n =
      insert_top (insert_var (suc n)) (component (suc n)) (component n) (insert_var n)
      ∷ return_result fallible
      ∷ []

  -- The way up hands on what has split, and returns the old value.
  exec-up :
      (n : ℕ) (old : Option V) (left level : ℕ) (p : PropagateInsert ℕ) (env : Env V) (s : S)
      → left + level ≡ n
      → find_var result_var env ≡ some (found old)
      → runs (up flag left level ++ top_part n) ((insert_var level, split p) ∷ env) s
        ≡ proceed (climb c left level s p) λ _ s'. some (done old, s')
  unfolding exec
  exec-up n old zero level p env s e there =
      let same : level ≡ n = omega arith in
      rw (sym same) (
        rw (exec, ==-refl level)
          (proceed_congr (c.top_insert (component (suc level)) (component level) s p)
            λ _ s'. rw (exec, same_bool_refl fallible, there)))
  exec-up n old (suc left) level p env s e there =
      let call = c.internal_insert (component (suc level)) (component level) s p in
      rw (exec, same_bool_refl (flag (suc level)), ==-refl level, there)
        (proceed_congr call
            (handed λ p' s'. exec-up n old left (suc level) p' _ s' (omega arith) there)
          ∙ sym (proceed-continue call _ _))
    where
      above : S → PropagateInsert ℕ → Run S V
      above s' p' =
          runs (up flag left (suc level) ++ top_part n)
            ((insert_var (suc level), split p') ∷ (insert_var level, split p) ∷ env) s'

      handed :
          ((p' : PropagateInsert ℕ) (s' : S)
            → above s' p' ≡ proceed (climb c left (suc level) s' p') λ _ s''. some (done old, s''))
          → (r : Option (PropagateInsert ℕ)) (s' : S)
          → or_return old r s' (above s')
            ≡ proceed
                (elim r as (λ _. Attempt Unit × S) [
                  | none ↦ (done tt, s')
                  | some p' ↦ climb c left (suc level) s' p'
                ])
                λ _ s''. some (done old, s'')
      handed later none s' = refl
      handed later (some p') s' = later p' s'

  proceed-done : (x : Attempt (Option V) × S) → proceed x (λ r s. some (done r, s)) ≡ some x
  proceed-done (done r, s) = refl
  proceed-done (failed e, s) = refl
  proceed-done (panicked e, s) = refl

  -- The bodies, spelled out, run as the store is to do.
  pub exec-search :
      (n : ℕ) (s : S)
      → runs (descent flag (flag 0) n ++ return_var fallible (search_var 0) ∷ []) [] s
        ≡ some (search_tree c n s key)
  unfolding exec
  exec-search n s =
      rw (append_assoc, exec)
        (proceed_congr top (λ a s'. exec-down _ (λ _ r s'. some (done r, s')) last n a [] s')
          ∙ sym (proceed-continue top _ _)
          ∙ whole (descend c n s key))
    where
      top : Attempt ℕ × S
      top = c.top_search (component (suc n)) (component n) s key

      last :
          (a : ℕ) (r : Option V) (env : Env V) (s : S)
          → runs
              (return_var fallible (search_var 0) ∷ [])
              ((search_var 0, found r) ∷ (search_var 1, address a) ∷ env)
              s
            ≡ some (done r, s)
      last a r env s = rw (exec, same_bool_refl fallible)

      whole :
          (x : Attempt (ℕ × Option V) × S)
          → proceed x (λ (_, r) s'. some (done r, s')) ≡ some (continue x λ (_, r) s'. (done r, s'))
      whole (done r, s) = refl
      whole (failed e, s) = refl
      whole (panicked e, s) = refl

  pub exec-insert :
      (n : ℕ) (s : S)
      → runs
          (descent flag (flag 0) n ++ let_result ∷ ascent flag fallible n (flag 0) (search_var 1))
          []
          s
        ≡ some (insert_tree c n s key value)
  unfolding exec
  exec-insert n s =
      rw (append_assoc, exec)
        (proceed_congr top (λ a s'. exec-down _ inserting inserts n a [] s')
          ∙ sym (proceed-continue top _ _)
          ∙ sym (proceed-continue (descend c n s key) _ (λ r s. some (done r, s)))
          ∙ proceed-done (insert_tree c n s key value))
    where
      top : Attempt ℕ × S
      top = c.top_search (component (suc n)) (component n) s key

      inserting : ℕ → Option V → S → Run S V
      inserting a old s1 =
          proceed
            (continue (c.base_insert (component 0) s1 a key value)
              λ r s2. continue (climb_if c n 0 s2 r) λ _ s3. (done old, s3))
            λ r s'. some (done r, s')

      climbs :
          (a : ℕ) (old : Option V) (env : Env V) (s1 : S) (r : Option (PropagateInsert ℕ)) (s2 : S)
          → or_return old r s2 (λ p.
            runs
              (up flag n 0 ++ top_part n)
              ((insert_var 0, split p)
                ∷ (result_var, found old)
                ∷ (search_var 0, found old)
                ∷ (search_var 1, address a)
                ∷ env)
              s2)
            ≡ proceed
                (continue (climb_if c n 0 s2 r) λ _ s3. (done old, s3))
                λ r s'. some (done r, s')
      climbs a old env s1 none s2 = refl
      climbs a old env s1 (some p) s2 =
          exec-up n old n 0 p _ s2 (omega arith) refl
          ∙ sym (proceed-continue (climb c n 0 s2 p) _ _)

      inserts :
          (a : ℕ) (r : Option V) (env : Env V) (s1 : S)
          → runs
              (let_result
                ∷ insert_base (flag 0) (insert_var 0) (component 0) (search_var 1)
                ∷ (up flag n 0 ++ top_part n))
              ((search_var 0, found r) ∷ (search_var 1, address a) ∷ env)
              s1
            ≡ inserting a r s1
      inserts a old env s1 =
          let call = c.base_insert (component 0) s1 a key value in
          rw (exec, same_bool_refl (flag 0))
            (proceed_congr call (λ r s2. climbs a old env s1 r s2)
              ∙ sym (proceed-continue call _ _))
