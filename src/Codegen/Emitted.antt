-- ===== src/Codegen/Emitted.antt =====
-- The statements that derive/src/codegen emits, spelled out: the indices are in range, and those of the
-- reversed lists count the components from the top.
use clearned_immutable.Prelude.{
  ℕ, zero, suc, ◌+◌, ◌-◌, ◌<◌, ◌≡◌, refl, ap, ◌∙◌, Bool, some, List, [], ◌∷◌, ◌++◌, arith, length,
  get_elem?, length-append, Outcome, ok,
}
use clearned_immutable.SortedArray.{at}
use clearned_immutable.Codegen.{
  Letter, upper_c, lower_c, lower_s, lower_i, ident, Ident, Statement, let_top_search, let_search,
  let_base_search, insert_base, insert_internal, insert_top, return_result, count_from, idents,
  reverse, create_fields, internal_searches, base_searches, searches, internal_inserts, top_inserts,
  inserts,
}
use clearned_immutable.Codegen.Tree.{component}

pub length-reverse-count : (l : Letter) (st n : ℕ) → length (reverse (count_from l st n)) ≡ n
length-reverse-count l st zero = refl
length-reverse-count l st (suc n) =
    length-append (reverse (count_from l (suc st) n)) _
    ∙ omega (arith, length-reverse-count l (suc st) n)

get_elem?-left {ℓ} :
    {A : Type ℓ} (xs ys : List A) (i : ℕ) → i < length xs → get_elem? (xs ++ ys) i ≡ get_elem? xs i
get_elem?-left [] ys i h = absurd (omega arith)
get_elem?-left (x ∷ xs) ys zero h = refl
get_elem?-left (x ∷ xs) ys (suc i) h = get_elem?-left xs ys i (omega arith)

get_elem?-last {ℓ} :
    {A : Type ℓ} (xs : List A) (a : A) (i : ℕ) → i ≡ length xs → get_elem? (xs ++ a ∷ []) i ≡ some a
get_elem?-last [] a i e = rw e
get_elem?-last (x ∷ xs) a i e = rw e (get_elem?-last xs a (length xs) refl)

get_elem?-count_from :
    (l : Letter) (st n k : ℕ) → k < n → get_elem? (count_from l st n) k ≡ some (ident l (st + k))
get_elem?-count_from l st zero k h = absurd (omega arith)
get_elem?-count_from l st (suc n) zero h =
    let e : st ≡ st + 0 = omega arith in ap (λ i. some (ident l i)) e
get_elem?-count_from l st (suc n) (suc k) h =
    let e : suc st + k ≡ st + suc k = omega arith in
    get_elem?-count_from l (suc st) n k (omega arith) ∙ ap (λ i. some (ident l i)) e

get_elem?-reverse-count :
    (l : Letter) (st n k i : ℕ)
    → i + suc k ≡ n
    → get_elem? (reverse (count_from l st n)) k ≡ some (ident l (st + i))
get_elem?-reverse-count l st zero k i e = absurd (omega arith)
get_elem?-reverse-count l st (suc n) k zero e =
    let end : k ≡ length (reverse (count_from l (suc st) n)) =
      omega (arith, length-reverse-count l (suc st) n) in
    let here : st ≡ st + 0 = omega arith in
    get_elem?-last (reverse (count_from l (suc st) n)) (ident l st) k end
    ∙ ap (λ j. some (ident l j)) here
get_elem?-reverse-count l st (suc n) k (suc i) e =
    let there : suc st + i ≡ st + suc i = omega arith in
    get_elem?-left (reverse (count_from l (suc st) n)) _ k
      (omega (arith, length-reverse-count l (suc st) n))
    ∙ get_elem?-reverse-count l (suc st) n k i (omega arith)
    ∙ ap (λ j. some (ident l j)) there

map-count_from : (st n : ℕ) → create_fields (count_from upper_c st n) ≡ count_from lower_c st n
map-count_from st zero = refl
map-count_from st (suc n) = ap (λ fields. component st ∷ fields) (map-count_from (suc st) n)

pub at-idents : (l : Letter) (n k : ℕ) → k < n + 2 → at (idents l n) k ≡ ok (ident l k)
at-idents l n k h =
    let e : 0 + k ≡ k = omega arith in
    rw (at, get_elem?-count_from l 0 (n + 2) k h) (ap (λ j. ok (ident l j)) e)

pub at-reverse :
    (l : Letter) (n k i : ℕ) → i + k ≡ suc n → at (reverse (idents l n)) k ≡ ok (ident l i)
at-reverse l n k i e =
    let e' : 0 + i ≡ i = omega arith in
    rw (at, get_elem?-reverse-count l 0 (n + 2) k i (omega arith)) (ap (λ j. ok (ident l j)) e')

pub fields-idents : (n : ℕ) → create_fields (idents upper_c n) ≡ idents lower_c n
fields-idents n = map-count_from 0 (n + 2)

abbrev pub search_var : ℕ → Ident
search_var n = ident lower_s n

abbrev pub insert_var : ℕ → Ident
insert_var n = ident lower_i n

-- The way down from the component `left`; `flag` says which components are persisted.
module _ (flag : ℕ → Bool) where
  abbrev pub down : ℕ → List Statement
  down zero = []
  down (suc left) =
      let_search (flag (suc left)) (search_var (suc left)) (component (suc left)) (component left)
        (search_var (suc (suc left)))
      ∷ down left

  -- The way up from the component `level`, with `left` internal components above it.
  abbrev pub up : ℕ → ℕ → List Statement
  up zero level = []
  up (suc left) level =
      insert_internal (flag (suc level)) (insert_var (suc level)) (component (suc level))
        (component level) (insert_var level)
      ∷ up left (suc level)

module _ (flag : ℕ → Bool) (b : Bool) (n : ℕ) where
  abbrev pub descent : List Statement
  descent =
      let_top_search (search_var (suc n)) (component (suc n)) (component n)
      ∷ (down flag n ++ let_base_search b (search_var 0) (component 0) (search_var 1) ∷ [])

  abbrev pub ascent : Bool → Ident → List Statement
  ascent base_tries search =
      insert_base base_tries (insert_var 0) (component 0) search
      ∷ (up flag n 0
          ++ insert_top (insert_var (suc n)) (component (suc n)) (component n) (insert_var n)
            ∷ return_result b
            ∷ [])

module _ (tries : ℕ → Outcome Bool) (flag : ℕ → Bool) (b : Bool) (n : ℕ) where
  internal_searches-down :
      ((left k : ℕ) → suc left + k ≡ n → tries (suc k) ≡ ok (flag (suc left)))
      → (left k : ℕ) → left + k ≡ n
      → internal_searches tries b n
          (reverse (idents lower_s n))
          (reverse (idents lower_c n))
          left
          (suc k)
        ≡ ok (down flag left)
  unfolding internal_searches
  internal_searches-down flags zero k e = refl
  internal_searches-down flags (suc left) k e =
      rw (internal_searches, at-reverse lower_s n (suc k) (suc left) (omega arith))
        (rw (at-reverse lower_s n (suc k - 1) (suc (suc left)) (omega arith)) (
          rw (at-reverse lower_c n (suc k) (suc left) (omega arith)) (
            rw (at-reverse lower_c n (suc k + 1) left (omega arith), flags left k e)
              (rw (internal_searches-down flags left (suc k) (omega arith))))))

  internal_inserts-up :
      ((left k : ℕ) → suc left + k ≡ n → tries (suc k) ≡ ok (flag (suc k)))
      → (left k : ℕ) → left + k ≡ n
      → internal_inserts tries b n (idents lower_i n) (idents lower_c n) left (suc k)
        ≡ ok (up flag left k)
  unfolding internal_inserts
  internal_inserts-up flags zero k e = refl
  internal_inserts-up flags (suc left) k e =
      rw (internal_inserts, at-idents lower_i n (suc k) (omega arith))
        (rw (before lower_i) (
          rw (at-idents lower_c n (suc k) (omega arith)) (
            rw (before lower_c, flags left k e)
              (rw (internal_inserts-up flags left (suc k) (omega arith))))))
    where
      before : (l : Letter) → at (idents l n) (suc k - 1) ≡ ok (ident l k)
      before l = let same : suc k - 1 ≡ k = omega arith in rw same (at-idents l n k (omega arith))

  -- The statements of the way down, and of the way up.
  pub searches-down :
      ((left k : ℕ) → suc left + k ≡ n → tries (suc k) ≡ ok (flag (suc left)))
      → searches tries b n (reverse (idents lower_s n)) (reverse (idents lower_c n))
        ≡ ok (descent flag b n)
  unfolding searches base_searches
  searches-down flags =
      rw (searches, base_searches, at-reverse lower_s n 0 (suc n) (omega arith))
        (rw (at-reverse lower_c n 0 (suc n) (omega arith), at-reverse lower_c n 1 n (omega arith))
          (rw (internal_searches-down flags n 0 (omega arith)) (
            rw (at-reverse lower_s n (n + 1) 0 (omega arith)) (
              rw (at-reverse lower_s n (n + 1 - 1) 1 (omega arith))
                (rw (at-reverse lower_c n (n + 1) 0 (omega arith)))))))

  pub inserts-up :
      ((left k : ℕ) → suc left + k ≡ n → tries (suc k) ≡ ok (flag (suc k)))
      → (base_tries : Bool) (search : Ident)
      → inserts tries b n (idents lower_i n) (idents lower_c n) base_tries search
        ≡ ok (ascent flag b n base_tries search)
  unfolding inserts top_inserts
  inserts-up flags base_tries search =
      rw (inserts, top_inserts, at-idents lower_i n 0 (omega arith))
        (rw (at-idents lower_c n 0 (omega arith), internal_inserts-up flags n 0 (omega arith))
          (rw (last lower_i)
            (rw (before_last lower_i) (rw (last lower_c) (rw (before_last lower_c))))))
    where
      last : (l : Letter) → at (idents l n) (n + 1) ≡ ok (ident l (suc n))
      last l =
          let same : n + 1 ≡ suc n = omega arith in rw same (at-idents l n (suc n) (omega arith))

      before_last : (l : Letter) → at (idents l n) (n + 1 - 1) ≡ ok (ident l n)
      before_last l =
          let same : n + 1 - 1 ≡ n = omega arith in rw same (at-idents l n n (omega arith))
