-- ===== src/MemoryList/Growing.antt =====
-- An arena that never reuses an index: what core/src/common/list/memory.rs relies on can be had.
use clearned_immutable.Prelude.{
  ℕ, zero, suc, ◌≡◌, refl, arith, some, List, [], ◌∷◌, ◌++◌, length, get_elem?, set, length-append,
  length-set, get_elem?-append_last, get_elem?-ge, if◌then◌else◌, ◌==◌,
}
use clearned_immutable.MemoryList.Api.{ArenaApi}

pub get_elem?-set_held {ℓ} :
    {E : Type ℓ} (a : List E) (i j : ℕ) (old e : E)
    → get_elem? a i ≡ some old
    → get_elem? (set a i e) j ≡ (if j == i then some e else get_elem? a j)
get_elem?-set_held [] i j old e h = cc
get_elem?-set_held (x ∷ a) zero zero old e h = refl
get_elem?-set_held (x ∷ a) zero (suc j) old e h = ground arith
get_elem?-set_held (x ∷ a) (suc i) zero old e h = ground arith
get_elem?-set_held (x ∷ a) (suc i) (suc j) old e h =
    ground (arith, get_elem?-set_held a i j old e h)

abbrev pub growing {ℓ} : {E : Type ℓ} → ArenaApi E
growing {E} = record {
  Arena = List E;
  empty = [];
  insert = λ a e. (length a, a ++ e ∷ []);
  get = get_elem?;
  put = set;
  clear = λ a. [];
  len = length;
  insert_unused = λ a e. get_elem?-ge a (length a) (omega arith);
  get-insert = λ a e i. get_elem?-append_last a e i;
  get-put = get_elem?-set_held;
  get-empty = λ i. refl;
  get-clear = λ a i. refl;
  len-empty = refl;
  len-clear = λ a. refl;
  len-insert = λ a e. omega (arith, length-append a (e ∷ []));
  len-put = λ a i e. length-set a i e;
}
