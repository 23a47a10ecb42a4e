-- ===== src/DiskList/Tests.antt =====
-- The theorems on core/src/common/list/boundary_disk.rs and deep_disk.rs at a concrete list of
-- numbers in a store whose pages are their own bytes.
use clearned_immutable.Prelude.{
  zero, suc, ℕ, ◌≡◌, ◌⊎◌, inl, inr, refl, Bool, true, Option, none, some, [], ◌∷◌, arith, ◌==◌,
  Bool-cases, ◌≢◌, ◌∙◌, sym, ap,
}
use clearned_immutable.IdAllocator.{IdAllocator, allocate, is_allocated, iter}
use clearned_immutable.IdAllocator
use clearned_immutable.IdAllocator.Pool.{has}
use clearned_immutable.IdAllocator.Refine.{Refines, is_free}
use clearned_immutable.PageStore.Api.{MarbleApi, Codec, find}
use clearned_immutable.PageStore.{Attempt, done, LocalStore, Inner}
use clearned_immutable.PageStore
use clearned_immutable.PageStore.Local
use clearned_immutable.PageStore.Memory.{memory_marble}
use clearned_immutable.PageStore.Views.{IsTotal}
use clearned_immutable.DiskList.{
  Link, CatalogPage, initialized_list, default_page, insert_after, clear,
}
use clearned_immutable.DiskList.Splice.{IsDoublyLinked}
use clearned_immutable.DiskList.Inserted.{IsDiskList, IsInserted, insert_after-IsInserted}

data TestBytes : Type 0 where
  node : ℕ → TestBytes
  catalog : CatalogPage Unit → TestBytes

abbrev marble : MarbleApi
marble = memory_marble TestBytes

abbrev node_from : TestBytes → Option ℕ
node_from (node n) = some n
node_from (catalog c) = none

abbrev catalog_from : TestBytes → Option (CatalogPage Unit)
catalog_from (node n) = none
catalog_from (catalog c) = some c

abbrev nodes : Codec TestBytes ℕ
nodes = record {
  encode = λ n. some (node n);
  decode = node_from;
  decode-encode = λ n b e. let same : b ≡ node n = cc in rw same;
}

abbrev catalogs : Codec TestBytes (CatalogPage Unit)
catalogs = record {
  encode = λ c. some (catalog c);
  decode = catalog_from;
  decode-encode = λ c b e. let same : b ≡ catalog c = cc in rw same;
}

-- Two nodes, in the pages 2 and 3; the page 1 is that of the catalog.
abbrev pair_page : CatalogPage Unit
pair_page = record {
  first = 2;
  last = 3;
  links =
      (2, record { next = some 3; prev = none; extra = tt })
      ∷ (3, record { next = none; prev = some 2; extra = tt })
      ∷ [];
  state = initialized_list;
}

abbrev first_link : Link Unit
first_link = record { next = some 3; prev = none; extra = tt }

abbrev second_link : Link Unit
second_link = record { next = none; prev = some 2; extra = tt }

abbrev ids : IdAllocator
ids = record { slots = none ∷ none ∷ none ∷ none ∷ []; next = 4 }

abbrev inner : Inner marble
inner = record {
  store = [];
  active_stores = 7 ∷ [];
  catalog = record { ids = ids; registry = (7, 1) ∷ [] };
}

abbrev pair : LocalStore (CatalogPage Unit) ℕ
pair = record { catalog = pair_page; id = 1; ident = 7; cache = (2, some 20) ∷ (3, some 30) ∷ [] }

abbrev unmade : LocalStore (CatalogPage Unit) ℕ
unmade = record { catalog = default_page; id = 1; ident = 7; cache = [] }

ids-Refines : Refines ids (record { free_ids = []; size = 4 })
ids-Refines = record { chain = refl; free_exactly = none_free; size = refl }
  where
    none_free : (i : ℕ) → is_free ids.slots i ≡ has i []
    none_free zero = refl
    none_free (suc zero) = refl
    none_free (suc (suc zero)) = refl
    none_free (suc (suc (suc zero))) = refl
    none_free (suc (suc (suc (suc i)))) = refl

total : IsTotal marble catalogs nodes
total n = (node n, refl)

pair-links :
    (i : ℕ) (l : Link Unit)
    → find i pair_page.links ≡ some l
    → ((i ≡ 2) × (l ≡ first_link)) ⊎ ((i ≡ 3) × (l ≡ second_link))
pair-links i l h = elim (Bool-cases (2 == i)) [
  | inl eq ↦ let h' = rw eq at h in inl (ground arith, cc)
  | inr ne ↦ elim (Bool-cases (3 == i)) [
    | inl eq ↦ let h' = rw (ne, eq) at h in inr (ground arith, cc)
    | inr other ↦ let h' = rw (ne, other) at h in absurd (cc)
  ]
]

pair-IsDoublyLinked : IsDoublyLinked pair_page
pair-IsDoublyLinked = record {
  next_back = next_back;
  prev_back = prev_back;
  last_only = last_only;
  first_only = first_only;
  last_in = (second_link, refl, refl);
  first_in = (first_link, refl, refl);
}
  where
    next_back :
        (i j : ℕ) (l : Link Unit)
        → find i pair_page.links ≡ some l
        → l.next ≡ some j
        → (i ≢ j) × ((m : Link Unit) × (find j pair_page.links ≡ some m) × (m.prev ≡ some i))
    next_back i j l h e = elim (pair-links i l h) [
      | inl (at_i, is) ↦
          let to_j : some 3 ≡ some j = sym (ap (λ k. k.next) is) ∙ e in
          let three : 3 ≡ j = cc in
          rw (at_i, sym three) ((λ same. omega arith), (second_link, refl, refl))
      | inr (at_i, is) ↦ let to_j : none ≡ some j = sym (ap (λ k. k.next) is) ∙ e in absurd (cc)
    ]

    prev_back :
        (i j : ℕ) (l : Link Unit)
        → find i pair_page.links ≡ some l
        → l.prev ≡ some j
        → (m : Link Unit) × (find j pair_page.links ≡ some m) × (m.next ≡ some i)
    prev_back i j l h e = elim (pair-links i l h) [
      | inl (at_i, is) ↦ let to_j : none ≡ some j = sym (ap (λ k. k.prev) is) ∙ e in absurd (cc)
      | inr (at_i, is) ↦
          let to_j : some 2 ≡ some j = sym (ap (λ k. k.prev) is) ∙ e in
          let two : 2 ≡ j = cc in rw (at_i, sym two) (first_link, refl, refl)
    ]

    last_only : (i : ℕ) (l : Link Unit) → find i pair_page.links ≡ some l → l.next ≡ none → i ≡ 3
    last_only i l h e = elim (pair-links i l h) [
      | inl (at_i, is) ↦ let to_j : some 3 ≡ none = sym (ap (λ k. k.next) is) ∙ e in absurd (cc)
      | inr (at_i, is) ↦ at_i
    ]

    first_only : (i : ℕ) (l : Link Unit) → find i pair_page.links ≡ some l → l.prev ≡ none → i ≡ 2
    first_only i l h e = elim (pair-links i l h) [
      | inl (at_i, is) ↦ at_i
      | inr (at_i, is) ↦ let to_j : some 2 ≡ none = sym (ap (λ k. k.prev) is) ∙ e in absurd (cc)
    ]

pair-IsDiskList : IsDiskList marble catalogs nodes (pair, inner)
unfolding is_allocated
pair-IsDiskList = record {
  cache = ((refl, (refl, tt)), refl);
  linked = pair-IsDoublyLinked;
  allocated_pages = allocated_pages;
  allocated_own = refl;
}
  where
    allocated_pages :
        (i : ℕ) (l : Link Unit) → find i pair_page.links ≡ some l → is_allocated ids i ≡ true
    allocated_pages i l h = elim (pair-links i l h) [
      | inl (at_i, is) ↦ rw at_i
      | inr (at_i, is) ↦ rw at_i
    ]

own_taken : is_allocated ids 1 ≡ true
unfolding is_allocated
own_taken = refl

abbrev same_number : ℕ → ℕ → Bool
same_number a b = a == b

insert_after-IsInserted_example :
    IsInserted marble catalogs nodes tt 8 0 same_number
      (pair, inner)
      25
      2
      first_link
      (insert_after marble catalogs nodes tt 8 0 same_number (pair, inner) 25 2)
insert_after-IsInserted_example =
    insert_after-IsInserted marble catalogs nodes tt 8 0 same_number (pair, inner) 25 2 first_link
      total pair-IsDiskList ids-Refines (omega arith) refl

-- `clear` leaves the links of the old nodes, and puts the list into the page 0.
old_links_stay :
    find 3 (clear marble catalogs nodes tt 8 0 same_number (pair, inner)).1.0.catalog.links
    ≡ some second_link
unfolding clear Local.clear Local.write_page PageStore.clear PageStore.allocate_page allocate iter
    IdAllocator.clear
old_links_stay = refl

restarts_at_zero : (clear marble catalogs nodes tt 8 0 same_number (pair, inner)).0 ≡ done 0
unfolding clear Local.clear Local.write_page PageStore.clear PageStore.allocate_page allocate iter
    IdAllocator.clear
restarts_at_zero = refl
