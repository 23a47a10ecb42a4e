-- ===== src/DiskList/Splice.antt =====
-- The insertion of a node into the links of core/src/common/list/boundary_disk.rs and deep_disk.rs.
use clearned_immutable.Prelude.{
  ℕ, ◌≡◌, ◌≢◌, ◌∙◌, inl, inr, refl, sym, ap, none, some, List, arith, ◌==◌, ==-refl, if◌then◌else◌,
  Bool-cases, Option-cases,
}
use clearned_immutable.PageStore.Api.{find}
use clearned_immutable.PageStore.{Attempt, done, put}
use clearned_immutable.PageStore.Views.{find-put}
use clearned_immutable.DiskList.{
  Link, CatalogPage, set_next_link, set_prev_link, link_behind, splice,
}

module _ {ℓ} {A : Type ℓ} where
  find-put_self : (k : ℕ) (a : A) (m : List (ℕ × A)) → find k (put k a m) ≡ some a
  find-put_self k a m = find-put k k a m ∙ rw (==-refl k) refl

  find-put_ne : (j k : ℕ) (a : A) (m : List (ℕ × A)) → j ≢ k → find j (put k a m) ≡ find j m
  find-put_ne j k a m ne = find-put j k a m ∙ skip
    where
      skip : (if k == j then some a else find j m) ≡ find j m
      skip = elim (Bool-cases (k == j)) [
        | inl eq ↦ absurd (ne (ground arith))
        | inr other ↦ rw other
      ]

module _ {X : Type 0} where
  -- Each link is answered by that of the neighbour, and only the ends of the list lack one.
  pub record IsDoublyLinked (page : CatalogPage X) : Type 0 where
    pub next_back :
        (i j : ℕ) (l : Link X)
        → find i page.links ≡ some l
        → l.next ≡ some j
        → (i ≢ j) × ((m : Link X) × (find j page.links ≡ some m) × (m.prev ≡ some i))
    pub prev_back :
        (i j : ℕ) (l : Link X)
        → find i page.links ≡ some l
        → l.prev ≡ some j
        → (m : Link X) × (find j page.links ≡ some m) × (m.next ≡ some i)
    pub last_only :
        (i : ℕ) (l : Link X) → find i page.links ≡ some l → l.next ≡ none → i ≡ page.last
    pub first_only :
        (i : ℕ) (l : Link X) → find i page.links ≡ some l → l.prev ≡ none → i ≡ page.first
    pub last_in : (l : Link X) × (find page.last page.links ≡ some l) × (l.next ≡ none)
    pub first_in : (l : Link X) × (find page.first page.links ≡ some l) × (l.prev ≡ none)

  -- What the links are after the insertion: every other link is kept.
  pub record IsSpliced (extra : X) (page : CatalogPage X) (ptr : ℕ) (old : Link X) (new_ptr : ℕ)
      (page' : CatalogPage X) : Type 0 where
    pub at_new :
        find new_ptr page'.links ≡ some (record { next = old.next; prev = some ptr; extra = extra })
    pub at_ptr : find ptr page'.links ≡ some (record old { next = some new_ptr })
    pub at_next :
        (n : ℕ) (m : Link X)
        → old.next ≡ some n
        → find n page.links ≡ some m
        → find n page'.links ≡ some (record m { prev = some new_ptr })
    pub elsewhere :
        (j : ℕ) → j ≢ new_ptr → j ≢ ptr → old.next ≢ some j → find j page'.links ≡ find j page.links
    pub first : page'.first ≡ page.first
    pub last_moved : old.next ≡ none → page'.last ≡ new_ptr
    pub last_kept : old.next ≢ none → page'.last ≡ page.last

  module _ (extra : X) (page : CatalogPage X) (ptr new_ptr : ℕ) (old : Link X)
      (d : IsDoublyLinked page) (there : find ptr page.links ≡ some old)
      (unused : find new_ptr page.links ≡ none) where
    used_apart : (j : ℕ) (m : Link X) → find j page.links ≡ some m → j ≢ new_ptr
    used_apart j m h e = let h' = rw e at h in cc

    abbrev new_link : Link X
    new_link = record { next = old.next; prev = some ptr; extra = extra }

    abbrev links1 : List (ℕ × Link X)
    links1 = put new_ptr new_link page.links

    abbrev links2 : List (ℕ × Link X)
    links2 = put ptr (record old { next = some new_ptr }) links1

    at_ptr1 : find ptr links1 ≡ some old
    at_ptr1 = find-put_ne ptr new_ptr new_link page.links (used_apart ptr old there) ∙ there

    at_new2 : find new_ptr links2 ≡ some new_link
    at_new2 =
        find-put_ne new_ptr ptr (record old { next = some new_ptr }) links1
          (λ e. used_apart ptr old there (sym e))
        ∙ find-put_self new_ptr new_link page.links

    at_ptr2 : find ptr links2 ≡ some (record old { next = some new_ptr })
    at_ptr2 = find-put_self ptr (record old { next = some new_ptr }) links1

    elsewhere2 : (j : ℕ) → j ≢ new_ptr → j ≢ ptr → find j links2 ≡ find j page.links
    elsewhere2 j not_new not_ptr =
        find-put_ne j ptr (record old { next = some new_ptr }) links1 not_ptr
        ∙ find-put_ne j new_ptr new_link page.links not_new

    abbrev Splices : Attempt (CatalogPage X) → Type 0
    Splices r =
        (page' : CatalogPage X) × (r ≡ done page') × IsSpliced extra page ptr old new_ptr page'

    abbrev page2 : CatalogPage X
    page2 = record page { links = links2 }

    told : splice extra page ptr old.next new_ptr ≡ link_behind new_ptr old.next (done page2)
    unfolding splice
    told =
        let run : set_next_link (record page { links = links1 }) ptr (some new_ptr) ≡ done page2 =
          rw (set_next_link, at_ptr1) in
        ap (link_behind new_ptr old.next) run

    -- The node behind is neither the new one nor the one before it.
    behind :
        (n : ℕ)
        → old.next ≡ some n
        → (ptr ≢ n)
          × (n ≢ new_ptr)
          × ((m : Link X) × (find n page.links ≡ some m) × (m.prev ≡ some ptr))
    behind n more =
        let (apart, (m, at_n, back)) = d.next_back ptr n old there more in
        (apart, used_apart n m at_n, (m, at_n, back))

    same_node :
        (n k : ℕ) (m l : Link X) (links : List (ℕ × Link X))
        → n ≡ k
        → find n page.links ≡ some m
        → find k page.links ≡ some l
        → find k (put n (record m { prev = some new_ptr }) links)
          ≡ some (record l { prev = some new_ptr })
    same_node n k m l links same at_n at_k =
        let at_m : find k page.links ≡ some m = rw same at at_n in
        let node : l ≡ m = cc in
        rw (node, sym same) (find-put_self n (record m { prev = some new_ptr }) links)

    pub splice-IsSpliced : Splices (splice extra page ptr old.next new_ptr)
    splice-IsSpliced = elim (Option-cases old.next) [
      | inl end ↦ (
        record page2 { last = new_ptr },
        told ∙ ap (λ o. link_behind new_ptr o (done page2)) end,
        record {
          at_new = at_new2;
          at_ptr = at_ptr2;
          at_next = λ n m more at_n. absurd (let both = end in cc);
          elsewhere = λ j not_new not_ptr not_next. elsewhere2 j not_new not_ptr;
          first = refl;
          last_moved = λ e. refl;
          last_kept = λ e. absurd (e end);
        },
      )
      | inr (n, more) ↦
          let (apart, not_new, (m, at_n, back)) = behind n more in
          let at_n2 : find n links2 ≡ some m = elsewhere2 n not_new (λ e. apart (sym e)) ∙ at_n in
          let links3 : List (ℕ × Link X) = put n (record m { prev = some new_ptr }) links2 in
          let run : set_prev_link page2 n (some new_ptr) ≡ done (record page2 { links = links3 }) =
            rw (set_prev_link, at_n2) in
          (
            record page2 { links = links3 },
            told ∙ ap (λ o. link_behind new_ptr o (done page2)) more ∙ run,
            record {
              at_new =
                  find-put_ne new_ptr n (record m { prev = some new_ptr }) links2
                    (λ e. not_new (sym e))
                  ∙ at_new2;
              at_ptr = find-put_ne ptr n (record m { prev = some new_ptr }) links2 apart ∙ at_ptr2;
              at_next = λ k l more' at_k. same_node n k m l links2 (cc) at_n at_k;
              elsewhere = λ j j_new j_ptr j_next.
                  find-put_ne j n (record m { prev = some new_ptr }) links2
                    (λ e. j_next (more ∙ ap some (sym e)))
                  ∙ elsewhere2 j j_new j_ptr;
              first = refl;
              last_moved = λ e. absurd (let both = more in cc);
              last_kept = λ e. refl;
            },
          )
    ]
