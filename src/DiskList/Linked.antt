-- ===== src/DiskList/Linked.antt =====
-- The links of core/src/common/list/boundary_disk.rs and deep_disk.rs stay doubly linked.
use clearned_immutable.Prelude.{
  ℕ, ◌≡◌, ◌≢◌, ◌⊎◌, ◌∙◌, inl, inr, refl, sym, ap, Option, none, some, arith, ◌==◌, Bool-cases,
  Option-cases,
}
use clearned_immutable.PageStore.Api.{find}
use clearned_immutable.PageStore.{done}
use clearned_immutable.DiskList.{Link, CatalogPage, splice}
use clearned_immutable.DiskList.Splice.{IsDoublyLinked, IsSpliced, splice-IsSpliced}

decide : (i j : ℕ) → (i ≡ j) ⊎ (i ≢ j)
decide i j = elim (Bool-cases (i == j)) [
  | inl eq ↦ inl (ground arith)
  | inr ne ↦ inr (λ e. ground arith)
]

decide_next : (o : Option ℕ) (j : ℕ) → (o ≡ some j) ⊎ (o ≢ some j)
decide_next none j = inr (λ e. cc)
decide_next (some n) j = elim (decide n j) [ inl eq ↦ inl (ap some eq) | inr ne ↦ inr (λ e. ne cc) ]

module _ {X : Type 0} {extra : X} {page page' : CatalogPage X} {ptr new_ptr : ℕ} {old : Link X}
    (d : IsDoublyLinked page) (there : find ptr page.links ≡ some old)
    (unused : find new_ptr page.links ≡ none) (s : IsSpliced extra page ptr old new_ptr page') where
  abbrev new_link : Link X
  new_link = record { next = old.next; prev = some ptr; extra = extra }

  abbrev ptr_link : Link X
  ptr_link = record old { next = some new_ptr }

  in_use : (j : ℕ) (m : Link X) → find j page.links ≡ some m → j ≢ new_ptr
  in_use j m h e = let h' = rw e at h in cc

  -- The links of the other nodes keep one side.
  keeps_prev :
      (j : ℕ) (m : Link X)
      → find j page.links ≡ some m
      → old.next ≢ some j
      → (m' : Link X) × (find j page'.links ≡ some m') × (m'.prev ≡ m.prev)
  keeps_prev j m at_j not_next = elim (decide j ptr) [
    | inl eq ↦
        let node : m ≡ old = let at_ptr = rw eq at at_j in cc in
        (record old { next = some new_ptr }, rw eq s.at_ptr, ap (λ l. l.prev) (sym node))
    | inr ne ↦ (m, s.elsewhere j (in_use j m at_j) ne not_next ∙ at_j, refl)
  ]

  keeps_next :
      (j : ℕ) (m : Link X)
      → find j page.links ≡ some m
      → j ≢ ptr
      → (m' : Link X) × (find j page'.links ≡ some m') × (m'.next ≡ m.next)
  keeps_next j m at_j not_ptr = elim (decide_next old.next j) [
    | inl next ↦ (record m { prev = some new_ptr }, s.at_next j m next at_j, refl)
    | inr ne ↦ (m, s.elsewhere j (in_use j m at_j) not_ptr ne ∙ at_j, refl)
  ]

  -- A link after the insertion is the new one, or comes from one before it.
  data Origin (i : ℕ) (l : Link X) : Type 0 where
    is_new :
        i ≡ new_ptr → l ≡ record { next = old.next; prev = some ptr; extra = extra } → Origin i l
    is_ptr : i ≡ ptr → l ≡ record old { next = some new_ptr } → Origin i l
    is_next :
        (m : Link X)
        → old.next ≡ some i
        → find i page.links ≡ some m
        → i ≢ ptr
        → l ≡ record m { prev = some new_ptr }
        → Origin i l
    is_other : i ≢ ptr → old.next ≢ some i → find i page.links ≡ some l → Origin i l

  origin : (i : ℕ) (l : Link X) → find i page'.links ≡ some l → Origin i l
  origin i l h = elim (decide i new_ptr) [
    | inl eq ↦ is_new eq (let at_i = rw eq at h in let at_new = s.at_new in cc)
    | inr not_new ↦ elim (decide i ptr) [
      | inl eq ↦ is_ptr eq (let at_i = rw eq at h in let at_ptr = s.at_ptr in cc)
      | inr not_ptr ↦ elim (decide_next old.next i) [
        | inr not_next ↦
            is_other not_ptr not_next (sym (s.elsewhere i not_new not_ptr not_next) ∙ h)
        | inl next ↦
            let (apart, (m, at_i, back)) = d.next_back ptr i old there next in
            let moved = s.at_next i m next at_i in is_next m next at_i not_ptr cc
      ]
    ]
  ]

  next_back :
      (i j : ℕ) (l : Link X)
      → Origin i l
      → l.next ≡ some j
      → (i ≢ j) × ((m : Link X) × (find j page'.links ≡ some m) × (m.prev ≡ some i))
  next_back i j l (is_new at_new is) e =
      let next : old.next ≡ some j = sym (ap (λ k. k.next) is) ∙ e in
      let (apart, (m, at_j, back)) = d.next_back ptr j old there next in
      (
        (λ same. in_use j m at_j (sym same ∙ at_new)),
        (record m { prev = some new_ptr }, s.at_next j m next at_j, ap some (sym at_new)),
      )
  next_back i j l (is_ptr at_ptr is) e =
      let to_new : some new_ptr ≡ some j = sym (ap (λ k. k.next) is) ∙ e in
      let new : new_ptr ≡ j = cc in
      (
        (λ same. in_use ptr old there (sym at_ptr ∙ same ∙ sym new)),
        (new_link, rw (sym new) s.at_new, ap some (sym at_ptr)),
      )
  next_back i j l (is_next m next at_i not_ptr is) e =
      let on : m.next ≡ some j = sym (ap (λ k. k.next) is) ∙ e in
      let (apart, (m2, at_j, back)) = d.next_back i j m at_i on in
      let (m', at_j', same) = keeps_prev j m2 at_j (λ e'. apart (let both = next in cc)) in
      (apart, (m', at_j', same ∙ back))
  next_back i j l (is_other not_ptr not_next at_i) e =
      let (apart, (m2, at_j, back)) = d.next_back i j l at_i e in
      let (m', at_j', same) = keeps_prev j m2 at_j (λ e'. not_ptr (only_ptr j m2 e' at_j back)) in
      (apart, (m', at_j', same ∙ back))
    where
      -- Only `ptr` stands before the node behind it.
      only_ptr :
          (j : ℕ) (m2 : Link X)
          → old.next ≡ some j
          → find j page.links ≡ some m2
          → m2.prev ≡ some i
          → i ≡ ptr
      only_ptr j m2 next at_j back =
          let (apart, (m, at_j', back')) = d.next_back ptr j old there next in
          let node : m ≡ m2 = cc in
          let both : some ptr ≡ some i = sym back' ∙ ap (λ k. k.prev) node ∙ back in cc

  prev_back :
      (i j : ℕ) (l : Link X)
      → Origin i l
      → l.prev ≡ some j
      → (m : Link X) × (find j page'.links ≡ some m) × (m.next ≡ some i)
  prev_back i j l (is_new at_new is) e =
      let to_ptr : some ptr ≡ some j = sym (ap (λ k. k.prev) is) ∙ e in
      let same : ptr ≡ j = cc in (ptr_link, rw (sym same) s.at_ptr, ap some (sym at_new))
  prev_back i j l (is_ptr at_ptr is) e =
      let before : old.prev ≡ some j = sym (ap (λ k. k.prev) is) ∙ e in
      let (m2, at_j, on) = d.prev_back ptr j old there before in
      let (m', at_j', same) = keeps_next j m2 at_j (λ e'. (d.next_back j ptr m2 at_j on).0 e') in
      (m', at_j', same ∙ on ∙ ap some (sym at_ptr))
  prev_back i j l (is_next m next at_i not_ptr is) e =
      let to_new : some new_ptr ≡ some j = sym (ap (λ k. k.prev) is) ∙ e in
      let new : new_ptr ≡ j = cc in (new_link, rw (sym new) s.at_new, next)
  prev_back i j l (is_other not_ptr not_next at_i) e =
      let (m2, at_j, on) = d.prev_back i j l at_i e in
      let (m', at_j', same) = keeps_next j m2 at_j (λ e'. not_next (from_ptr m2 e' at_j on)) in
      (m', at_j', same ∙ on)
    where
      from_ptr :
          (m2 : Link X)
          → j ≡ ptr
          → find j page.links ≡ some m2
          → m2.next ≡ some i
          → old.next ≡ some i
      from_ptr m2 at_ptr at_j on =
          let at_p = rw at_ptr at at_j in let node : old ≡ m2 = cc in ap (λ k. k.next) node ∙ on

  last_only : (i : ℕ) (l : Link X) → Origin i l → l.next ≡ none → i ≡ page'.last
  last_only i l (is_new at_new is) e = at_new ∙ sym (s.last_moved (sym (ap (λ k. k.next) is) ∙ e))
  last_only i l (is_ptr at_ptr is) e =
      let there_is : some new_ptr ≡ none = sym (ap (λ k. k.next) is) ∙ e in absurd (cc)
  last_only i l (is_next m next at_i not_ptr is) e =
      d.last_only i m at_i (sym (ap (λ k. k.next) is) ∙ e)
      ∙ sym (s.last_kept (λ end. let both = next in cc))
  last_only i l (is_other not_ptr not_next at_i) e =
      let end = d.last_only i l at_i e in
      end
      ∙ sym
          (s.last_kept (λ none_behind. not_ptr (end ∙ sym (d.last_only ptr old there none_behind))))

  first_only : (i : ℕ) (l : Link X) → Origin i l → l.prev ≡ none → i ≡ page'.first
  first_only i l (is_new at_new is) e =
      let there_is : some ptr ≡ none = sym (ap (λ k. k.prev) is) ∙ e in absurd (cc)
  first_only i l (is_ptr at_ptr is) e =
      at_ptr ∙ d.first_only ptr old there (sym (ap (λ k. k.prev) is) ∙ e) ∙ sym s.first
  first_only i l (is_next m next at_i not_ptr is) e =
      let there_is : some new_ptr ≡ none = sym (ap (λ k. k.prev) is) ∙ e in absurd (cc)
  first_only i l (is_other not_ptr not_next at_i) e = d.first_only i l at_i e ∙ sym s.first

  last_in : (l : Link X) × (find page'.last page'.links ≡ some l) × (l.next ≡ none)
  last_in = elim (Option-cases old.next) [
    | inl end ↦ (new_link, rw (s.last_moved end) s.at_new, end)
    | inr (n, more) ↦
        let (l, at_last, end) = d.last_in in
        let (m', at_last', same) = keeps_next page.last l at_last (λ e.
          let at_ptr = rw e at at_last in
          let both : old.next ≡ none = (let node : old ≡ l = cc in ap (λ k. k.next) node ∙ end) in
          cc) in
        (m', rw (s.last_kept (λ e. cc)) at_last', same ∙ end)
  ]

  first_in : (l : Link X) × (find page'.first page'.links ≡ some l) × (l.prev ≡ none)
  first_in =
      let (l, at_first, end) = d.first_in in
      let (m', at_first', same) = keeps_prev page.first l at_first (λ e.
        let (apart, (m, at_m, back)) = d.next_back ptr page.first old there e in
        let node : l ≡ m = cc in
        let both : some ptr ≡ none = sym back ∙ ap (λ k. k.prev) (sym node) ∙ end in cc) in
      (m', rw s.first at_first', same ∙ end)

  spliced_origin :
      (i : ℕ) (l : Link X)
      → find i page'.links ≡ some l
      → (i ≡ new_ptr) ⊎ ((m : Link X) × (find i page.links ≡ some m))
  spliced_origin i l h = elim (origin i l h) [
    | is_new at_new is ↦ inl at_new
    | is_ptr at_ptr is ↦ inr (old, rw at_ptr there)
    | is_next m next at_i not_ptr is ↦ inr (m, at_i)
    | is_other not_ptr not_next at_i ↦ inr (l, at_i)
  ]

  spliced-IsDoublyLinked : IsDoublyLinked page'
  spliced-IsDoublyLinked = record {
    next_back = λ i j l h e. next_back i j l (origin i l h) e;
    prev_back = λ i j l h e. prev_back i j l (origin i l h) e;
    last_only = λ i l h e. last_only i l (origin i l h) e;
    first_only = λ i l h e. first_only i l (origin i l h) e;
    last_in = last_in;
    first_in = first_in;
  }

-- In a doubly linked catalog, inserting the links of a page that has none behind one that has does
-- not panic. The catalog stays doubly linked; the new page stands between the one before it and what
-- stood behind that, or else at the end of the list, all other links are as they were, and no page
-- but the new one gets links that had none.
pub splice-IsDoublyLinked :
    {X : Type 0} (extra : X) (page : CatalogPage X) (ptr new_ptr : ℕ) (old : Link X)
    → IsDoublyLinked page
    → find ptr page.links ≡ some old
    → find new_ptr page.links ≡ none
    → (page' : CatalogPage X) × (splice extra page ptr old.next new_ptr ≡ done page')
      × IsDoublyLinked page'
      × IsSpliced extra page ptr old new_ptr page'
      × ((i : ℕ) (l : Link X)
          → find i page'.links ≡ some l
          → (i ≡ new_ptr) ⊎ ((m : Link X) × (find i page.links ≡ some m)))
splice-IsDoublyLinked extra page ptr new_ptr old d there unused =
    let (page', run, s) = splice-IsSpliced extra page ptr new_ptr old d there unused in
    (page', run, spliced-IsDoublyLinked d there unused s, s, spliced_origin d there unused s)
