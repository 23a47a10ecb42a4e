-- ===== src/MemoryList/Front.antt =====
-- `insert_before` of core/src/common/list/memory.rs at the first node of a list.
use clearned_immutable.Prelude.{
  ℕ, ◌≡◌, refl, ◌∙◌, none, some, List, ◌∷◌, arith, ◌==◌, ==-refl, if◌then◌else◌, ◌>>=◌, Returns,
}
use clearned_immutable.MemoryList.Api.{ArenaApi}
use clearned_immutable.MemoryList.{Slot, MemoryList, fetch, set_previous, insert_before}
use clearned_immutable.MemoryList.Links.{
  Cell, head_id, slot_of, IsList, Linked-agree, not-has_unused, has_apart, used_apart,
}
use clearned_immutable.MemoryList.Runs.{orphan}

module _ {ℓ} {N PA : Type ℓ} (api : ArenaApi (Slot N PA)) where
  -- The node is put in front of the sequence, at an address that was not in use.
  pub insert_before-IsList :
      (node : N) {list : MemoryList api} (c : Cell N PA) (post : List (Cell N PA))
      → IsList api list (c ∷ post)
      → Returns (insert_before api node c.id list) λ (id, list').
        (api.get list.arena id ≡ none) × IsList api list' (orphan id node ∷ c ∷ post)
  unfolding insert_before set_previous
  insert_before-IsList node {list} c post h =
      let (lc, lq) = h.linked in
      let after = head_id post none in
      let fresh : Slot N PA = slot_of none (orphan c.id node) (some c.id) in
      let id = (api.insert list.arena fresh).0 in
      let a = (api.insert list.arena fresh).1 in
      let unused = api.insert_unused list.arena fresh in
      let kept : api.get a c.id ≡ some (slot_of none c after) =
        ground (arith, lc, api.get-insert list.arena fresh c.id, unused) in
      let linked = slot_of (some id) c after in
      let b = api.put a c.id linked in
      let got : (j : ℕ)
          → api.get b j ≡ (
              if j == c.id
              then some linked
              else if j == id
              then some fresh
              else api.get list.arena j) =
        λ j.
          ground (arith, api.get-put a c.id j _ linked kept, api.get-insert list.arena fresh j) in
      let out = not-has_unused api list.arena none (c ∷ post) none id unused h.linked in
      let out_post = not-has_unused api list.arena (some c.id) post none id unused lq in
      (
        (id, record list { arena = b; first = id }),
        rw (insert_before, ◌>>=◌, fetch, lc) (rw (set_previous, ◌>>=◌, fetch, kept)),
        (
          unused,
          record {
            linked = (
              got id ∙ rw (used_apart api list.arena c.id id _ lc unused, ==-refl id),
              (
                got c.id ∙ rw (==-refl c.id),
                Linked-agree api list.arena b (some c.id) post none
                    (λ j in_post.
                      got j
                      ∙ rw (
                        has_apart j c.id post in_post h.distinct.0,
                        has_apart j id post in_post out_post,
                      ))
                    lq,
              ),
            );
            distinct = (out, h.distinct);
            first = refl;
            last = h.last;
          },
        ),
      )
