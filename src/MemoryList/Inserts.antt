-- ===== src/MemoryList/Inserts.antt =====
-- The insertions of core/src/common/list/memory.rs put a node into the sequence.
use clearned_immutable.Prelude.{
  ℕ, suc, ◌≡◌, ◌∙◌, false, none, some, List, [], ◌∷◌, ◌++◌, append_assoc, arith, ◌==◌, ==-refl,
  Returns,
}
use clearned_immutable.IdAllocator.Pool.{has}
use clearned_immutable.MemoryList.Api.{ArenaApi}
use clearned_immutable.MemoryList.{Slot, MemoryList, insert_after, list_len}
use clearned_immutable.MemoryList.Links.{
  Cell, ids, head_id, last_id, AreDistinct, last_id-append, head_id-append, Linked, IsList,
  Linked-agree, Linked-parts, Linked-append, not-has_unused, AreDistinct-parts, has_apart,
  used_apart,
}
use clearned_immutable.MemoryList.Runs.{
  orphan, AreDistinct-insert, insert_after-last, insert_after-inner,
}

module _ {ℓ} {N PA : Type ℓ} (api : ArenaApi (Slot N PA)) where
  -- The result of an insertion: an address that was not in use, one node more in the arena, and the
  -- new sequence, in which the new node has no parent yet.
  abbrev pub Inserted :
      MemoryList api → List (Cell N PA) → N → List (Cell N PA) → ℕ × MemoryList api → Type ℓ
  Inserted list pre node post (id, list') =
      (api.get list.arena id ≡ none)
      × (list_len api list' ≡ suc (list_len api list))
      × IsList api list' (pre ++ orphan id node ∷ post)

  distinct_after :
      (a : api.Arena) (pre : List (Cell N PA)) (c n : Cell N PA) (post : List (Cell N PA))
      → AreDistinct (pre ++ c ∷ post)
      → Linked api a none (pre ++ c ∷ post) none
      → api.get a n.id ≡ none
      → AreDistinct (pre ++ c ∷ n ∷ post)
  distinct_after a pre c n post d l unused =
      let out = not-has_unused api a none (pre ++ c ∷ post) none n.id unused l in
      let shape = append_assoc pre (c ∷ []) post in
      rw append_assoc at (AreDistinct-insert (pre ++ c ∷ []) n post (rw shape d) (rw shape out))

  -- `insert_after` in a well linked list puts the node right behind the one at the address given,
  -- at an address that was not in use, and leaves a well linked list.
  pub insert_after-IsList :
      (node : N) {list : MemoryList api} (pre : List (Cell N PA)) (c : Cell N PA)
      (post : List (Cell N PA))
      → IsList api list (pre ++ c ∷ post)
      → Returns (insert_after api node c.id list) (Inserted list (pre ++ c ∷ []) node post)
  unfolding list_len
  insert_after-IsList node {list} pre c [] h =
      let (lp, lc) = Linked-parts api list.arena none pre (c ∷ []) none h.linked in
      let (dp, dc, apart) = AreDistinct-parts pre (c ∷ []) h.distinct in
      let ((id, list'), run, (unused, f, l, size, got)) =
        insert_after-last api node list c (last_id none pre) lc.0 in
      let out = not-has_unused api list.arena none pre (some c.id) id unused lp in
      let n = orphan {PA = PA} id node in
      (
        (id, list'),
        run,
        (
          unused,
          size,
          rw append_assoc (record {
            linked =
                Linked-append api list'.arena none pre (c ∷ n ∷ []) none
                  (Linked-agree api list.arena list'.arena none pre (some c.id)
                    (λ j in_pre. ground (arith, got j, apart j)) lp)
                  (ground (arith, got c.id), (ground (arith, got id, lc.0, unused), tt));
            distinct = distinct_after list.arena pre c n [] h.distinct h.linked unused;
            first = rw head_id-append (rw f (rw head_id-append at h.first));
            last = rw last_id-append (rw l);
          }),
        ),
      )
  insert_after-IsList node {list} pre c (d ∷ post) h =
      let (lp, (lc, (ld, lq))) =
        Linked-parts api list.arena none pre (c ∷ d ∷ post) none h.linked in
      let (dp, dc, apart) = AreDistinct-parts pre (c ∷ d ∷ post) h.distinct in
      let cd : (c.id == d.id) ≡ false = ground (arith, dc.0) in
      let c_out : has c.id (ids post) ≡ false = ground (arith, dc.0) in
      let ((id, list'), run, (unused, f, l, size, got)) =
        insert_after-inner api node list c d (last_id none pre) (head_id post none) cd lc ld in
      let out = not-has_unused api list.arena none pre (some c.id) id unused lp in
      let out_post = not-has_unused api list.arena (some d.id) post none id unused lq in
      let n = orphan {PA = PA} id node in
      (
        (id, list'),
        run,
        (
          unused,
          size,
          rw append_assoc (record {
            linked =
                Linked-append api list'.arena none pre (c ∷ n ∷ d ∷ post) none
                  (Linked-agree api list.arena list'.arena none pre (some c.id)
                    (λ j in_pre. ground (arith, got j, apart j)) lp)
                  (
                    got c.id ∙ rw (cd, ==-refl c.id),
                    (
                      got id
                          ∙ rw (
                            used_apart api list.arena d.id id _ ld unused,
                            used_apart api list.arena c.id id _ lc unused,
                            ==-refl id,
                          ),
                      (
                        ground (arith, got d.id),
                        Linked-agree api list.arena list'.arena (some d.id) post none
                            (λ j in_post.
                              got j
                              ∙ rw (
                                has_apart j d.id post in_post dc.1.0,
                                has_apart j c.id post in_post c_out,
                                has_apart j id post in_post out_post,
                              ))
                            lq,
                      ),
                    ),
                  );
            distinct = distinct_after list.arena pre c n (d ∷ post) h.distinct h.linked unused;
            first = rw head_id-append (rw f (rw head_id-append at h.first));
            last = rw last_id-append (rw l (rw last_id-append at h.last));
          }),
        ),
      )
