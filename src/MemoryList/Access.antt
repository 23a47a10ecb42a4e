-- ===== src/MemoryList/Access.antt =====
-- Reading and writing the nodes of a list of core/src/common/list/memory.rs.
use clearned_immutable.Prelude.{
  ℕ, ◌≡◌, refl, ap, ◌∙◌, Option, none, some, List, [], ◌∷◌, ◌++◌, arith, ◌==◌, if◌then◌else◌,
  ==-refl, ok, ◌>>=◌, Returns,
}
use clearned_immutable.MemoryList.Api.{ArenaApi}
use clearned_immutable.MemoryList.{
  Slot, MemoryList, new_node, fetch, empty, clear, index, set_index, parent, set_parent, next, prev,
  list_len,
}
use clearned_immutable.MemoryList.Links.{
  Cell, ids, head_id, last_id, slot_of, AreDistinct, last_id-append, head_id-append, IsList,
  Linked-agree, Linked-parts, Linked-append, AreDistinct-parts,
}
use clearned_immutable.MemoryList.Runs.{orphan}

module _ {ℓ} {N PA : Type ℓ} where
  -- The cell with other contents, and with another parent.
  abbrev pub holding : N → Cell N PA → Cell N PA
  holding v c = record { id = c.id; contents = v; above = c.above }

  abbrev pub under : Option PA → Cell N PA → Cell N PA
  under p c = record { id = c.id; contents = c.contents; above = p }

  ids_same :
      (pre : List (Cell N PA)) (c c' : Cell N PA) (post : List (Cell N PA))
      → c'.id ≡ c.id
      → ids (pre ++ c' ∷ post) ≡ ids (pre ++ c ∷ post)
  ids_same [] c c' post e = ap (λ i. i ∷ ids post) e
  ids_same (x ∷ pre) c c' post e = ap (λ is. x.id ∷ is) (ids_same pre c c' post e)

  AreDistinct-same :
      (pre : List (Cell N PA)) (c c' : Cell N PA) (post : List (Cell N PA))
      → c'.id ≡ c.id
      → AreDistinct (pre ++ c ∷ post)
      → AreDistinct (pre ++ c' ∷ post)
  AreDistinct-same [] c c' post e d = (rw e d.0, d.1)
  AreDistinct-same (x ∷ pre) c c' post e d =
      (rw (ids_same pre c c' post e) d.0, AreDistinct-same pre c c' post e d.1)

module _ {ℓ} {N PA : Type ℓ} (api : ArenaApi (Slot N PA)) where
  module _ {list : MemoryList api} (pre : List (Cell N PA)) (c : Cell N PA)
      (post : List (Cell N PA)) (h : IsList api list (pre ++ c ∷ post)) where
    pub slot-ok : api.get list.arena c.id ≡ some (slot_of (last_id none pre) c (head_id post none))
    slot-ok = (Linked-parts api list.arena none pre (c ∷ post) none h.linked).1.0

    -- What can be read at the address of a node of a well linked list: its contents, its parent,
    -- and the addresses of its neighbours in the sequence.
    pub reads_cell :
        (index api list c.id ≡ ok c.contents)
        × (parent api list c.id ≡ ok c.above)
        × (next api list c.id ≡ ok (head_id post none))
        × (prev api list c.id ≡ ok (last_id none pre))
    unfolding index parent next prev
    reads_cell = (
      rw (index, ◌>>=◌, fetch, slot-ok),
      rw (parent, ◌>>=◌, fetch, slot-ok),
      rw (next, ◌>>=◌, fetch, slot-ok),
      rw (prev, ◌>>=◌, fetch, slot-ok),
    )

    -- A write at the address of a node that keeps its links.
    put-IsList :
        (c' : Cell N PA)
        → c'.id ≡ c.id
        → let s = slot_of (last_id none pre) c' (head_id post none) in
          IsList api (record list { arena = api.put list.arena c.id s }) (pre ++ c' ∷ post)
    put-IsList c' e =
        let (lp, (lc, lq)) = Linked-parts api list.arena none pre (c ∷ post) none h.linked in
        let (dp, dc, apart) = AreDistinct-parts pre (c ∷ post) h.distinct in
        let s = slot_of (last_id none pre) c' (head_id post none) in
        let a = api.put list.arena c.id s in
        let got : (j : ℕ) → api.get a j ≡ (if j == c.id then some s else api.get list.arena j) =
          λ j. api.get-put list.arena c.id j _ s slot-ok in
        record {
          linked =
              Linked-append api a none pre (c' ∷ post) none
                (rw e (
                  Linked-agree api list.arena a none pre (some c.id)
                    (λ j in_pre. ground (arith, got j, apart j)) lp))
                (
                  rw e (got c.id ∙ rw (==-refl c.id)),
                  rw e (
                      Linked-agree api list.arena a (some c.id) post none
                        (λ j in_post. ground (arith, got j, dc.0)) lq),
                );
          distinct = AreDistinct-same pre c c' post e h.distinct;
          first = rw (head_id-append, e) (rw head_id-append at h.first);
          last = rw (last_id-append, e) (rw last_id-append at h.last);
        }

    -- A write through the index of a well linked list replaces the contents of the node, and
    -- nothing else.
    pub set_index-IsList :
        (v : N)
        → Returns (set_index api list c.id v) λ list'. IsList api list' (pre ++ holding v c ∷ post)
    unfolding set_index
    set_index-IsList v =
        (_, rw (set_index, ◌>>=◌, fetch, slot-ok) refl, put-IsList (holding v c) refl)

    -- `set_parent` in a well linked list replaces the parent of the node, and nothing else.
    pub set_parent-IsList :
        (p : PA)
        → Returns
            (set_parent api list c.id p)
            λ list'. IsList api list' (pre ++ under (some p) c ∷ post)
    unfolding set_parent
    set_parent-IsList p =
        (_, rw (set_parent, ◌>>=◌, fetch, slot-ok) refl, put-IsList (under (some p) c) refl)

  -- A new list, and one that `clear` has emptied, is the default node alone.
  pub clear-IsList :
      (node : N) (list : MemoryList api)
      → let (id, list') = clear api node list in
        IsList api (empty api node) (orphan (empty api node).first node ∷ [])
        × IsList api list' (orphan id node ∷ [])
        × (list_len api (empty api node) ≡ 1)
        × (list_len api list' ≡ 1)
  unfolding empty clear list_len
  clear-IsList node list =
      let s : Slot N PA = (new_node node, none) in
      let alone : (a : api.Arena) → api.get (api.insert a s).1 (api.insert a s).0 ≡ some s =
        λ a. api.get-insert a s _ ∙ rw (==-refl (api.insert a s).0) in
      (
        record { linked = (alone api.empty, tt); distinct = (refl, tt); first = refl; last = refl },
        record {
          linked = (alone (api.clear list.arena), tt);
          distinct = (refl, tt);
          first = refl;
          last = refl;
        },
        api.len-insert api.empty s ∙ rw api.len-empty,
        api.len-insert (api.clear list.arena) s ∙ rw (api.len-clear list.arena),
      )
