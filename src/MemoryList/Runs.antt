-- ===== src/MemoryList/Runs.antt =====
-- The runs of `insert_after` and `insert_before` of core/src/common/list/memory.rs in the arena.
use clearned_immutable.Prelude.{
  ℕ, suc, ◌≡◌, refl, ◌∙◌, false, Option, none, some, List, [], ◌∷◌, ◌++◌, arith, ◌==◌,
  if◌then◌else◌, ◌>>=◌, Returns,
}
use clearned_immutable.IdAllocator.Pool.{has}
use clearned_immutable.MemoryList.Api.{ArenaApi}
use clearned_immutable.MemoryList.{Slot, MemoryList, fetch, set_next, set_previous, insert_after}
use clearned_immutable.MemoryList.Links.{Cell, ids, slot_of, AreDistinct, has-append}

module _ {ℓ} {N PA : Type ℓ} where
  abbrev pub orphan : ℕ → N → Cell N PA
  orphan id node = record { id = id; contents = node; above = none }

  pub AreDistinct-insert :
      (pre : List (Cell N PA)) (n : Cell N PA) (post : List (Cell N PA))
      → AreDistinct (pre ++ post)
      → has n.id (ids (pre ++ post)) ≡ false
      → AreDistinct (pre ++ n ∷ post)
  AreDistinct-insert [] n post d out = (out, d)
  AreDistinct-insert (x ∷ pre) n post d out = (
    ground (arith, d.0, out, has-append x.id pre post, has-append x.id pre (n ∷ post)),
    AreDistinct-insert pre n post d.1 (ground (arith, out)),
  )

module _ {ℓ} {N PA : Type ℓ} (api : ArenaApi (Slot N PA)) where
  -- The run of `insert_after` at a node that is last, and at one that is not.
  pub insert_after-last :
      (node : N) (list : MemoryList api) (c : Cell N PA) (before : Option ℕ)
      → api.get list.arena c.id ≡ some (slot_of before c none)
      → Returns (insert_after api node c.id list) λ (id, list').
        (api.get list.arena id ≡ none)
        × (list'.first ≡ list.first)
        × (list'.last ≡ id)
        × (api.len list'.arena ≡ suc (api.len list.arena))
        × ((j : ℕ)
            → api.get list'.arena j ≡ (
                if j == c.id
                then some (slot_of before c (some id))
                else if j == id
                then some (slot_of (some c.id) (orphan id node) none)
                else api.get list.arena j))
  unfolding insert_after set_next
  insert_after-last node list c before got =
      let fresh : Slot N PA = slot_of (some c.id) (orphan c.id node) none in
      let id = (api.insert list.arena fresh).0 in
      let a = (api.insert list.arena fresh).1 in
      let kept : api.get a c.id ≡ some (slot_of before c none) =
        ground
          (arith, got, api.get-insert list.arena fresh c.id, api.insert_unused list.arena fresh) in
      let linked = slot_of before c (some id) in
      (
        (id, record list { arena = api.put a c.id linked; last = id }),
        rw (insert_after, ◌>>=◌, fetch, got) (rw (set_next, ◌>>=◌, fetch, kept)),
        (
          api.insert_unused list.arena fresh,
          refl,
          refl,
          api.len-put a c.id linked ∙ api.len-insert list.arena fresh,
          λ j.
              ground (arith, api.get-put a c.id j _ linked kept, api.get-insert list.arena fresh j),
        ),
      )

  pub insert_after-inner :
      (node : N) (list : MemoryList api) (c d : Cell N PA) (before after : Option ℕ)
      → (c.id == d.id) ≡ false
      → api.get list.arena c.id ≡ some (slot_of before c (some d.id))
      → api.get list.arena d.id ≡ some (slot_of (some c.id) d after)
      → Returns (insert_after api node c.id list) λ (id, list').
        (api.get list.arena id ≡ none)
        × (list'.first ≡ list.first)
        × (list'.last ≡ list.last)
        × (api.len list'.arena ≡ suc (api.len list.arena))
        × ((j : ℕ)
            → api.get list'.arena j ≡ (
                if j == d.id
                then some (slot_of (some id) d after)
                else if j == c.id
                then some (slot_of before c (some id))
                else if j == id
                then some (slot_of (some c.id) (orphan id node) (some d.id))
                else api.get list.arena j))
  unfolding insert_after set_next set_previous
  insert_after-inner node list c d before after apart got behind =
      let fresh : Slot N PA = slot_of (some c.id) (orphan c.id node) (some d.id) in
      let id = (api.insert list.arena fresh).0 in
      let a = (api.insert list.arena fresh).1 in
      let unused = api.insert_unused list.arena fresh in
      let kept : api.get a c.id ≡ some (slot_of before c (some d.id)) =
        ground (arith, got, api.get-insert list.arena fresh c.id, unused) in
      let linked = slot_of before c (some id) in
      let b = api.put a c.id linked in
      let kept_behind : api.get b d.id ≡ some (slot_of (some c.id) d after) = ground (
        arith,
        behind,
        api.get-put a c.id d.id _ linked kept,
        api.get-insert list.arena fresh d.id,
        unused,
      ) in
      let linked_behind = slot_of (some id) d after in
      (
        (id, record list { arena = api.put b d.id linked_behind }),
        rw (insert_after, ◌>>=◌, fetch, got)
            (rw (set_next, ◌>>=◌, fetch, kept) (rw (set_previous, ◌>>=◌, fetch, kept_behind))),
        (
          unused,
          refl,
          refl,
          api.len-put b d.id linked_behind
              ∙ api.len-put a c.id linked
              ∙ api.len-insert list.arena fresh,
          λ j. ground (
            arith,
            api.get-put b d.id j _ linked_behind kept_behind,
            api.get-put a c.id j _ linked kept,
            api.get-insert list.arena fresh j,
          ),
        ),
      )
