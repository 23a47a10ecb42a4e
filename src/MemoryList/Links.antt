-- ===== src/MemoryList/Links.antt =====
-- The sequence of nodes that a list of core/src/common/list/memory.rs stands for.
use clearned_immutable.Prelude.{
  ℕ, ◌≡◌, refl, ◌∙◌, true, false, ◌||◌, Option, none, some, List, [], ◌∷◌, ◌++◌, arith, ◌==◌,
}
use clearned_immutable.IdAllocator.Pool.{has}
use clearned_immutable.MemoryList.Api.{ArenaApi}
use clearned_immutable.MemoryList.{Slot, MemoryList}

-- A node of the sequence: its address, its contents and its parent.
pub record Cell {ℓ} (N PA : Type ℓ) : Type ℓ where
  pub id : ℕ
  pub contents : N
  pub above : Option PA

module _ {ℓ} {N PA : Type ℓ} where
  abbrev pub ids : List (Cell N PA) → List ℕ
  ids [] = []
  ids (c ∷ cs) = c.id ∷ ids cs

  -- The address that stands first, with `after` behind the sequence; and last, with `before` ahead.
  abbrev pub head_id : List (Cell N PA) → Option ℕ → Option ℕ
  head_id [] after = after
  head_id (c ∷ cs) after = some c.id

  abbrev pub last_id : Option ℕ → List (Cell N PA) → Option ℕ
  last_id before [] = before
  last_id before (c ∷ cs) = last_id (some c.id) cs

  abbrev pub slot_of : Option ℕ → Cell N PA → Option ℕ → Slot N PA
  slot_of before c after = (record { inner = c.contents; next = after; previous = before }, c.above)

  abbrev pub AreDistinct : List (Cell N PA) → Type 0
  AreDistinct [] = Unit
  AreDistinct (c ∷ cs) = (has c.id (ids cs) ≡ false) × AreDistinct cs

  pub has-append :
      (j : ℕ) (xs ys : List (Cell N PA))
      → has j (ids (xs ++ ys)) ≡ (has j (ids xs) || has j (ids ys))
  has-append j [] ys = refl
  has-append j (x ∷ xs) ys = ground (arith, has-append j xs ys)

  pub last_id-append :
      (before : Option ℕ) (xs ys : List (Cell N PA))
      → last_id before (xs ++ ys) ≡ last_id (last_id before xs) ys
  last_id-append before [] ys = refl
  last_id-append before (x ∷ xs) ys = last_id-append (some x.id) xs ys

  pub head_id-append :
      (xs ys : List (Cell N PA)) (after : Option ℕ)
      → head_id (xs ++ ys) after ≡ head_id xs (head_id ys after)
  head_id-append [] ys after = refl
  head_id-append (x ∷ xs) ys after = refl

  pub has_apart :
      (j k : ℕ) (cs : List (Cell N PA))
      → has j (ids cs) ≡ true
      → has k (ids cs) ≡ false
      → (j == k) ≡ false
  has_apart j k cs in_cs out = ground arith

  -- The nodes of two parts are distinct if those of the parts are, and no address is in both.
  pub AreDistinct-append :
      (xs ys : List (Cell N PA))
      → AreDistinct xs
      → AreDistinct ys
      → ((j : ℕ) → has j (ids xs) ≡ true → has j (ids ys) ≡ false)
      → AreDistinct (xs ++ ys)
  AreDistinct-append [] ys dx dy apart = dy
  AreDistinct-append (x ∷ xs) ys dx dy apart = (
    ground (arith, has-append x.id xs ys, dx.0, apart x.id),
    AreDistinct-append xs ys dx.1 dy (λ j h. ground (arith, apart j)),
  )

  pub AreDistinct-parts :
      (xs ys : List (Cell N PA))
      → AreDistinct (xs ++ ys)
      → AreDistinct xs × AreDistinct ys × ((j : ℕ) → has j (ids xs) ≡ true → has j (ids ys) ≡ false)
  AreDistinct-parts [] ys d = (tt, d, λ j h. absurd (ground arith))
  AreDistinct-parts (x ∷ xs) ys d =
      let (dx, dy, apart) = AreDistinct-parts xs ys d.1 in
      (
        (ground (arith, has-append x.id xs ys, d.0), dx),
        dy,
        λ j h. ground (arith, has-append x.id xs ys, d.0, apart j),
      )

module _ {ℓ} {N PA : Type ℓ} (api : ArenaApi (Slot N PA)) where
  -- The links lead forward and backward along `cs`, from `before` to `after`.
  abbrev pub Linked : api.Arena → Option ℕ → List (Cell N PA) → Option ℕ → Type ℓ
  Linked arena before [] after = Unit
  Linked arena before (c ∷ cs) after =
      (api.get arena c.id ≡ some (slot_of before c (head_id cs after)))
      × Linked arena (some c.id) cs after

  -- The list stands for the nodes `cs`, in their order, of which there is at least one.
  pub record IsList (list : MemoryList api) (cs : List (Cell N PA)) : Type ℓ where
    pub linked : Linked list.arena none cs none
    pub distinct : AreDistinct cs
    pub first : head_id cs none ≡ some list.first
    pub last : last_id none cs ≡ some list.last

  pub used_apart :
      (a : api.Arena) (i k : ℕ) (s : Slot N PA)
      → api.get a i ≡ some s
      → api.get a k ≡ none
      → (k == i) ≡ false
  used_apart a i k s used unused = ground arith

  -- The links depend on the arena at the addresses of the nodes only.
  pub Linked-agree :
      (a b : api.Arena) (before : Option ℕ) (cs : List (Cell N PA)) (after : Option ℕ)
      → ((j : ℕ) → has j (ids cs) ≡ true → api.get b j ≡ api.get a j)
      → Linked a before cs after
      → Linked b before cs after
  Linked-agree a b before [] after same l = tt
  Linked-agree a b before (c ∷ cs) after same l = (
    same c.id (ground arith) ∙ l.0,
    Linked-agree a b (some c.id) cs after (λ j h. same j (ground arith)) l.1,
  )

  pub Linked-parts :
      (a : api.Arena) (before : Option ℕ) (xs ys : List (Cell N PA)) (after : Option ℕ)
      → Linked a before (xs ++ ys) after
      → Linked a before xs (head_id ys after) × Linked a (last_id before xs) ys after
  Linked-parts a before [] ys after l = (tt, l)
  Linked-parts a before (x ∷ xs) ys after l =
      let (lx, ly) = Linked-parts a (some x.id) xs ys after l.1 in
      ((rw head_id-append at l.0, lx), ly)

  pub Linked-append :
      (a : api.Arena) (before : Option ℕ) (xs ys : List (Cell N PA)) (after : Option ℕ)
      → Linked a before xs (head_id ys after)
      → Linked a (last_id before xs) ys after
      → Linked a before (xs ++ ys) after
  Linked-append a before [] ys after lx ly = ly
  Linked-append a before (x ∷ xs) ys after lx ly =
      (rw head_id-append lx.0, Linked-append a (some x.id) xs ys after lx.1 ly)

  -- An address that the arena does not hold is not linked.
  pub not-has_unused :
      (a : api.Arena) (before : Option ℕ) (cs : List (Cell N PA)) (after : Option ℕ) (j : ℕ)
      → api.get a j ≡ none
      → Linked a before cs after
      → has j (ids cs) ≡ false
  not-has_unused a before [] after j unused l = refl
  not-has_unused a before (c ∷ cs) after j unused l =
      let later = not-has_unused a (some c.id) cs after j unused l.1 in ground (arith, l.0, later)
