-- ===== src/BTreeMemory/Contents.antt =====
-- The map that the nodes of a layer of core/src/classical/btree_memory/layer.rs hold together.
use clearned_immutable.Prelude.{
  ℕ, ◌<◌, ◌≤◌, ◌≡◌, refl, ap, true, false, List, [], ◌∷◌, ◌++◌, arith, length, ltb, ◌==◌,
  Bool-cases, inl, inr, if◌then◌else◌,
}
use clearned_immutable.SortedArray.{SortedArrayEntry, capacity}
use clearned_immutable.SortedArray.Assoc.{IsMap, upsert}
use clearned_immutable.SortedArray.Holds.{Holds}
use clearned_immutable.SortedArray.Split.{All-append}
use clearned_immutable.Node.{BTreeNode}
use clearned_immutable.Node.Laws.{least}
use clearned_immutable.MemoryList.Links.{Cell}

module _ {ℓ} {V PA : Type ℓ} (fanout : ℕ) where
  -- The entries `es` stand in the nodes `cs`, in order, each of which has the capacity `fanout`.
  abbrev pub Contents : List (Cell (BTreeNode V) PA) → List (SortedArrayEntry V) → Type ℓ
  Contents [] es = es ≡ []
  Contents (c ∷ cs) es =
      (own : List (SortedArrayEntry V)) × (rest : List (SortedArrayEntry V)) × (es ≡ own ++ rest)
      × Holds c.contents own
      × (capacity c.contents ≡ fanout)
      × Contents cs rest

module _ {ℓ} {V : Type ℓ} where
  -- An insertion below a key leaves what stands from there on, and one from there on leaves what
  -- stands before.
  pub upsert_below :
      (k : ℕ) (v : V) (pre post : List (SortedArrayEntry V)) (e : SortedArrayEntry V)
      → k < e.key
      → upsert k v (pre ++ e ∷ post) ≡ upsert k v pre ++ e ∷ post
  upsert_below k v [] post e lt =
      let below : ltb e.key k ≡ false = ground arith in
      let other : (e.key == k) ≡ false = ground arith in rw (below, other)
  upsert_below k v (x ∷ pre) post e lt = ground (arith, upsert_below k v pre post e lt)

  pub upsert_from :
      (k : ℕ) (v : V) (pre post : List (SortedArrayEntry V)) (e : SortedArrayEntry V)
      → e.key ≤ k
      → IsMap (pre ++ e ∷ post)
      → upsert k v (pre ++ e ∷ post) ≡ pre ++ upsert k v (e ∷ post)
  upsert_from k v [] post e le asc = refl
  upsert_from k v (x ∷ pre) post e le asc =
      let before : x.key < e.key = (All-append (λ j. x.key < j) pre (e ∷ post) asc.0).1.0 in
      let below : ltb x.key k ≡ true = ground arith in
      rw below (ap (λ t. x ∷ t) (upsert_from k v pre post e le asc.1))

  pub upsert_halves :
      (k : ℕ) (v : V) (lo hi : List (SortedArrayEntry V))
      → IsMap (lo ++ hi)
      → 0 < length hi
      → upsert k v (lo ++ hi)
        ≡ (if ltb k (least hi) then upsert k v lo ++ hi else lo ++ upsert k v hi)
  upsert_halves k v lo [] asc some_hi = absurd (omega arith)
  upsert_halves k v lo (e ∷ post) asc some_hi = elim (Bool-cases (ltb k e.key)) [
    | inl below ↦ rw below (upsert_below k v lo post e (ground arith))
    | inr above ↦ rw above (upsert_from k v lo post e (ground arith) asc)
  ]

  pub upsert_nonempty :
      (k : ℕ) (v : V) (es : List (SortedArrayEntry V)) → 0 < length (upsert k v es)
  upsert_nonempty k v [] = omega arith
  upsert_nonempty k v (e ∷ es) = ground arith

  -- An insertion from the least key on leaves the least key.
  pub least-upsert :
      (k : ℕ) (v : V) (es : List (SortedArrayEntry V))
      → 0 < length es
      → least es ≤ k
      → least (upsert k v es) ≡ least es
  least-upsert k v [] some_es le = absurd (omega arith)
  least-upsert k v (e ∷ es) some_es le = ground arith
