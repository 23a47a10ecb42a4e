-- ===== src/PageStore/Views.antt =====
-- What the pages of a local store of core/src/common/storage/store.rs hold, seen through the cache.
use clearned_immutable.Prelude.{
  ℕ, ◌≡◌, ◌≢◌, ◌∙◌, inl, inr, refl, sym, ap, true, Option, none, some, List, [], ◌∷◌, ◌++◌, arith,
  ◌==◌, if◌then◌else◌, Bool-cases, Option-cases,
}
use clearned_immutable.PageStore.Api.{MarbleApi, Codec, find, AreDistinct, or_else}
use clearned_immutable.PageStore.{
  Attempt, done, failed, panicked, put, LocalStore, Inner, Batch, write_batch,
}
use clearned_immutable.PageStore.Local.{State, serialize_cache, flush, emptied}

module _ {ℓ} {A : Type ℓ} where
  pub find-put :
      (j k : ℕ) (a : A) (m : List (ℕ × A))
      → find j (put k a m) ≡ (if k == j then some a else find j m)
  find-put j k a [] = refl
  find-put j k a ((i, b) ∷ m) = ground (arith, find-put j k a m)

  pub AreDistinct-put : (k : ℕ) (a : A) (m : List (ℕ × A)) → AreDistinct m → AreDistinct (put k a m)
  AreDistinct-put k a [] d = (refl, tt)
  AreDistinct-put k a ((i, b) ∷ m) d = elim (Bool-cases (i == k)) [
    | inl eq ↦ let same : i ≡ k = ground arith in rw eq (rw same at d.0, d.1)
    | inr ne ↦ rw ne (ground (arith, find-put i k a m, d.0), AreDistinct-put k a m d.1)
  ]

  find-append_last :
      (i k : ℕ) (a : A) (m : List (ℕ × A)) → i ≢ k → find i (m ++ (k, a) ∷ []) ≡ find i m
  find-append_last i k a [] ne = ground arith
  find-append_last i k a ((j, b) ∷ m) ne = ground (arith, find-append_last i k a m ne)

  find-last :
      (k : ℕ) (a : A) (m : List (ℕ × A)) → find k m ≡ none → find k (m ++ (k, a) ∷ []) ≡ some a
  find-last k a [] out = ground arith
  find-last k a ((j, b) ∷ m) out = elim (Bool-cases (j == k)) [
    | inl eq ↦ let there = rw eq at out in cc
    | inr ne ↦ rw ne (find-last k a m (rw ne at out))
  ]

  AreDistinct-append_last :
      (k : ℕ) (a : A) (m : List (ℕ × A))
      → AreDistinct m
      → find k m ≡ none
      → AreDistinct (m ++ (k, a) ∷ [])
  AreDistinct-append_last k a [] d out = (refl, tt)
  AreDistinct-append_last k a ((j, b) ∷ m) d out = elim (Bool-cases (j == k)) [
    | inl eq ↦ let there = rw eq at out in absurd cc
    | inr ne ↦ (
      find-append_last j k a m (ground arith) ∙ d.0,
      AreDistinct-append_last k a m d.1 (rw ne at out),
    )
  ]

module _ (api : MarbleApi) {C P : Type 0} (codec : Codec api.Bytes C)
    (page_codec : Codec api.Bytes P) where
  abbrev pub decoding : Option api.Bytes → Option P
  decoding none = none
  decoding (some bytes) = page_codec.decode bytes

  abbrev pub seen : Option (Option P) → Option api.Bytes → Option P
  seen (some page) stored = page
  seen none stored = decoding stored

  -- The page that a read finds: the one in the cache, or else the one in the store.
  abbrev pub view : LocalStore C P → Inner api → ℕ → Option P
  view local inner i = seen (find i local.cache) (api.contents inner.store i)

  -- The cache holds no page twice, and not the page of the catalog.
  abbrev pub IsCache : LocalStore C P → Type 0
  IsCache local = AreDistinct local.cache × (find local.id local.cache ≡ none)

  -- The pages serialize.
  abbrev pub IsTotal : Type 0
  IsTotal = (p : P) → (bytes : api.Bytes) × (page_codec.encode p ≡ some bytes)

  abbrev as_bytes : Option (Option P) → Option (Option api.Bytes)
  as_bytes none = none
  as_bytes (some none) = some none
  as_bytes (some (some p)) = some (page_codec.encode p)

  module _ (total : IsTotal) where
    find-serialize_cache :
        (i : ℕ) (cache : List (ℕ × Option P))
        → find i (serialize_cache api codec page_codec cache) ≡ as_bytes (find i cache)
    unfolding serialize_cache
    find-serialize_cache i [] = refl
    find-serialize_cache i ((j, none) ∷ rest) = elim (Bool-cases (j == i)) [
      | inl eq ↦ rw eq
      | inr ne ↦ rw ne (find-serialize_cache i rest)
    ]
    find-serialize_cache i ((j, some p) ∷ rest) =
        let (bytes, e) = total p in
        elim (Bool-cases (j == i)) [
          | inl eq ↦ rw (serialize_cache, e) (rw eq (ap some (sym e)))
          | inr ne ↦ rw (serialize_cache, e) (rw ne (find-serialize_cache i rest))
        ]

    AreDistinct-serialize_cache :
        (cache : List (ℕ × Option P))
        → AreDistinct cache
        → AreDistinct (serialize_cache api codec page_codec cache)
    unfolding serialize_cache
    AreDistinct-serialize_cache [] d = tt
    AreDistinct-serialize_cache ((j, none) ∷ rest) d =
        (find-serialize_cache j rest ∙ ap as_bytes d.0, AreDistinct-serialize_cache rest d.1)
    AreDistinct-serialize_cache ((j, some p) ∷ rest) d =
        let (bytes, e) = total p in
        rw (serialize_cache, e)
          (find-serialize_cache j rest ∙ ap as_bytes d.0, AreDistinct-serialize_cache rest d.1)

    -- What the store shows of a page after the cache was written, is what the cache showed.
    written :
        (page : Option (Option P)) (old new : Option api.Bytes)
        → new ≡ or_else (as_bytes page) old
        → decoding new ≡ seen page old
    written none old new e = ap decoding e
    written (some none) old new e = ap decoding e
    written (some (some p)) old new e =
        let (bytes, encoded) = total p in rw (e, encoded) (page_codec.decode-encode p bytes encoded)

    module _ (local : LocalStore C P) (inner : Inner api) (cache : IsCache local) where
      abbrev batch : api.Bytes → Batch api
      batch bytes = serialize_cache api codec page_codec local.cache ++ (local.id, some bytes) ∷ []

      batch-contents :
          (bytes : api.Bytes)
          → (api.write_batch inner.store (batch bytes)).0 ≡ true
          → (i : ℕ)
          → api.contents (api.write_batch inner.store (batch bytes)).1 i
            ≡ or_else (find i (batch bytes)) (api.contents inner.store i)
      batch-contents bytes fine i =
          api.write_contents inner.store (batch bytes) i
            (AreDistinct-append_last local.id (some bytes) _
              (AreDistinct-serialize_cache local.cache cache.0)
              (find-serialize_cache local.id local.cache ∙ ap as_bytes cache.1))
            fine

      abbrev pub Keeps : LocalStore C P → Inner api → Type 0
      Keeps local' inner' =
          (local' ≡ emptied api codec page_codec local)
          × (inner'.catalog ≡ inner.catalog)
          × (inner'.active_stores ≡ inner.active_stores)

      -- What a flush returns and leaves.
      abbrev pub IsFlushed : Attempt Unit × State api codec page_codec → Type 0
      IsFlushed (failed e, (local', inner')) = Keeps local' inner'
      IsFlushed (panicked e, _) = ⊥
      IsFlushed (done _, (local', inner')) =
          Keeps local' inner'
          × (api.contents inner'.store local.id ≡ codec.encode local.catalog)
          × ((i : ℕ) → i ≢ local.id → view local' inner' i ≡ view local inner i)

      written_batch :
          (bytes : api.Bytes)
          → codec.encode local.catalog ≡ some bytes
          → let (result, inner') = write_batch api inner (batch bytes) in
            IsFlushed (result, (emptied api codec page_codec local, inner'))
      written_batch bytes e = elim (Bool-cases (api.write_batch inner.store (batch bytes)).0) [
        | inr broken ↦ rw broken (refl, refl, refl)
        | inl fine ↦ rw fine (
          (refl, refl, refl),
          batch-contents bytes fine local.id
              ∙ ap (λ o. or_else o (api.contents inner.store local.id))
                  (find-last local.id (some bytes) _
                    (find-serialize_cache local.id local.cache ∙ ap as_bytes cache.1))
              ∙ sym e,
          λ i ne. written (find i local.cache) (api.contents inner.store i) _ (
              batch-contents bytes fine i
              ∙ ap (λ o. or_else o (api.contents inner.store i))
                  (find-append_last i local.id (some bytes) _ ne
                    ∙ find-serialize_cache i local.cache)),
        )
      ]

      -- If the pages serialize, a flush of a store whose cache holds no page twice, nor that of its
      -- catalog, never panics; it empties the cache and leaves the catalog of the page ids and the names
      -- of the active stores. Where it succeeds, the page of the catalog holds it, and every other page
      -- reads as before.
      pub flush-IsFlushed : IsFlushed (flush api codec page_codec local inner)
      unfolding flush
      flush-IsFlushed = elim (Option-cases (codec.encode local.catalog)) [
        | inl broken ↦ rw (flush, broken) (refl, refl, refl)
        | inr (bytes, e) ↦ rw (flush, e) (written_batch bytes e)
      ]
