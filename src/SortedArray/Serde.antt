-- ===== src/SortedArray/Serde.antt =====
-- utils/sorted_array/src/serde.rs: an array is a sequence of its entries. The format that carries
-- the sequence is the serializer's: here it is the list itself.
use clearned_immutable.Prelude.{
  ℕ, ◌≤◌, ◌<◌, ◌≡◌, refl, sym, ap, ◌∙◌, true, false, none, List, [], ◌∷◌, ◌++◌, append_assoc,
  append-nil, arith, length, length-append, leb, ltb, ◌==◌, if◌then◌else◌, Outcome, ok, ◌>>=◌,
  Returns,
}
use clearned_immutable.SortedArray.{SortedArrayEntry, SortedArray, capacity, entries, insert, empty}
use clearned_immutable.SortedArray.Assoc.{IsMap, lookup, upsert}
use clearned_immutable.SortedArray.Holds.{Holds, entries-ok}
use clearned_immutable.SortedArray.Split.{All-append, IsMap-append}
use clearned_immutable.SortedArray.Insert.{insert-upsert}
use clearned_immutable.SortedArray.Lookups.{empty-Holds}

-- The result of a deserializer: a value, or the custom error of `visit_seq`.
pub data Decoded {ℓ} (A : Type ℓ) : Type ℓ where
  decoded : A → Decoded A
  exceeded_capacity : Decoded A

module _ {ℓ} {V : Type ℓ} where
  unfoldable pub serialize : SortedArray V → Outcome (List (SortedArrayEntry V))
  unfolding entries
  serialize a = entries a

module _ {ℓ} {V : Type ℓ} where
  -- A key above all others is put at the end.
  pub upsert_last :
      (pre : List (SortedArrayEntry V)) (e : SortedArrayEntry V)
      → IsMap (pre ++ e ∷ [])
      → (upsert e.key e.value pre ≡ pre ++ e ∷ []) × (lookup e.key pre ≡ none)
  upsert_last [] e asc = (refl, refl)
  upsert_last (x ∷ pre) e asc =
      let lt : x.key < e.key = (All-append (λ k. x.key < k) pre (e ∷ []) asc.0).1.0 in
      let below : ltb x.key e.key ≡ true = ground arith in
      let other : (x.key == e.key) ≡ false = ground arith in
      let (u, l) = upsert_last pre e asc.1 in (rw below (ap (λ t. x ∷ t) u), rw other l)

module _ {ℓ} {V : Type ℓ} (size_of fanout : ℕ) where
  unfoldable pub visit_seq :
      List (SortedArrayEntry V) → SortedArray V → Outcome (Decoded (SortedArray V))
  unfolding insert
  visit_seq [] acc = ok (decoded acc)
  visit_seq (e ∷ seq) acc =
      if leb fanout acc.len
      then ok exceeded_capacity
      else (insert size_of acc e.key e.value >>= λ (_, acc'). visit_seq seq acc')

  unfoldable pub deserialize : List (SortedArrayEntry V) → Outcome (Decoded (SortedArray V))
  unfolding visit_seq empty
  deserialize seq = visit_seq seq (empty fanout)

  visit_seq-ok :
      (pre post : List (SortedArrayEntry V)) (acc : SortedArray V)
      → Holds acc pre
      → capacity acc ≡ fanout
      → IsMap (pre ++ post)
      → length (pre ++ post) ≤ fanout
      → Returns
          (visit_seq post acc)
          λ r. (a : SortedArray V) × (r ≡ decoded a) × Holds a (pre ++ post) × (capacity a ≡ fanout)
  unfolding visit_seq
  visit_seq-ok pre [] acc h cap asc fits = (decoded acc, refl, (acc, refl, rw append-nil h, cap))
  visit_seq-ok pre (e ∷ post) acc h cap asc fits =
      let shape : pre ++ e ∷ post ≡ pre ++ e ∷ [] ++ post = sym (append_assoc pre (e ∷ []) post) in
      let asc' : IsMap (pre ++ e ∷ [] ++ post) = rw shape at asc in
      let (u, l) = upsert_last pre e (IsMap-append (pre ++ e ∷ []) post asc').0 in
      let size = length-append pre (e ∷ post) in
      let open_test : leb fanout acc.len ≡ false = ground (arith, h.len) in
      let ((old, acc'), run, (same, h', cap')) =
        insert-upsert size_of e.key e.value h (λ absent. omega arith) in
      let (r, rest, (a, is, held, full)) =
        visit_seq-ok (pre ++ e ∷ []) post acc' (rw u at h') (cap' ∙ cap) asc' (rw shape at fits) in
      (r, rw (open_test, run, rest), (a, is, rw shape held, full))

  -- An array that is written and read back holds the same map, whatever the capacity of the array
  -- written, if the map fits the new one.
  pub deserialize-serialize :
      {a : SortedArray V} {es : List (SortedArrayEntry V)}
      → Holds a es
      → length es ≤ fanout
      → Returns
          (serialize a >>= deserialize)
          λ r. (b : SortedArray V) × (r ≡ decoded b) × Holds b es × (capacity b ≡ fanout)
  unfolding serialize deserialize
  deserialize-serialize {a} {es} h fits =
      let (start, cap) = empty-Holds {V = V} fanout in
      let (r, run, rest) = visit_seq-ok [] es (empty fanout) start cap h.ascending fits in
      (r, rw (serialize, entries-ok h) run, rest)
