-- ===== src/GappedArray/Shifts.antt =====
-- The two shifts of utils/gapped_array/src/lib.rs move every other slot by at most one place.
use clearned_immutable.Prelude.{
  ℕ, ◌+◌, ◌-◌, ◌≤◌, ◌<◌, ◌≡◌, ◌≢◌, inl, inr, ◌∙◌, ap, refl, sym, true, false, Bool, ◌&&◌, some,
  List, arith, length, get_elem?, set, length-set, get_elem?-set_self, get_elem?-set_ne, ltb, leb,
  ok, ◌>>=◌, if◌then◌else◌, lt_or_le, Returns,
}
use clearned_immutable.SortedArray.{write}
use clearned_immutable.GappedArray.{GappedKvArray, slot_count}
use clearned_immutable.GappedArray.Writes.{
  Result, success, copy_slice, copy_within, set_bit, upsert_at, shift_left, shift_right, done,
  upsert_first,
}
use clearned_immutable.GappedArray.Copies.{
  length-copy_slice, copied, kept, Moved, placed, AreAligned, upsert_at-placed,
}

-- The slots between the new one and the free one come from their neighbours.
abbrev pub from_left : ℕ → ℕ → ℕ → ℕ
from_left p hole j = if ltb p j && leb j hole then j - 1 else j

abbrev pub from_right : ℕ → ℕ → ℕ → ℕ
from_right p hole j = if leb hole j && ltb j p then j + 1 else j

module _ {ℓ} {A : Type ℓ} (xs : List A) (p hole j : ℕ) (apart : j ≢ p) where
  pub copied_right :
      p ≤ hole
      → hole < length xs
      → get_elem? (copy_slice xs p hole (p + 1)) j ≡ get_elem? xs (from_left p hole j)
  copied_right le lt = elim (lt_or_le j (p + 1)) [
    | inl before ↦
        kept xs p hole (p + 1) (omega arith) (omega arith) (omega arith) j (inl before)
        ∙ ap (get_elem? xs) (ground arith)
    | inr behind ↦ elim (lt_or_le hole j) [
      | inl past ↦
          kept xs p hole (p + 1) (omega arith) (omega arith) (omega arith) j (inr (omega arith))
          ∙ ap (get_elem? xs) (ground arith)
      | inr inside ↦
          copied xs p hole (p + 1) (omega arith) (omega arith) (omega arith) j behind (omega arith)
          ∙ ap (get_elem? xs) (ground arith)
    ]
  ]

  pub copied_left :
      (stop : ℕ)
      → hole ≤ p
      → p < stop
      → stop ≤ p + 2
      → stop ≤ length xs
      → get_elem? (copy_slice xs (hole + 1) stop hole) j ≡ get_elem? xs (from_right p hole j)
  copied_left stop le lt near inside = elim (lt_or_le j hole) [
    | inl before ↦
        kept xs (hole + 1) stop hole (omega arith) (omega arith) (omega arith) j (inl before)
        ∙ ap (get_elem? xs) (ground arith)
    | inr behind ↦ elim (lt_or_le p j) [
      | inl past ↦
          kept xs (hole + 1) stop hole (omega arith) (omega arith) (omega arith) j
            (inr (omega arith))
          ∙ ap (get_elem? xs) (ground arith)
      | inr between ↦
          let short : j < p = ground arith in
          copied xs (hole + 1) stop hole (omega arith) (omega arith) (omega arith) j behind
            (omega arith)
          ∙ ap (get_elem? xs) (ground arith)
    ]
  ]

module _ {ℓ} {V : Type ℓ} (a : GappedKvArray V) (aligned : AreAligned a) where
  -- The three arrays after a copy.
  abbrev pub shifted : ℕ → ℕ → ℕ → GappedKvArray V
  shifted start stop dest = record {
    bitmap = copy_slice a.bitmap start stop dest;
    keys = copy_slice a.keys start stop dest;
    vals = copy_slice a.vals start stop dest;
    size = a.size;
  }

  module _ (start stop dest : ℕ) (ordered : start ≤ stop) (inside : stop ≤ slot_count a)
      (room : dest + (stop - start) ≤ slot_count a) where
    pub shifted-AreAligned :
        (slot_count (shifted start stop dest) ≡ slot_count a) × AreAligned (shifted start stop dest)
    shifted-AreAligned =
        let bits = length-copy_slice a.bitmap start stop dest ordered inside room in
        let keys =
          length-copy_slice a.keys start stop dest ordered (omega (arith, aligned.0))
            (omega (arith, aligned.0)) in
        let vals =
          length-copy_slice a.vals start stop dest ordered (omega (arith, aligned.1))
            (omega (arith, aligned.1)) in
        (bits, (omega (arith, bits, keys, aligned.0), omega (arith, bits, vals, aligned.1)))

    pub copy_within-shifted :
        start < slot_count a
        → dest < slot_count a
        → copy_within a start stop dest ≡ ok (shifted start stop dest)
    unfolding copy_within
    copy_within-shifted from to =
        let t : (leb start stop
              && leb stop (slot_count a)
              && leb (dest + (stop - start)) (slot_count a)
              && ltb start (length a.keys)
              && ltb dest (length a.keys))
            ≡ true =
          ground (arith, aligned.0) in
        rw (copy_within, t)

  -- The entry goes to `p`, in a shifted array whose other slots come from `src`.
  pub placed-Moved :
      (c : GappedKvArray V) (key : ℕ) (val : V) (p size : ℕ) (src : ℕ → ℕ)
      → slot_count c ≡ slot_count a
      → AreAligned c
      → p < slot_count a
      → ((j : ℕ)
          → j ≢ p
          → (get_elem? c.bitmap j ≡ get_elem? a.bitmap (src j))
            × (get_elem? c.keys j ≡ get_elem? a.keys (src j))
            × (get_elem? c.vals j ≡ get_elem? a.vals (src j)))
      → Moved a (placed c key val p size) p key val src
  placed-Moved c key val p size src slots (same_keys, same_vals) lt from = record {
    slots = omega (arith, length-set c.bitmap p true);
    keys_length = omega (arith, length-set c.bitmap p true, length-set c.keys p (some key));
    vals_length = omega (arith, length-set c.bitmap p true, length-set c.vals p (some val));
    here = (
      (
        get_elem?-set_self c.bitmap p true (omega arith),
        get_elem?-set_self c.keys p (some key) (omega arith),
      ),
      get_elem?-set_self c.vals p (some val) (omega arith),
    );
    bit = λ j ne. get_elem?-set_ne c.bitmap true (λ e. ne (sym e)) ∙ (from j ne).0;
    key_of = λ j ne. get_elem?-set_ne c.keys (some key) (λ e. ne (sym e)) ∙ (from j ne).1;
    val_of = λ j ne. get_elem?-set_ne c.vals (some val) (λ e. ne (sym e)) ∙ (from j ne).2;
  }

  -- A run that ends with the entry put at `p`, in slots that come from `src`.
  abbrev pub Inserts : ℕ → V → ℕ → ℕ → (ℕ → ℕ) → Result {0} Unit × GappedKvArray V → Type ℓ
  Inserts key val p size src (result, b) =
      (result ≡ success tt) × (b.size ≡ size) × Moved a b p key val src

  abbrev ComesFrom : GappedKvArray V → ℕ → (ℕ → ℕ) → Type ℓ
  ComesFrom c p src =
      (j : ℕ)
      → j ≢ p
      → (get_elem? c.bitmap j ≡ get_elem? a.bitmap (src j))
        × (get_elem? c.keys j ≡ get_elem? a.keys (src j))
        × (get_elem? c.vals j ≡ get_elem? a.vals (src j))

  module _ (c : GappedKvArray V) (key : ℕ) (val : V) (p : ℕ) (src : ℕ → ℕ)
      (slots : slot_count c ≡ slot_count a) (c_aligned : AreAligned c) (lt : p < slot_count a)
      (from : ComesFrom c p src) where
    -- The entry is put where the bit is set or not.
    pub upsert_at-Inserts :
        (occupied : Bool)
        → get_elem? c.bitmap p ≡ some occupied
        → Returns
            (upsert_at c key val p >>= done)
            (Inserts key val p (if occupied then c.size else c.size + 1) src)
    upsert_at-Inserts occupied bit = (
      _,
      rw (upsert_at-placed c key val p occupied c_aligned (omega arith) bit) refl,
      (refl, refl, placed-Moved c key val p _ src slots c_aligned lt from),
    )

  module _ (c : GappedKvArray V) (key : ℕ) (val : V) (p : ℕ) (src : ℕ → ℕ)
      (slots : slot_count c ≡ slot_count a) (c_aligned : AreAligned c) (lt : p < slot_count a)
      (from : ComesFrom c p src) where
    cleared-Inserts :
        Returns
          (set_bit c p false >>= λ cleared. upsert_at cleared key val p >>= λ self'. done self')
          (Inserts key val p (c.size + 1) src)
    unfolding write
    cleared-Inserts =
        let cleared : GappedKvArray V = record c { bitmap = set c.bitmap p false } in
        let same = length-set c.bitmap p false in
        let t : ltb p (length c.bitmap) ≡ true = ground arith in
        let (r, run, post) =
          upsert_at-Inserts cleared key val p src (omega arith)
            (omega (arith, c_aligned.0), omega (arith, c_aligned.1)) lt
            (λ j ne. (
              get_elem?-set_ne c.bitmap false (λ e. ne (sym e)) ∙ (from j ne).0,
              (from j ne).1,
              (from j ne).2,
            ))
            false (get_elem?-set_self c.bitmap p false (omega arith)) in
        (r, rw (write, t) run, post)

  module _ (key : ℕ) (val : V) (p hole : ℕ) where
    pub shift_right-Inserts :
        p ≤ hole
        → hole < slot_count a
        → p + 1 < slot_count a
        → Returns (shift_right a key val hole p) (Inserts key val p (a.size + 1) (from_left p hole))
    shift_right-Inserts le lt room =
        let c = shifted p hole (p + 1) in
        let (slots, c_aligned) = shifted-AreAligned p hole (p + 1) le (omega arith) (omega arith) in
        let (r, run, post) =
          cleared-Inserts c key val p (from_left p hole) slots c_aligned (omega arith) (λ j ne. (
            copied_right a.bitmap p hole j ne le lt,
            copied_right a.keys p hole j ne le (omega (arith, aligned.0)),
            copied_right a.vals p hole j ne le (omega (arith, aligned.1)),
          )) in
        (
          r,
          rw (copy_within-shifted p hole (p + 1) le (omega arith) (omega arith) (omega arith) room)
              run,
          post,
        )

    pub shift_left-Inserts :
        (stop : ℕ)
        → hole < p
        → p < stop
        → stop ≤ p + 2
        → stop ≤ slot_count a
        → Returns
            (shift_left a key val hole stop p)
            (Inserts key val p (a.size + 1) (from_right p hole))
    shift_left-Inserts stop lt past near inside =
        let c = shifted (hole + 1) stop hole in
        let (slots, c_aligned) =
          shifted-AreAligned (hole + 1) stop hole (omega arith) inside (omega arith) in
        let (r, run, post) =
          cleared-Inserts c key val p (from_right p hole) slots c_aligned (omega arith) (λ j ne. (
            copied_left a.bitmap p hole j ne stop (omega arith) past near inside,
            copied_left a.keys p hole j ne stop (omega arith) past near (omega (arith, aligned.0)),
            copied_left a.vals p hole j ne stop (omega arith) past near (omega (arith, aligned.1)),
          )) in
        (
          r,
          rw
              (copy_within-shifted (hole + 1) stop hole (omega arith) inside (omega arith)
                (omega arith) (omega arith))
              run,
          post,
        )

  -- The insertion in front: the size grows only if slot 0 was free.
  pub upsert_first-Inserts :
      (key : ℕ) (val : V) (hole : ℕ) (first : Bool)
      → hole < slot_count a
      → 1 < slot_count a
      → get_elem? (copy_slice a.bitmap 0 hole 1) 0 ≡ some first
      → Returns
          (upsert_first a key val (some hole))
          (Inserts key val 0 (if first then a.size else a.size + 1) (from_left 0 hole))
  unfolding upsert_first
  upsert_first-Inserts key val hole first lt room bit =
      let c = shifted 0 hole 1 in
      let (slots, c_aligned) =
        shifted-AreAligned 0 hole 1 (omega arith) (omega arith) (omega arith) in
      let (r, run, post) =
        upsert_at-Inserts c key val 0 (from_left 0 hole) slots c_aligned (omega arith)
          (λ j ne. (
            copied_right a.bitmap 0 hole j ne (omega arith) lt,
            copied_right a.keys 0 hole j ne (omega arith) (omega (arith, aligned.0)),
            copied_right a.vals 0 hole j ne (omega arith) (omega (arith, aligned.1)),
          ))
          first bit in
      (
        r,
        rw
            (
              upsert_first,
              copy_within-shifted 0 hole 1 (omega arith) (omega arith) (omega arith) (omega arith)
                  room,
            )
            run,
        post,
      )
