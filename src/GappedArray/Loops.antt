-- ===== src/GappedArray/Loops.antt =====
-- The loops of `trim_window` of utils/gapped_array/src/lib.rs, to the left and to the right.
use clearned_immutable.Prelude.{
  ℕ, zero, suc, ◌+◌, ◌-◌, ◌≤◌, ◌<◌, ◌≡◌, ◌∙◌, inl, inr, refl, sym, ap, subst, true, false, Option,
  none, some, List, [], ◌∷◌, ◌++◌, append_assoc, append-nil, min, arith, length, length-append, leb,
  ◌==◌, Bool-cases, Returns,
}
use clearned_immutable.GappedArray.{GappedKvArray, slot_count, next_occupied_ix}
use clearned_immutable.GappedArray.Removal.{trim_left, trim_right}
use clearned_immutable.GappedArray.Slots.{HasEntry, IsGapped}
use clearned_immutable.GappedArray.Scan.{IsPrev, next_ix_helper-IsNext, prev_ix_helper-IsPrev}
use clearned_immutable.GappedArray.Floor.{occupied_lt}
use clearned_immutable.GappedArray.Removed.{
  IsPart-trans, whole, without, remove_at-without, without-IsPart,
}
use clearned_immutable.GappedArray.Stretch.{
  between, between_free, between_same, slot_free, without_apart,
}
use clearned_immutable.GappedArray.Window.{
  budget, budget-next, budget_last, values, values-append, IsLastBefore, IsFirstFrom, IsTrimmedLeft,
  IsTrimmedRight, before_last, after_first, gone_before, gone_after,
}

module _ {ℓ} {V : Type ℓ} (window_radius : ℕ) where
  pub last_of_prev :
      (a : GappedKvArray V) (s : ℕ)
      → 0 < s
      → (r : Option ℕ) → IsPrev a.bitmap true (s - 1) r
      → IsLastBefore a s r
  last_of_prev a s some_slot none h = λ j lt. h j (omega arith)
  last_of_prev a s some_slot (some r) h =
      (omega (arith, h.0), h.1, λ j after lt. h.2 j after (omega arith))

  -- The last round of the loop to the left.
  left_end :
      (a : GappedKvArray V) (g : IsGapped a) (made s r k : ℕ) (v : V) (vs : List V)
      → HasEntry a r k v
      → IsLastBefore a s (some r)
      → 1 ≡ min (budget window_radius made) (length (between a 0 r) + 1)
      → IsTrimmedLeft a s (budget window_radius made) vs (v ∷ vs, without a r)
  left_end a g made s r k v vs e last short = (
    without-IsPart g r e.0.0,
    between a 0 r,
    (k, v) ∷ [],
    before_last a g s r k v e last,
    gone_before a g s r k v e (without a r) last (λ j le. refl)
        ∙ between_same a (without a r) 0 r (λ j le lt. without_apart a r j (λ is. omega arith)),
    refl,
    short,
    λ j le. without_apart a r j (λ is. omega (arith, last.0)),
  )

  left_more :
      (a : GappedKvArray V) (g : IsGapped a) (made s r k : ℕ) (v : V) (vs : List V)
      (t : List V × GappedKvArray V)
      → HasEntry a r k v
      → IsLastBefore a s (some r)
      → leb window_radius (made + 1) ≡ false
      → IsTrimmedLeft (without a r) r (budget window_radius (made + 1)) (v ∷ vs) t
      → IsTrimmedLeft a s (budget window_radius made) vs t
  left_more a g made s r k v vs (ws, b) e last more
        (part, low, left, whole', rest, out, size, same) =
      let long = length-append left ((k, v) ∷ []) in
      (
        IsPart-trans part (without-IsPart g r e.0.0),
        low,
        left ++ (k, v) ∷ [],
        before_last a g s r k v e last
            ∙ ap (λ es. es ++ (k, v) ∷ [])
                (sym (
                    between_same a (without a r) 0 r
                      (λ j le lt. without_apart a r j (λ is. omega arith)))
                  ∙ whole')
            ∙ append_assoc low left ((k, v) ∷ []),
        gone_before a g s r k v e b last same ∙ rest,
        out
            ∙ sym (append_assoc (values left) (v ∷ []) vs)
            ∙ ap (λ xs. xs ++ vs) (sym (values-append left ((k, v) ∷ []))),
        omega (arith, size, long, budget-next window_radius made more),
        λ j le. same j (omega (arith, last.0)) ∙ without_apart a r j (λ is. omega (arith, last.0)),
      )

  pub trim_left-IsTrimmedLeft :
      (fuel : ℕ) (a : GappedKvArray V) (made s : ℕ) (kx : Option ℕ) (vs : List V)
      → IsGapped a
      → IsLastBefore a s kx
      → s ≤ fuel
      → Returns
          (trim_left fuel a window_radius made kx vs)
          (IsTrimmedLeft a s (budget window_radius made) vs)
  unfolding trim_left
  trim_left-IsTrimmedLeft fuel a made s none vs g last enough =
      let nothing = between_free a 0 s (λ j le lt. slot_free a j (last j lt)) in
      ((vs, a), refl, (whole a g, [], [], nothing, nothing, refl, omega arith, λ j le. refl))
  trim_left-IsTrimmedLeft zero a made s (some jx) vs g last enough = absurd (omega (arith, last.0))
  trim_left-IsTrimmedLeft (suc fuel) a made s (some jx) vs g last enough =
      let (lt, occ, free) = last in
      let (k, v, e, removed) = remove_at-without g jx occ in
      let part = without-IsPart g jx occ in
      elim (Bool-cases (jx == 0)) [
        | inl first ↦
            let is : jx ≡ 0 = ground arith in
            let nothing : between a 0 jx ≡ [] =
              between_free a 0 jx (λ j le lt'. absurd (omega arith)) in
            (
              (v ∷ vs, without a jx),
              rw (trim_left, removed) (rw first),
              left_end a g made s jx k v vs e last (rw nothing (omega arith)),
            )
        | inr inner ↦
            let pos : 0 < jx = ground arith in
            let (r, run, prev) =
              prev_ix_helper-IsPrev (without a jx) true (jx - 1)
                (omega (arith, occupied_lt a jx occ, part.slots)) in
            elim (Bool-cases (leb window_radius (made + 1))) [
              | inl stop ↦ (
                (v ∷ vs, without a jx),
                rw (trim_left, removed) (rw (inner, run) (rw stop)),
                left_end a g made s jx k v vs e last
                    (omega (arith, budget_last window_radius made stop)),
              )
              | inr more ↦
                  let (t, rest, trimmed) =
                    trim_left-IsTrimmedLeft fuel (without a jx) (made + 1) jx r (v ∷ vs) part.gapped
                      (last_of_prev (without a jx) jx pos r prev) (omega arith) in
                  (
                    t,
                    rw (trim_left, removed) (rw (inner, run) (rw (more, rest))),
                    left_more a g made s jx k v vs t e last more trimmed,
                  )
            ]
      ]

  right_end :
      (a : GappedKvArray V) (g : IsGapped a) (made s r k : ℕ) (v : V) (vs : List V)
      → HasEntry a r k v
      → IsFirstFrom a s (some r)
      → leb window_radius (made + 1) ≡ true
      → IsTrimmedRight a s (budget window_radius made) vs (vs ++ v ∷ [], without a r)
  right_end a g made s r k v vs e first stop =
      let inside = occupied_lt a r e.0.0 in
      (
        without-IsPart g r e.0.0,
        (k, v) ∷ [],
        between a (r + 1) (slot_count a),
        after_first a g s r k v e first inside,
        gone_after a g s r k v e (without a r) first inside (λ j lt. refl)
            ∙ between_same a (without a r) (r + 1) (slot_count a)
                (λ j le lt. without_apart a r j (λ is. omega arith)),
        refl,
        omega (arith, budget_last window_radius made stop),
        λ j lt. without_apart a r j (λ is. omega (arith, first.0)),
      )

  right_more :
      (a : GappedKvArray V) (g : IsGapped a) (made s r k : ℕ) (v : V) (vs : List V)
      (t : List V × GappedKvArray V)
      → HasEntry a r k v
      → IsFirstFrom a s (some r)
      → leb window_radius (made + 1) ≡ false
      → IsTrimmedRight (without a r) (r + 1) (budget window_radius (made + 1)) (vs ++ v ∷ []) t
      → IsTrimmedRight a s (budget window_radius made) vs t
  right_more a g made s r k v vs (ws, b) e first more
        (part, right, high, whole', rest, out, size, same) =
      let inside = occupied_lt a r e.0.0 in
      let here = without-IsPart g r e.0.0 in
      let end = here.slots in
      (
        IsPart-trans part here,
        (k, v) ∷ right,
        high,
        after_first a g s r k v e first inside
            ∙ ap (λ es. (k, v) ∷ es)
                (sym (
                    between_same a (without a r) (r + 1) (slot_count a)
                      (λ j le lt. without_apart a r j (λ is. omega arith)))
                  ∙ subst (λ n. between (without a r) (r + 1) n ≡ right ++ high) end whole'),
        gone_after a g s r k v e b first inside same
            ∙ subst (λ n. between b (r + 1) n ≡ high) end rest,
        out ∙ append_assoc vs (v ∷ []) (values right),
        omega (arith, size, budget-next window_radius made more),
        λ j lt.
            same j (omega (arith, first.0)) ∙ without_apart a r j (λ is. omega (arith, first.0)),
      )

  pub trim_right-IsTrimmedRight :
      (fuel : ℕ) (a : GappedKvArray V) (made s : ℕ) (kx : Option ℕ) (vs : List V)
      → IsGapped a
      → IsFirstFrom a s kx
      → slot_count a ≤ s + fuel
      → Returns
          (trim_right fuel a window_radius made kx vs)
          (IsTrimmedRight a s (budget window_radius made) vs)
  unfolding trim_right
  trim_right-IsTrimmedRight fuel a made s none vs g first enough =
      let nothing = between_free a s (slot_count a) (λ j le lt. slot_free a j (first j le)) in
      (
        (vs, a),
        refl,
        (whole a g, [], [], nothing, nothing, sym (append-nil vs), omega arith, λ j lt. refl),
      )
  trim_right-IsTrimmedRight zero a made s (some jx) vs g first enough =
      absurd (omega (arith, first.0, occupied_lt a jx first.1))
  trim_right-IsTrimmedRight (suc fuel) a made s (some jx) vs g first enough =
      let (le, occ, free) = first in
      let (k, v, e, removed) = remove_at-without g jx occ in
      let part = without-IsPart g jx occ in
      elim (Bool-cases (leb window_radius (made + 1))) [
        | inl stop ↦ (
          (vs ++ v ∷ [], without a jx),
          rw (trim_right, removed) (rw stop),
          right_end a g made s jx k v vs e first stop,
        )
        | inr more ↦
            let (t, rest, trimmed) =
              trim_right-IsTrimmedRight fuel (without a jx) (made + 1) (jx + 1)
                (next_occupied_ix (without a jx) (jx + 1)) (vs ++ v ∷ []) part.gapped
                (next_ix_helper-IsNext (without a jx) true (jx + 1)) (omega (arith, part.slots)) in
            (
              t,
              rw (trim_right, removed) (rw (more, rest)),
              right_more a g made s jx k v vs t e first more trimmed,
            )
      ]
