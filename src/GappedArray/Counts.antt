-- ===== src/GappedArray/Counts.antt =====
-- The number of bits set in the bitmap of utils/gapped_array/src/lib.rs.
use clearned_immutable.Prelude.{
  ℕ, zero, suc, ◌+◌, ◌-◌, ◌≤◌, ◌<◌, ◌≡◌, ◌∙◌, refl, sym, ap, Bool, true, false, some, List, [], ◌∷◌,
  ◌++◌, arith, length, take, drop, take-append-drop, length-drop, get_elem?,
}
use clearned_immutable.GappedArray.Writes.{copy_slice}
use clearned_immutable.GappedArray.Slots.{occupied_count}

pub count_full :
    (bitmap : List Bool)
    → ((i : ℕ) → i < length bitmap → get_elem? bitmap i ≡ some true)
    → occupied_count bitmap ≡ length bitmap
count_full [] full = refl
count_full (b ∷ bs) full =
    let here : some b ≡ some true = full 0 (omega arith) in
    let set_bit : b ≡ true = cc in
    rw set_bit (ap suc (count_full bs (λ i lt. full (suc i) (omega arith))))

count-append :
    (xs ys : List Bool) → occupied_count (xs ++ ys) ≡ occupied_count xs + occupied_count ys
count-append [] ys = omega arith
count-append (true ∷ xs) ys = omega (arith, count-append xs ys)
count-append (false ∷ xs) ys = count-append xs ys

count_split :
    (bitmap : List Bool) (n : ℕ)
    → occupied_count (take n bitmap) + occupied_count (drop n bitmap) ≡ occupied_count bitmap
count_split bitmap n =
    sym (count-append (take n bitmap) (drop n bitmap))
    ∙ ap occupied_count (take-append-drop n bitmap)

count_from_free :
    (bitmap : List Bool) (n : ℕ)
    → get_elem? bitmap n ≡ some false
    → occupied_count (drop n bitmap) ≡ occupied_count (drop (suc n) bitmap)
count_from_free [] n h = cc
count_from_free (b ∷ bs) zero h = let e : b ≡ false = cc in rw e refl
count_from_free (b ∷ bs) (suc n) h = count_from_free bs n h

count_last :
    (bitmap : List Bool) (n : ℕ)
    → suc n ≡ length bitmap
    → get_elem? bitmap n ≡ some true
    → occupied_count (drop n bitmap) ≡ 1
count_last [] n e h = cc
count_last (b ∷ []) zero e h = let set_bit : b ≡ true = cc in rw set_bit refl
count_last (b ∷ []) (suc n) e h = absurd (omega arith)
count_last (b ∷ b' ∷ bs) zero e h = absurd (omega arith)
count_last (b ∷ b' ∷ bs) (suc n) e h = count_last (b' ∷ bs) n (omega arith) h

take_all : (bitmap : List Bool) (n : ℕ) → length bitmap ≤ n → take n bitmap ≡ bitmap
take_all [] zero le = refl
take_all [] (suc n) le = refl
take_all (b ∷ bs) zero le = absurd (omega arith)
take_all (b ∷ bs) (suc n) le = ap (λ xs. b ∷ xs) (take_all bs n (omega arith))

-- The bits behind a free slot move to the left, and the last one stays.
pub count_shifted :
    (bitmap : List Bool) (hole : ℕ)
    → get_elem? bitmap hole ≡ some false
    → hole + 1 < length bitmap
    → get_elem? bitmap (length bitmap - 1) ≡ some true
    → occupied_count (copy_slice bitmap (hole + 1) (length bitmap) hole)
      ≡ suc (occupied_count bitmap)
unfolding copy_slice
count_shifted bitmap hole free lt last =
    let n = length bitmap - (hole + 1) in
    let rest = drop (hole + 1) bitmap in
    let next : hole + 1 ≡ suc hole = omega arith in
    let whole : take n rest ≡ rest =
      take_all rest n (omega (arith, length-drop (hole + 1) bitmap)) in
    let end : hole + n ≡ length bitmap - 1 = omega arith in
    let behind : occupied_count (drop hole bitmap) ≡ occupied_count rest =
      rw next (count_from_free bitmap hole free) in
    count-append (take hole bitmap) (take n rest ++ drop (hole + n) bitmap)
    ∙ ap (λ k. occupied_count (take hole bitmap) + k)
        (count-append (take n rest) (drop (hole + n) bitmap))
    ∙ rw (whole, end)
        (omega (
          arith,
          count_split bitmap hole,
          behind,
          count_last bitmap (length bitmap - 1) (omega arith) last,
        ))
