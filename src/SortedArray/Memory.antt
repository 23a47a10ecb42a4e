-- ===== src/SortedArray/Memory.antt =====
-- Raw copies and reads of utils/sorted_array/src/lib.rs on slots whose first part is initialised.
use clearned_immutable.Prelude.{
  ℕ, suc, ◌+◌, ◌<◌, ◌≡◌, refl, ap, true, ◌&&◌, some, List, [], ◌∷◌, ◌++◌, map, arith, length,
  get_elem?, set, take, drop, length-append, length-set, leb, ltb, ok, ◌>>=◌,
}
use clearned_immutable.SortedArray.{ptr_copy, write, assume_init}

module _ {ℓ} {A : Type ℓ} where
  pub take-append_left : (xs ys : List A) → take (length xs) (xs ++ ys) ≡ xs
  take-append_left [] ys = refl
  take-append_left (x ∷ xs) ys = ap (λ r. x ∷ r) (take-append_left xs ys)

  pub drop-append_left : (xs ys : List A) → drop (length xs) (xs ++ ys) ≡ ys
  drop-append_left [] ys = refl
  drop-append_left (x ∷ xs) ys = drop-append_left xs ys

  pub get_elem?-append_mid :
      (xs ys : List A) (y : A) → get_elem? (xs ++ y ∷ ys) (length xs) ≡ some y
  get_elem?-append_mid [] ys y = refl
  get_elem?-append_mid (x ∷ xs) ys y = get_elem?-append_mid xs ys y

  pub set-append_mid : (xs ys : List A) (y v : A) → set (xs ++ y ∷ ys) (length xs) v ≡ xs ++ v ∷ ys
  set-append_mid [] ys y v = refl
  set-append_mid (x ∷ xs) ys y v = ap (λ r. x ∷ r) (set-append_mid xs ys y v)

  pub assume_init-some : (xs : List A) → assume_init (map some xs) ≡ ok xs
  unfolding assume_init
  assume_init-some [] = refl
  assume_init-some (x ∷ xs) = rw (assume_init-some xs)

  drop_after : (xs ys : List A) (y : A) → drop (suc (length xs)) (xs ++ y ∷ ys) ≡ ys
  drop_after [] ys y = refl
  drop_after (x ∷ xs) ys y = drop_after xs ys y

  take_through :
      (xs ys zs : List A) (y : A) → take (suc (length xs)) (xs ++ y ∷ ys) ++ zs ≡ xs ++ y ∷ zs
  take_through [] ys zs y = refl
  take_through (x ∷ xs) ys zs y = ap (λ r. x ∷ r) (take_through xs ys zs y)

  moved_up :
      (pre post rest : List A) (r v : A)
      → let xs = pre ++ post ++ r ∷ rest in
        set
          (take (suc (length pre)) xs
            ++ take (length post) (drop (length pre) xs)
            ++ drop (suc (length (pre ++ post))) xs)
          (length pre)
          v
        ≡ pre ++ v ∷ post ++ rest
  moved_up [] [] rest r v = refl
  moved_up [] (p ∷ post) rest r v = rw (take-append_left, drop_after)
  moved_up (a ∷ pre) post rest r v = ap (λ t. a ∷ t) (moved_up pre post rest r v)

  moved_down :
      (pre post rest : List A) (x r : A)
      → let xs = pre ++ x ∷ post ++ r ∷ rest in
        take (length pre) xs
          ++ take (suc (length post)) (drop (suc (length pre)) xs)
          ++ drop (suc (length (pre ++ post))) xs
        ≡ pre ++ post ++ r ∷ r ∷ rest
  moved_down [] post rest x r = rw (take_through, drop-append_left)
  moved_down (a ∷ pre) post rest x r = ap (λ t. a ∷ t) (moved_down pre post rest x r)

  pub write_to :
      (slots result : List A) (i : ℕ) (v : A)
      → set slots i v ≡ result
      → i < length result
      → write slots i v ≡ ok result
  unfolding write
  write_to slots result i v e h =
      let test : ltb i (length slots) ≡ true = ground (arith, ap length e, length-set slots i v) in
      rw (write, test, e)

  -- The copy that moves the slots `post` one place up, after which the first place is written.
  pub write-ptr_copy_up :
      (pre post rest : List A) (r v : A) (i j n : ℕ)
      → i ≡ length pre
      → j ≡ suc i
      → n ≡ length post
      → (ptr_copy (pre ++ post ++ r ∷ rest) i j n >>= λ slots. write slots i v)
        ≡ ok (pre ++ v ∷ post ++ rest)
  unfolding ptr_copy write
  write-ptr_copy_up pre post rest r v i j n ei ej en =
      let xs = pre ++ post ++ r ∷ rest in
      let size : length xs ≡ length pre + length post + suc (length rest) =
        omega (arith, length-append (pre ++ post) (r ∷ rest), length-append pre post) in
      let fits : (leb (i + n) (length xs) && leb (j + n) (length xs)) ≡ true = ground arith in
      let end : j + n ≡ suc (length (pre ++ post)) = omega (arith, length-append pre post) in
      rw (ptr_copy, fits)
        (rw (end, ej, ei, en)
          (write_to _ _ (length pre) v (moved_up pre post rest r v)
            (omega (arith, length-append (pre ++ v ∷ post) rest, length-append pre (v ∷ post)))))

  -- The copy that moves `post` one place down, and one slot more with it.
  pub ptr_copy_down :
      (pre post rest : List A) (x r : A) (i j n : ℕ)
      → j ≡ length pre
      → i ≡ suc j
      → n ≡ suc (length post)
      → ptr_copy (pre ++ x ∷ post ++ r ∷ rest) i j n ≡ ok (pre ++ post ++ r ∷ r ∷ rest)
  unfolding ptr_copy
  ptr_copy_down pre post rest x r i j n ej ei en =
      let xs = pre ++ x ∷ post ++ r ∷ rest in
      let size : length xs ≡ length pre + suc (length post + suc (length rest)) =
        omega (arith, length-append (pre ++ x ∷ post) (r ∷ rest), length-append pre (x ∷ post)) in
      let fits : (leb (i + n) (length xs) && leb (j + n) (length xs)) ≡ true = ground arith in
      let end : j + n ≡ suc (length (pre ++ post)) = omega (arith, length-append pre post) in
      rw (ptr_copy, fits) (rw (end, ei, ej, en) (ap ok (moved_down pre post rest x r)))
