-- ===== src/PageStore/Api.antt =====
-- What core/src/common/storage/store.rs uses of marble and bincode, and what it relies on.
use clearned_immutable.Prelude.{
  ℕ, ◌≡◌, ◌⊎◌, Bool, true, Option, none, some, List, [], ◌∷◌, ◌==◌, if◌then◌else◌,
}

module _ {ℓ} {A : Type ℓ} where
  abbrev pub find : ℕ → List (ℕ × A) → Option A
  find k [] = none
  find k ((j, a) ∷ m) = if j == k then some a else find k m

  -- No key stands twice.
  abbrev pub AreDistinct : List (ℕ × A) → Type ℓ
  AreDistinct [] = Unit
  AreDistinct ((k, a) ∷ m) = (find k m ≡ none) × AreDistinct m

  abbrev pub or_else : Option A → A → A
  or_else none a = a
  or_else (some b) a = b

-- `read` is `none` where it returns an error, and `write_batch` returns whether it succeeded. A read
-- that succeeds returns the contents of the page, and a batch that is written sets the contents of
-- its pages and of no other.
pub record MarbleApi : Type 1 where
  pub Marble : Type 0
  pub Bytes : Type 0
  pub read : Marble → ℕ → Option (Option Bytes)
  pub write_batch : Marble → List (ℕ × Option Bytes) → Bool × Marble
  pub contents : Marble → ℕ → Option Bytes
  pub read_contents : (m : Marble) (i : ℕ) → (read m i ≡ none) ⊎ (read m i ≡ some (contents m i))
  pub write_contents :
      (m : Marble) (batch : List (ℕ × Option Bytes)) (i : ℕ)
      → AreDistinct batch
      → (write_batch m batch).0 ≡ true
      → contents (write_batch m batch).1 i ≡ or_else (find i batch) (contents m i)

-- `bincode::serialize` and `bincode::deserialize` of a type; an error is `none`.
pub record Codec (Bytes T : Type 0) : Type 0 where
  pub encode : T → Option Bytes
  pub decode : Bytes → Option T
  pub decode-encode : (t : T) (b : Bytes) → encode t ≡ some b → decode b ≡ some t
