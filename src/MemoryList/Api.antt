-- ===== src/MemoryList/Api.antt =====
-- What core/src/common/list/memory.rs uses of generational_arena, and what it relies on. An index
-- is a number: the list only copies indices and compares them.
use clearned_immutable.Prelude.{ℕ, suc, ◌≡◌, Option, none, some, if◌then◌else◌, ◌==◌}

pub record ArenaApi {ℓ} (E : Type ℓ) : Type (ℓ + 1) where
  pub Arena : Type ℓ
  -- `Arena::new`
  pub empty : Arena
  pub insert : Arena → E → ℕ × Arena
  pub get : Arena → ℕ → Option E
  -- `arena[index] = element`
  pub put : Arena → ℕ → E → Arena
  pub clear : Arena → Arena
  pub len : Arena → ℕ
  pub insert_unused : (a : Arena) (e : E) → get a (insert a e).0 ≡ none
  pub get-insert :
      (a : Arena) (e : E) (i : ℕ)
      → get (insert a e).1 i ≡ (if i == (insert a e).0 then some e else get a i)
  pub get-put :
      (a : Arena) (i j : ℕ) (old e : E)
      → get a i ≡ some old
      → get (put a i e) j ≡ (if j == i then some e else get a j)
  pub get-empty : (i : ℕ) → get empty i ≡ none
  pub get-clear : (a : Arena) (i : ℕ) → get (clear a) i ≡ none
  pub len-empty : len empty ≡ 0
  pub len-clear : (a : Arena) → len (clear a) ≡ 0
  pub len-insert : (a : Arena) (e : E) → len (insert a e).1 ≡ suc (len a)
  pub len-put : (a : Arena) (i : ℕ) (e : E) → len (put a i e) ≡ len a
