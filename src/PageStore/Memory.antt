-- ===== src/PageStore/Memory.antt =====
-- A store that has the laws which core/src/common/storage/store.rs relies on: the list of the pages
-- written, with the last write in front.
use clearned_immutable.Prelude.{
  ℕ, ◌≡◌, inl, inr, refl, true, Option, none, some, List, [], ◌∷◌, ◌++◌, ◌==◌, Bool-cases,
}
use clearned_immutable.PageStore.Api.{MarbleApi, find, or_else}

module _ (Bytes : Type 0) where
  abbrev pub stored : List (ℕ × Option Bytes) → ℕ → Option Bytes
  stored pages i = or_else (find i pages) none

  pub stored-append :
      (batch pages : List (ℕ × Option Bytes)) (i : ℕ)
      → stored (batch ++ pages) i ≡ or_else (find i batch) (stored pages i)
  stored-append [] pages i = refl
  stored-append ((j, b) ∷ batch) pages i = elim (Bool-cases (j == i)) [
    | inl eq ↦ rw eq
    | inr ne ↦ rw ne (stored-append batch pages i)
  ]

  abbrev pub memory_marble : MarbleApi
  memory_marble = record {
    Marble = List (ℕ × Option Bytes);
    Bytes = Bytes;
    read = λ m i. some (stored m i);
    write_batch = λ m batch. (true, batch ++ m);
    contents = stored;
    read_contents = λ m i. inr refl;
    write_contents = λ m batch i distinct fine. stored-append batch m i;
  }
