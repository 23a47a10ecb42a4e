-- ===== src/PageStore/Tests.antt =====
-- The theorems on core/src/common/storage/store.rs at a concrete store, with pages and catalogs as
-- their own bytes.
use clearned_immutable.Prelude.{zero, suc, ℕ, ◌≡◌, refl, Option, none, some, [], ◌∷◌, arith}
use clearned_immutable.IdAllocator.{IdAllocator, iter}
use clearned_immutable.IdAllocator.Pool.{has}
use clearned_immutable.IdAllocator.Refine.{Refines, is_free}
use clearned_immutable.PageStore.Api.{MarbleApi, Codec}
use clearned_immutable.PageStore.{
  Attempt, done, failed, panicked, GlobalStoreCatalog, LocalStore, Inner, load, clear,
}
use clearned_immutable.PageStore
use clearned_immutable.PageStore.Local
use clearned_immutable.PageStore.Views.{IsTotal, IsFlushed, flush-IsFlushed}
use clearned_immutable.PageStore.Pages.{IsWritten, write_page-IsWritten, IsFreed, free_page-IsFreed}
use clearned_immutable.PageStore.Memory.{memory_marble}
use clearned_immutable.PageStore.Global.{
  IsSaved, flush-load, IsCleared, clear-allocate_page, IsLoaded, load_local_store-IsLoaded,
}

data TestBytes : Type 0 where
  page : ℕ → TestBytes
  catalog : GlobalStoreCatalog → TestBytes

abbrev marble : MarbleApi
marble = memory_marble TestBytes

abbrev page_from : TestBytes → Option ℕ
page_from (page n) = some n
page_from (catalog c) = none

abbrev catalog_from : TestBytes → Option GlobalStoreCatalog
catalog_from (page n) = none
catalog_from (catalog c) = some c

abbrev pages : Codec TestBytes ℕ
pages = record {
  encode = λ n. some (page n);
  decode = page_from;
  decode-encode = λ n b e. let same : b ≡ page n = cc in rw same;
}

abbrev catalogs : Codec TestBytes GlobalStoreCatalog
catalogs = record {
  encode = λ c. some (catalog c);
  decode = catalog_from;
  decode-encode = λ c b e. let same : b ≡ catalog c = cc in rw same;
}

abbrev ids : IdAllocator
ids = record { slots = none ∷ none ∷ none ∷ []; next = 3 }

abbrev inner : Inner marble
inner = record {
  store = (2, some (page 20)) ∷ [];
  active_stores = [];
  catalog = record { ids = ids; registry = (7, 1) ∷ [] };
}

abbrev local : LocalStore ℕ ℕ
local = record { catalog = 5; id = 1; ident = 7; cache = (2, some 21) ∷ [] }

ids-Refines : Refines ids (record { free_ids = []; size = 3 })
ids-Refines = record { chain = refl; free_exactly = none_free; size = refl }
  where
    none_free : (i : ℕ) → is_free ids.slots i ≡ has i []
    none_free zero = refl
    none_free (suc zero) = refl
    none_free (suc (suc zero)) = refl
    none_free (suc (suc (suc i))) = refl

total : IsTotal marble pages pages
total n = (page n, refl)

flush-IsFlushed_example :
    IsFlushed marble pages pages total local inner
      ((refl, tt), refl)
      (Local.flush marble pages pages local inner)
flush-IsFlushed_example = flush-IsFlushed marble pages pages total local inner ((refl, tt), refl)

write_page-IsWritten_example :
    IsWritten marble pages pages local inner 2 22
      (Local.write_page marble pages pages 8 local inner 22 2)
write_page-IsWritten_example =
    write_page-IsWritten marble pages pages local inner 8 2 22 total ((refl, tt), refl)
      (λ e. omega arith)

free_page-IsFreed_example :
    IsFreed marble pages pages local inner 2 (Local.free_page marble pages pages local inner 2)
free_page-IsFreed_example =
    free_page-IsFreed marble pages pages local inner 2 ids-Refines ((refl, tt), refl)
      (λ e. omega arith)

flush-load_example : IsSaved marble catalogs inner (PageStore.flush marble catalogs inner)
flush-load_example = flush-load marble catalogs inner

clear-allocate_page_example : IsCleared marble inner (clear marble inner)
clear-allocate_page_example = clear-allocate_page marble inner

load_local_store-IsLoaded_example :
    IsLoaded marble ℕ 5 pages inner 7 (PageStore.load_local_store marble {P = ℕ} 5 pages inner 7)
load_local_store-IsLoaded_example =
    load_local_store-IsLoaded marble ℕ 5 pages inner 7 ids-Refines (omega arith)

-- After `clear`, a cached page is still read.
stale_cache :
    (Local.read_page marble pages pages
      (Local.clear marble pages pages local inner).1.0
      (Local.clear marble pages pages local inner).1.1
      2).0
    ≡ done (some 21)
unfolding Local.read_page Local.clear clear iter
stale_cache = refl
