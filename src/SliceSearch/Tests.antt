-- ===== src/SliceSearch/Tests.antt =====
-- The theorems on utils/slice_search/src/lib.rs at a concrete slice.
use clearned_immutable.Prelude.{ℕ, ◌≡◌, List, [], ◌∷◌, arith}
use clearned_immutable.SliceSearch.{linear_search, binary_search, optimal_search}
use clearned_immutable.SliceSearch.Finds.{IsAscending}
use clearned_immutable.SliceSearch.Binary.{optimal_search-linear_search}

abbrev itself : ℕ → ℕ
itself x = x

abbrev slice : List ℕ
slice = 2 ∷ 4 ∷ 6 ∷ []

slice-IsAscending : IsAscending itself slice
slice-IsAscending = ((omega arith, (omega arith, tt)), ((omega arith, tt), (tt, tt)))

optimal_search-linear_search_example :
    (binary_search itself slice 4 ≡ linear_search itself slice 4)
    × (optimal_search itself 8 slice 4 ≡ linear_search itself slice 4)
optimal_search-linear_search_example =
    optimal_search-linear_search itself slice 4 slice-IsAscending 8
