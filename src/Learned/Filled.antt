-- ===== src/Learned/Filled.antt =====
-- `fill` and `build` of core/src/learned/pgm_memory on entries in ascending order.
use clearned_immutable.Prelude.{
  ℕ, ◌≡◌, refl, sym, ap, ◌∙◌, subst, List, [], ◌∷◌, ◌++◌, append_assoc, append-nil, All, ok,
  Returns,
}
use clearned_immutable.MemoryList.Api.{ArenaApi}
use clearned_immutable.MemoryList.{Slot, clear}
use clearned_immutable.MemoryList.Links.{Cell, IsList}
use clearned_immutable.MemoryList.Runs.{orphan}
use clearned_immutable.MemoryList.Access.{reads_cell, clear-IsList}
use clearned_immutable.MemoryList.Front.{insert_before-IsList}
use clearned_immutable.LearnedSegment.{FloatApi, LinearModel}
use clearned_immutable.LearnedSegment.Segments.{flatten}
use clearned_immutable.LearnedSegment.Ascending.{IsAscending}
use clearned_immutable.Learned.{PgmNode, default_node, from_trained}
use clearned_immutable.Learned.Trained.{
  IsAnswerOf, IsSearchable, linear_simple_segmentation-IsSearchable,
}
use clearned_immutable.Learned.Layer.{MemoryPgmLayer, backwards, fill_backwards, fill, base_search}

module _ {ℓ} {A : Type ℓ} where
  backwards-append : (xs : List A) (x : A) → backwards (xs ++ x ∷ []) ≡ x ∷ backwards xs
  backwards-append [] x = refl
  backwards-append (y ∷ xs) x = rw (backwards-append xs x) refl

  backwards_twice : (xs : List A) → backwards (backwards xs) ≡ xs
  backwards_twice [] = refl
  backwards_twice (x ∷ xs) =
      backwards-append (backwards xs) x ∙ ap (λ ys. x ∷ ys) (backwards_twice xs)

  All-last : (P : A → Type 0) (xs : List A) (x : A) → All P xs → P x → All P (xs ++ x ∷ [])
  All-last P [] x h here = (here, tt)
  All-last P (y ∷ xs) x h here = (h.0, All-last P xs x h.1 here)

  All-backwards : (P : A → Type 0) (xs : List A) → All P xs → All P (backwards xs)
  All-backwards P [] h = tt
  All-backwards P (x ∷ xs) h = All-last P (backwards xs) x (All-backwards P xs h.1) h.0

module _ (float : FloatApi) (max_key epsilon : ℕ) {V PA : Type 0}
    (api : ArenaApi (Slot (PgmNode float V) PA)) where
  -- The nodes are those made of the segments, in their order.
  abbrev AreMade :
      List (Cell (PgmNode float V) PA) → List (LinearModel float × List (ℕ × V)) → Type 0
  AreMade [] [] = Unit
  AreMade (c ∷ cs) ((model, entries) ∷ segments) =
      (from_trained float model entries ≡ ok c.contents) × AreMade cs segments
  AreMade [] (segment ∷ segments) = ⊥
  AreMade (c ∷ cs) [] = ⊥

  -- The search at the address of each node finds the entries of its segment, and nothing else.
  abbrev pub AreSearched :
      MemoryPgmLayer float max_key epsilon api
      → List (Cell (PgmNode float V) PA)
      → List (LinearModel float × List (ℕ × V))
      → Type 0
  AreSearched layer [] [] = Unit
  AreSearched layer (c ∷ cs) ((model, entries) ∷ segments) =
      ((key : ℕ)
        → Returns (base_search float max_key epsilon api layer c.id key) (IsAnswerOf entries key))
      × AreSearched layer cs segments
  AreSearched layer [] (segment ∷ segments) = ⊥
  AreSearched layer (c ∷ cs) [] = ⊥

  -- The segments are taken from the last one on, and the nodes that are made already stand behind.
  fill_backwards-AreMade :
      (ts segments : List (LinearModel float × List (ℕ × V)))
      (cs : List (Cell (PgmNode float V) PA)) (last c : Cell (PgmNode float V) PA)
      (post : List (Cell (PgmNode float V) PA)) (layer : MemoryPgmLayer float max_key epsilon api)
      → cs ++ last ∷ [] ≡ c ∷ post
      → IsList api layer (c ∷ post)
      → AreMade cs segments
      → All (IsSearchable float epsilon) ts
      → Returns (fill_backwards float max_key epsilon api ts c.id layer) λ layer'.
        (cs' : List (Cell (PgmNode float V) PA)) × IsList api layer' (cs' ++ last ∷ [])
        × AreMade cs' (backwards ts ++ segments)
  unfolding fill_backwards
  fill_backwards-AreMade [] segments cs last c post layer is h made good =
      (layer, refl, (cs, subst (IsList api layer) (sym is) h, made))
  fill_backwards-AreMade ((model, entries) ∷ ts) segments cs last c post layer is h made
        ((node, trained, _), good) =
      let ((id, layer'), put, (_, h')) = insert_before-IsList api node c post h in
      let n : Cell (PgmNode float V) PA = orphan id node in
      let (layer'', run, (cs', h'', made')) =
        fill_backwards-AreMade ts ((model, entries) ∷ segments) (n ∷ cs) last n (c ∷ post) layer'
          (ap (λ xs. n ∷ xs) is) h' (trained, made) good in
      (
        layer'',
        rw (fill_backwards, trained) (rw put run),
        (cs', h'', rw (append_assoc (backwards ts) ((model, entries) ∷ []) segments) made'),
      )

  made-AreSearched :
      (layer : MemoryPgmLayer float max_key epsilon api) (pre cs : List (Cell (PgmNode float V) PA))
      (last : Cell (PgmNode float V) PA) (segments : List (LinearModel float × List (ℕ × V)))
      → IsList api layer (pre ++ (cs ++ last ∷ []))
      → AreMade cs segments
      → All (IsSearchable float epsilon) segments
      → AreSearched layer cs segments
  unfolding base_search
  made-AreSearched layer pre [] last [] h made good = tt
  made-AreSearched layer pre [] last (segment ∷ segments) h made good = absurd made
  made-AreSearched layer pre (c ∷ cs) last [] h made good = absurd made
  made-AreSearched layer pre (c ∷ cs) last ((model, entries) ∷ segments) h (made, others)
        ((node, trained, search), good) =
      let same : node ≡ c.contents = cc in
      let read = (reads_cell api pre c (cs ++ last ∷ []) h).0 in
      (
        λ key.
            let (r, run, answer) = search key in
            (r, rw (base_search, read) (rw same at run), answer),
        made-AreSearched layer (pre ++ c ∷ []) cs last segments
            (rw (sym (append_assoc pre (c ∷ []) (cs ++ last ∷ []))) at h) others good,
      )

  -- A layer of learned nodes that is filled with entries in ascending order: it is filled without a
  -- panic, whatever it had, and is then a well linked list of one node for each of some segments,
  -- with a default node behind them. The segments are the entries in order, and the search at the
  -- address of each node finds the entries of its segment, and nothing under any other key.
  pub fill-AreSearched :
      (layer : MemoryPgmLayer float max_key epsilon api) (iter : List (ℕ × V))
      → IsAscending iter
      → Returns (fill float max_key epsilon api layer iter) λ layer'.
        (cs : List (Cell (PgmNode float V) PA)) × (last : Cell (PgmNode float V) PA)
        × (segments : List (LinearModel float × List (ℕ × V))) × IsList api layer' (cs ++ last ∷ [])
        × (last.contents ≡ default_node float max_key)
        × (flatten float segments ≡ iter)
        × AreSearched layer' cs segments
  unfolding fill
  fill-AreSearched layer iter ascending =
      let (segments, divided, (whole, good)) =
        linear_simple_segmentation-IsSearchable float epsilon iter ascending in
      let (_, h, _, _) = clear-IsList api (default_node float max_key) layer in
      let (ptr, layer') = clear api (default_node float max_key) layer in
      let last : Cell (PgmNode float V) PA = orphan ptr (default_node float max_key) in
      let (layer'', run, (cs, h', made)) =
        fill_backwards-AreMade (backwards segments) [] [] last last [] layer' refl h tt
          (All-backwards (IsSearchable float epsilon) segments good) in
      let all : backwards (backwards segments) ++ [] ≡ segments =
        append-nil (backwards (backwards segments)) ∙ backwards_twice segments in
      (
        layer'',
        rw (fill, divided) run,
        (
          cs,
          last,
          segments,
          h',
          refl,
          whole,
          made-AreSearched layer'' [] cs last segments h' (rw all at made) good,
        ),
      )
