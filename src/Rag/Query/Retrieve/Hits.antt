-- ===== src/Rag/Query/Retrieve/Hits.antt =====
-- `retrieve` keeps its hits: no step from the candidate rows to the ordered results changes a chunk or a
-- file's name.
use mathlib.Core.Path.{subst}
use rag_service.Prelude.{
  insert_by, sort_by, ℕ, suc, Text, Bool, List, [], ◌∷◌, ◌==◌, ◌≡◌, All, All-take, Bool-cases, inl,
  inr,
}
use rag_service.Rag.Model.{Chunk, Vector}
use rag_service.Rag.Exec.{Result, ok, err, err-ne-ok}
use rag_service.Rag.Settings.{QuerySettings}
use rag_service.Rag.Lexical.Fusion.{Scores}
use rag_service.Rag.Query.{
  Numbers, floats_of, SearchServices, MergedResult, contains_id, put_item, set_default,
  unique_contexts, context_id, is_rerank_fallback,
}
use rag_service.Rag.Query.Retrieve.{
  Row, dense_rows, lexical_matches, is_lexical, lexical_rows, dense_item, lexical_item, put_dense,
  put_lexical, set_scores, fuse, set_reranks, reorder, after_rerank,
}

pub ok-inj : {A : Type 0} {a b : A} → ok a ≡ ok b → a ≡ b
ok-inj e = cc

module _ {ℓ κ} {A : Type ℓ} (P : A → Type κ) (behind : A → A → Bool) where
  All-insert_by : (x : A) (xs : List A) → P x → All P xs → All P (insert_by behind x xs)
  unfolding insert_by
  All-insert_by x [] h hs = (h, hs)
  All-insert_by x (y ∷ ys) h hs = elim (Bool-cases (behind x y)) [
    | inl e ↦ rw e (hs.0, All-insert_by x ys h hs.1)
    | inr e ↦ rw e (h, hs)
  ]

  All-sort_by : (xs : List A) → All P xs → All P (sort_by behind xs)
  unfolding sort_by
  All-sort_by [] h = h
  All-sort_by (x ∷ xs) h = All-insert_by x (sort_by behind xs) h.0 (All-sort_by xs h.1)

-- What is said of the chunk and of the file's name holds of an item whatever its scores are.
module _ (Q : Chunk → Text → Type 0) where
  abbrev pub OfRow : Row → Type 0
  OfRow row = Q row.0 row.1

  abbrev pub OfItem : MergedResult → Type 0
  OfItem item = Q item.chunk item.name

  put_item-All :
      (item : MergedResult) (items : List MergedResult)
      → OfItem item
      → All OfItem items
      → All OfItem (put_item item items)
  unfolding put_item
  put_item-All item [] h hs = (h, tt)
  put_item-All item (x ∷ xs) h hs = elim (Bool-cases (x.chunk.id == item.chunk.id)) [
    | inl e ↦ rw e (h, hs.1)
    | inr e ↦ rw e (hs.0, put_item-All item xs h hs.1)
  ]

  set_default-All :
      (item : MergedResult) (items : List MergedResult)
      → OfItem item
      → All OfItem items
      → All OfItem (set_default item items)
  unfolding set_default
  set_default-All item [] h hs = (h, tt)
  set_default-All item (x ∷ xs) h hs = elim (Bool-cases (x.chunk.id == item.chunk.id)) [
    | inl e ↦ rw e (hs.0, hs.1)
    | inr e ↦ rw e (hs.0, set_default-All item xs h hs.1)
  ]

  pub unique_contexts-All :
      (top_k count : ℕ) (seen : List ℕ) (items : List MergedResult)
      → All OfItem items
      → All OfItem (unique_contexts top_k count seen items)
  unfolding unique_contexts
  unique_contexts-All k n seen [] h = tt
  unique_contexts-All k n seen (x ∷ xs) h = elim (Bool-cases (contains_id (context_id x) seen)) [
    | inl e ↦ rw (unique_contexts, e) (unique_contexts-All k n seen xs h.1)
    | inr e ↦ elim (Bool-cases (suc n == k)) [
      | inl f ↦ rw (unique_contexts, e, f) (h.0, tt)
      | inr f ↦
          rw (unique_contexts, e, f)
            (h.0, unique_contexts-All k (suc n) (context_id x ∷ seen) xs h.1)
    ]
  ]

  module _ (services : SearchServices) (numbers : Numbers) (settings : QuerySettings) where
    pub dense-All :
        (v : Vector) (rows : List Row)
        → All OfRow rows
        → All OfRow (dense_rows services numbers settings v rows)
    unfolding dense_rows
    dense-All v rows h = All-take OfRow _ _ (All-sort_by OfRow _ rows h)

    matches-All :
        (q : Text) (rows : List Row)
        → All OfRow rows
        → All OfRow (lexical_matches services numbers settings q rows)
    unfolding lexical_matches
    matches-All q [] h = h
    matches-All q (row ∷ rows) h =
        elim (Bool-cases (is_lexical services numbers settings q row.0)) [
          | inl e ↦ rw e (h.0, matches-All q rows h.1)
          | inr e ↦ rw e (matches-All q rows h.1)
        ]

    pub lexical-All :
        (q : Text) (rows : List Row)
        → All OfRow rows
        → All OfRow (lexical_rows services numbers settings q rows)
    unfolding lexical_rows
    lexical-All q rows h = All-take OfRow _ _ (All-sort_by OfRow _ _ (matches-All q rows h))

    put_dense-All :
        (v : Vector) (rows : List Row) (items : List MergedResult)
        → All OfRow rows
        → All OfItem items
        → All OfItem (put_dense services numbers settings v rows items)
    unfolding put_dense dense_item
    put_dense-All v [] items h hs = hs
    put_dense-All v (row ∷ rows) items h hs =
        put_dense-All v rows _ h.1 (put_item-All _ items h.0 hs)

    put_lexical-All :
        (rows : List Row) (items : List MergedResult)
        → All OfRow rows
        → All OfItem items
        → All OfItem (put_lexical services numbers settings rows items)
    unfolding put_lexical lexical_item
    put_lexical-All [] items h hs = hs
    put_lexical-All (row ∷ rows) items h hs =
        put_lexical-All rows _ h.1 (set_default-All _ items h.0 hs)

    set_scores-All :
        (scores : Scores (floats_of numbers)) (items : List MergedResult)
        → All OfItem items
        → All OfItem (set_scores services numbers settings scores items)
    unfolding set_scores
    set_scores-All scores [] h = tt
    set_scores-All scores (x ∷ xs) h = (h.0, set_scores-All scores xs h.1)

    set_reranks-All :
        (answers : List (ℕ × ℕ)) (index : ℕ) (items : List MergedResult)
        → All OfItem items
        → All OfItem (set_reranks services numbers settings answers index items)
    unfolding set_reranks
    set_reranks-All answers index [] h = tt
    set_reranks-All answers index (x ∷ xs) h = (h.0, set_reranks-All answers (suc index) xs h.1)

    reorder-All :
        (ordered : List MergedResult) (answers : List (ℕ × ℕ))
        → All OfItem ordered
        → All OfItem (reorder services numbers settings ordered answers)
    unfolding reorder
    reorder-All ordered [] h = h
    reorder-All ordered (a ∷ answers) h =
        All-sort_by OfItem _ _ (set_reranks-All (a ∷ answers) 0 ordered h)

    pub after_rerank-All :
        (ordered items : List MergedResult) (answer : Result (List (ℕ × ℕ)))
        → All OfItem ordered
        → after_rerank services numbers settings ordered answer ≡ ok items
        → All OfItem items
    unfolding after_rerank
    after_rerank-All ordered items (ok answers) h e =
        subst (All OfItem) (ok-inj e) (reorder-All ordered answers h)
    after_rerank-All ordered items (err exc) h e = elim (Bool-cases (is_rerank_fallback exc)) [
      | inl f ↦ subst (All OfItem) (ok-inj (rw f at e)) h
      | inr f ↦ absurd (err-ne-ok (rw f at e))
    ]

    pub fuse-All :
        (v : Vector) (dense lexical : List Row)
        → All OfRow dense
        → All OfRow lexical
        → All OfItem (fuse services numbers settings v dense lexical)
    unfolding fuse
    fuse-All v dense lexical hd hl =
        All-sort_by OfItem _ _
          (set_scores-All _ _ (put_lexical-All lexical _ hl (put_dense-All v dense [] hd tt)))
