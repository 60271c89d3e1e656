-- ===== src/Rag/Embedding.antt =====
-- `embed_texts_in_batches` of backend/app/rag/service/document_service.py. The provider that it
-- calls over HTTP is the parameter `embed`.
pub mod Batches
use rag_service.Prelude.{
  ℕ, zero, suc, ◌/◌, Text, codes, Bool, true, false, ◌||◌, not, List, [], ◌∷◌, ◌++◌, take, drop,
  length, ltb, ◌==◌, if◌then◌else◌,
}
use rag_service.Rag.Model.{Vector}
use rag_service.Rag.Indexing.{Exception, http_status, value_error}
use rag_service.Rag.Exec.{Result, ok, err, ◌>>=◌}

-- `isinstance(exc, httpx.HTTPStatusError) and exc.response.status_code == 400`
abbrev pub is_bad_request : Exception → Bool
is_bad_request (http_status n) = n == 400
is_bad_request _ = false

abbrev pub append_results : Result (List Vector) → Result (List Vector) → Result (List Vector)
append_results left right = do l ← left; r ← right; ok (l ++ r)

module _ (embed : List Text → Result (List Vector)) where
  -- A batch that the provider refuses with status 400 is split in two. The fuel is the number of
  -- texts, which falls with each split; the answer for no fuel is never given.
  embed_batch : ℕ → List Text → Result (List Vector)
  embed_batch zero batch = embed batch
  embed_batch (suc fuel) batch = elim (embed batch) [
    | ok vectors ↦ ok vectors
    | err exc ↦ elim (not (is_bad_request exc) || length batch == 1) [
      | true ↦ err exc
      | false ↦
          append_results (embed_batch fuel (take (length batch / 2) batch))
            (embed_batch fuel (drop (length batch / 2) batch))
    ]
  ]

  -- `for start in range(0, len(texts), batch_size)`, over the texts from `start` on.
  embed_from : ℕ → ℕ → List Text → Result (List Vector)
  embed_from batch_size zero texts = ok []
  embed_from batch_size (suc rounds) [] = ok []
  embed_from batch_size (suc rounds) (t ∷ texts) =
      let batch : List Text = take batch_size (t ∷ texts) in
      append_results (embed_batch (length batch) batch)
        (embed_from batch_size rounds (drop batch_size (t ∷ texts)))

  unfoldable pub embed_texts_in_batches : List Text → ℕ → Result (List Vector)
  unfolding embed_batch embed_from
  embed_texts_in_batches texts batch_size =
      if ltb batch_size 1
      then err (value_error (codes "Embedding 批量大小必须大于 0"))
      else embed_from batch_size (length texts) texts
