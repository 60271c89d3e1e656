-- ===== src/Rag/Adapters/Embedding.antt =====
-- `EmbeddingProvider` of backend/app/rag/adapters/embedding.py.
pub mod Checked
use mathlib.Core.List.{reverse}
use rag_service.Prelude.{
  ℕ, suc, Text, codes, Bool, true, false, ◌&&◌, ◌||◌, not, List, [], ◌∷◌, ◌++◌, map, take, any,
  length, min, Option, none, some, ltb, leb, ◌==◌, if◌then◌else◌, ℤ, pos, negsuc, sort_by,
}
use rag_service.Rag.Model.{Vector}
use rag_service.Rag.Indexing.{Exception, value_error, server_error, starts_with}
use rag_service.Rag.Exec.{Result, ok, err}
use rag_service.Rag.Adapters.{AdapterSettings, given}

module _ (settings : AdapterSettings) where
  -- The items of a body as index and vector.
  check_vectors : List Text → List (ℕ × Vector) → Result (List Vector)
  check_vectors texts items =
      let vectors : List Vector =
        map (λ (item : ℕ × Vector). item.1)
          (sort_by (λ (x : ℕ × Vector) (y : ℕ × Vector). ltb y.0 x.0) items) in
      if not (length vectors == length texts)
        || any (λ (v : Vector). not (length v == settings.embedding_dimensions)) vectors
      then err (value_error (codes "Embedding 返回向量数量或维度不匹配"))
      else ok vectors

  read_vectors : List Text → Result (List (ℕ × Vector)) → Result (List Vector)
  unfolding check_vectors
  read_vectors texts (err raised) = err raised
  read_vectors texts (ok items) = check_vectors texts items

  embed_with :
      (Text → Text → List Text → Result (List (ℕ × Vector)))
      → (Text → Vector)
      → Option Text
      → Option Text
      → List Text
      → Result (List Vector)
  unfolding read_vectors
  embed_with post local_embedding (some base_url) (some api_key) texts =
      read_vectors texts (post (base_url ++ codes "/embeddings") api_key texts)
  embed_with post local_embedding _ _ texts =
      if settings.allow_local_model_fallback
      then ok (map local_embedding texts)
      else err (server_error (codes "未配置 Embedding 服务，当前环境禁止使用确定性本地伪向量"))

  -- `local_embedding` is the deterministic vector of a text for development.
  unfoldable pub embed :
      (Text → Text → List Text → Result (List (ℕ × Vector)))
      → (Text → Vector)
      → List Text
      → Result (List Vector)
  unfolding embed_with
  embed post local_embedding texts =
      embed_with post local_embedding (given settings.embedding_base_url)
        (given settings.embedding_api_key) texts
