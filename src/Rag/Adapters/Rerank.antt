-- ===== src/Rag/Adapters/Rerank.antt =====
-- `RerankProvider` of backend/app/rag/adapters/rerank.py.
pub mod Checked
use mathlib.Core.List.{reverse}
use rag_service.Prelude.{
  ℕ, suc, Text, codes, Bool, true, false, ◌&&◌, ◌||◌, not, List, [], ◌∷◌, ◌++◌, map, take, any,
  length, min, Option, none, some, ltb, leb, ◌==◌, if◌then◌else◌, ℤ, pos, negsuc, sort_by,
}
use rag_service.Rag.Model.{Vector}
use rag_service.Rag.Indexing.{Exception, value_error, server_error, starts_with}
use rag_service.Rag.Exec.{Result, ok, err}
use rag_service.Rag.Adapters.{AdapterSettings, given}

pub record RerankResult : Type 0 where
  pub index : ℕ
  pub score : ℕ

pub record RerankUsage : Type 0 where
  pub called : Bool
  pub succeeded : Bool
  pub total_tokens : ℕ

pub record RerankRequest : Type 0 where
  pub endpoint : Text
  pub api_key : Text
  pub model : Text
  pub query : Text
  pub documents : List Text
  pub top_n : ℕ

-- The results of a body as index and score, and `usage.total_tokens`.
pub record RerankBody : Type 0 where
  pub results : List (ℤ × ℕ)
  pub total_tokens : ℕ

abbrev no_rerank : RerankUsage
no_rerank = record { called = false; succeeded = false; total_tokens = 0 }

abbrev rerank_called : RerankUsage
rerank_called = record { called = true; succeeded = false; total_tokens = 0 }

-- `s.rstrip('/')` and `s.endswith(suffix)`
drop_slashes : Text → Text
drop_slashes [] = []
drop_slashes (c ∷ s) = let rest = drop_slashes s in if c == b'/' then rest else c ∷ s

rstrip_slash : Text → Text
unfolding drop_slashes
rstrip_slash s = reverse (drop_slashes (reverse s))

abbrev ends_with : Text → Text → Bool
ends_with s suffix = starts_with (reverse s) (reverse suffix)

abbrev with_suffix : Text → Text → Text
with_suffix base_url suffix = if ends_with base_url suffix then base_url else base_url ++ suffix

endpoint_of : Bool → Text → Text
endpoint_of true base_url = with_suffix base_url (codes "/services/rerank/text-rerank/text-rerank")
endpoint_of false base_url = with_suffix base_url (codes "/reranks")

-- An index below zero or beyond the documents is refused, whichever item has it.
parse_results : ℕ → List (ℤ × ℕ) → Option (List RerankResult)
parse_results n [] = some []
parse_results n ((negsuc _, score) ∷ items) = none
parse_results n ((pos index, score) ∷ items) = elim (parse_results n items) [
  | none ↦ none
  | some rest ↦ if leb n index then none else some (record { index = index; score = score } ∷ rest)
]

module _ (settings : AdapterSettings) where
  read_body : ℕ → Result RerankBody → Result (List RerankResult) × RerankUsage
  unfolding parse_results
  read_body n (err raised) = (err raised, rerank_called)
  read_body n (ok body) = elim (parse_results n body.results) [
    | none ↦ (err (value_error (codes "Rerank 返回了无效候选索引")), rerank_called)
    | some parsed ↦
        (ok parsed, record { called = true; succeeded = true; total_tokens = body.total_tokens })
  ]

  request_of : Text → Text → Text → Text → List Text → RerankRequest
  unfolding endpoint_of rstrip_slash
  request_of base_url api_key model query documents = record {
    endpoint = endpoint_of settings.rerank_is_dashscope (rstrip_slash base_url);
    api_key = api_key;
    model = model;
    query = query;
    documents = documents;
    top_n = min (length documents) settings.rerank_top_n;
  }

  -- With the configuration that is given.
  configured :
      (RerankRequest → Result RerankBody)
      → Option Text
      → Option Text
      → Option Text
      → Text
      → List Text
      → Result (List RerankResult) × RerankUsage
  unfolding read_body request_of
  configured post (some base_url) (some api_key) (some model) query documents =
      read_body (length documents) (post (request_of base_url api_key model query documents))
  configured post _ _ _ query documents = (err (value_error (codes "Rerank 已启用但配置不完整")), no_rerank)

  unfoldable pub rerank :
      (RerankRequest → Result RerankBody)
      → Text
      → List Text
      → Result (List RerankResult) × RerankUsage
  unfolding configured
  rerank post query documents =
      if settings.rerank_enabled
      then configured post (given settings.rerank_base_url) (given settings.rerank_api_key)
          (given settings.rerank_model) query documents
      else (ok [], no_rerank)
