-- ===== src/Rag/Adapters.antt =====
-- The settings of backend/app/rag/adapters, from core/conf.py. In each adapter the HTTP call is a
-- parameter: it raises (also for a status that `raise_for_status` refuses) or gives the body, read by
-- its keys. A float is its bit pattern. The usage of a call is what the context variable holds
-- afterwards.
pub mod Rerank
pub mod Llm
pub mod Embedding
use rag_service.Prelude.{ℕ, Text, Bool, List, [], ◌∷◌, Option, none, some}

pub record AdapterSettings : Type 0 where
  pub rerank_enabled : Bool
  pub rerank_is_dashscope : Bool
  pub rerank_base_url : Option Text
  pub rerank_api_key : Option Text
  pub rerank_model : Option Text
  pub rerank_top_n : ℕ
  pub chat_base_url : Option Text
  pub chat_api_key : Option Text
  pub chat_model : Text
  pub embedding_base_url : Option Text
  pub embedding_api_key : Option Text
  pub embedding_model : Text
  pub embedding_dimensions : ℕ
  pub allow_local_model_fallback : Bool

abbrev pub given : Option Text → Option Text
given (some (c ∷ s)) = some (c ∷ s)
given _ = none
