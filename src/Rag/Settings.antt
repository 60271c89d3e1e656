-- ===== src/Rag/Settings.antt =====
-- The settings of backend/core/conf.py that the code of Rag reads.
use rag_service.Prelude.{ℕ, ◌*◌, Bool}

pub record Settings : Type 0 where
  pub chunk_size : ℕ
  pub chunk_overlap : ℕ
  pub embedding_batch_size : ℕ
  pub index_max_retries : ℕ
  pub index_retry_backoff_max_seconds : ℕ
  -- in milliseconds
  pub index_stale : ℕ
  pub outbox_max_dispatch_attempts : ℕ
  pub max_file_size : ℕ
  pub pdf_max_pages : ℕ
  pub pdf_max_text_chars : ℕ

abbrev pub default_settings : Settings
default_settings = record {
  chunk_size = 600;
  chunk_overlap = 80;
  embedding_batch_size = 10;
  index_max_retries = 3;
  index_retry_backoff_max_seconds = 60;
  index_stale = 900 * 1000;
  outbox_max_dispatch_attempts = 10;
  max_file_size = 20 * 1024 * 1024;
  pdf_max_pages = 100;
  pdf_max_text_chars = 1000000;
}

-- Those of the query service; the weights are bit patterns of floats.
pub record QuerySettings : Type 0 where
  pub dense_candidate_k : ℕ
  pub lexical_candidate_k : ℕ
  pub rrf_k : ℕ
  pub dense_rrf_weight : ℕ
  pub lexical_rrf_weight : ℕ
  pub parent_context_enabled : Bool
  pub final_context_k : ℕ
  pub context_max_tokens : ℕ
  pub agent_max_tool_calls : ℕ
  pub agent_max_retrieval_rounds : ℕ
