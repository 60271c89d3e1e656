-- ===== src/Rag/Services.antt =====
-- What the indexing code calls outside src/: the readers of files, SHA-256, the embedding service,
-- the tokenizer and Python's table of digits.
use rag_service.Prelude.{ℕ, Text, Bool, List}
use rag_service.Rag.Model.{Vector}
use rag_service.Rag.Exec.{Result}
use rag_service.Rag.Parsers.{Readers}
use rag_service.Rag.Lexical.{Tokenizer}

pub record Services : Type 0 where
  pub readers : Readers
  pub sha256 : Text → Text
  pub embed : List Text → Result (List Vector)
  pub tokenizer : Tokenizer
  pub is_digit : ℕ → Bool
