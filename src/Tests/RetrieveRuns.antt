-- ===== src/Tests/RetrieveRuns.antt =====
-- A retrieval and an answer over one chunk, for the owner of its base.
use rag_service.Prelude.{
  ℕ, ◌+◌, ◌/◌, ◌-◌, ltb, Text, codes, show_nat, true, false, [], ◌∷◌, length, none, some, pos, ◌≡◌,
  refl, All, arith, find, select,
}
use rag_service.Rag.Model.{Chunk, same_status}
use rag_service.Rag.Lexical.Fusion.{score_of, weighted_rrf_scores}
use rag_service.Rag.Exec.{Result, ok}
use rag_service.Rag.Settings.{QuerySettings}
use rag_service.Rag.Context.{Source}
use rag_service.Rag.World.{World}
use rag_service.Rag.KnowledgeBases.{is_authorized}
use rag_service.Rag.Query.{RetrieveParam, Numbers, SearchServices, MergedResult, accessible_kb_ids}
use rag_service.Rag.Query.Retrieve.{retrieve}
use rag_service.Rag.Query.Retrieve.Permission.{IsPermitted}
use rag_service.Rag.Query.Answer.{GetAnswerDetail, QueryLog, QueryMode, answer}
use rag_service.Rag.Query.Answer.Sources.{IsGrounded, answer_lem}
use rag_service.Tests.Data.{ascii_digit, embed, world}

abbrev chunk : Chunk
chunk = record {
  id = 31;
  knowledge_base_id = 1;
  document_id = 12;
  chunk_index = pos 0;
  content = codes "alpha";
  contextual_content = codes "alpha";
  search_text = codes "alpha";
  exact_tokens = codes "alpha" ∷ [];
  content_hash = codes "cd";
  char_count = 5;
  token_count = 1;
  embedding = some (codes "alpha");
  index_version = 3;
  parent_chunk_id = none;
  is_parent = false;
  heading_path = [];
  deleted = 0;
}

abbrev searchable : World
searchable = record world { db = record world.db { chunks = chunk ∷ [] } }

abbrev numbers : Numbers
numbers = record {
  zero_float = 0;
  ten = 10000;
  minus_infinity = 0;
  add = λ a b. a + b;
  divide = λ a n. a / n;
  less = ltb;
  similarity = λ a. 1000 - a;
  round = λ a. a;
}

abbrev services : SearchServices
services = record {
  embed = embed;
  distance = λ v c. 100;
  text_match = λ q c. true;
  text_rank = λ q c. 5;
  rerank = λ q texts. ok [];
}

abbrev settings : QuerySettings
settings = record {
  dense_candidate_k = 30;
  lexical_candidate_k = 30;
  rrf_k = 60;
  dense_rrf_weight = 6200;
  lexical_rrf_weight = 3100;
  parent_context_enabled = true;
  final_context_k = 8;
  context_max_tokens = 6000;
  agent_max_tool_calls = 6;
  agent_max_retrieval_rounds = 2;
}

abbrev request : RetrieveParam
request = record { question = codes "what is alpha"; knowledge_base_ids = 1 ∷ []; top_k = 5 }

abbrev source : Source
source = record {
  knowledge_base_id = 1;
  document_id = 12;
  document_name = codes "notes.md";
  chunk_id = 31;
  chunk_index = pos 0;
  content = codes "alpha";
  score = 151;
  rerank_score = none;
  citation = codes "[S1]";
}

retrieved : retrieve services numbers settings 7 false request searchable ≡ ok (source ∷ [])
unfolding retrieve accessible_kb_ids select is_authorized find same_status show_nat score_of
    weighted_rrf_scores
retrieved = refl

abbrev complete : Text → Text → Result Text
complete question context = ok (codes "alpha is a letter [S1]")

answer_run :
    (detail : GetAnswerDetail) × (log : QueryLog) × (answer settings ascii_digit complete services
        numbers 7 false request QueryMode.auto
        (codes "t1")
        12
        searchable
      ≡ ok (detail, log))
    × All (IsPermitted 7 false (1 ∷ []) searchable) (source ∷ [])
    × IsGrounded settings ascii_digit complete (codes "what is alpha") (source ∷ []) detail
    × (log.owner_id ≡ 7)
    × (log.status ≡ detail.status)
    × (log.source_count ≡ length detail.sources)
answer_run =
    answer_lem settings ascii_digit complete services numbers 7 false request QueryMode.auto
      (codes "t1") 12 searchable (source ∷ []) retrieved (ground arith) (ground arith)
      (λ context. (codes "alpha is a letter [S1]", refl))

abbrev item : ℕ → MergedResult
item id = record {
  chunk = record chunk { id = id; parent_chunk_id = some 9 };
  name = codes "notes.md";
  score = 1;
  dense = 1;
  rerank = none;
}
