-- ===== src/Rag/Query/Answer.antt =====
-- `answer` of backend/app/rag/service/query_service.py, with the graph of backend/app/rag/agent/graph.py
-- and the details of backend/app/rag/schema/query.py. The trace id and the latency are arguments.
pub mod Sources
use rag_service.Prelude.{
  ℕ, min, Text, codes, Bool, true, false, ◌&&◌, ◌||◌, List, [], ◌∷◌, length, ltb, if◌then◌else◌,
  Option, none, some,
}
use rag_service.Rag.Exec.{Result, ok, err, ◌>>=◌}
use rag_service.Rag.Settings.{QuerySettings}
use rag_service.Rag.Context.{
  Source, ContextSelection, build_bounded_context, has_sufficient_scope_evidence,
  sanitize_answer_citations,
}
use rag_service.Rag.World.{World}
use rag_service.Rag.Query.{RetrieveParam, Numbers, SearchServices}
use rag_service.Rag.Query.Retrieve.{retrieve}

-- `QueryMode`
pub data QueryMode : Type 0 where
  basic agentic auto : QueryMode

-- The texts of `status` and `stop_reason`.
pub data AnswerStatus : Type 0 where
  answered insufficient_evidence : AnswerStatus

pub data StopReason : Type 0 where
  basic_retrieval bounded_retrieval insufficient_scope_evidence no_sources : StopReason

pub record AgentState : Type 0 where
  pub retrieval_rounds : ℕ
  pub tool_calls : ℕ
  pub stop_reason : StopReason

pub record GetAnswerDetail : Type 0 where
  pub answer : Text
  pub sources : List Source
  pub requested_mode : QueryMode
  pub effective_mode : QueryMode
  pub status : AnswerStatus
  pub retrieval_rounds : ℕ
  pub stop_reason : StopReason
  pub trace_id : Option Text

pub record QueryLog : Type 0 where
  pub owner_id : ℕ
  pub knowledge_base_ids : List ℕ
  pub requested_mode : QueryMode
  pub effective_mode : QueryMode
  pub status : AnswerStatus
  pub retrieval_rounds : ℕ
  pub tool_calls : ℕ
  pub source_count : ℕ
  pub latency_ms : ℕ
  pub trace_id : Text

-- `len(obj.question) > 80` decides for `auto`.
pub effective_mode_of : QueryMode → Text → QueryMode
effective_mode_of QueryMode.agentic question = QueryMode.agentic
effective_mode_of QueryMode.basic question = QueryMode.basic
effective_mode_of QueryMode.auto question =
    if ltb 80 (length question) then QueryMode.agentic else QueryMode.basic

-- The one node of the graph, from the state that `answer` gives it.
route : QuerySettings → AgentState
route settings = record {
  retrieval_rounds = min 1 settings.agent_max_retrieval_rounds;
  tool_calls = min 1 settings.agent_max_tool_calls;
  stop_reason = bounded_retrieval;
}

pub agent_state_of : QuerySettings → QueryMode → AgentState
unfolding route
agent_state_of settings QueryMode.agentic = route settings
agent_state_of settings mode = record {
  retrieval_rounds = 1;
  tool_calls = 0;
  stop_reason = basic_retrieval;
}

insufficient_reason : List Source → StopReason
insufficient_reason [] = no_sources
insufficient_reason (source ∷ sources) = insufficient_scope_evidence

module _ (settings : QuerySettings) (is_digit : ℕ → Bool)
    (complete : Text → Text → Result Text) where
  -- `GetAnswerDetail(…)` where the evidence does not do.
  refuse : QueryMode → Text → Text → List Source → GetAnswerDetail
  unfolding effective_mode_of agent_state_of insufficient_reason
  refuse mode question trace_id sources = record {
    answer = codes "当前知识库中没有足够资料回答该问题。";
    sources = [];
    requested_mode = mode;
    effective_mode = effective_mode_of mode question;
    status = insufficient_evidence;
    retrieval_rounds = (agent_state_of settings (effective_mode_of mode question)).retrieval_rounds;
    stop_reason = insufficient_reason sources;
    trace_id = some trace_id;
  }

  -- `GetAnswerDetail(…)` of what the model says.
  reply : QueryMode → Text → Text → ContextSelection → Text → GetAnswerDetail
  unfolding effective_mode_of agent_state_of
  reply mode question trace_id selection text = record {
    answer = sanitize_answer_citations is_digit text selection.sources;
    sources = selection.sources;
    requested_mode = mode;
    effective_mode = effective_mode_of mode question;
    status = answered;
    retrieval_rounds = (agent_state_of settings (effective_mode_of mode question)).retrieval_rounds;
    stop_reason = (agent_state_of settings (effective_mode_of mode question)).stop_reason;
    trace_id = some trace_id;
  }

  detail_of : QueryMode → Text → Text → List Source → Result GetAnswerDetail
  unfolding refuse reply
  detail_of mode question trace_id sources =
      if has_sufficient_scope_evidence question sources
      then (do
        selection ←
            build_bounded_context sources settings.final_context_k settings.context_max_tokens
        text ← complete question selection.context
        ok (reply mode question trace_id selection text))
      else ok (refuse mode question trace_id sources)

  log_of : ℕ → RetrieveParam → Text → ℕ → GetAnswerDetail → QueryLog
  unfolding agent_state_of
  log_of user_id obj trace_id latency_ms result = record {
    owner_id = user_id;
    knowledge_base_ids = obj.knowledge_base_ids;
    requested_mode = result.requested_mode;
    effective_mode = result.effective_mode;
    status = result.status;
    retrieval_rounds = result.retrieval_rounds;
    tool_calls = (agent_state_of settings result.effective_mode).tool_calls;
    source_count = length result.sources;
    latency_ms = latency_ms;
    trace_id = trace_id;
  }

  -- `QueryService.answer`, with the row of the log that it adds.
  unfoldable pub answer :
      SearchServices
      → Numbers
      → ℕ
      → Bool
      → RetrieveParam
      → QueryMode
      → Text
      → ℕ
      → World
      → Result (GetAnswerDetail × QueryLog)
  unfolding detail_of log_of
  answer services numbers user_id is_admin obj mode trace_id latency_ms w = do
    sources ← retrieve services numbers settings user_id is_admin obj w
    result ← detail_of mode obj.question trace_id sources
    ok (result, log_of user_id obj trace_id latency_ms result)
