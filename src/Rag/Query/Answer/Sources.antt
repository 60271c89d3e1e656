-- ===== src/Rag/Query/Answer/Sources.antt =====
-- What an answer shows, and what its log says of it.
use rag_service.Prelude.{
  ℕ, ◌≤◌, Text, Bool, true, false, List, [], length, ◌≡◌, refl, arith, All, Bool-cases, inl, inr,
  ◌⊎◌,
}
use rag_service.Rag.Exec.{Result, ok}
use rag_service.Rag.Settings.{QuerySettings}
use rag_service.Rag.Context.{Source, has_sufficient_scope_evidence}
use rag_service.Rag.Context.Budget.{IsCut, build_bounded_context_lem}
use rag_service.Rag.World.{World}
use rag_service.Rag.Query.{RetrieveParam, Numbers, SearchServices}
use rag_service.Rag.Query.Retrieve.{retrieve}
use rag_service.Rag.Query.Retrieve.Permission.{IsPermitted, retrieve-IsPermitted}
use rag_service.Rag.Query.Answer.{
  QueryMode, GetAnswerDetail, QueryLog, answered, insufficient_evidence, refuse, reply, detail_of,
  log_of, answer,
}

module _ (settings : QuerySettings) (is_digit : ℕ → Bool)
    (complete : Text → Text → Result Text) where
  -- A detail whose sources are cuts of those that were retrieved.
  pub record IsGrounded (question : Text) (retrieved : List Source) (detail : GetAnswerDetail)
      : Type 0 where
    pub cuts : All (IsCut retrieved) detail.sources
    pub few : length detail.sources ≤ settings.final_context_k
    pub evidence :
        ((has_sufficient_scope_evidence question retrieved ≡ true) × (detail.status ≡ answered))
        ⊎ ((has_sufficient_scope_evidence question retrieved ≡ false)
            × (detail.status ≡ insufficient_evidence)
            × (detail.sources ≡ []))

  detail_lem :
      (mode : QueryMode) (question trace_id : Text) (retrieved : List Source)
      → 1 ≤ settings.final_context_k
      → 1 ≤ settings.context_max_tokens
      → ((context : Text) → (text : Text) × (complete question context ≡ ok text))
      → (detail : GetAnswerDetail) × (detail_of settings is_digit complete mode question trace_id
            retrieved
          ≡ ok detail)
        × IsGrounded question retrieved detail
  unfolding detail_of
  detail_lem mode question trace_id retrieved hk ht model =
      elim (Bool-cases (has_sufficient_scope_evidence question retrieved)) [
        | inr e ↦ (
          refuse settings is_digit complete mode question trace_id retrieved,
          rw e,
          unfold refuse in record { cuts = tt; few = omega arith; evidence = inr (e, refl, refl) },
        )
        | inl e ↦
            let (selection, built, context, few, cuts, budget) =
              build_bounded_context_lem retrieved settings.final_context_k
                settings.context_max_tokens hk ht in
            let (text, said) = model selection.context in
            (
              reply settings is_digit complete mode question trace_id selection text,
              rw (e, built, said),
              unfold reply in record { cuts = cuts; few = few; evidence = inl (e, refl) },
            )
      ]

  -- Where the retrieval returns, the model answers, and the limits are positive: the service answers;
  -- every source that it shows is a cut of a retrieved one, and each retrieved one is permitted to
  -- the caller; it shows at most as many sources as are allowed; where the evidence for the question
  -- does, the status is answered, and where it does not, no source is shown and the status is
  -- insufficient_evidence; and the log has the caller, the status and the number of sources of the answer.
  pub answer_lem :
      (services : SearchServices) (numbers : Numbers) (user_id : ℕ) (is_admin : Bool)
      (obj : RetrieveParam) (mode : QueryMode) (trace_id : Text) (latency_ms : ℕ) (w : World)
      (retrieved : List Source)
      → retrieve services numbers settings user_id is_admin obj w ≡ ok retrieved
      → 1 ≤ settings.final_context_k
      → 1 ≤ settings.context_max_tokens
      → ((context : Text) → (text : Text) × (complete obj.question context ≡ ok text))
      → (detail : GetAnswerDetail) × (log : QueryLog) × (answer settings is_digit complete services
            numbers user_id is_admin obj mode trace_id latency_ms w
          ≡ ok (detail, log))
        × All (IsPermitted user_id is_admin obj.knowledge_base_ids w) retrieved
        × IsGrounded obj.question retrieved detail
        × (log.owner_id ≡ user_id)
        × (log.status ≡ detail.status)
        × (log.source_count ≡ length detail.sources)
  unfolding answer log_of
  answer_lem services numbers user_id is_admin obj mode trace_id latency_ms w retrieved found hk ht
        model =
      let (detail, made, grounded) = detail_lem mode obj.question trace_id retrieved hk ht model in
      (
        detail,
        log_of settings is_digit complete user_id obj trace_id latency_ms detail,
        rw (found, made),
        retrieve-IsPermitted services numbers settings user_id is_admin obj w retrieved found,
        grounded,
        refl,
        refl,
        refl,
      )
