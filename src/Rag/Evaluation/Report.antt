-- ===== src/Rag/Evaluation/Report.antt =====
-- `load_dataset` and `build_report`: the checks on a dataset and on the results of a run, and the
-- report. The lines of the files are read already, in their order.
pub mod Loaded
use rag_service.Prelude.{
  ℕ, ◌+◌, Text, codes, Bool, true, false, ◌&&◌, ◌||◌, not, List, [], ◌∷◌, ◌++◌, map, any, all,
  length, Option, none, some, text_eq, ◌==◌, if◌then◌else◌, find, count,
}
use mathlib.Core.Option
use rag_service.Rag.Indexing.{Exception, value_error}
use rag_service.Rag.Exec.{Result, ok, err, ◌>>=◌}
use rag_service.Rag.Evaluation.{
  Floats, EvaluationCase, Mode, is_valid_mode, mode_eq, answer, recall_at_k, reciprocal_rank,
  ndcg_at_k, set_precision_recall, abstention_accuracy, mean, percentile, Report,
}

check_approved : Bool → EvaluationCase → Result (Unit {0})
check_approved require_approved c =
    if require_approved && not (text_eq c.review_status (codes "approved"))
    then err (value_error (codes "尚未人工审批"))
    else ok tt

check_cases : Bool → List EvaluationCase → Result (Unit {0})
unfolding check_approved
check_cases require_approved [] = ok tt
check_cases require_approved (c ∷ cs) =
    let rest = check_cases require_approved cs in check_approved require_approved c >>= λ _. rest

-- `len({case.case_id for case in cases}) != len(cases)`
has_duplicates : List EvaluationCase → Bool
has_duplicates [] = false
has_duplicates (c ∷ cs) =
    any (λ (d : EvaluationCase). text_eq d.case_id c.case_id) cs || has_duplicates cs

-- A line that has the required fields is a case; the lines are blank or cases.
unfoldable pub load_dataset : Bool → List EvaluationCase → Result (List EvaluationCase)
unfolding check_cases has_duplicates
load_dataset require_approved cases = check_cases require_approved cases >>= λ _. elim cases [
  | [] ↦ err (value_error (codes "评测数据集不能为空"))
  | c ∷ cs ↦
      if has_duplicates (c ∷ cs) then err (value_error (codes "评测数据集存在重复 case_id")) else ok (c ∷ cs)
]

-- What a run measured of a case.
pub record Measures (Float : Type 0) : Type 0 where
  pub recall5 : List Float
  pub recall20 : List Float
  pub mrr : List Float
  pub ndcg : List Float
  pub citation_precision : List Float
  pub citation_recall : List Float
  pub abstention : List Float
  pub latency : List ℕ

-- `latency_of` gives a latency in milliseconds as a float.
module _ (floats : Floats) (latency_of : Option ℕ → floats.Float) where
  open floats use {Float, ratio, add}

  -- One result of a run.
  pub record EvaluationResult : Type 0 where
    pub case_id : Text
    pub retrieved_chunk_ids : List ℕ
    pub cited_chunk_ids : List ℕ
    pub abstained : Bool
    pub latency_ms : ℕ
    pub mode : Mode
    pub rerank_called : Bool
    pub rerank_succeeded : Bool
    pub rerank_tokens : ℕ
    pub rerank_cost_cny : Float
    pub chat_called : Bool
    pub chat_succeeded : Bool
    pub chat_prompt_tokens : ℕ
    pub chat_completion_tokens : ℕ
    pub chat_cost_cny : Float

  -- `indexed[case_id]`: the last result of a case.
  unfoldable pub result_of : Text → List EvaluationResult → Option EvaluationResult
  result_of case_id [] = none
  result_of case_id (r ∷ rs) = elim (result_of case_id rs) [
    | some later ↦ some later
    | none ↦ if text_eq r.case_id case_id then some r else none
  ]

  -- All results have one mode, which is valid.
  one_mode : List EvaluationResult → Option Mode
  one_mode [] = none
  one_mode (r ∷ rs) =
      if is_valid_mode r.mode && all (λ (x : EvaluationResult). mode_eq x.mode r.mode) rs
      then some r.mode
      else none

  -- The results of all cases, or none if one is missing.
  results_of : List EvaluationCase → List EvaluationResult → Option (List EvaluationResult)
  results_of [] results = some []
  results_of (c ∷ cs) results =
      let rest = results_of cs results in
      elim (result_of c.case_id results) [
        | none ↦ none
        | some r ↦ Option.map (λ (rs : List EvaluationResult). r ∷ rs) rest
      ]

  -- One round of the loop.
  measure : Bool → EvaluationCase → EvaluationResult → Measures Float → Measures Float
  measure is_answer c r m =
      let relevant = c.relevant_chunk_ids in
      let has_relevant : Bool = elim relevant [ [] ↦ false | _ ∷ _ ↦ true ] in
      let citations = set_precision_recall floats r.cited_chunk_ids c.expected_citation_chunk_ids in
      let when : Bool → List Float → Float → List Float =
        λ b xs x. if b then xs ++ x ∷ [] else xs in
      record {
        recall5 = when has_relevant m.recall5 (recall_at_k floats r.retrieved_chunk_ids relevant 5);
        recall20 =
            when has_relevant m.recall20 (recall_at_k floats r.retrieved_chunk_ids relevant 20);
        mrr = when has_relevant m.mrr (reciprocal_rank floats r.retrieved_chunk_ids relevant);
        ndcg = when has_relevant m.ndcg (ndcg_at_k floats r.retrieved_chunk_ids c.relevance 20);
        citation_precision = when is_answer m.citation_precision citations.0;
        citation_recall = when is_answer m.citation_recall citations.1;
        abstention =
            when is_answer m.abstention (abstention_accuracy floats r.abstained c.expected_abstain);
        latency = m.latency ++ r.latency_ms ∷ [];
      }

  measure_all : Bool → List EvaluationCase → List EvaluationResult → Measures Float → Measures Float
  unfolding measure
  measure_all is_answer (c ∷ cs) (r ∷ rs) m = measure_all is_answer cs rs (measure is_answer c r m)
  measure_all is_answer _ _ m = m

  number_of : (EvaluationResult → Bool) → List EvaluationResult → Float
  number_of p results = ratio (count p results) 1

  total_of : (EvaluationResult → ℕ) → List EvaluationResult → ℕ
  total_of f [] = 0
  total_of f (r ∷ rs) = f r + total_of f rs

  cost_of : (EvaluationResult → Float) → List EvaluationResult → Float → Float
  cost_of f [] total = total
  cost_of f (r ∷ rs) total = cost_of f rs (add total (f r))

  answer_metrics : Bool → Measures Float → Result (Report floats)
  answer_metrics false m = ok []
  answer_metrics true m = do
    precision ← mean floats m.citation_precision
    recall ← mean floats m.citation_recall
    accuracy ← mean floats m.abstention
    ok (
        (codes "citation_precision", precision)
        ∷ (codes "citation_recall", recall)
        ∷ (codes "abstention_accuracy", accuracy)
        ∷ [])

  report_of :
      List EvaluationCase → List EvaluationResult → Bool → Measures Float → Result (Report floats)
  unfolding number_of total_of cost_of answer_metrics
  report_of cases results is_answer m = do
    recall5 ← mean floats m.recall5
    recall20 ← mean floats m.recall20
    mrr ← mean floats m.mrr
    ndcg ← mean floats m.ndcg
    p50 ← percentile m.latency 50
    p95 ← percentile m.latency 95
    extra ← answer_metrics is_answer m
    ok (
        ((codes "case_count", ratio (length cases) 1)
          ∷ (codes "recall_at_5", recall5)
          ∷ (codes "recall_at_20", recall20)
          ∷ (codes "mrr", mrr)
          ∷ (codes "ndcg_at_20", ndcg)
          ∷ (codes "latency_p50_ms", latency_of p50)
          ∷ (codes "latency_p95_ms", latency_of p95)
          ∷ (codes "rerank_requests", number_of (λ r. r.rerank_called) results)
          ∷ (codes "rerank_successes", number_of (λ r. r.rerank_succeeded) results)
          ∷ (codes "rerank_total_tokens", ratio (total_of (λ r. r.rerank_tokens) results) 1)
          ∷ (codes "rerank_cost_cny", cost_of (λ r. r.rerank_cost_cny) results (ratio 0 1))
          ∷ (codes "chat_requests", number_of (λ r. r.chat_called) results)
          ∷ (codes "chat_successes", number_of (λ r. r.chat_succeeded) results)
          ∷ (codes "chat_prompt_tokens", ratio (total_of (λ r. r.chat_prompt_tokens) results) 1)
          ∷ (
            codes "chat_completion_tokens",
            ratio (total_of (λ r. r.chat_completion_tokens) results) 1,
          )
          ∷ (codes "chat_cost_cny", cost_of (λ r. r.chat_cost_cny) results (ratio 0 1))
          ∷ [])
        ++ extra)

  unfoldable pub build_report : List EvaluationCase → List EvaluationResult → Result (Report floats)
  unfolding one_mode results_of measure_all report_of
  build_report cases results = elim (results_of cases results) [
    | none ↦ err (value_error (codes "缺少评测结果: "))
    | some rows ↦ (elim (one_mode results) [
      | none ↦ err (value_error (codes "评测结果必须使用同一种有效 mode"))
      | some evaluation_mode ↦
          let is_answer = mode_eq evaluation_mode answer in
          report_of cases results is_answer (
            measure_all is_answer cases rows (record {
              recall5 = [];
              recall20 = [];
              mrr = [];
              ndcg = [];
              citation_precision = [];
              citation_recall = [];
              abstention = [];
              latency = [];
            }))
    ])
  ]
