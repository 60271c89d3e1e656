-- ===== src/Tests/EvaluationRuns.antt =====
-- The evaluation of a small report, and answers of model services.
use rag_service.Prelude.{
  ℕ, ◌≤◌, ◌<◌, ◌+◌, ◌*◌, ◌/◌, codes, true, false, List, [], ◌∷◌, none, some, ltb, leb, ◌==◌, length,
  pos, count, All, ◌≡◌, ◌↔◌, arith,
}
use rag_service.Rag.Exec.{Result, ok}
use rag_service.Rag.Evaluation.{
  Floats, Report, MetricThreshold, at_least, percentile, assert_report_meets_thresholds,
}
use rag_service.Rag.Evaluation.Ranks.{percentile_lem}
use rag_service.Rag.Evaluation.Gate.{Meets, assert_report_iff}
use rag_service.Rag.Adapters.{AdapterSettings}
use rag_service.Rag.Adapters.Rerank.{RerankRequest, RerankBody, rerank}
use rag_service.Rag.Adapters.Rerank.Checked.{IsChecked, rerank-IsChecked}

abbrev latencies : List ℕ
latencies = 30 ∷ 10 ∷ 20 ∷ []

percentile_run :
    (v : ℕ) × (percentile latencies 50 ≡ ok (some v))
    × (50 * length latencies ≤ 100 * count (λ y. leb y v) latencies)
    × (100 * count (λ y. ltb y v) latencies < 50 * length latencies)
percentile_run = percentile_lem 30 (10 ∷ 20 ∷ []) 50 (ground arith) (ground arith)

-- Whole numbers in place of floats.
abbrev whole : Floats
whole = record {
  Float = ℕ;
  ratio = λ a b. a / b;
  add = λ a b. a + b;
  divide = λ a b. a / b;
  log2 = λ n. n;
  is_zero = λ a. a == 0;
  less = ltb;
}

abbrev report : Report whole
report = (codes "mrr", 1) ∷ []

abbrev thresholds : List (MetricThreshold whole)
thresholds = record { metric = codes "mrr"; comparator = at_least; value = 1 } ∷ []

assert_report_run :
    (assert_report_meets_thresholds whole report thresholds ≡ ok tt)
    ↔ All (Meets whole report) thresholds
assert_report_run = assert_report_iff whole report thresholds

abbrev adapter_settings : AdapterSettings
adapter_settings = record {
  rerank_enabled = true;
  rerank_is_dashscope = false;
  rerank_base_url = some (codes "https://rerank/");
  rerank_api_key = some (codes "key");
  rerank_model = some (codes "model");
  rerank_top_n = 2;
  chat_base_url = none;
  chat_api_key = none;
  chat_model = codes "chat";
  embedding_base_url = none;
  embedding_api_key = none;
  embedding_model = codes "embedding";
  embedding_dimensions = 2;
  allow_local_model_fallback = true;
}

-- A service that answers with an index which no document has.
abbrev post_rerank : RerankRequest → Result RerankBody
post_rerank request = ok (record { results = (pos 0, 1) ∷ (pos 5, 2) ∷ []; total_tokens = 9 })

rerank_run :
    IsChecked adapter_settings true 2
      (rerank adapter_settings post_rerank (codes "q") (codes "a" ∷ codes "b" ∷ []))
rerank_run = rerank-IsChecked adapter_settings post_rerank (codes "q") (codes "a" ∷ codes "b" ∷ [])
