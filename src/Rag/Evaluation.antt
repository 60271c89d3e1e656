-- ===== src/Rag/Evaluation.antt =====
-- backend/app/rag/evaluation: metrics.py, thresholds.py, dataset.py and runner.py. Floats and their
-- operations are a parameter; a latency is a whole number of some unit, of which only the order
-- counts. JSON is read already. A message names the fault; the values in it are left out.
pub mod Ranks
pub mod Gate
pub mod Report
use mathlib.Core.Option
use rag_service.Prelude.{
  ℕ, zero, suc, ◌+◌, ◌-◌, ◌*◌, ◌/◌, ◌^◌, max, Text, codes, Bool, true, false, ◌&&◌, ◌||◌, not, List,
  [], ◌∷◌, ◌++◌, map, take, any, all, length, get_elem?, Option, none, some, ltb, leb, ◌==◌,
  text_eq, if◌then◌else◌, find, select, sort_by,
}
use rag_service.Rag.Indexing.{Exception, value_error}
use rag_service.Rag.Exec.{Result, ok, err, ◌>>=◌}
use rag_service.Rag.Query.{contains_id}

pub record Floats : Type 1 where
  pub Float : Type 0
  -- `a / b` of two whole numbers, `a + b`, `a / n`, and `n` itself
  pub ratio : ℕ → ℕ → Float
  pub add : Float → Float → Float
  pub divide : Float → Float → Float
  pub log2 : ℕ → Float
  pub is_zero : Float → Bool
  pub less : Float → Float → Bool

pub record EvaluationCase : Type 0 where
  pub case_id : Text
  pub relevant_chunk_ids : List ℕ
  pub relevance : List (ℕ × ℕ)
  pub expected_citation_chunk_ids : List ℕ
  pub expected_abstain : Bool
  pub review_status : Text

pub data Mode : Type 0 where
  retrieval answer : Mode
  other_mode : Text → Mode

abbrev pub is_valid_mode : Mode → Bool
is_valid_mode (other_mode _) = false
is_valid_mode _ = true

abbrev pub mode_eq : Mode → Mode → Bool
mode_eq retrieval retrieval = true
mode_eq answer answer = true
mode_eq (other_mode s) (other_mode t) = text_eq s t
mode_eq _ _ = false

-- `set(xs)`
distinct : List ℕ → List ℕ
distinct [] = []
distinct (x ∷ xs) = let rest = distinct xs in if contains_id x xs then rest else x ∷ rest

-- `len(set(xs) & set(ys))`
overlap : List ℕ → List ℕ → ℕ
unfolding distinct
overlap xs ys = length (select (λ x. contains_id x ys) (distinct xs))

-- The rank of the first relevant id, counted from `rank`.
first_rank : ℕ → List ℕ → List ℕ → Option ℕ
first_rank rank [] relevant_ids = none
first_rank rank (id ∷ ids) relevant_ids =
    if contains_id id relevant_ids then some rank else first_rank (suc rank) ids relevant_ids

unfoldable pub sorted : List ℕ → List ℕ
sorted values = sort_by (λ (x : ℕ) (y : ℕ). ltb y x) values

-- `none` is the index error that no call meets.
unfoldable pub percentile : List ℕ → ℕ → Result (Option ℕ)
unfolding sorted
percentile [] percentile_value = err (value_error (codes "延迟样本不能为空"))
percentile (x ∷ xs) percentile_value =
    if not (ltb 0 percentile_value && leb percentile_value 100)
    then err (value_error (codes "percentile 必须在 1 到 100 之间"))
    else ok (get_elem? (sorted (x ∷ xs)) ((length (x ∷ xs) * percentile_value + 99) / 100 - 1))

module _ (floats : Floats) where
  open floats use {Float, ratio, add, divide, log2, is_zero, less}

  unfoldable pub recall_at_k : List ℕ → List ℕ → ℕ → Float
  unfolding overlap
  recall_at_k ranked_ids [] k = ratio 1 1
  recall_at_k ranked_ids (id ∷ ids) k =
      ratio (overlap (take k ranked_ids) (id ∷ ids)) (length (distinct (id ∷ ids)))

  unfoldable pub reciprocal_rank : List ℕ → List ℕ → Float
  unfolding first_rank
  reciprocal_rank ranked_ids relevant_ids = elim (first_rank 1 ranked_ids relevant_ids) [
    | none ↦ ratio 0 1
    | some rank ↦ ratio 1 rank
  ]

  abbrev gain_of : ℕ → List (ℕ × ℕ) → ℕ
  gain_of id relevance = elim (find (λ (entry : ℕ × ℕ). entry.0 == id) relevance) [
    | none ↦ 2 ^ 0 - 1
    | some entry ↦ 2 ^ entry.1 - 1
  ]

  -- The sum over the ids from a rank on.
  dcg : List (ℕ × ℕ) → ℕ → List ℕ → Float → Float
  dcg relevance rank [] total = total
  dcg relevance rank (id ∷ ids) total =
      dcg relevance (suc rank) ids
        (add total (divide (ratio (gain_of id relevance) 1) (log2 (suc rank))))

  unfoldable pub ndcg_at_k : List ℕ → List (ℕ × ℕ) → ℕ → Float
  unfolding dcg
  ndcg_at_k ranked_ids relevance k =
      let actual = dcg relevance 1 (take k ranked_ids) (ratio 0 1) in
      let ids : List ℕ =
        map (λ (entry : ℕ × ℕ). entry.0)
          (sort_by (λ (x : ℕ × ℕ) (y : ℕ × ℕ). ltb x.1 y.1) relevance) in
      let ideal = dcg relevance 1 (take k ids) (ratio 0 1) in
      if is_zero ideal then ratio 1 1 else divide actual ideal

  unfoldable pub set_precision_recall : List ℕ → List ℕ → Float × Float
  unfolding overlap
  set_precision_recall [] [] = (ratio 1 1, ratio 1 1)
  set_precision_recall [] (e ∷ es) = (ratio 0 1, ratio 0 1)
  set_precision_recall (p ∷ ps) [] =
      (ratio (overlap (p ∷ ps) []) (length (distinct (p ∷ ps))), ratio 1 1)
  set_precision_recall (p ∷ ps) (e ∷ es) =
      let common = overlap (p ∷ ps) (e ∷ es) in
      (ratio common (length (distinct (p ∷ ps))), ratio common (length (distinct (e ∷ es))))

  unfoldable pub abstention_accuracy : Bool → Bool → Float
  abstention_accuracy true true = ratio 1 1
  abstention_accuracy false false = ratio 1 1
  abstention_accuracy _ _ = ratio 0 1

  sum : List Float → Float → Float
  sum [] total = total
  sum (x ∷ xs) total = sum xs (add total x)

  unfoldable pub mean : List Float → Result Float
  unfolding sum
  mean [] = err (value_error (codes "指标样本不能为空"))
  mean (x ∷ xs) = ok (divide (sum (x ∷ xs) (ratio 0 1)) (ratio (length (x ∷ xs)) 1))

  pub data Comparator : Type 0 where
    at_least at_most : Comparator
    other_comparator : Text → Comparator

  pub record MetricThreshold : Type 0 where
    pub metric : Text
    pub comparator : Comparator
    pub value : Float

  abbrev pub Report : Type 0
  Report = List (Text × Float)

  -- `report.get(metric)`
  unfoldable pub metric_of : Text → Report → Option Float
  metric_of metric report =
      Option.map (λ (entry : Text × Float). entry.1)
        (find (λ (entry : Text × Float). text_eq entry.0 metric) report)

  -- The failures that one threshold adds.
  failures_of : Report → MetricThreshold → List Text
  failures_of report threshold = elim (metric_of threshold.metric report) [
    | none ↦ threshold.metric ∷ []
    | some actual ↦ (elim threshold.comparator [
      | at_least ↦ if less actual threshold.value then threshold.metric ∷ [] else []
      | at_most ↦ if less threshold.value actual then threshold.metric ∷ [] else []
      | other_comparator _ ↦ []
    ])
  ]

  collect_failures : Report → List MetricThreshold → List Text
  unfolding failures_of
  collect_failures report [] = []
  collect_failures report (threshold ∷ thresholds) =
      failures_of report threshold ++ collect_failures report thresholds

  unfoldable pub assert_report_meets_thresholds : Report → List MetricThreshold → Result (Unit {0})
  unfolding collect_failures
  assert_report_meets_thresholds report thresholds = elim (collect_failures report thresholds) [
    | [] ↦ ok tt
    | _ ∷ _ ↦ err (value_error (codes "质量阈值未通过: "))
  ]

  abbrev pub is_comparator : Comparator → Bool
  is_comparator (other_comparator _) = false
  is_comparator _ = true

  -- The checks of `load_thresholds` on the thresholds that the file has.
  unfoldable pub load_thresholds : List MetricThreshold → Result (List MetricThreshold)
  load_thresholds [] = err (value_error (codes "阈值文件不能为空"))
  load_thresholds (t ∷ ts) =
      if any (λ (x : MetricThreshold). not (is_comparator x.comparator)) (t ∷ ts)
      then err (value_error (codes "阈值比较器只能是 min 或 max"))
      else ok (t ∷ ts)
