-- ===== src/Rag/Evaluation/Gate.antt =====
-- The release gate: `assert_report_meets_thresholds`.
use rag_service.Prelude.{
  Text, codes, false, List, [], ◌∷◌, ◌++◌, All, Option, none, some, if◌then◌else◌, ◌≡◌, ◌↔◌, refl,
  sym, inl, inr, Bool-cases, none-ne-some, some-inj, subst,
}
use rag_service.Rag.Indexing.{value_error}
use rag_service.Rag.Exec.{Result, ok, err}
use rag_service.Rag.Evaluation.{
  Floats, Comparator, at_least, at_most, other_comparator, MetricThreshold, Report, metric_of,
  failures_of, collect_failures, assert_report_meets_thresholds,
}

module _ (floats : Floats) where
  open floats use {Float, less}

  -- A value keeps to the bound of a threshold.
  abbrev pub Keeps : Comparator floats → Float → Float → Type 0
  Keeps at_least actual bound = less actual bound ≡ false
  Keeps at_most actual bound = less bound actual ≡ false
  Keeps (other_comparator _) actual bound = Unit

  -- The report has the metric, and its value keeps to the bound.
  abbrev pub Meets : Report floats → MetricThreshold floats → Type 0
  Meets report threshold =
      (actual : Float) × (metric_of floats threshold.metric report ≡ some actual)
      × Keeps threshold.comparator actual threshold.value

  Keeps-iff :
      (c : Comparator floats) (metric : Text) (actual bound : Float)
      → ((elim c as (λ _. List Text) [
        | at_least ↦ if less actual bound then metric ∷ [] else []
        | at_most ↦ if less bound actual then metric ∷ [] else []
        | other_comparator _ ↦ []
      ])
          ≡ [])
        ↔ Keeps c actual bound
  Keeps-iff at_least m a b = elim (Bool-cases (less a b)) [
    | inl e ↦ rw e ((λ h. cc), (λ h. cc))
    | inr e ↦ rw e ((λ h. refl), (λ h. refl))
  ]
  Keeps-iff at_most m a b = elim (Bool-cases (less b a)) [
    | inl e ↦ rw e ((λ h. cc), (λ h. cc))
    | inr e ↦ rw e ((λ h. refl), (λ h. refl))
  ]
  Keeps-iff (other_comparator _) m a b = ((λ h. tt), (λ h. refl))

  judged_iff :
      (t : MetricThreshold floats) (stored : Option Float)
      → ((elim stored as (λ _. List Text) [
        | none ↦ t.metric ∷ []
        | some actual ↦ (elim t.comparator [
          | at_least ↦ if less actual t.value then t.metric ∷ [] else []
          | at_most ↦ if less t.value actual then t.metric ∷ [] else []
          | other_comparator _ ↦ []
        ])
      ])
          ≡ [])
        ↔ ((actual : Float) × (stored ≡ some actual) × Keeps t.comparator actual t.value)
  judged_iff t none = ((λ h. cc), (λ h. absurd (none-ne-some h.0 h.1)))
  judged_iff t (some a) =
      let keeps = Keeps-iff t.comparator t.metric a t.value in
      (
        (λ h. (a, refl, keeps.0 h)),
        (λ h. keeps.1 (subst (λ x. Keeps t.comparator x t.value) (sym (some-inj h.1)) h.2)),
      )

  failures_of_iff :
      (report : Report floats) (t : MetricThreshold floats)
      → (failures_of floats report t ≡ []) ↔ Meets report t
  unfolding failures_of
  failures_of_iff report t = judged_iff t (metric_of floats t.metric report)

  append-empty : (xs ys : List Text) → ((xs ++ ys) ≡ []) ↔ ((xs ≡ []) × (ys ≡ []))
  append-empty [] ys = ((λ h. (refl, h)), (λ h. h.1))
  append-empty (x ∷ xs) ys = ((λ h. cc), (λ h. cc))

  collect_failures_iff :
      (report : Report floats) (ts : List (MetricThreshold floats))
      → (collect_failures floats report ts ≡ []) ↔ All (Meets report) ts
  unfolding collect_failures
  collect_failures_iff report [] = ((λ h. tt), (λ h. refl))
  collect_failures_iff report (t ∷ ts) =
      let both = append-empty (failures_of floats report t) (collect_failures floats report ts) in
      let first = failures_of_iff report t in
      let rest = collect_failures_iff report ts in
      ((λ h. (first.0 (both.0 h).0, rest.0 (both.0 h).1)), (λ h. both.1 (first.1 h.0, rest.1 h.1)))

  no_failures :
      (failures : List Text)
      → ((elim failures as (λ _. Result (Unit {0})) [
        | [] ↦ ok tt
        | _ ∷ _ ↦ err (value_error (codes "质量阈值未通过: "))
      ])
          ≡ ok tt)
        ↔ (failures ≡ [])
  no_failures [] = ((λ h. refl), (λ h. refl))
  no_failures (f ∷ fs) = ((λ h. cc), (λ h. cc))

  -- The gate lets a report through exactly if the report has the metric of every threshold and its
  -- value is not below a minimum and not above a maximum.
  pub assert_report_iff :
      (report : Report floats) (ts : List (MetricThreshold floats))
      → (assert_report_meets_thresholds floats report ts ≡ ok tt) ↔ All (Meets report) ts
  unfolding assert_report_meets_thresholds
  assert_report_iff report ts =
      let none_failed = no_failures (collect_failures floats report ts) in
      let met = collect_failures_iff report ts in
      ((λ h. met.0 (none_failed.0 h)), (λ h. none_failed.1 (met.1 h)))
