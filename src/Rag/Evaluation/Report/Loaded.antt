-- ===== src/Rag/Evaluation/Report/Loaded.antt =====
-- What a loaded dataset and a finished report say of their input.
use rag_service.Prelude.{
  ℕ, codes, Bool, true, false, ◌&&◌, not, List, [], ◌∷◌, All, any, all, Option, some, text_eq,
  if◌then◌else◌, ◌≡◌, ◌≢◌, refl, sym, inl, inr, arith, Bool-cases, Option-cases, none-ne-some,
  some-inj, subst, text_eq_refl,
}
use rag_service.Rag.Indexing.{value_error}
use rag_service.Rag.Exec.{Result, ok, err, both_returned, err-ne-ok}
use rag_service.Rag.Evaluation.{
  Floats, EvaluationCase, Mode, is_valid_mode, mode_eq, retrieval, answer, other_mode, Report,
}
use rag_service.Rag.Evaluation.Report.{
  check_approved, check_cases, has_duplicates, load_dataset, EvaluationResult, result_of, one_mode,
  results_of, build_report,
}

ok-inj {ℓ} : {A : Type ℓ} {a b : A} → ok a ≡ ok b → a ≡ b
ok-inj h = cc

-- The ids of the cases are different, and each case is approved if that is required.
abbrev pub AreDistinct : List EvaluationCase → Type 0
AreDistinct [] = Unit
AreDistinct (c ∷ cs) =
    (any (λ (d : EvaluationCase). text_eq d.case_id c.case_id) cs ≡ false) × AreDistinct cs

distinct-ids : (cs : List EvaluationCase) → has_duplicates cs ≡ false → AreDistinct cs
unfolding has_duplicates
distinct-ids [] h = tt
distinct-ids (c ∷ cs) h = (ground arith, distinct-ids cs (ground arith))

approved-case :
    (require_approved : Bool) (c : EvaluationCase) {u : Unit {0}}
    → check_approved require_approved c ≡ ok u
    → (require_approved && not (text_eq c.review_status (codes "approved"))) ≡ false
unfolding check_approved
approved-case r c h = elim (Bool-cases (r && not (text_eq c.review_status (codes "approved")))) [
  | inl e ↦ absurd (err-ne-ok (rw e at h))
  | inr e ↦ e
]

approved-cases :
    (require_approved : Bool) (cs : List EvaluationCase) {u : Unit {0}}
    → check_cases require_approved cs ≡ ok u
    → All
        (λ (c : EvaluationCase).
          (require_approved && not (text_eq c.review_status (codes "approved"))) ≡ false)
        cs
unfolding check_cases
approved-cases r [] h = tt
approved-cases r (c ∷ cs) h =
    let (_, first, rest) = both_returned (check_approved r c) (λ _. check_cases r cs) h in
    (approved-case r c first, approved-cases r cs rest)

mode_eq_refl : (m : Mode) → mode_eq m m ≡ true
mode_eq_refl retrieval = refl
mode_eq_refl answer = refl
mode_eq_refl (other_mode s) = text_eq_refl s

and-left : (a b : Bool) → (a && b) ≡ true → a ≡ true
and-left a b h = ground arith

and-right : (a b : Bool) → (a && b) ≡ true → b ≡ true
and-right a b h = ground arith

both_checks :
    (cases loaded : List EvaluationCase)
    → (elim cases as (λ _. Result (List EvaluationCase)) [
      | [] ↦ err (value_error (codes "评测数据集不能为空"))
      | c ∷ cs ↦
          if has_duplicates (c ∷ cs)
          then err (value_error (codes "评测数据集存在重复 case_id"))
          else ok (c ∷ cs)
    ])
      ≡ ok loaded
    → (loaded ≡ cases) × (cases ≢ []) × AreDistinct cases
both_checks [] loaded h = absurd (err-ne-ok h)
both_checks (c ∷ cs) loaded h = elim (Bool-cases (has_duplicates (c ∷ cs))) [
  | inl e ↦ absurd (err-ne-ok (rw e at h))
  | inr e ↦ (sym (ok-inj (rw e at h)), (λ n. cc), distinct-ids (c ∷ cs) e)
]

-- A dataset that loads is the file's list of cases, is not empty, has every case id once, and has
-- only approved cases if approval is required.
pub load_dataset_checked :
    (require_approved : Bool) (cases loaded : List EvaluationCase)
    → load_dataset require_approved cases ≡ ok loaded
    → (loaded ≡ cases)
      × (cases ≢ [])
      × AreDistinct cases
      × All
          (λ (c : EvaluationCase).
            (require_approved && not (text_eq c.review_status (codes "approved"))) ≡ false)
          cases
unfolding load_dataset
load_dataset_checked r cases loaded h =
    let (_, approved, rest) = both_returned (check_cases r cases) _ h in
    let (same, filled, distinct) = both_checks cases loaded rest in
    (same, filled, distinct, approved-cases r cases approved)

module _ (floats : Floats) (latency_of : Option ℕ → floats.Float) where
  -- Every case has a result.
  covered :
      (cs : List EvaluationCase) (results rows : List (EvaluationResult floats latency_of))
      → results_of floats latency_of cs results ≡ some rows
      → All
          (λ (c : EvaluationCase).
            (r : EvaluationResult floats latency_of) × (result_of floats latency_of c.case_id
                results
              ≡ some r))
          cs
  unfolding results_of
  covered [] results rows h = tt
  covered (c ∷ cs) results rows h =
      elim (Option-cases (result_of floats latency_of c.case_id results)) [
        | inl e ↦ absurd (none-ne-some rows (rw (e, results_of) at h))
        | inr (r, e) ↦ elim (Option-cases (results_of floats latency_of cs results)) [
          | inl n ↦ absurd (none-ne-some rows (rw (e, n, results_of) at h))
          | inr (rest, n) ↦ ((r, e), covered cs results rest n)
        ]
      ]

  all-All :
      (m : Mode) (results : List (EvaluationResult floats latency_of))
      → all (λ (x : EvaluationResult floats latency_of). mode_eq x.mode m) results ≡ true
      → All (λ (x : EvaluationResult floats latency_of). mode_eq x.mode m ≡ true) results
  all-All m [] h = tt
  all-All m (x ∷ xs) h = (ground arith, all-All m xs (ground arith))

  -- The results have one mode, which is valid.
  pub HasMode : Mode → List (EvaluationResult floats latency_of) → Type 0
  HasMode m results =
      (is_valid_mode m ≡ true)
      × All (λ (x : EvaluationResult floats latency_of). mode_eq x.mode m ≡ true) results

  has_mode :
      (results : List (EvaluationResult floats latency_of)) (m : Mode)
      → one_mode floats latency_of results ≡ some m
      → HasMode m results
  unfolding one_mode HasMode
  has_mode [] m h = cc
  has_mode (r ∷ rs) m h =
      elim (Bool-cases (
        is_valid_mode r.mode
        && all (λ (x : EvaluationResult floats latency_of). mode_eq x.mode r.mode) rs)) [
          | inl e ↦
              subst (λ mode. HasMode mode (r ∷ rs)) (some-inj (rw e at h))
                (and-left _ _ e, (mode_eq_refl r.mode, all-All r.mode rs (and-right _ _ e)))
          | inr e ↦ absurd (none-ne-some m (rw e at h))
        ]

  -- A report is made only where every case has a result, and all results have one valid mode.
  pub build_report_checked :
      (cases : List EvaluationCase) (results : List (EvaluationResult floats latency_of))
      (report : Report floats)
      → build_report floats latency_of cases results ≡ ok report
      → All
          (λ (c : EvaluationCase).
            (r : EvaluationResult floats latency_of) × (result_of floats latency_of c.case_id
                results
              ≡ some r))
          cases
        × ((m : Mode) × HasMode m results)
  unfolding build_report
  build_report_checked cases results report h =
      elim (Option-cases (results_of floats latency_of cases results)) [
        | inl e ↦ absurd (err-ne-ok (rw (e, build_report) at h))
        | inr (rows, e) ↦ elim (Option-cases (one_mode floats latency_of results)) [
          | inl n ↦ absurd (err-ne-ok (rw (e, n, build_report) at h))
          | inr (m, n) ↦ (covered cases results rows e, (m, has_mode results m n))
        ]
      ]
