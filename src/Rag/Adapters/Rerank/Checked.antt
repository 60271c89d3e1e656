-- ===== src/Rag/Adapters/Rerank/Checked.antt =====
-- What a rerank gives, whatever the service answers.
use rag_service.Prelude.{
  ℕ, ◌<◌, Text, Bool, true, false, ◌&&◌, List, [], ◌∷◌, length, All, Option, none, some, leb,
  if◌then◌else◌, ℤ, pos, negsuc, ◌≡◌, refl, sym, inl, inr, Bool-cases, Option-cases, leb→lt,
  none-ne-some, some-inj, subst,
}
use rag_service.Rag.Exec.{Result, ok, err}
use rag_service.Rag.Adapters.{AdapterSettings, given}
use rag_service.Rag.Adapters.Rerank.{
  RerankResult, RerankRequest, RerankBody, RerankUsage, parse_results, read_body, configured,
  rerank,
}

abbrev pub is_ok {ℓ} : {A : Type ℓ} → Result A → Bool
is_ok (ok _) = true
is_ok (err _) = false

-- The items that a rerank returns are of the documents.
abbrev pub InRange : ℕ → Result (List RerankResult) → Type 0
InRange n (ok results) = All (λ (r : RerankResult). r.index < n) results
InRange n (err _) = Unit

parsed-InRange :
    (n : ℕ) (items : List (ℤ × ℕ)) (results : List RerankResult)
    → parse_results n items ≡ some results
    → All (λ (r : RerankResult). r.index < n) results
unfolding parse_results
parsed-InRange n [] results h = subst (All (λ (r : RerankResult). r.index < n)) (some-inj h) tt
parsed-InRange n ((negsuc i, score) ∷ items) results h = absurd (none-ne-some results h)
parsed-InRange n ((pos i, score) ∷ items) results h = elim (Option-cases (parse_results n items)) [
  | inl e ↦ absurd (none-ne-some results (rw (e, parse_results) at h))
  | inr (rest, e) ↦ elim (Bool-cases (leb n i)) [
    | inl b ↦ absurd (none-ne-some results (rw (e, b, parse_results) at h))
    | inr b ↦
        subst (All (λ (r : RerankResult). r.index < n)) (some-inj (rw (e, b, parse_results) at h))
          (leb→lt n i b, parsed-InRange n items rest e)
  ]
]

-- A setting that is there and not empty.
abbrev pub is_given : Option Text → Bool
is_given (some (_ ∷ _)) = true
is_given _ = false

module _ (settings : AdapterSettings) where
  -- The service can be called.
  abbrev pub is_ready : Bool
  is_ready =
      settings.rerank_enabled
      && (is_given settings.rerank_base_url
          && (is_given settings.rerank_api_key && is_given settings.rerank_model))

  -- The outcome of a rerank against its documents and its usage; `ready` says whether a call is made.
  pub record IsChecked (ready : Bool) (n : ℕ) (outcome : Result (List RerankResult) × RerankUsage)
      : Type 0 where
    pub in_range : InRange n outcome.0
    pub succeeded : outcome.1.succeeded ≡ (settings.rerank_enabled && is_ok outcome.0)
    pub called : outcome.1.called ≡ ready

  read-IsChecked :
      (n : ℕ) (response : Result RerankBody)
      → settings.rerank_enabled ≡ true
      → IsChecked true n (read_body settings n response)
  unfolding read_body
  read-IsChecked n (err raised) on = record { in_range = tt; succeeded = rw on; called = refl }
  read-IsChecked n (ok body) on = elim (Option-cases (parse_results n body.results)) [
    | inl e ↦ rw (e, read_body) (record { in_range = tt; succeeded = rw on; called = refl })
    | inr (rs, e) ↦
        rw (e, read_body)
          (record {
            in_range = parsed-InRange n body.results rs e;
            succeeded = rw on;
            called = refl;
          })
  ]

  configured-IsChecked :
      (post : RerankRequest → Result RerankBody) (url key model : Option Text) (query : Text)
      (documents : List Text)
      → settings.rerank_enabled ≡ true
      → IsChecked
          (is_given url && (is_given key && is_given model))
          (length documents)
          (configured settings post (given url) (given key) (given model) query documents)
  unfolding configured
  configured-IsChecked post (some (a ∷ u)) (some (b ∷ k)) (some (c ∷ m)) query ds on =
      read-IsChecked (length ds) (post _) on
  configured-IsChecked post none key model query ds on = record {
    in_range = tt;
    succeeded = rw on;
    called = refl;
  }
  configured-IsChecked post (some []) key model query ds on = record {
    in_range = tt;
    succeeded = rw on;
    called = refl;
  }
  configured-IsChecked post (some (a ∷ u)) none model query ds on = record {
    in_range = tt;
    succeeded = rw on;
    called = refl;
  }
  configured-IsChecked post (some (a ∷ u)) (some []) model query ds on = record {
    in_range = tt;
    succeeded = rw on;
    called = refl;
  }
  configured-IsChecked post (some (a ∷ u)) (some (b ∷ k)) none query ds on = record {
    in_range = tt;
    succeeded = rw on;
    called = refl;
  }
  configured-IsChecked post (some (a ∷ u)) (some (b ∷ k)) (some []) query ds on = record {
    in_range = tt;
    succeeded = rw on;
    called = refl;
  }

  -- Whatever the service answers, a rerank gives only results with an index of a document, and its
  -- usage says that a call was made exactly if the rerank is enabled and its address, key and model
  -- are given, and that it succeeded exactly if the rerank is enabled and returned.
  pub rerank-IsChecked :
      (post : RerankRequest → Result RerankBody) (query : Text) (documents : List Text)
      → IsChecked is_ready (length documents) (rerank settings post query documents)
  unfolding rerank
  rerank-IsChecked post query documents = elim (Bool-cases settings.rerank_enabled) [
    | inl on ↦ by_switch true on (
        configured-IsChecked post settings.rerank_base_url settings.rerank_api_key
          settings.rerank_model query documents on)
    | inr off ↦ by_switch false off (record { in_range = tt; succeeded = rw off; called = refl })
  ]
    where
      by_switch :
          (b : Bool)
          → settings.rerank_enabled ≡ b
          → IsChecked
              (b
                && (is_given settings.rerank_base_url
                    && (is_given settings.rerank_api_key && is_given settings.rerank_model)))
              (length documents)
              (if b
                then configured settings post
                    (given settings.rerank_base_url)
                    (given settings.rerank_api_key)
                    (given settings.rerank_model)
                    query
                    documents
                else (ok [], record { called = false; succeeded = false; total_tokens = 0 }))
          → IsChecked is_ready (length documents) (rerank settings post query documents)
      by_switch b e h =
          subst
            (λ b.
              IsChecked
                (b
                  && (is_given settings.rerank_base_url
                      && (is_given settings.rerank_api_key && is_given settings.rerank_model)))
                (length documents)
                (if b
                  then configured settings post (given settings.rerank_base_url)
                      (given settings.rerank_api_key) (given settings.rerank_model) query documents
                  else (ok [], record { called = false; succeeded = false; total_tokens = 0 })))
            (sym e) h
