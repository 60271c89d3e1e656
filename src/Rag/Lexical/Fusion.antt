-- ===== src/Rag/Lexical/Fusion.antt =====
-- `weighted_rrf_scores` of backend/app/rag/lexical.py. Floats and their operations are a parameter.
use rag_service.Prelude.{
  ℕ, ◌+◌, List, [], ◌∷◌, ◌==◌, ==_iff, if◌then◌else◌, ◌≡◌, refl, ap, ◌∙◌, Bool-cases, inl, inr,
  arith, Option, none, some,
}

-- Floats: 0.0, `a + b`, and `weight / n`.
pub record Floats : Type 1 where
  pub Float : Type 0
  pub zero_float : Float
  pub add : Float → Float → Float
  pub divide : Float → ℕ → Float

module _ (floats : Floats) where
  open floats use {Float, zero_float, add, divide}

  -- A dictionary from chunk ids to scores, in the order of insertion.
  abbrev pub Scores : Type 0
  Scores = List (ℕ × Float)

  unfoldable pub score_of : ℕ → Scores → Option Float
  score_of id [] = none
  score_of id ((key, value) ∷ scores) = if key == id then some value else score_of id scores

  abbrev pub or_zero : Option Float → Float
  or_zero none = zero_float
  or_zero (some value) = value

  -- `scores[id] = value`
  set_score : ℕ → Float → Scores → Scores
  set_score id value [] = (id, value) ∷ []
  set_score id value ((key, old) ∷ scores) =
      if key == id then (key, value) ∷ scores else (key, old) ∷ set_score id value scores

  -- One of the two loops, from a rank on.
  add_ranking : ℕ → Float → ℕ → List ℕ → Scores → Scores
  unfolding set_score score_of
  add_ranking rrf_k weight rank [] scores = scores
  add_ranking rrf_k weight rank (id ∷ ids) scores =
      add_ranking rrf_k weight (rank + 1) ids
        (set_score id (add (or_zero (score_of id scores)) (divide weight (rrf_k + rank))) scores)

  unfoldable pub weighted_rrf_scores : List ℕ → List ℕ → ℕ → Float → Float → Scores
  unfolding add_ranking
  weighted_rrf_scores dense_ids lexical_ids rrf_k dense_weight lexical_weight =
      add_ranking rrf_k lexical_weight 1 lexical_ids (add_ranking rrf_k dense_weight 1 dense_ids [])

  -- The specification for one chunk: what a ranking adds to the score that it has, at each rank
  -- where it stands; `none` is a chunk with no score.
  abbrev pub ranked_share : ℕ → Float → ℕ → ℕ → List ℕ → Option Float → Option Float
  ranked_share id weight rrf_k rank [] score = score
  ranked_share id weight rrf_k rank (x ∷ xs) score =
      ranked_share id weight rrf_k (rank + 1) xs
        (if x == id then some (add (or_zero score) (divide weight (rrf_k + rank))) else score)

  score-set :
      (id key : ℕ) (value : Float) (scores : Scores)
      → score_of id (set_score key value scores)
        ≡ (if key == id then some value else score_of id scores)
  unfolding score_of set_score
  score-set id key value [] = refl
  score-set id key value ((k, v) ∷ scores) = ground (arith, score-set id key value scores)

  -- Where the key is the chunk's own, the old score of the key is the chunk's.
  own_score :
      (id key : ℕ) (share : Float) (scores : Scores)
      → (if key == id then some (add (or_zero (score_of key scores)) share) else score_of id scores)
        ≡ (if key == id
            then some (add (or_zero (score_of id scores)) share)
            else score_of id scores)
  own_score id key share scores = elim (Bool-cases (key == id)) [
    | inl same ↦
        rw same
          (ap (λ (n : ℕ). some (add (or_zero (score_of n scores)) share)) ((==_iff key id).0 same))
    | inr other ↦ rw other
  ]

  score-add_ranking :
      (id rrf_k : ℕ) (weight : Float) (rank : ℕ) (ids : List ℕ) (scores : Scores)
      → score_of id (add_ranking rrf_k weight rank ids scores)
        ≡ ranked_share id weight rrf_k rank ids (score_of id scores)
  unfolding add_ranking
  score-add_ranking id k w rank [] scores = refl
  score-add_ranking id k w rank (x ∷ xs) scores =
      let share = divide w (k + rank) in
      score-add_ranking id k w (rank + 1) xs
        (set_score x (add (or_zero (score_of x scores)) share) scores)
      ∙ ap (ranked_share id w k (rank + 1) xs) (
          score-set id x (add (or_zero (score_of x scores)) share) scores
          ∙ own_score id x share scores)

  -- The score of each chunk is the dense share and then the lexical share of that chunk alone, each
  -- at the ranks where the chunk stands; a chunk of neither ranking has no score.
  pub weighted_rrf_pointwise :
      (id : ℕ) (dense_ids lexical_ids : List ℕ) (rrf_k : ℕ) (dense_weight lexical_weight : Float)
      → score_of id (weighted_rrf_scores dense_ids lexical_ids rrf_k dense_weight lexical_weight)
        ≡ ranked_share id lexical_weight rrf_k 1 lexical_ids
            (ranked_share id dense_weight rrf_k 1 dense_ids none)
  unfolding weighted_rrf_scores
  weighted_rrf_pointwise id dense lexical k dw lw =
      score-add_ranking id k lw 1 lexical (add_ranking k dw 1 dense [])
      ∙ ap (ranked_share id lw k 1 lexical)
          (score-add_ranking id k dw 1 dense [] ∙ (unfold score_of in refl))
