-- ===== src/Tests/QueryRuns.antt =====
-- The context and the citations of an answer, and the terms of a query.
use rag_service.Prelude.{
  ℕ, ◌+◌, ◌-◌, ◌*◌, ◌≤◌, Text, codes, text_eq, List, [], ◌∷◌, map, length, none, pos, ◌≡◌, refl,
  All, arith, Unique,
}
use rag_service.Rag.Exec.{ok}
use rag_service.Rag.Chunking.Sections.{join}
use rag_service.Rag.Context.{
  Source, ContextSelection, build_bounded_context, estimate_token_units, part_of, tokens_of,
  sanitize_answer_citations, extract_cited_chunk_ids,
}
use rag_service.Rag.Context.Budget.{IsCut, build_bounded_context_lem}
use rag_service.Rag.Context.Citations.{IsCited, IsKnown, extract_cited_lem}
use rag_service.Rag.Lexical.Fusion.{
  Floats, score_of, ranked_share, weighted_rrf_scores, weighted_rrf_pointwise,
}
use rag_service.Tests.Data.{ascii_digit}

abbrev source : ℕ → Text → Text → Source
source chunk_id citation content = record {
  knowledge_base_id = 1;
  document_id = chunk_id;
  document_name = codes "notes.md";
  chunk_id = chunk_id;
  chunk_index = pos 0;
  content = content;
  score = 0;
  rerank_score = none;
  citation = citation;
}

abbrev sources : List Source
sources =
    source 21 (codes "[S1]") (codes "alpha beta") ∷ source 22 (codes "[S2]") (codes "gamma") ∷ []

build_bounded_context_run :
    (selection : ContextSelection) × (build_bounded_context sources 2 6 ≡ ok selection)
    × (selection.context ≡ join (codes "\n\n") (map part_of selection.sources))
    × (length selection.sources ≤ 2)
    × All (IsCut sources) selection.sources
    × (estimate_token_units selection.context ≤ 4 * 6 + 2 * (length selection.sources - 1))
build_bounded_context_run = build_bounded_context_lem sources 2 6 (ground arith) (ground arith)

-- The blank lines between the parts are not counted, so that a context can pass its budget.
context_over_budget :
    build_bounded_context
      (source 21 (codes "[S1]") (codes "abcdef") ∷ source 22 (codes "[S2]") (codes "gammas") ∷ [])
      2
      5
    ≡ ok (record {
      context = codes "[S1] abcdef\n\n[S2] gamm";
      sources =
          source 21 (codes "[S1]") (codes "abcdef") ∷ source 22 (codes "[S2]") (codes "gamm") ∷ [];
    })
unfolding build_bounded_context
context_over_budget = refl

-- What is left of an answer can have a citation that is not among the sources.
sanitize_makes_citation :
    sanitize_answer_citations ascii_digit (codes "[S[S9]8]") sources ≡ codes "[S8]"
unfolding sanitize_answer_citations text_eq
sanitize_makes_citation = refl

All-IsKnown : All (IsKnown sources) (tokens_of ascii_digit (codes "yes [S2]."))
unfolding tokens_of text_eq
All-IsKnown = (tt, (tt, (tt, (tt, (refl, (tt, tt))))))

extract-IsCited_run :
    let ids = extract_cited_chunk_ids ascii_digit (codes "a [S2] b [S1] [S2]") sources in
    Unique (λ (id : ℕ). id) ids
    × All (IsCited sources (tokens_of ascii_digit (codes "a [S2] b [S1] [S2]"))) ids
extract-IsCited_run = extract_cited_lem ascii_digit (codes "a [S2] b [S1] [S2]") sources

-- Fractions, as a numerator and a denominator that are not reduced.
abbrev fractions : Floats
fractions = record {
  Float = ℕ × ℕ;
  zero_float = (0, 1);
  add = λ (a, b) (c, d). (a * d + c * b, b * d);
  divide = λ (a, b) n. (a, b * n);
}

weighted_rrf_run :
    score_of fractions 4
      (weighted_rrf_scores fractions (4 ∷ 5 ∷ []) (5 ∷ 4 ∷ []) 60 (7, 10) (3, 10))
    ≡ ranked_share fractions 4
        (3, 10)
        60
        1
        (5 ∷ 4 ∷ [])
        (ranked_share fractions 4 (7, 10) 60 1 (4 ∷ 5 ∷ []) none)
weighted_rrf_run = weighted_rrf_pointwise fractions 4 (4 ∷ 5 ∷ []) (5 ∷ 4 ∷ []) 60 (7, 10) (3, 10)
