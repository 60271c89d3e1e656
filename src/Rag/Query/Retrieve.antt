-- ===== src/Rag/Query/Retrieve.antt =====
-- `retrieve` of backend/app/rag/service/query_service.py.
pub mod Hits
pub mod Permission
use rag_service.Prelude.{
  sort_by, ℕ, zero, suc, ◌+◌, Text, codes, show_nat, Bool, true, false, ◌&&◌, ◌||◌, not, List, [],
  ◌∷◌, ◌++◌, map, take, ◌==◌, if◌then◌else◌, Option, none, some,
}
use rag_service.Rag.Model.{Chunk, Vector}
use rag_service.Rag.Indexing.{Exception, other_error}
use rag_service.Rag.Exec.{Result, ok, err, ◌>>=◌}
use rag_service.Rag.Settings.{QuerySettings}
use rag_service.Rag.Context.{Source}
use rag_service.Rag.Lexical.{extract_exact_tokens}
use rag_service.Rag.Lexical.Fusion.{Scores, score_of, weighted_rrf_scores}
use rag_service.Rag.World.{World, Db}
use rag_service.Rag.Query.{
  RetrieveParam, Numbers, floats_of, SearchServices, MergedResult, accessible_kb_ids, base_rows,
  put_item, set_default, select_context_results, get_parent_content, content_of, is_rerank_fallback,
  overlaps,
}

abbrev Row : Type 0
Row = Chunk × Text

first_vector : List Vector → Result Vector
first_vector [] = err (other_error (codes "IndexError") (codes "list index out of range"))
first_vector (vector ∷ vectors) = ok vector

module _ (services : SearchServices) (numbers : Numbers) (settings : QuerySettings) where
  -- Nearest first.
  pub dense_rows : Vector → List Row → List Row
  unfolding sort_by
  dense_rows vector rows = take settings.dense_candidate_k (
      sort_by
        (λ (a : Row) (b : Row).
          numbers.less (services.distance vector b.0) (services.distance vector a.0))
        rows)

  -- `lexical_condition` and `lexical_rank`
  is_lexical : Text → Chunk → Bool
  unfolding overlaps
  is_lexical question c =
      services.text_match question c || overlaps (extract_exact_tokens question) c.exact_tokens

  lexical_rank : Text → Chunk → ℕ
  unfolding overlaps
  lexical_rank question c = numbers.add (services.text_rank question c) (
      if overlaps (extract_exact_tokens question) c.exact_tokens
      then numbers.ten
      else numbers.zero_float)

  lexical_matches : Text → List Row → List Row
  unfolding is_lexical
  lexical_matches question [] = []
  lexical_matches question (row ∷ rows) =
      let rest = lexical_matches question rows in
      if is_lexical question row.0 then row ∷ rest else rest

  -- Highest rank first.
  pub lexical_rows : Text → List Row → List Row
  unfolding sort_by lexical_matches lexical_rank
  lexical_rows question rows = take settings.lexical_candidate_k (
      sort_by
        (λ (a : Row) (b : Row).
          numbers.less (lexical_rank question a.0) (lexical_rank question b.0))
        (lexical_matches question rows))

  dense_item : Vector → Row → MergedResult
  dense_item vector row = record {
    chunk = row.0;
    name = row.1;
    score = numbers.zero_float;
    dense = numbers.similarity (services.distance vector row.0);
    rerank = none;
  }

  lexical_item : Row → MergedResult
  lexical_item row = record {
    chunk = row.0;
    name = row.1;
    score = numbers.zero_float;
    dense = numbers.zero_float;
    rerank = none;
  }

  -- The two loops that fill `merged`.
  put_dense : Vector → List Row → List MergedResult → List MergedResult
  unfolding put_item dense_item
  put_dense vector [] merged = merged
  put_dense vector (row ∷ rows) merged =
      put_dense vector rows (put_item (dense_item vector row) merged)

  put_lexical : List Row → List MergedResult → List MergedResult
  unfolding set_default lexical_item
  put_lexical [] merged = merged
  put_lexical (row ∷ rows) merged = put_lexical rows (set_default (lexical_item row) merged)

  -- `merged[chunk_id]['score'] = score`, of the scores of the fusion.
  set_scores : Scores (floats_of numbers) → List MergedResult → List MergedResult
  set_scores scores [] = []
  set_scores scores (item ∷ items) =
      record item {
        score = elim (score_of (floats_of numbers) item.chunk.id scores) [
          | none ↦ item.score
          | some score ↦ score
        ];
      }
      ∷ set_scores scores items

  abbrev ids_of : List Row → List ℕ
  ids_of rows = map (λ (row : Row). row.0.id) rows

  -- `ordered`, before the rerank.
  pub fuse : Vector → List Row → List Row → List MergedResult
  unfolding put_dense put_lexical set_scores sort_by
  fuse vector dense lexical =
      sort_by (λ (a : MergedResult) (b : MergedResult). numbers.less a.score b.score)
        (set_scores
          (weighted_rrf_scores (floats_of numbers) (ids_of dense) (ids_of lexical) settings.rrf_k
            settings.dense_rrf_weight settings.lexical_rrf_weight)
          (put_lexical lexical (put_dense vector dense [])))

  -- `by_index.get(index)`, in which the last score of an index counts.
  by_index : List (ℕ × ℕ) → ℕ → Option ℕ
  by_index [] index = none
  by_index ((i, score) ∷ answers) index = elim (by_index answers index) [
    | some later ↦ some later
    | none ↦ if i == index then some score else none
  ]

  set_reranks : List (ℕ × ℕ) → ℕ → List MergedResult → List MergedResult
  unfolding by_index
  set_reranks answers index [] = []
  set_reranks answers index (item ∷ items) =
      record item { rerank = by_index answers index } ∷ set_reranks answers (suc index) items

  rerank_key : MergedResult → ℕ
  rerank_key item = elim item.rerank [ none ↦ numbers.minus_infinity | some score ↦ score ]

  -- An empty answer leaves the order of the fusion.
  reorder : List MergedResult → List (ℕ × ℕ) → List MergedResult
  unfolding set_reranks rerank_key sort_by
  reorder ordered [] = ordered
  reorder ordered (answer ∷ answers) =
      sort_by (λ (a : MergedResult) (b : MergedResult). numbers.less (rerank_key a) (rerank_key b))
        (set_reranks (answer ∷ answers) 0 ordered)

  pub after_rerank : List MergedResult → Result (List (ℕ × ℕ)) → Result (List MergedResult)
  unfolding reorder is_rerank_fallback
  after_rerank ordered (ok answers) = ok (reorder ordered answers)
  after_rerank ordered (err exc) = if is_rerank_fallback exc then ok ordered else err exc

  -- `GetSourceDetail(…)` of a result, by its index from 1.
  source_of : List Chunk → ℕ → MergedResult → Source
  unfolding content_of
  source_of parents index item = record {
    knowledge_base_id = item.chunk.knowledge_base_id;
    document_id = item.chunk.document_id;
    document_name = item.name;
    chunk_id = item.chunk.id;
    chunk_index = item.chunk.chunk_index;
    content = content_of parents item.chunk;
    score = numbers.round item.score;
    rerank_score = item.rerank;
    citation = codes "[S" ++ (show_nat index ++ codes "]");
  }

  sources_of : List Chunk → ℕ → List MergedResult → List Source
  unfolding source_of
  sources_of parents index [] = []
  sources_of parents index (item ∷ items) =
      source_of parents index item ∷ sources_of parents (suc index) items

  -- What stands behind the rerank.
  pub present : RetrieveParam → World → List MergedResult → List Source
  unfolding sources_of select_context_results get_parent_content
  present obj w ordered =
      let selected = select_context_results settings ordered obj.top_k in
      sources_of (get_parent_content settings selected w) 1 selected

  pub search : RetrieveParam → World → Vector → List ℕ → Result (List MergedResult)
  unfolding dense_rows lexical_rows fuse after_rerank base_rows
  search obj w vector ids =
      let rows = base_rows ids w.documents w.chunks in
      let ordered = fuse vector (dense_rows vector rows) (lexical_rows obj.question rows) in
      after_rerank ordered (
        services.rerank obj.question
          (map (λ (item : MergedResult). item.chunk.contextual_content) ordered))

  -- `QueryService.retrieve`
  unfoldable pub retrieve : ℕ → Bool → RetrieveParam → World → Result (List Source)
  unfolding search present first_vector
  retrieve user_id is_admin obj w = do
    ids ← accessible_kb_ids user_id is_admin obj.knowledge_base_ids w
    vectors ← services.embed (obj.question ∷ [])
    vector ← first_vector vectors
    ordered ← search obj w vector ids
    ok (present obj w ordered)
