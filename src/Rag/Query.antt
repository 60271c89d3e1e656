-- ===== src/Rag/Query.antt =====
-- backend/app/rag/service/query_service.py: `_accessible_kb_ids`, `_select_context_results`,
-- `_get_parent_content` and `retrieve`. What PostgreSQL ranks, what the model services answer, and the
-- arithmetic of floats are parameters; a float is its bit pattern.
pub mod Retrieve
pub mod Selection
pub mod Answer
use rag_service.Prelude.{
  ℕ, zero, suc, ◌+◌, Text, codes, show_nat, text_eq, Bool, true, false, ◌&&◌, ◌||◌, not, List, [],
  ◌∷◌, ◌++◌, map, any, take, length, ◌==◌, if◌then◌else◌, Option, none, some, find, select,
}
use rag_service.Rag.Model.{Chunk, Document, DocumentStatus, KnowledgeBase, Vector, same_status}
use rag_service.Rag.Indexing.{
  Exception, http_status, http_timeout, http_transport, value_error, other_error, not_found_error,
}
use rag_service.Rag.Exec.{Result, ok, err, ◌>>=◌}
use rag_service.Rag.Settings.{QuerySettings}
use rag_service.Rag.Context.{Source}
use rag_service.Rag.Lexical.{extract_exact_tokens}
use rag_service.Rag.Lexical.Fusion.{Floats, Scores, score_of, weighted_rrf_scores}
use rag_service.Rag.World.{World, Db}
use rag_service.Rag.KnowledgeBases.{is_authorized}

-- `RetrieveParam`
pub record RetrieveParam : Type 0 where
  pub question : Text
  pub knowledge_base_ids : List ℕ
  pub top_k : ℕ

-- Floats by their bit patterns.
pub record Numbers : Type 0 where
  pub zero_float : ℕ
  pub ten : ℕ
  pub minus_infinity : ℕ
  pub add : ℕ → ℕ → ℕ
  pub divide : ℕ → ℕ → ℕ
  pub less : ℕ → ℕ → Bool
  -- `max(0.0, 1 - value)`
  pub similarity : ℕ → ℕ
  -- `round(value, 6)`
  pub round : ℕ → ℕ

abbrev pub floats_of : Numbers → Floats
floats_of numbers = record {
  Float = ℕ;
  zero_float = numbers.zero_float;
  add = numbers.add;
  divide = numbers.divide;
}

pub record SearchServices : Type 0 where
  pub embed : List Text → Result (List Vector)
  -- `cosine_distance`, of a chunk with an embedding
  pub distance : Vector → Chunk → ℕ
  -- `to_tsvector(search_text) @@ websearch_to_tsquery(…)` and `ts_rank_cd(…)` for a question
  pub text_match : Text → Chunk → Bool
  pub text_rank : Text → Chunk → ℕ
  -- the indices and the scores of `rerank_provider.rerank`
  pub rerank : Text → List Text → Result (List (ℕ × ℕ))

-- `_MergedResult`
pub record MergedResult : Type 0 where
  pub chunk : Chunk
  pub name : Text
  pub score : ℕ
  pub dense : ℕ
  pub rerank : Option ℕ

abbrev pub contains_id : ℕ → List ℕ → Bool
contains_id id ids = any (λ x. x == id) ids

require_ids : List ℕ → Result (List ℕ)
require_ids [] = err (not_found_error (codes "没有可访问的知识库"))
require_ids (id ∷ ids) = ok (id ∷ ids)

-- The WHERE clause of `_accessible_kb_ids`.
abbrev pub is_accessible : ℕ → Bool → List ℕ → KnowledgeBase → Bool
is_accessible user_id is_admin requested kb =
    contains_id kb.id requested && (kb.deleted == 0 && is_authorized user_id is_admin false kb)

unfoldable pub accessible_kb_ids : ℕ → Bool → List ℕ → World → Result (List ℕ)
unfolding require_ids
accessible_kb_ids user_id is_admin requested w = require_ids (
    map (λ (kb : KnowledgeBase). kb.id)
      (select (is_accessible user_id is_admin requested) w.knowledge_bases))

-- The condition of `base` on a chunk, and the one on its document.
abbrev pub is_searchable : List ℕ → Chunk → Bool
is_searchable ids c = contains_id c.knowledge_base_id ids && (c.deleted == 0 && not c.is_parent)

abbrev pub is_indexed : ℕ → Document → Bool
is_indexed document_id d =
    d.id == document_id && (same_status d.status DocumentStatus.ready && d.deleted == 0)

with_document : Chunk → Option Document → List (Chunk × Text) → List (Chunk × Text)
with_document c none rows = rows
with_document c (some d) rows = (c, d.filename) ∷ rows

-- `base`: the join of the chunks with their documents.
base_rows : List ℕ → List Document → List Chunk → List (Chunk × Text)
unfolding with_document
base_rows ids documents [] = []
base_rows ids documents (c ∷ cs) =
    let rest = base_rows ids documents cs in
    if is_searchable ids c
    then with_document c (find (is_indexed c.document_id) documents) rest
    else rest

-- `merged[chunk.id] = item`, which keeps the place of a key that is there.
put_item : MergedResult → List MergedResult → List MergedResult
put_item item [] = item ∷ []
put_item item (x ∷ xs) = if x.chunk.id == item.chunk.id then item ∷ xs else x ∷ put_item item xs

-- `merged.setdefault(chunk.id, item)`
set_default : MergedResult → List MergedResult → List MergedResult
set_default item [] = item ∷ []
set_default item (x ∷ xs) = if x.chunk.id == item.chunk.id then x ∷ xs else x ∷ set_default item xs

-- `item['chunk'].parent_chunk_id or item['chunk'].id`
abbrev pub context_id : MergedResult → ℕ
context_id item = elim item.chunk.parent_chunk_id [
  | none ↦ item.chunk.id
  | some zero ↦ item.chunk.id
  | some (suc n) ↦ suc n
]

-- The loop of `_select_context_results`: the number of results so far, and the contexts seen.
pub unique_contexts : ℕ → ℕ → List ℕ → List MergedResult → List MergedResult
unique_contexts top_k count seen [] = []
unique_contexts top_k count seen (item ∷ items) = elim (contains_id (context_id item) seen) [
  | true ↦ unique_contexts top_k count seen items
  | false ↦ item ∷ elim (suc count == top_k) [
    | true ↦ []
    | false ↦ unique_contexts top_k (suc count) (context_id item ∷ seen) items
  ]
]

unfoldable pub select_context_results : QuerySettings → List MergedResult → ℕ → List MergedResult
unfolding unique_contexts
select_context_results settings ordered top_k =
    if not settings.parent_context_enabled
    then take top_k ordered
    else unique_contexts top_k 0 [] ordered

-- `{item['chunk'].parent_chunk_id for item in ordered if …}`
parent_ids : List MergedResult → List ℕ
parent_ids [] = []
parent_ids (item ∷ items) = elim item.chunk.parent_chunk_id [
  | none ↦ parent_ids items
  | some id ↦ id ∷ parent_ids items
]

-- `_get_parent_content`: the rows of the parents.
pub get_parent_content : QuerySettings → List MergedResult → World → List Chunk
unfolding parent_ids
get_parent_content settings ordered w =
    if not settings.parent_context_enabled
    then []
    else select (λ c. contains_id c.id (parent_ids ordered) && (c.is_parent && c.deleted == 0))
        w.chunks

-- `dict(parents.all())[parent_chunk_id]`
parent_text : List Chunk → ℕ → Option Text
parent_text [] id = none
parent_text (c ∷ cs) id = elim (parent_text cs id) [
  | some text ↦ some text
  | none ↦ if c.id == id then some c.content else none
]

-- `parent_content.get(item['chunk'].parent_chunk_id, item['chunk'].content)`
content_of : List Chunk → Chunk → Text
unfolding parent_text
content_of parents c = elim c.parent_chunk_id [
  | none ↦ c.content
  | some id ↦ elim (parent_text parents id) [ none ↦ c.content | some text ↦ text ]
]

-- `except (httpx.HTTPError, KeyError, TypeError, ValueError)`
is_rerank_fallback : Exception → Bool
is_rerank_fallback (http_status n) = true
is_rerank_fallback http_timeout = true
is_rerank_fallback http_transport = true
is_rerank_fallback (value_error message) = true
is_rerank_fallback (other_error name message) =
    text_eq name (codes "KeyError") || text_eq name (codes "TypeError")
is_rerank_fallback _ = false

-- `Chunk.exact_tokens.overlap(exact_tokens)`
overlaps : List Text → List Text → Bool
overlaps tokens [] = false
overlaps tokens (t ∷ ts) = any (text_eq t) tokens || overlaps tokens ts
