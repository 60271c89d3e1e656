-- ===== src/Rag/Context.antt =====
-- backend/app/rag/context.py, and `GetSourceDetail` of backend/app/rag/schema/query.py: the context
-- of an answer, the evidence for it, and its citations.
pub mod Budget
pub mod Citations
use rag_service.Prelude.{
  ℕ, zero, suc, ◌+◌, ◌-◌, ◌*◌, Text, codes, text_eq, Bool, true, false, ◌&&◌, ◌||◌, not, List, [],
  ◌∷◌, ◌++◌, map, any, concat, length, ltb, leb, ◌==◌, if◌then◌else◌, Option, none, some, ℤ,
}
use rag_service.Rag.Indexing.{value_error}
use rag_service.Rag.Exec.{Result, ok, err}
use rag_service.Rag.Chunking.Clean.{rstrip}
use rag_service.Rag.Chunking.Split.{is_empty}
use rag_service.Rag.Chunking.Sections.{join}

-- `GetSourceDetail`; the scores are bit patterns.
pub record Source : Type 0 where
  pub knowledge_base_id : ℕ
  pub document_id : ℕ
  pub document_name : Text
  pub chunk_id : ℕ
  pub chunk_index : ℤ
  pub content : Text
  pub score : ℕ
  pub rerank_score : Option ℕ
  pub citation : Text

pub record ContextSelection : Type 0 where
  pub context : Text
  pub sources : List Source

-- `4 if '\u3400' <= character <= '\u9fff' else 1`
unfoldable pub cost : ℕ → ℕ
cost c = if leb 0x3400 c && leb c 0x9fff then 4 else 1

unfoldable pub estimate_token_units : Text → ℕ
unfolding cost
estimate_token_units [] = 0
estimate_token_units (c ∷ s) = cost c + estimate_token_units s

take_units : ℕ → ℕ → Text → Text
unfolding cost
take_units available_units used [] = []
take_units available_units used (c ∷ s) =
    let rest = take_units available_units (used + cost c) s in
    if ltb available_units (used + cost c) then [] else c ∷ rest

-- `_truncate_to_units`
unfoldable pub truncate_to_units : Text → ℕ → Text
unfolding take_units rstrip
truncate_to_units text available_units = rstrip (take_units available_units 0 text)

-- `dedupe_key in seen`
is_seen : Source → List Source → Bool
is_seen source seen =
    any (λ (x : Source). x.document_id == source.document_id && text_eq x.content source.content)
      seen

-- `f'{source.citation} '`
abbrev pub prefix_of : Source → Text
prefix_of source = source.citation ++ codes " "

-- What one source may still use: `max_units - used_units - estimate_token_units(prefix)`, or zero
-- where that is negative.
abbrev pub available_to : ℕ → ℕ → Source → ℕ
available_to max_units used_units source =
    max_units - used_units - estimate_token_units (prefix_of source)

-- The loop. `seen` are the sources that were taken, as they were given; the answer is what is
-- appended to `selected_sources`.
select_sources : ℕ → ℕ → ℕ → List Source → List Source → List Source
unfolding is_seen truncate_to_units estimate_token_units
select_sources max_sources max_units used_units seen [] = []
select_sources max_sources max_units used_units seen (source ∷ sources) =
    elim (is_seen source seen || length seen == max_sources) [
      | true ↦ select_sources max_sources max_units used_units seen sources
      | false ↦
          let content =
            truncate_to_units source.content (available_to max_units used_units source) in
          let used = used_units + estimate_token_units (prefix_of source ++ content) in
          elim (available_to max_units used_units source == 0 || is_empty content) [
            | true ↦ []
            | false ↦ record source { content = content } ∷ elim (leb max_units used) [
              | true ↦ []
              | false ↦ select_sources max_sources max_units used (source ∷ seen) sources
            ]
          ]
    ]

-- `part`, of a source whose content has been cut.
abbrev pub part_of : Source → Text
part_of source = prefix_of source ++ source.content

unfoldable pub build_bounded_context : List Source → ℕ → ℕ → Result ContextSelection
unfolding select_sources join
build_bounded_context sources max_sources max_tokens =
    if max_sources == 0 || max_tokens == 0
    then err (value_error (codes "上下文来源数和 Token 预算必须大于 0"))
    else (let selected = select_sources max_sources (max_tokens * 4) 0 [] sources in
        ok (record { context = join (codes "\n\n") (map part_of selected); sources = selected }))

starts_with : Text → Text → Bool
starts_with [] text = true
starts_with (a ∷ word) [] = false
starts_with (a ∷ word) (c ∷ text) = a == c && starts_with word text

-- `word in text`
unfoldable pub contains : Text → Text → Bool
unfolding starts_with
contains word [] = is_empty word
contains word (c ∷ text) = starts_with word (c ∷ text) || contains word text

abbrev scope_markers : List Text
scope_markers = codes "本项目" ∷ codes "本系统" ∷ codes "本服务" ∷ codes "本知识库" ∷ codes "我们的" ∷ []

required_markers : Text → List Text → List Text
unfolding contains
required_markers question [] = []
required_markers question (marker ∷ markers) =
    let rest = required_markers question markers in
    if contains marker question then marker ∷ rest else rest

has_evidence : List Text → List Source → Bool
unfolding contains
has_evidence [] [] = false
has_evidence [] (source ∷ sources) = true
has_evidence (marker ∷ markers) sources =
    any (λ word. any (λ (source : Source). contains word source.content) sources) (marker ∷ markers)

unfoldable pub has_sufficient_scope_evidence : Text → List Source → Bool
unfolding required_markers has_evidence
has_sufficient_scope_evidence question sources =
    has_evidence (required_markers question scope_markers) sources

-- An answer is read as code points and citations.
pub data Token : Type 0 where
  plain : ℕ → Token
  cited : Text → Token

abbrev pub is_known : List Source → Text → Bool
is_known sources citation = any (λ (source : Source). text_eq source.citation citation) sources

keep_known : List Source → Token → Text
keep_known sources (plain c) = c ∷ []
keep_known sources (cited citation) = if is_known sources citation then citation else []

-- `by_citation`, in which the last source of a citation counts.
by_citation : List Source → Text → Option ℕ
by_citation [] citation = none
by_citation (source ∷ sources) citation = elim (by_citation sources citation) [
  | some chunk_id ↦ some chunk_id
  | none ↦ if text_eq source.citation citation then some source.chunk_id else none
]

cited_ids : List Source → List Token → List ℕ
unfolding by_citation
cited_ids sources [] = []
cited_ids sources (plain c ∷ tokens) = cited_ids sources tokens
cited_ids sources (cited citation ∷ tokens) = elim (by_citation sources citation) [
  | none ↦ cited_ids sources tokens
  | some chunk_id ↦ chunk_id ∷ cited_ids sources tokens
]

-- `dict.fromkeys(…)` behind the keys that `seen` holds.
first_occurrences : List ℕ → List ℕ → List ℕ
first_occurrences seen [] = []
first_occurrences seen (x ∷ xs) = elim (any (λ y. y == x) seen) [
  | true ↦ first_occurrences seen xs
  | false ↦ x ∷ first_occurrences (x ∷ seen) xs
]

-- `\d` of `re`
module _ (is_digit : ℕ → Bool) where
  -- `\d+\]`, behind `length digits` digits; a bracket is no digit, so that the digits are never given back.
  match_digits : Text → Text → Option Text
  match_digits digits [] = none
  match_digits digits (c ∷ s) =
      let longer = match_digits (digits ++ c ∷ []) s in
      if is_digit c
      then longer
      else if c == b']' && not (is_empty digits)
      then some (digits ++ c ∷ [])
      else none

  -- `\[S\d+\]` at the beginning of the text.
  unfoldable pub match_citation : Text → Option Text
  unfolding match_digits
  match_citation (a ∷ b ∷ s) =
      if a == b'[' && b == b'S'
      then elim (match_digits [] s) [ none ↦ none | some rest ↦ some (a ∷ b ∷ rest) ]
      else none
  match_citation _ = none

  -- The matches from left to right; the code points of a match are skipped.
  scan : ℕ → Text → List Token
  unfolding match_citation
  scan skip [] = []
  scan (suc skip) (c ∷ s) = scan skip s
  scan zero (c ∷ s) = elim (match_citation (c ∷ s)) [
    | none ↦ plain c ∷ scan zero s
    | some citation ↦ cited citation ∷ scan (length citation - 1) s
  ]

  unfoldable pub tokens_of : Text → List Token
  unfolding scan
  tokens_of = scan zero

  unfoldable pub sanitize_answer_citations : Text → List Source → Text
  unfolding keep_known tokens_of
  sanitize_answer_citations answer sources = concat (map (keep_known sources) (tokens_of answer))

  unfoldable pub extract_cited_chunk_ids : Text → List Source → List ℕ
  unfolding cited_ids first_occurrences tokens_of
  extract_cited_chunk_ids answer sources =
      first_occurrences [] (cited_ids sources (tokens_of answer))
