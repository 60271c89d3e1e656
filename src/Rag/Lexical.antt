-- ===== src/Rag/Lexical.antt =====
-- backend/app/rag/lexical.py. `jieba` and Python's Unicode tables are parameters; the fusion of the
-- two rankings stands in Fusion.
pub mod Query
pub mod Fusion
use rag_service.Prelude.{
  ℕ, suc, ◌+◌, Text, codes, text_eq, Bool, true, false, ◌&&◌, ◌||◌, not, List, [], ◌∷◌, ◌++◌, any,
  map, length, ltb, leb, ◌==◌, if◌then◌else◌, Option, none, some,
}
use rag_service.Rag.Chunking.Clean.{is_space, strip}
use rag_service.Rag.Chunking.Split.{is_empty}
use rag_service.Rag.Chunking.Sections.{join}

abbrev pub is_ascii_alnum : ℕ → Bool
is_ascii_alnum c =
    (leb b'0' c && leb c b'9') || ((leb b'A' c && leb c b'Z') || (leb b'a' c && leb c b'z'))

-- `[._:/-]`
abbrev pub is_connector : ℕ → Bool
is_connector c = any (λ d. c == d) (b'.' ∷ b'_' ∷ b':' ∷ b'/' ∷ b'-' ∷ [])

abbrev emit : Text → List Text
emit token = if is_empty token then [] else token ∷ []

-- `_EXACT_TOKEN_PATTERN.finditer`: runs of ASCII letters and digits, with single connectors between.
-- `held` is a connector that joins the token if a letter or digit follows.
find_tokens : Text → Text → Text → List Text
find_tokens token held [] = emit token
find_tokens token held (c ∷ s) =
    if is_ascii_alnum c
    then find_tokens (token ++ (held ++ c ∷ [])) [] s
    else (let rest = find_tokens [] [] s in
        let joining = find_tokens token (c ∷ []) s in
        if is_connector c && (not (is_empty token) && is_empty held)
        then joining
        else emit token ++ rest)

unfoldable pub exact_matches : Text → List Text
unfolding find_tokens
exact_matches = find_tokens [] []

-- `casefold` of an ASCII token.
fold_ascii : Text → Text
fold_ascii [] = []
fold_ascii (c ∷ s) = (if leb b'A' c && leb c b'Z' then c + 32 else c) ∷ fold_ascii s

-- `dict.fromkeys`: the first of equal texts stays.
unfoldable pub first_only : List Text → List Text → List Text
first_only seen [] = []
first_only seen (t ∷ ts) =
    let rest = first_only (t ∷ seen) ts in
    if any (text_eq t) seen then first_only seen ts else t ∷ rest

unfoldable pub extract_exact_tokens : Text → List Text
unfolding first_only fold_ascii exact_matches
extract_exact_tokens text = first_only [] (map fold_ascii (exact_matches text))

strip_tokens : List Text → List Text
strip_tokens [] = []
strip_tokens (token ∷ tokens) =
    let rest = strip_tokens tokens in if is_empty (strip token) then rest else strip token ∷ rest

-- `str.split()`: the parts between white space.
split_from : Text → Text → List Text
split_from word [] = emit word
split_from word (c ∷ s) =
    let kept = split_from (word ++ c ∷ []) s in
    let cut = split_from [] s in if is_space c then emit word ++ cut else kept

unfoldable pub split_words : Text → List Text
unfolding split_from is_space
split_words = split_from []

-- `token.replace('"', '')`
without_quotes : Text → Text
without_quotes [] = []
without_quotes (c ∷ s) = let rest = without_quotes s in if c == b'"' then rest else c ∷ rest

abbrev pub max_query_terms : ℕ
max_query_terms = 16

-- `len(safe_token) == 1 and '\u4e00' <= safe_token <= '\u9fff'`
abbrev is_single_ideograph : Text → Bool
is_single_ideograph (c ∷ []) = leb 0x4e00 c && leb c 0x9fff
is_single_ideograph _ = false

-- What is outside src/: `jieba.lcut(text, HMM=False)`, `str.isalnum` of one character, and
-- `str.casefold`.
pub record Tokenizer : Type 0 where
  pub lcut : Text → List Text
  pub is_alnum : ℕ → Bool
  pub casefold : Text → Text

module _ (tokenizer : Tokenizer) where
  unfoldable pub tokenize_search_text : Text → Text
  unfolding strip_tokens exact_matches join
  tokenize_search_text text =
      join (codes " ") (strip_tokens (tokenizer.lcut text) ++ exact_matches text)

  -- The three `continue`s of the loop, for a stripped token.
  pub is_skipped : List Text → Text → Bool
  is_skipped normalized_terms safe_token =
      not (any tokenizer.is_alnum safe_token)
      || (is_single_ideograph safe_token
          || (is_empty safe_token
              || any (text_eq (tokenizer.casefold safe_token)) normalized_terms))

  -- The loop: the number of terms so far, the normalized terms, and the tokens that are left.
  select_terms : ℕ → List Text → List Text → List Text
  unfolding is_skipped without_quotes strip
  select_terms count normalized_terms [] = []
  select_terms count normalized_terms (token ∷ tokens) =
      let safe_token = strip (without_quotes token) in
      let skipped = select_terms count normalized_terms tokens in
      let taken =
        select_terms (count + 1) (tokenizer.casefold safe_token ∷ normalized_terms) tokens in
      if is_skipped normalized_terms safe_token
      then skipped
      else safe_token ∷ (if count + 1 == max_query_terms then [] else taken)

  unfoldable pub query_terms : Text → List Text
  unfolding select_terms extract_exact_tokens split_words tokenize_search_text
  query_terms text =
      select_terms 0 [] (extract_exact_tokens text ++ split_words (tokenize_search_text text))

  unfoldable pub build_websearch_query : Text → Text
  unfolding query_terms join
  build_websearch_query text =
      join (codes " OR ") (map (λ term. codes "\"" ++ (term ++ codes "\"")) (query_terms text))
