-- ===== src/Rag/Lexical/Query.antt =====
-- The terms of a lexical query: few, different, and none that the loop means to skip.
use rag_service.Prelude.{
  ℕ, ◌+◌, ◌≤◌, ◌<◌, Text, false, List, [], ◌∷◌, ◌++◌, length, ◌==◌, ◌≡◌, arith, Bool-cases, inl,
  inr,
}
use rag_service.Rag.Chunking.Clean.{strip}
use rag_service.Rag.Lexical.{
  Tokenizer, is_skipped, without_quotes, select_terms, query_terms, max_query_terms,
  extract_exact_tokens, split_words, tokenize_search_text,
}

module _ (tokenizer : Tokenizer) where
  -- The terms, after the normalized ones that are there: each is no skipped token, of which one
  -- reason is that its case-folded form has been taken.
  abbrev pub AreFresh : List Text → List Text → Type 0
  AreFresh normalized [] = Unit
  AreFresh normalized (t ∷ ts) =
      (is_skipped tokenizer normalized t ≡ false) × AreFresh (tokenizer.casefold t ∷ normalized) ts

  select_terms_lem :
      (count : ℕ) (normalized tokens : List Text)
      → count < max_query_terms
      → AreFresh normalized (select_terms tokenizer count normalized tokens)
        × (count + length (select_terms tokenizer count normalized tokens) ≤ max_query_terms)
  unfolding select_terms
  select_terms_lem n norm [] h = (tt, omega arith)
  select_terms_lem n norm (token ∷ tokens) h =
      let safe = strip (without_quotes token) in
      elim (Bool-cases (is_skipped tokenizer norm safe)) [
        | inl skip ↦ rw skip (select_terms_lem n norm tokens h)
        | inr take_it ↦ elim (Bool-cases (n + 1 == max_query_terms)) [
          | inl full ↦ rw (take_it, full) ((take_it, tt), ground arith)
          | inr more ↦
              let ih =
                select_terms_lem (n + 1) (tokenizer.casefold safe ∷ norm) tokens (ground arith) in
              rw (take_it, more) ((take_it, ih.0), omega (arith, ih.1))
        ]
      ]

  -- A query has at most 16 terms; each has an alphanumeric character and is no single ideograph,
  -- and no two have the same case-folded form.
  pub query_terms_lem :
      (text : Text)
      → AreFresh [] (query_terms tokenizer text)
        × (length (query_terms tokenizer text) ≤ max_query_terms)
  unfolding query_terms
  query_terms_lem text =
      let tokens = extract_exact_tokens text ++ split_words (tokenize_search_text tokenizer text) in
      let r = select_terms_lem 0 [] tokens (omega arith) in (r.0, omega (arith, r.1))
