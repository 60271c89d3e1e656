-- ===== src/Rag/Context/Citations.antt =====
-- The citations of an answer: `sanitize_answer_citations` and `extract_cited_chunk_ids` of
-- backend/app/rag/context.py.
use mathlib.Core.Path.{subst}
use rag_service.Prelude.{
  ℕ, zero, suc, ◌-◌, Text, text_eq, text_eq_sound, Bool, true, false, ◌&&◌, not, List, [], ◌∷◌,
  ◌++◌, map, any, concat, length, drop, get_elem?, ◌==◌, some, All, Unique, ◌≡◌, ◌≢◌, refl, sym, ap,
  ◌∙◌, arith, Bool-cases, Option-cases, inl, inr, append_assoc, none-ne-some, some-inj, ==_refl,
}
use rag_service.Rag.Chunking.Split.{is_empty}
use rag_service.Rag.Context.{
  Source, Token, plain, cited, match_digits, match_citation, scan, tokens_of, is_known, keep_known,
  sanitize_answer_citations, by_citation, cited_ids, first_occurrences, extract_cited_chunk_ids,
}

-- The text that a token was read from.
abbrev pub text_of : Token → Text
text_of (plain c) = c ∷ []
text_of (cited citation) = citation

drop-append : (xs ys : Text) → drop (length xs) (xs ++ ys) ≡ ys
drop-append [] ys = refl
drop-append (x ∷ xs) ys = drop-append xs ys

behind_match : (tail rest s : Text) → tail ++ rest ≡ s → tail ++ drop (suc (length tail) - 1) s ≡ s
behind_match tail rest s h =
    let count : suc (length tail) - 1 ≡ length tail = omega arith in
    rw count (
      subst (λ t. tail ++ drop (length tail) t ≡ t) h (ap (λ z. tail ++ z) (drop-append tail rest)))

-- The sources have the citation of a token, if it has one.
abbrev pub IsKnown : List Source → Token → Type 0
IsKnown sources (plain c) = Unit
IsKnown sources (cited citation) = is_known sources citation ≡ true

keep-All :
    (sources : List Source) (tokens : List Token)
    → All (IsKnown sources) tokens
    → map (keep_known sources) tokens ≡ map text_of tokens
unfolding keep_known
keep-All sources [] h = refl
keep-All sources (plain c ∷ tokens) h = ap (λ z. (c ∷ []) ∷ z) (keep-All sources tokens h.1)
keep-All sources (cited citation ∷ tokens) h =
    rw h.0 (ap (λ z. citation ∷ z) (keep-All sources tokens h.1))

-- A source has the citation, and the chunk of that number.
abbrev pub Issued : List Source → Text → ℕ → Type 0
Issued sources citation chunk_id =
    (i : ℕ) × (s : Source) × (get_elem? sources i ≡ some s)
    × (s.citation ≡ citation)
    × (s.chunk_id ≡ chunk_id)

issued :
    (sources : List Source) (citation : Text) (chunk_id : ℕ)
    → by_citation sources citation ≡ some chunk_id
    → Issued sources citation chunk_id
unfolding by_citation
issued [] citation chunk_id h = absurd (none-ne-some chunk_id h)
issued (s ∷ ss) citation chunk_id h = elim (Option-cases (by_citation ss citation)) [
  | inr (later, e) ↦
      let (i, x, at, same, key) = issued ss citation chunk_id (e ∙ (rw (by_citation, e) at h)) in
      (suc i, x, at, same, key)
  | inl e ↦ elim (Bool-cases (text_eq s.citation citation)) [
    | inl t ↦
        (0, s, refl, text_eq_sound s.citation citation t, some-inj (rw (by_citation, e, t) at h))
    | inr f ↦ absurd (none-ne-some chunk_id (rw (by_citation, e, f) at h))
  ]
]

-- One of the tokens is a citation of the chunk.
abbrev pub IsCited : List Source → List Token → ℕ → Type 0
IsCited sources tokens chunk_id =
    (j : ℕ) × (citation : Text) × (get_elem? tokens j ≡ some (cited citation))
    × Issued sources citation chunk_id

later-IsCited :
    (sources : List Source) (token : Token) (tokens : List Token) (ids : List ℕ)
    → All (IsCited sources tokens) ids
    → All (IsCited sources (token ∷ tokens)) ids
later-IsCited sources token tokens [] h = tt
later-IsCited sources token tokens (id ∷ ids) h =
    let (j, citation, at, by) = h.0 in
    ((suc j, citation, at, by), later-IsCited sources token tokens ids h.1)

cited_lem :
    (sources : List Source) (tokens : List Token)
    → All (IsCited sources tokens) (cited_ids sources tokens)
unfolding cited_ids
cited_lem sources [] = tt
cited_lem sources (plain c ∷ tokens) =
    later-IsCited sources (plain c) tokens _ (cited_lem sources tokens)
cited_lem sources (cited citation ∷ tokens) =
    let rest = later-IsCited sources (cited citation) tokens _ (cited_lem sources tokens) in
    elim (Option-cases (by_citation sources citation)) [
      | inl e ↦ rw (cited_ids, e) rest
      | inr (chunk_id, e) ↦
          rw (cited_ids, e) ((0, citation, refl, issued sources citation chunk_id e), rest)
    ]

module _ {κ} (P : ℕ → Type κ) where
  All-first : (seen xs : List ℕ) → All P xs → All P (first_occurrences seen xs)
  unfolding first_occurrences
  All-first seen [] h = tt
  All-first seen (x ∷ xs) h = elim (Bool-cases (any (λ y. y == x) seen)) [
    | inl e ↦ rw (first_occurrences, e) (All-first seen xs h.1)
    | inr e ↦ rw (first_occurrences, e) (h.0, All-first (x ∷ seen) xs h.1)
  ]

-- What was seen does not come again.
first_unseen :
    (y : ℕ) (seen xs : List ℕ)
    → any (λ z. z == y) seen ≡ true
    → All (λ x. x ≢ y) (first_occurrences seen xs)
unfolding first_occurrences
first_unseen y seen [] h = tt
first_unseen y seen (x ∷ xs) h = elim (Bool-cases (any (λ z. z == x) seen)) [
  | inl e ↦ rw (first_occurrences, e) (first_unseen y seen xs h)
  | inr e ↦
      rw (first_occurrences, e)
        (
          (λ same. (let e' = subst (λ q. any (λ z. z == q) seen ≡ false) same e in ground arith)),
          first_unseen y (x ∷ seen) xs (rw h (ground arith)),
        )
]

first-Unique : (seen xs : List ℕ) → Unique (λ (x : ℕ). x) (first_occurrences seen xs)
unfolding first_occurrences
first-Unique seen [] = tt
first-Unique seen (x ∷ xs) = elim (Bool-cases (any (λ y. y == x) seen)) [
  | inl e ↦ rw (first_occurrences, e) (first-Unique seen xs)
  | inr e ↦
      rw (first_occurrences, e)
        (first_unseen x (x ∷ seen) xs (ground (arith, ==_refl x)), first-Unique (x ∷ seen) xs)
]

module _ (is_digit : ℕ → Bool) where
  digits_prefix :
      (digits s r : Text)
      → match_digits is_digit digits s ≡ some r
      → (rest : Text) × (r ++ rest ≡ digits ++ s)
  unfolding match_digits
  digits_prefix digits [] r h = absurd (none-ne-some r h)
  digits_prefix digits (c ∷ s) r h = elim (Bool-cases (is_digit c)) [
    | inl e ↦
        let (rest, f) = digits_prefix (digits ++ c ∷ []) s r (rw e at h) in
        (rest, f ∙ append_assoc digits (c ∷ []) s)
    | inr e ↦ elim (Bool-cases (c == b']' && not (is_empty digits))) [
      | inl t ↦
          (s, ap (λ z. z ++ s) (sym (some-inj (rw (e, t) at h))) ∙ append_assoc digits (c ∷ []) s)
      | inr f ↦ absurd (none-ne-some r (rw (e, f) at h))
    ]
  ]

  -- A citation begins with a bracket, and is where it was found.
  citation_prefix :
      (c : ℕ) (s citation : Text)
      → match_citation is_digit (c ∷ s) ≡ some citation
      → (tail : Text) × (rest : Text) × (citation ≡ c ∷ tail) × (tail ++ rest ≡ s)
  unfolding match_citation
  citation_prefix c [] citation h = absurd (none-ne-some citation h)
  citation_prefix c (d ∷ s) citation h = elim (Bool-cases (c == b'[' && d == b'S')) [
    | inr e ↦ absurd (none-ne-some citation (rw e at h))
    | inl e ↦ elim (Option-cases (match_digits is_digit [] s)) [
      | inl n ↦ absurd (none-ne-some citation (rw (e, n) at h))
      | inr (r, m) ↦
          let (rest, f) = digits_prefix [] s r m in
          (d ∷ r, rest, sym (some-inj (rw (e, m) at h)), ap (λ z. d ∷ z) f)
    ]
  ]

  scan-text : (skip : ℕ) (s : Text) → concat (map text_of (scan is_digit skip s)) ≡ drop skip s
  unfolding scan
  scan-text zero [] = refl
  scan-text (suc skip) [] = refl
  scan-text (suc skip) (c ∷ s) = scan-text skip s
  scan-text zero (c ∷ s) = elim (Option-cases (match_citation is_digit (c ∷ s))) [
    | inl e ↦ rw (scan, e) (ap (λ z. c ∷ z) (scan-text zero s))
    | inr (citation, e) ↦
        let (tail, rest, whole, found) = citation_prefix c s citation e in
        rw (scan, e, scan-text (length citation - 1) s, whole)
          (ap (λ z. c ∷ z) (behind_match tail rest s found))
  ]

  -- An answer all of whose citations are citations of the sources is left as it is.
  pub sanitize_known :
      (answer : Text) (sources : List Source)
      → All (IsKnown sources) (tokens_of is_digit answer)
      → sanitize_answer_citations is_digit answer sources ≡ answer
  unfolding sanitize_answer_citations tokens_of
  sanitize_known answer sources h =
      ap concat (keep-All sources (scan is_digit 0 answer) h) ∙ scan-text 0 answer

  -- The numbers that are extracted are different, and each is the number of the chunk of a source
  -- whose citation the answer has.
  pub extract_cited_lem :
      (answer : Text) (sources : List Source)
      → let ids = extract_cited_chunk_ids is_digit answer sources in
        Unique (λ (id : ℕ). id) ids × All (IsCited sources (tokens_of is_digit answer)) ids
  unfolding extract_cited_chunk_ids
  extract_cited_lem answer sources = (
    first-Unique [] (cited_ids sources (tokens_of is_digit answer)),
    All-first _ [] _ (cited_lem sources (tokens_of is_digit answer)),
  )
