-- ===== src/Rag/Parsers/Pdf.antt =====
-- What `_parse_pdf` accepts lies within the limits of the settings.
use rag_service.Prelude.{
  ℕ, suc, ◌+◌, ◌≤◌, Text, codes, true, false, List, [], ◌∷◌, length, ltb, ◌≡◌, ◌≢◌, refl, arith,
  Option, none, some, Bool-cases, inl, inr, tests,
}
use rag_service.Rag.Exec.{ok, both_returned, err-ne-ok}
use rag_service.Rag.Indexing.{starts_with}
use rag_service.Rag.Settings.{Settings}
use rag_service.Rag.Chunking.Clean.{strip}
use rag_service.Rag.Chunking.Split.{is_empty}
use rag_service.Rag.Parsers.{
  lstrip_bytes, PdfFile, Readers, read_pages, check_pages, join_pages, read_file, parse_pdf,
}

-- The code points of the pages' stripped texts; a page that cannot be read has none.
abbrev pub text_count : List (Option Text) → ℕ
text_count [] = 0
text_count (none ∷ pages) = text_count pages
text_count (some page ∷ pages) = length (strip page) + text_count pages

-- A file that may be indexed.
pub record IsAccepted (settings : Settings) (file : PdfFile) : Type 0 where
  pub plain : file.is_encrypted ≡ false
  pub few_pages : length file.pages ≤ settings.pdf_max_pages
  pub short_text : text_count file.pages ≤ settings.pdf_max_text_chars
  pub some_text : text_count file.pages ≢ 0

module _ (readers : Readers) (settings : Settings) where
  empty_length : (s : Text) → is_empty s ≡ true → length s ≡ 0
  empty_length [] h = refl
  empty_length (c ∷ s) h = cc

  full_length : (s : Text) → is_empty s ≡ false → length s ≢ 0
  full_length [] h = cc
  full_length (c ∷ s) h = omega arith

  read_pages_bound :
      (number count : ℕ) (pages : List (Option Text)) (parts : List Text)
      → count ≤ settings.pdf_max_text_chars
      → read_pages readers settings number count pages ≡ ok parts
      → count + text_count pages ≤ settings.pdf_max_text_chars
  unfolding read_pages
  read_pages_bound n c [] parts h e = omega arith
  read_pages_bound n c (none ∷ pages) parts h e = cc
  read_pages_bound n c (some page ∷ pages) parts h e = elim (Bool-cases (is_empty (strip page))) [
    | inl blank ↦
        let same : length (strip page) ≡ 0 = empty_length (strip page) blank in
        omega (
          arith,
          read_pages_bound (suc n) (c + length (strip page)) pages parts (omega arith)
              (rw blank at e),
        )
    | inr text ↦ elim (Bool-cases (ltb settings.pdf_max_text_chars (c + length (strip page)))) [
      | inl long ↦ absurd (err-ne-ok (rw (text, long) at e))
      | inr fits ↦
          let (rest, ok_rest, _) =
            both_returned (read_pages readers settings (suc n) (c + length (strip page)) pages) _
              (rw (text, fits) at e) in
          omega (
            tests,
            read_pages_bound (suc n) (c + length (strip page)) pages rest (omega tests) ok_rest,
          )
    ]
  ]

  read_pages_some :
      (number count : ℕ) (pages : List (Option Text)) (p : Text) (ps : List Text)
      → read_pages readers settings number count pages ≡ ok (p ∷ ps)
      → text_count pages ≢ 0
  unfolding read_pages
  read_pages_some n c [] p ps e = cc
  read_pages_some n c (none ∷ pages) p ps e = cc
  read_pages_some n c (some page ∷ pages) p ps e = elim (Bool-cases (is_empty (strip page))) [
    | inl blank ↦
        let later : text_count pages ≢ 0 =
          read_pages_some (suc n) (c + length (strip page)) pages p ps (rw blank at e) in
        λ zero_sum. later (omega arith)
    | inr text ↦ λ zero_sum. full_length (strip page) text (omega arith)
  ]

  joined_some :
      (file : PdfFile) (parts : List Text) (t : Text)
      → read_pages readers settings 1 0 file.pages ≡ ok parts
      → join_pages readers settings parts ≡ ok t
      → text_count file.pages ≢ 0
  unfolding join_pages
  joined_some file [] t e j = cc
  joined_some file (p ∷ ps) t e j = read_pages_some 1 0 file.pages p ps e

  check_pages_lem :
      (file : PdfFile) (parts : List Text) (t : Text)
      → check_pages readers settings file ≡ ok parts
      → join_pages readers settings parts ≡ ok t
      → IsAccepted settings file
  unfolding check_pages
  check_pages_lem file parts t e j = elim (Bool-cases file.is_encrypted) [
    | inl locked ↦ absurd (err-ne-ok (rw locked at e))
    | inr plain ↦ elim (Bool-cases (ltb settings.pdf_max_pages (length file.pages))) [
      | inl many ↦ absurd (err-ne-ok (rw (plain, many) at e))
      | inr few ↦
          let read = rw (plain, few) at e in
          record {
            plain = plain;
            few_pages = omega tests;
            short_text = omega (arith, read_pages_bound 1 0 file.pages parts (omega arith) read);
            some_text = joined_some file parts t read j;
          }
    ]
  ]

  read_file_lem :
      (opened : Option PdfFile) (t : Text)
      → read_file readers settings opened ≡ ok t
      → (file : PdfFile) × (opened ≡ some file) × IsAccepted settings file
  unfolding read_file
  read_file_lem none t e = absurd (err-ne-ok e)
  read_file_lem (some file) t e =
      let (parts, checked, joined) = both_returned (check_pages readers settings file) _ e in
      (file, refl, check_pages_lem file parts t checked joined)

  -- If `_parse_pdf` returns a text, the file could be opened, is not encrypted, has at most as many
  -- pages as allowed, and the stripped texts of its pages hold at least one code point and at most as
  -- many as allowed.
  pub parse_pdf-IsAccepted :
      (content t : Text)
      → parse_pdf readers settings content ≡ ok t
      → (file : PdfFile) × (readers.read_pdf content ≡ some file) × IsAccepted settings file
  unfolding parse_pdf
  parse_pdf-IsAccepted content t e =
      elim (Bool-cases (starts_with (lstrip_bytes content) (codes "%PDF-"))) [
        | inl signed ↦ read_file_lem (readers.read_pdf content) t (rw signed at e)
        | inr unsigned ↦ absurd (err-ne-ok (rw unsigned at e))
      ]
