-- ===== src/Tests/TextRuns.antt =====
-- The texts: cleaning, splitting, embedding, parsing, and the summaries of errors.
use rag_service.Prelude.{
  ◌-◌, ◌≤◌, max, Text, codes, true, List, [], ◌∷◌, concat, map, take, length, ◌≡◌, ◌≢◌, refl,
  show_nat, sym, ap, All, arith,
}
use rag_service.Rag.Model.{Vector}
use rag_service.Rag.Indexing.{Exception, http_status, starts_with}
use rag_service.Rag.Exec.{Result, ok, err}
use rag_service.Rag.Settings.{default_settings}
use rag_service.Rag.Chunking.Clean.{clean_text, strip}
use rag_service.Rag.Chunking.Clean.Laws.{IsClean, clean_text-IsClean}
use rag_service.Rag.Chunking.Split.{windows, split_text, not_blank}
use rag_service.Rag.Chunking.Split.Windows.{windows_lose_nothing}
use rag_service.Rag.Chunking.Split.Bounds.{longest, split_text_bound}
use rag_service.Rag.Chunking.Sections.{sections_of, join}
use rag_service.Rag.Chunking.Sections.Partition.{lines_of, IsShallow, sections_partition}
use rag_service.Rag.Embedding.{embed_texts_in_batches, is_bad_request}
use rag_service.Rag.Embedding.Batches.{Embeds, embed_texts_complete}
use rag_service.Rag.Parsers.{parse_pdf}
use rag_service.Tests.Data.{ascii_digit, readers, vector_of}

clean_text_run :
    IsClean (clean_text (codes "  a\r\nb  "))
    × (clean_text (clean_text (codes "  a\r\nb  ")) ≡ clean_text (codes "  a\r\nb  "))
clean_text_run = clean_text-IsClean (codes "  a\r\nb  ")

windows_run :
    let step = max (4 - 1) 1 in
    concat (map (take step) (windows 4 step (codes "abcdefgh"))) ≡ codes "abcdefgh"
windows_run = windows_lose_nothing 4 1 (codes "abcdefgh") (ground arith)

split_text_run :
    All
      (λ chunk. (length chunk ≤ longest 4 1) × (not_blank chunk ≡ true))
      (split_text (codes "abcdefgh") 4 1)
split_text_run = split_text_bound (codes "abcdefgh") 4 1

sections_run :
    (lines_of (sections_of ascii_digit (codes "# A" ∷ codes "text" ∷ []))
      ≡ codes "# A" ∷ codes "text" ∷ [])
    × All IsShallow (sections_of ascii_digit (codes "# A" ∷ codes "text" ∷ []))
sections_run = sections_partition ascii_digit (codes "# A" ∷ codes "text" ∷ [])

-- A provider that takes at most two texts at a time.
two_at_most : List Text → Result (List Vector)
two_at_most [] = ok []
two_at_most (a ∷ []) = ok (map vector_of (a ∷ []))
two_at_most (a ∷ b ∷ []) = ok (map vector_of (a ∷ b ∷ []))
two_at_most _ = err (http_status 400)

err-inj : {x y : Exception} → ◌≡◌ {A = Result (List Vector)} (err x) (err y) → x ≡ y
err-inj h = cc

answer_two : (ts : List Text) (vs : List Vector) → two_at_most ts ≡ ok vs → vs ≡ map vector_of ts
unfolding two_at_most
answer_two [] vs h = cc
answer_two (a ∷ []) vs h = cc
answer_two (a ∷ b ∷ []) vs h = cc
answer_two (a ∷ b ∷ c ∷ ts) vs h = cc

refuse_three :
    (ts : List Text) (e : Exception)
    → two_at_most ts ≡ err e
    → (is_bad_request e ≡ true) × (length ts ≢ 1)
unfolding two_at_most
refuse_three [] e h = cc
refuse_three (a ∷ []) e h = cc
refuse_three (a ∷ b ∷ []) e h = cc
refuse_three (a ∷ b ∷ c ∷ ts) e h = (ap is_bad_request (sym (err-inj h)), omega arith)

provider : Embeds two_at_most vector_of
provider = record { answer = answer_two; refusal = refuse_three }

embed_texts_run :
    embed_texts_in_batches two_at_most (codes "a" ∷ codes "b" ∷ codes "c" ∷ []) 3
    ≡ ok (map vector_of (codes "a" ∷ codes "b" ∷ codes "c" ∷ []))
embed_texts_run =
    embed_texts_complete two_at_most vector_of provider (codes "a" ∷ codes "b" ∷ codes "c" ∷ []) 3
      (ground arith)

accepted : parse_pdf readers default_settings (codes "%PDF-1") ≡ ok (codes "第 1 页\n%PDF-1")
unfolding parse_pdf starts_with strip join show_nat
accepted = refl
