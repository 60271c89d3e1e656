-- ===== src/Rag/Parsers.antt =====
-- backend/app/rag/parsers/text.py. The codec, `python-docx` and `pypdf` are parameters.
pub mod Pdf
use rag_service.Prelude.{
  ℕ, suc, ◌+◌, Text, codes, show_nat, text_eq, Bool, true, false, ◌||◌, List, [], ◌∷◌, ◌++◌, any,
  length, ltb, leb, ◌&&◌, ◌==◌, Option, none, some, if◌then◌else◌,
}
use rag_service.Rag.Exec.{Result, ok, err, ◌>>=◌}
use rag_service.Rag.Indexing.{Exception, value_error, starts_with}
use rag_service.Rag.Settings.{Settings}
use rag_service.Rag.Chunking.Clean.{strip, clean_text}
use rag_service.Rag.Chunking.Split.{is_empty}
use rag_service.Rag.Chunking.Sections.{join}

-- What `PdfReader` finds in a file: whether it is encrypted, and the extracted text of each page.
pub record PdfFile : Type 0 where
  pub is_encrypted : Bool
  -- `none` is a page whose `extract_text` raises PdfReadError
  pub pages : List (Option Text)

pub record Readers : Type 0 where
  -- `data.decode('utf-8', errors='replace')`
  pub decode : Text → Text
  -- the texts of the paragraphs of a .docx file, or what `DocxDocument` raises
  pub docx_paragraphs : Text → Result (List Text)
  -- `none` is a PdfReadError of `PdfReader(BytesIO(data))`
  pub read_pdf : Text → Option PdfFile

-- `filename.rsplit('.', 1)[-1].lower()`. Of the letters of a supported suffix only the ASCII capital
-- is another letter's lower case, so that `lower` is written for ASCII.
lower : ℕ → ℕ
lower c = if ltb c b'A' || ltb b'Z' c then c else c + 32

lower_all : Text → Text
unfolding lower
lower_all [] = []
lower_all (c ∷ s) = lower c ∷ lower_all s

-- The part behind the last dot, or the whole name.
last_part : Text → Text → Text
last_part part [] = part
last_part part (c ∷ s) = last_part (if c == b'.' then [] else part ++ c ∷ []) s

pub suffix_of : Text → Text
unfolding last_part lower_all
suffix_of filename = lower_all (last_part [] filename)

abbrev pub supported_document_suffixes : List Text
supported_document_suffixes = codes "txt" ∷ codes "md" ∷ codes "docx" ∷ codes "pdf" ∷ []

-- `data.lstrip()`, which takes ASCII white space from the front of `bytes`.
lstrip_bytes : Text → Text
lstrip_bytes [] = []
lstrip_bytes (c ∷ s) =
    let rest = lstrip_bytes s in if (leb 9 c && leb c 13) || c == 32 then rest else c ∷ s

module _ (readers : Readers) (settings : Settings) where
  abbrev damaged : Exception
  damaged = value_error (codes "PDF 文件损坏或格式无效")

  -- The loop over the pages: the number of the next one, and the code points that are read so far.
  read_pages : ℕ → ℕ → List (Option Text) → Result (List Text)
  read_pages number count [] = ok []
  read_pages number count (none ∷ pages) = err damaged
  read_pages number count (some page ∷ pages) =
      let text : Text = strip page in
      let total = count + length text in
      let rest = read_pages (suc number) total pages in
      if is_empty text
      then rest
      else if ltb settings.pdf_max_text_chars total
      then err (
          value_error
            (codes "PDF 正文不能超过 " ++ (show_nat settings.pdf_max_text_chars ++ codes " 个字符")))
      else do parts ← rest; ok ((codes "第 " ++ (show_nat number ++ (codes " 页\n" ++ text))) ∷ parts)

  check_pages : PdfFile → Result (List Text)
  unfolding read_pages
  check_pages file =
      if file.is_encrypted
      then err (value_error (codes "不支持加密 PDF"))
      else if ltb settings.pdf_max_pages (length file.pages)
      then err
          (value_error (codes "PDF 页数不能超过 " ++ (show_nat settings.pdf_max_pages ++ codes " 页")))
      else read_pages 1 0 file.pages

  join_pages : List Text → Result Text
  join_pages [] = err (value_error (codes "PDF 未包含可提取文本，暂不支持扫描件或 OCR"))
  join_pages (page ∷ pages) = ok (join (codes "\n\n") (page ∷ pages))

  -- `except PdfReadError as exc: raise ValueError(…) from exc`
  read_file : Option PdfFile → Result Text
  unfolding check_pages join_pages
  read_file none = err damaged
  read_file (some file) = do pages ← check_pages file; join_pages pages

  unfoldable pub parse_pdf : Text → Result Text
  unfolding read_file lstrip_bytes
  parse_pdf content =
      if starts_with (lstrip_bytes content) (codes "%PDF-")
      then read_file (readers.read_pdf content)
      else err (value_error (codes "PDF 文件签名无效"))

  -- `'\n\n'.join(item.text for item in document.paragraphs if item.text.strip())`
  not_blank_items : List Text → List Text
  not_blank_items [] = []
  not_blank_items (item ∷ items) =
      let rest = not_blank_items items in if is_empty (strip item) then rest else item ∷ rest

  parse_suffix : Text → Text → Result Text
  unfolding parse_pdf not_blank_items
  parse_suffix suffix content =
      if text_eq suffix (codes "txt") || text_eq suffix (codes "md")
      then ok (readers.decode content)
      else if text_eq suffix (codes "docx")
      then (do
        items ← readers.docx_paragraphs content
        ok (join (codes "\n\n") (not_blank_items items)))
      else if text_eq suffix (codes "pdf")
      then parse_pdf content
      else err (value_error (codes "不支持的文件类型"))

  unfoldable pub parse_document : Text → Text → Result Text
  unfolding parse_suffix suffix_of
  parse_document filename content = do
    parsed ← parse_suffix (suffix_of filename) content
    ok (clean_text parsed)
