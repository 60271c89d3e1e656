-- ===== src/Rag/Documents/Content.antt =====
-- `index_content` and `index_claimed_document` of backend/app/rag/service/document_service.py.
pub mod Groups
pub mod Replace
pub mod Rows
pub mod Stored
use rag_service.Prelude.{
  ℕ, zero, suc, ◌+◌, ◌-◌, ◌/◌, max, Text, codes, Bool, true, false, not, List, [], ◌∷◌, ◌++◌, map,
  length, ◌==◌, if◌then◌else◌, Option, none, some, ℤ, pos, negsuc, remove,
}
use rag_service.Rag.Model.{Document, DocumentStatus, Chunk, Vector, same_status}
use rag_service.Rag.Indexing.{Exception, value_error, other_error}
use rag_service.Rag.Exec.{Result, ok, err, ◌>>=◌}
use rag_service.Rag.Settings.{Settings}
use rag_service.Rag.Services.{Services}
use rag_service.Rag.Parsers.{parse_document}
use rag_service.Rag.Lexical.{tokenize_search_text, extract_exact_tokens}
use rag_service.Rag.Embedding.{embed_texts_in_batches}
use rag_service.Rag.Chunking.Sections.{
  ParentChildChunks, contextualize_chunk, split_parent_child_text,
}
use rag_service.Rag.World.{World, Db, Exec, get_live, update_document, storage_get}
use rag_service.Rag.Documents.{TaskResult, document_not_found, stale_index_request, status_value}

-- A child with its parent, of which the key of its row and the heading path are used.
pub record Piece : Type 0 where
  pub parent_id : ℕ
  pub path : List Text
  pub text : Text

pieces_of_parent : ℕ → List Text → List Text → List Piece
pieces_of_parent parent_id path [] = []
pieces_of_parent parent_id path (text ∷ texts) =
    record { parent_id = parent_id; path = path; text = text }
    ∷ pieces_of_parent parent_id path texts

-- `[(parent, child) for parent in parent_children for child in parent.children]`; the rows of the
-- parents get consecutive keys from `first_id` on.
pub pieces_of : ℕ → List ParentChildChunks → List Piece
unfolding pieces_of_parent
pieces_of first_id [] = []
pieces_of first_id (parent ∷ parents) =
    pieces_of_parent first_id parent.heading_path parent.children
    ++ pieces_of (suc first_id) parents

abbrev pub context_of : Document → Piece → Text
context_of d piece = contextualize_chunk d.filename piece.path piece.text

-- What the indexing of one document has computed when it begins to write.
pub record Prepared : Type 0 where
  pub text : Text
  pub parents : List ParentChildChunks
  pub vectors : List Vector

abbrev pub set_ready : Text → ℕ → Document → Document
set_ready text chunk_count d = record d {
  parsed_content = some text;
  chunk_count = chunk_count;
  status = DocumentStatus.ready;
  error_message = none;
}

abbrev pub of_document : ℕ → Chunk → Bool
of_document document_id chunk = chunk.document_id == document_id

abbrev pub set_processing : Document → Document
set_processing d = record d { status = DocumentStatus.processing }

module _ (services : Services) (settings : Settings) where
  require_parents : List ParentChildChunks → Result (List ParentChildChunks)
  require_parents [] = err (value_error (codes "文档没有可索引正文"))
  require_parents (parent ∷ parents) = ok (parent ∷ parents)

  -- `zip(children, vectors, strict=True)` raises when the lengths differ; what was written by then
  -- goes with the transaction, so that the test is made here.
  require_equal : List Piece → List Vector → Result (List Vector)
  require_equal pieces vectors =
      if length pieces == length vectors
      then ok vectors
      else err (value_error (codes "zip() arguments have different lengths"))

  pub prepare : ℕ → Document → Text → Result Prepared
  unfolding require_parents require_equal
  prepare first_id d content = do
    text ← parse_document services.readers settings d.filename content
    parents ←
        require_parents (
          split_parent_child_text services.is_digit text settings.chunk_size settings.chunk_overlap)
    answer ←
        embed_texts_in_batches services.embed (map (context_of d) (pieces_of first_id parents))
          settings.embedding_batch_size
    vectors ← require_equal (pieces_of first_id parents) answer
    ok (record { text = text; parents = parents; vectors = vectors })

  -- `Chunk(…)` of a parent; `place` counts from 1.
  parent_row : Document → ℕ → ℕ → ParentChildChunks → Chunk
  parent_row d id place parent = record {
    id = id;
    knowledge_base_id = d.knowledge_base_id;
    document_id = d.id;
    chunk_index = negsuc (place - 1);
    content = parent.parent_content;
    contextual_content = contextualize_chunk d.filename parent.heading_path parent.parent_content;
    search_text = [];
    exact_tokens = [];
    content_hash = services.sha256 parent.parent_content;
    char_count = length parent.parent_content;
    token_count = max (length parent.parent_content / 4) 1;
    embedding = none;
    index_version = d.index_version;
    parent_chunk_id = none;
    is_parent = true;
    heading_path = parent.heading_path;
    deleted = 0;
  }

  pub parent_rows : Document → ℕ → ℕ → List ParentChildChunks → List Chunk
  unfolding parent_row
  parent_rows d id place [] = []
  parent_rows d id place (parent ∷ parents) =
      parent_row d id place parent ∷ parent_rows d (suc id) (suc place) parents

  -- `Chunk(…)` of a child; `index` counts from 0.
  child_row : Document → ℕ → ℕ → Piece → Vector → Chunk
  child_row d id index piece vector = record {
    id = id;
    knowledge_base_id = d.knowledge_base_id;
    document_id = d.id;
    chunk_index = pos index;
    content = piece.text;
    contextual_content = context_of d piece;
    search_text = tokenize_search_text services.tokenizer (context_of d piece);
    exact_tokens = extract_exact_tokens (context_of d piece);
    content_hash = services.sha256 piece.text;
    char_count = length piece.text;
    token_count = max (length piece.text / 4) 1;
    embedding = some vector;
    index_version = d.index_version;
    parent_chunk_id = some piece.parent_id;
    is_parent = false;
    heading_path = piece.path;
    deleted = 0;
  }

  pub child_rows : Document → ℕ → ℕ → List Piece → List Vector → List Chunk
  unfolding child_row
  child_rows d id index (piece ∷ pieces) (vector ∷ vectors) =
      child_row d id index piece vector ∷ child_rows d (suc id) (suc index) pieces vectors
  child_rows d id index _ _ = []

  -- The rows are replaced: `delete(Chunk)`, the parents, and then the children.
  pub store_chunks : Document → Prepared → World → World
  unfolding parent_rows child_rows pieces_of
  store_chunks d p w =
      let first_child = w.next_id + length p.parents in
      let pieces = pieces_of w.next_id p.parents in
      update_document d.id (set_ready p.text (length pieces)) (record w {
        db = record w.db {
          chunks =
              remove (of_document d.id) w.chunks
              ++ (parent_rows d w.next_id 1 p.parents
                  ++ child_rows d first_child 0 pieces p.vectors);
          next_id = first_child + length pieces;
        };
      })

  finish_index : Document → World → Result Prepared → Result (Unit {0}) × World
  unfolding store_chunks
  finish_index d w (err exc) = (err exc, w)
  finish_index d w (ok p) = (ok tt, store_chunks d p w)

  -- `DocumentService.index_content`
  unfoldable pub index_content : Document → Text → Exec (Unit {0})
  unfolding finish_index prepare
  index_content d content w =
      finish_index d (update_document d.id set_processing w) (prepare w.next_id d content)

  -- `document.status.value` behind `index_content`, which sets READY.
  after_content : Result (Unit {0}) × World → Result TaskResult × World
  after_content (ok _, w) = (ok (status_value DocumentStatus.ready), w)
  after_content (err exc, w) = (err exc, w)

  read_and_index : Document → World → Result Text → Result TaskResult × World
  unfolding after_content index_content
  read_and_index d w (err exc) = (err exc, w)
  read_and_index d w (ok content) = after_content (index_content d content w)

  -- A status that was loaded is a plain `str`, so that `document.status.value` raises where the
  -- document is not PROCESSING.
  index_found : ℕ → World → Option Document → Result TaskResult × World
  unfolding read_and_index storage_get
  index_found index_version w none = (ok document_not_found, w)
  index_found index_version w (some d) =
      if not (d.index_version == index_version)
      then (ok stale_index_request, w)
      else if not (same_status d.status DocumentStatus.processing)
      then (
        err (other_error (codes "AttributeError") (codes "'str' object has no attribute 'value'")),
        w,
      )
      else read_and_index d w (storage_get d.storage_key w.storage)

  -- `DocumentService.index_claimed_document`
  unfoldable pub index_claimed_document : ℕ → ℕ → Exec TaskResult
  unfolding index_found
  index_claimed_document document_id index_version w =
      index_found index_version w (get_live document_id w)
