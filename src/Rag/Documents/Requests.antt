-- ===== src/Rag/Documents/Requests.antt =====
-- `create`, `retry` and `delete` of backend/app/rag/service/document_service.py: what a user asks
-- for, in the transaction of the request.
pub mod Retry
use rag_service.Prelude.{
  ℕ, ◌+◌, ◌*◌, ◌/◌, Text, codes, show_nat, text_eq, Bool, true, false, not, List, [], ◌∷◌, ◌++◌,
  any, length, ltb, ◌==◌, if◌then◌else◌, Option, none, some,
}
use rag_service.Rag.Model.{Document, DocumentStatus, KnowledgeBase}
use rag_service.Rag.Indexing.{request_error, sqlalchemy_error}
use rag_service.Rag.Exec.{Result, ok, err, ◌>>=◌}
use rag_service.Rag.Settings.{Settings}
use rag_service.Rag.Parsers.{suffix_of, supported_document_suffixes}
use rag_service.Rag.World.{World, Db, Exec, update_document, storage_put}
use rag_service.Rag.Outbox.{enqueue_document_index, enqueue_document_delete}
use rag_service.Rag.Profiles.{get_or_create_index_profile}
use rag_service.Rag.KnowledgeBases.{get_knowledge_base, set_deleting}
use rag_service.Rag.Documents.{get_document}

-- `filename.rsplit('.', 1)[-1].lower() if '.' in filename else ''`
upload_suffix : Text → Text
upload_suffix filename = if any (λ c. c == b'.') filename then suffix_of filename else []

-- What is checked of an upload: the caller's right to write, the suffix and the size.
check_upload : Settings → ℕ → ℕ → Bool → Text → Text → World → Result (KnowledgeBase × Text)
unfolding upload_suffix get_knowledge_base
check_upload settings knowledge_base_id user_id is_admin filename content w = do
  kb ← get_knowledge_base knowledge_base_id user_id is_admin true w
  if not (any (text_eq (upload_suffix filename)) supported_document_suffixes)
      then err (request_error (codes "仅支持 .txt、.md、.docx、.pdf 文件"))
      else if ltb settings.max_file_size (length content)
      then err (
          request_error
            (codes "文件不能超过 " ++ (show_nat (settings.max_file_size / 1024 / 1024) ++ codes "MB")))
      else ok (kb, upload_suffix filename)

-- `f'{kb.id}/{digest}.{suffix}'`
pub storage_key_of : ℕ → Text → Text → Text
storage_key_of kb_id digest suffix =
    show_nat kb_id ++ (codes "/" ++ (digest ++ (codes "." ++ suffix)))

-- `Document(…)`, with the defaults of its columns.
new_document : ℕ → KnowledgeBase → Text → Text → Text → Text → ℕ → Option Text → ℕ → ℕ → Document
unfolding storage_key_of
new_document id kb filename suffix digest content now mime_type profile_id version = record {
  id = id;
  knowledge_base_id = kb.id;
  filename = filename;
  file_type = suffix;
  storage_key = storage_key_of kb.id digest suffix;
  file_size = length content;
  content_hash = digest;
  mime_type = mime_type;
  parsed_content = none;
  status = DocumentStatus.pending;
  error_message = none;
  chunk_count = 0;
  index_version = version;
  index_profile_id = some profile_id;
  deleted = 0;
  created_time = now;
  updated_time = none;
}

-- The flush meets the unique constraint on `storage_key`; then the index request is written.
insert_document : Document → World → Result Document × World
unfolding enqueue_document_index
insert_document d w =
    if any (λ (row : Document). text_eq row.storage_key d.storage_key) w.documents
    then (err sqlalchemy_error, w)
    else (
      ok d,
      (enqueue_document_index d.id d.index_version (record w {
        db = record w.db { documents = w.documents ++ d ∷ []; next_id = w.next_id + 1 };
      })).1,
    )

abbrev pub set_retried : ℕ → Document → Document
set_retried profile_id d = record d {
  status = DocumentStatus.pending;
  error_message = none;
  index_version = d.index_version + 1;
  index_profile_id = some profile_id;
}

module _ (settings : Settings) (sha256 : Text → Text) (profile_hash : Text) where
  -- The object is stored first, and stays when the flush fails.
  store_upload :
      Text → Text → Option Text → World → Result (KnowledgeBase × Text) → Result Document × World
  unfolding storage_key_of get_or_create_index_profile new_document insert_document
  store_upload filename content mime_type w (err exc) = (err exc, w)
  store_upload filename content mime_type w (ok (kb, suffix)) =
      let digest = sha256 content in
      let stored : World = record w {
        storage = storage_put (storage_key_of kb.id digest suffix) content w.storage;
      } in
      let (profile, w') = get_or_create_index_profile profile_hash stored in
      insert_document
        (new_document w'.next_id kb filename suffix digest content w'.now mime_type profile.id 1) w'

  -- `DocumentService.create`
  unfoldable pub create_document : ℕ → ℕ → Bool → Text → Text → Option Text → Exec Document
  unfolding check_upload store_upload
  create_document knowledge_base_id user_id is_admin filename content mime_type w =
      store_upload filename content mime_type w
        (check_upload settings knowledge_base_id user_id is_admin filename content w)

module _ (profile_hash : Text) where
  retry_row : World → Result Document → Result Document × World
  unfolding get_or_create_index_profile enqueue_document_index
  retry_row w (err exc) = (err exc, w)
  retry_row w (ok d) =
      let (profile, w') = get_or_create_index_profile profile_hash w in
      let row = set_retried profile.id d in
      (
        ok row,
        (enqueue_document_index d.id row.index_version
            (update_document d.id (set_retried profile.id) w')).1,
      )

  -- `DocumentService.retry`
  unfoldable pub retry_document : ℕ → ℕ → ℕ → Bool → Exec Document
  unfolding get_document retry_row
  retry_document knowledge_base_id pk user_id is_admin w =
      retry_row w (get_document knowledge_base_id pk user_id is_admin true w)

delete_row : World → Result Document → Result (Unit {0}) × World
unfolding enqueue_document_delete
delete_row w (err exc) = (err exc, w)
delete_row w (ok d) =
    (ok tt, (enqueue_document_delete d.id (update_document d.id set_deleting w)).1)

-- `DocumentService.delete`
unfoldable pub delete_document_request : ℕ → ℕ → ℕ → Bool → Exec (Unit {0})
unfolding get_document delete_row
delete_document_request knowledge_base_id pk user_id is_admin w =
    delete_row w (get_document knowledge_base_id pk user_id is_admin true w)
