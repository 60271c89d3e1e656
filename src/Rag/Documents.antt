-- ===== src/Rag/Documents.antt =====
-- backend/app/rag/service/document_service.py, with the document queries of
-- backend/app/rag/crud/crud_rag.py.
pub mod Content
pub mod Requests
pub mod Claim
pub mod Recovery
use rag_service.Prelude.{
  ℕ, suc, ◌+◌, Text, codes, text_eq, Bool, true, false, ◌&&◌, ◌||◌, not, List, [], ◌∷◌, ◌++◌, any,
  take, map, length, ◌==◌, ltb, if◌then◌else◌, Option, none, some, find, select, modify,
}
use rag_service.Rag.Model.{Document, DocumentStatus, same_status, IndexProfile}
use rag_service.Rag.Indexing.{Exception, request_error, sqlalchemy_error, value_error}
use rag_service.Rag.Exec.{Result, ok, err, ◌>>=◌}
use rag_service.Rag.Settings.{Settings}
use rag_service.Rag.Parsers.{suffix_of, supported_document_suffixes}
use rag_service.Rag.World.{World, Db, Exec, get_live, update_document, is_live}
use rag_service.Rag.Outbox.{enqueue_document_index, enqueue_document_delete}
use rag_service.Rag.KnowledgeBases.{get_knowledge_base, or_not_found, set_deleting}

-- What a task returns.
pub data TaskResult : Type 0 where
  document_not_found stale_index_request already_ready already_processing : TaskResult
  delete_requested index_failed claimed : TaskResult
  -- the value of a status
  status_value : DocumentStatus → TaskResult
  delete_not_requested deleted : TaskResult

-- `index_version is not None and effective_version != index_version`
abbrev pub is_stale : Option ℕ → ℕ → Bool
is_stale none effective_version = false
is_stale (some index_version) effective_version = not (effective_version == index_version)

-- The answer for a live document, by its status.
status_claim : DocumentStatus → TaskResult
status_claim DocumentStatus.ready = already_ready
status_claim DocumentStatus.processing = already_processing
status_claim DocumentStatus.deleting = delete_requested
status_claim DocumentStatus.failed = index_failed
status_claim DocumentStatus.pending = claimed

set_claimed : Document → Document
set_claimed d = record d { status = DocumentStatus.processing; error_message = none }

-- Only the claim itself writes.
finish_claim : Document → TaskResult → World → (TaskResult × Option ℕ) × World
unfolding set_claimed
finish_claim d claimed w = ((claimed, some d.index_version), update_document d.id set_claimed w)
finish_claim d result w = ((result, some d.index_version), w)

claim_document : Option ℕ → Option Document → World → (TaskResult × Option ℕ) × World
unfolding status_claim finish_claim
claim_document index_version none w = ((document_not_found, none), w)
claim_document index_version (some d) w =
    if is_stale index_version d.index_version
    then ((stale_index_request, some d.index_version), w)
    else finish_claim d (status_claim d.status) w

-- `DocumentService.claim_index`
unfoldable pub claim_index : ℕ → Option ℕ → World → (TaskResult × Option ℕ) × World
unfolding claim_document
claim_index document_id index_version w = claim_document index_version (get_live document_id w) w

abbrev set_failure : DocumentStatus → Text → Document → Document
set_failure status error_message d = record d {
  status = status;
  error_message = some (take 512 error_message);
}

fail_document : ℕ → DocumentStatus → Text → Option Document → World → Bool × World
fail_document index_version status error_message none w = (false, w)
fail_document index_version status error_message (some d) w =
    if not (d.index_version == index_version)
    then (false, w)
    else if same_status d.status DocumentStatus.ready
        || same_status d.status DocumentStatus.deleting
    then (false, w)
    else (true, update_document d.id (set_failure status error_message) w)

-- `DocumentService.mark_index_failure`, which raises for any other status.
unfoldable pub mark_index_failure : ℕ → ℕ → DocumentStatus → Text → Exec Bool
unfolding fail_document
mark_index_failure document_id index_version status error_message w =
    if same_status status DocumentStatus.pending || same_status status DocumentStatus.failed
    then (let (marked, w') =
          fail_document index_version status error_message (get_live document_id w) w in
        (ok marked, w'))
    else (err (value_error (codes "索引失败只能更新为 PENDING 或 FAILED")), w)

-- `func.coalesce(Document.updated_time, Document.created_time)`
abbrev pub last_activity : Document → ℕ
last_activity d = elim d.updated_time [ none ↦ d.created_time | some t ↦ t ]

-- The WHERE clause of `get_stale_index_documents`.
unfoldable pub is_stuck : ℕ → Document → Bool
is_stuck stale_before d =
    (same_status d.status DocumentStatus.pending || same_status d.status DocumentStatus.processing)
    && (d.deleted == 0 && ltb (last_activity d) stale_before)

abbrev is_before : Document → Document → Bool
is_before d x =
    ltb (last_activity d) (last_activity x) || (last_activity d == last_activity x && ltb d.id x.id)

insert_by_activity : Document → List Document → List Document
insert_by_activity d [] = d ∷ []
insert_by_activity d (x ∷ xs) = if is_before d x then d ∷ x ∷ xs else x ∷ insert_by_activity d xs

-- `.order_by(last_activity, Document.id)`
order_by_activity : List Document → List Document
unfolding insert_by_activity
order_by_activity [] = []
order_by_activity (d ∷ ds) = insert_by_activity d (order_by_activity ds)

pub get_stale_index_documents : ℕ → ℕ → World → List Document
unfolding order_by_activity is_stuck
get_stale_index_documents stale_before limit w =
    take limit (order_by_activity (select (is_stuck stale_before) w.documents))

abbrev pub set_requeued : ℕ → Document → Document
set_requeued recovered_time d = record d {
  status = DocumentStatus.pending;
  error_message = some (codes "索引任务超时，已重新排队");
  updated_time = some recovered_time;
}

requeue_all : List Document → World → World
requeue_all [] w = w
requeue_all (d ∷ ds) w = requeue_all ds (update_document d.id (set_requeued w.now) w)

-- `DocumentService.recover_stale_indexes`
unfoldable pub recover_stale_indexes : ℕ → ℕ → World → List (ℕ × ℕ) × World
unfolding get_stale_index_documents requeue_all
recover_stale_indexes stale_before limit w =
    let documents = get_stale_index_documents stale_before limit w in
    (map (λ (d : Document). (d.id, d.index_version)) documents, requeue_all documents w)

-- `DocumentService.get_deleting_document_ids`
unfoldable pub get_deleting_document_ids : World → List ℕ
get_deleting_document_ids w =
    map (λ (d : Document). d.id)
      (select (λ d. same_status d.status DocumentStatus.deleting && d.deleted == 0) w.documents)

-- `document_dao.get_in_kb`
unfoldable pub get_in_kb : ℕ → ℕ → World → Option Document
get_in_kb pk knowledge_base_id w =
    find (λ d. d.id == pk && (d.knowledge_base_id == knowledge_base_id && d.deleted == 0))
      w.documents

-- `DocumentService.get`
unfoldable pub get_document : ℕ → ℕ → ℕ → Bool → Bool → World → Result Document
unfolding get_knowledge_base get_in_kb
get_document knowledge_base_id pk user_id is_admin write w = do
  kb ← get_knowledge_base knowledge_base_id user_id is_admin write w
  or_not_found (codes "文档不存在") (get_in_kb pk knowledge_base_id w)
