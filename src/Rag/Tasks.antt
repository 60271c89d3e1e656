-- ===== src/Rag/Tasks.antt =====
-- backend/app/task/tasks/rag/tasks.py: the Celery tasks. Each `async with` is a transaction.
pub mod Lifecycle
pub mod Delete
use rag_service.Prelude.{
  ℕ, ◌-◌, Text, Bool, true, false, ◌&&◌, List, [], ◌∷◌, ◌++◌, map, ltb, ◌==◌, if◌then◌else◌, Option,
  none, some, pos, remove,
}
use rag_service.Rag.Model.{Document, DocumentStatus, Chunk, same_status}
use rag_service.Rag.Indexing.{
  Exception, is_retryable_index_error, sanitize_index_error, index_retry_countdown,
}
use rag_service.Rag.Exec.{Result, ok, err}
use rag_service.Rag.Settings.{Settings}
use rag_service.Rag.Services.{Services}
use rag_service.Rag.World.{
  World, Db, Job, index_job, delete_job, Exec, transaction, get_live, storage_delete,
}
use rag_service.Rag.Documents.{
  TaskResult, claimed, document_not_found, delete_not_requested, deleted, status_value, claim_index,
  mark_index_failure, recover_stale_indexes, get_deleting_document_ids,
}
use rag_service.Rag.Documents.Content.{index_claimed_document}

-- How a task ends: with a result, with `task.retry` after a countdown (`none` is the ValueError of
-- `index_retry_countdown`), or with the exception itself.
pub data Ending : Type 0 where
  returned : TaskResult → Ending
  retried : Exception → Option ℕ → Ending
  raised : Exception → Ending

module _ (services : Services) (settings : Settings) where
  -- The `except` clause: `retries` is `task.request.retries`.
  handle_failure : ℕ → ℕ → ℕ → Exception → World → Ending × World
  unfolding mark_index_failure
  handle_failure retries document_id version exc w =
      let retryable = is_retryable_index_error exc in
      let should_retry = retryable && ltb retries settings.index_max_retries in
      let status = if should_retry then DocumentStatus.pending else DocumentStatus.failed in
      let (_, w') =
        transaction (mark_index_failure document_id version status (sanitize_index_error exc)) w in
      (
        if should_retry
            then retried exc
                (index_retry_countdown (pos retries) (pos settings.index_retry_backoff_max_seconds))
            else if retryable
            then raised exc
            else returned (status_value DocumentStatus.failed),
        w',
      )

  after_index : ℕ → ℕ → ℕ → Result TaskResult × World → Ending × World
  unfolding handle_failure
  after_index retries document_id version (ok result, w) = (returned result, w)
  after_index retries document_id version (err exc, w) =
      handle_failure retries document_id version exc w

  -- `if claim_result != 'claimed' or effective_version is None: return claim_result`
  after_claim : ℕ → ℕ → (TaskResult × Option ℕ) × World → Ending × World
  unfolding after_index index_claimed_document transaction
  after_claim retries document_id ((claimed, some version), w) =
      after_index retries document_id version
        (transaction (index_claimed_document services settings document_id version) w)
  after_claim retries document_id ((result, version), w) = (returned result, w)

  unfoldable pub index_document : ℕ → ℕ → Option ℕ → World → Ending × World
  unfolding after_claim claim_index
  index_document retries document_id index_version w =
      after_claim retries document_id (claim_index document_id index_version w)

abbrev pub has_id : ℕ → Document → Bool
has_id pk d = d.id == pk

abbrev pub of_document : ℕ → Chunk → Bool
of_document document_id c = c.document_id == document_id

-- The object, the chunks and the document of a live row that is DELETING.
delete_found : World → Option Document → TaskResult × World
delete_found w none = (document_not_found, w)
delete_found w (some d) =
    if same_status d.status DocumentStatus.deleting
    then (
      deleted,
      record w {
        db = record w.db {
          chunks = remove (of_document d.id) w.chunks;
          documents = remove (has_id d.id) w.documents;
        };
        storage = storage_delete d.storage_key w.storage;
      },
    )
    else (delete_not_requested, w)

unfoldable pub delete_document : ℕ → World → TaskResult × World
unfolding delete_found
delete_document document_id w = delete_found w (get_live document_id w)

index_jobs : List (ℕ × ℕ) → List Job
index_jobs [] = []
index_jobs ((document_id, version) ∷ rest) = index_job document_id (some version) ∷ index_jobs rest

-- `rag_repair_stuck_document`: the counts that it reports are the lengths of the two lists.
unfoldable pub repair_stuck_document : Settings → ℕ → World → (List (ℕ × ℕ) × List ℕ) × World
unfolding index_jobs recover_stale_indexes get_deleting_document_ids
repair_stuck_document settings limit w =
    let (recovered, w') = recover_stale_indexes (w.now - settings.index_stale) limit w in
    let deleting_ids = get_deleting_document_ids w' in
    (
      (recovered, deleting_ids),
      record w' { queue = w'.queue ++ (index_jobs recovered ++ map delete_job deleting_ids) },
    )
