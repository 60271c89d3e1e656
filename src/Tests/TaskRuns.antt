-- ===== src/Tests/TaskRuns.antt =====
-- The tasks of backend/app/task/tasks/rag/tasks.py on the small state.
use rag_service.Prelude.{text_eq, codes, true, false, some, ◌≡◌, ◌≢◌, refl, ◌⊎◌, find}
use rag_service.Rag.Model.{Document, DocumentStatus}
use rag_service.Rag.Exec.{ok}
use rag_service.Rag.Settings.{default_settings}
use rag_service.Rag.World.{World, get_live}
use rag_service.Rag.Documents.{TaskResult, claimed, is_stale, delete_not_requested, get_document}
use rag_service.Rag.Documents.Content.Stored.{IndexOutcome, index_claimed_outcome}
use rag_service.Rag.Documents.Content.{index_content, index_claimed_document}
use rag_service.Rag.Documents.Content.Rows.{Rewritten, index_content-Rewritten}
use rag_service.Rag.World.{transaction}
use rag_service.Rag.Parsers.{parse_document}
use rag_service.Rag.Chunking.Sections.{split_parent_child_text}
use rag_service.Rag.Embedding.{embed_texts_in_batches}
use rag_service.Rag.Documents.Requests.{retry_document}
use rag_service.Rag.KnowledgeBases.{is_authorized}
use rag_service.Rag.Tasks.{returned, index_document, delete_document}
use rag_service.Rag.Tasks.Lifecycle.{FailureOutcome, index_document_outcome}
use rag_service.Rag.Tasks.Delete.{DeleteOutcome, delete_document_lem, retry_cancels_deletion}
use rag_service.Tests.Data.{document, services, world}

index_document_run :
    ((r : TaskResult) × (r ≢ claimed)
      × (index_document services default_settings 0 10 (some 3) world ≡ (returned r, world)))
    ⊎ ((d : Document) × (get_live 10 world ≡ some d)
        × (d.status ≡ DocumentStatus.pending)
        × (is_stale (some 3) d.index_version ≡ false)
        × FailureOutcome services default_settings 0 10 d
            (index_document services default_settings 0 10 (some 3) world))
index_document_run = index_document_outcome services default_settings 0 10 (some 3) world

found_processing : get_live 11 world ≡ some (document 11 DocumentStatus.processing)
unfolding get_live find
found_processing = refl

index_claimed_run :
    IndexOutcome services default_settings 11
      (document 11 DocumentStatus.processing)
      world
      (transaction (index_claimed_document services default_settings 11 3) world)
index_claimed_run =
    index_claimed_outcome services default_settings 11 world (document 11 DocumentStatus.processing)
      found_processing refl

delete_document_run : DeleteOutcome 13 world (delete_document 13 world)
delete_document_run = delete_document_lem 13 world

found_deleting : get_live 13 world ≡ some (document 13 DocumentStatus.deleting)
unfolding get_live find
found_deleting = refl

may_write : get_document 1 13 7 false true world ≡ ok (document 13 DocumentStatus.deleting)
unfolding get_document find is_authorized
may_write = refl

retry_cancels_run :
    let w' = (retry_document (codes "hash") 1 13 7 false world).1 in
    delete_document 13 w' ≡ (delete_not_requested, w')
retry_cancels_run =
    retry_cancels_deletion (codes "hash") 1 13 7 false world (document 13 DocumentStatus.deleting)
      may_write found_deleting tt refl

abbrev rewritten_world : World
rewritten_world =
    (index_content services default_settings (document 11 DocumentStatus.processing) (codes "hello")
      world).1

content_indexed :
    index_content services default_settings
      (document 11 DocumentStatus.processing)
      (codes "hello")
      world
    ≡ (ok tt, rewritten_world)
unfolding index_content parse_document text_eq split_parent_child_text embed_texts_in_batches
content_indexed = refl

index_content_run :
    Rewritten services default_settings
      (document 11 DocumentStatus.processing)
      (codes "hello")
      world
      rewritten_world
index_content_run =
    index_content-Rewritten services default_settings (document 11 DocumentStatus.processing)
      (codes "hello") world rewritten_world content_indexed
