-- ===== src/Tests/DocumentRuns.antt =====
-- The services of documents and knowledge bases on the small state.
use rag_service.Prelude.{
  ℕ, codes, Bool, true, false, any, if◌then◌else◌, length, ◌==◌, ◌≤◌, Option, some, ◌≡◌, ◌≢◌, ◌↔◌,
  refl, ◌⊎◌, All, arith, find, Unique,
}
use mathlib.Core.Option
use rag_service.Rag.Model.{Document, DocumentStatus}
use rag_service.Rag.Indexing.{Exception, not_found_error}
use rag_service.Rag.Exec.{ok, err}
use rag_service.Rag.World.{get_live}
use rag_service.Rag.Documents.{
  claimed, claim_index, get_document, recover_stale_indexes, stale_index_request,
}
use rag_service.Rag.Documents.Claim.{Claimed, claim_index_exclusive}
use rag_service.Rag.Documents.Recovery.{Requeued, requeued_row, recover_stale_indexes_lem}
use rag_service.Rag.Documents.Requests.{retry_document}
use rag_service.Rag.Documents.Requests.Retry.{Retried, retry_document_lem}
use rag_service.Rag.KnowledgeBases.{get_knowledge_base, delete_knowledge_base, is_authorized}
use rag_service.Rag.KnowledgeBases.Access.{MayUse, get_knowledge_base_access}
use rag_service.Rag.KnowledgeBases.Deletion.{Cascaded, delete_knowledge_base_cascade}
use rag_service.Tests.Data.{base, document, world}

claim_index_run :
    let ((r, _), w') = claim_index 10 (some 3) world in
    ((r ≡ claimed)
      × Claimed 10 (some 3) world w'
      × ((other : Option ℕ) → (claim_index 10 other w').0.0 ≢ claimed))
    ⊎ ((r ≢ claimed) × (w' ≡ world))
claim_index_run = claim_index_exclusive 10 (some 3) world

found_processing : get_live 11 world ≡ some (document 11 DocumentStatus.processing)
unfolding get_live find
found_processing = refl

may_write : get_document 1 11 7 false true world ≡ ok (document 11 DocumentStatus.processing)
unfolding get_document find is_authorized
may_write = refl

retry_document_run :
    let w' = (retry_document (codes "hash") 1 11 7 false world).1 in
    Retried (codes "hash") 11 (document 11 DocumentStatus.processing) world w'
    × ((claim_index 11 (some 3) w').0.0 ≡ stale_index_request)
retry_document_run =
    retry_document_lem (codes "hash") 1 11 7 false world (document 11 DocumentStatus.processing)
      may_write found_processing tt

differ : (a b : ℕ) → a == b ≡ false → a ≢ b
differ a b h e = ground arith

distinct : Unique (λ (d : Document). d.id) world.documents
distinct = (
  (differ 11 10 refl, (differ 12 10 refl, (differ 13 10 refl, tt))),
  ((differ 12 11 refl, (differ 13 11 refl, tt)), ((differ 13 12 refl, tt), (tt, tt))),
)

recover_stale_indexes_run :
    let (requests, w') = recover_stale_indexes 200 5 world in
    (length requests ≤ 5)
    × All (Requeued 200 world w') requests
    × ((pk : ℕ)
        → get_live pk w' ≡ (
            if any (λ (r : ℕ × ℕ). r.0 == pk) requests
            then Option.map (requeued_row 5000) (get_live pk world)
            else get_live pk world))
recover_stale_indexes_run = recover_stale_indexes_lem 200 5 world distinct (ground arith)

owned : get_knowledge_base 1 7 false true world ≡ ok base
unfolding get_knowledge_base find is_authorized
owned = refl

delete_knowledge_base_run :
    let (r, w') = delete_knowledge_base 1 7 false world in
    (r ≡ ok tt)
    × ((other : ℕ) (admin write : Bool)
        → get_knowledge_base 1 other admin write w' ≡ err (not_found_error (codes "知识库不存在或无权访问")))
    × Cascaded 1 11 (document 11 DocumentStatus.processing) world w'
delete_knowledge_base_run =
    delete_knowledge_base_cascade 1 7 11 false world base (document 11 DocumentStatus.processing)
      (ground arith) distinct owned found_processing

found_base_row : find (λ row. row.id == 1) world.knowledge_bases ≡ some base
unfolding find
found_base_row = refl

get_knowledge_base_run :
    ((get_knowledge_base 1 8 false false world ≡ ok base)
      ↔ ((base.deleted ≡ 0) × MayUse 8 false false base))
    × ((other : ℕ) (raised : Exception)
        → get_knowledge_base other 8 false false world ≡ err raised
        → raised ≡ not_found_error (codes "知识库不存在或无权访问"))
get_knowledge_base_run = get_knowledge_base_access 1 8 false false world base found_base_row
