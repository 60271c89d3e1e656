-- ===== src/Tests/OutboxRuns.antt =====
-- The outbox on an event of each kind.
use rag_service.Prelude.{
  ℕ, false, [], ◌∷◌, ◌==◌, ◌+◌, Option, none, some, ◌≡◌, ◌≢◌, refl, All, arith, find, Unique,
  show_nat,
}
use rag_service.Rag.Model.{OutboxEvent, OutboxStatus}
use rag_service.Rag.Indexing.{Exception, connection_error}
use rag_service.Rag.World.{World, Job, index_job, delete_job}
use rag_service.Rag.Outbox.{
  dispatch_event, dispatch_outbox, enqueue_document_index, enqueue_document_delete, index_key,
  is_claimable,
}
use rag_service.Rag.Outbox.Attempts.{
  Asks, WithinAttempts, Outcome, dispatch_event-Outcome, dispatch_outbox-WithinAttempts,
}
use rag_service.Rag.Outbox.Claims.{event_by_id}
use rag_service.Rag.Outbox.Enqueue.{IsDeduped, VersionsUpTo, enqueue-IsDeduped}
use rag_service.Tests.Data.{event, with_events}

-- A broker that takes index calls only.
abbrev deliver : Job → Option Exception
deliver (index_job document_id version) = none
deliver (delete_job document_id) = some connection_error

within : WithinAttempts 10 (event 1 9 OutboxStatus.failed)
within = record { bounded = ground arith; claimable = λ e. ground arith }

dispatch_event_run :
    let (e', calls) = dispatch_event deliver 10 5000 (event 1 9 OutboxStatus.failed) in
    Outcome 10 (event 1 9 OutboxStatus.failed) e' calls
    × (e'.dispatch_attempts ≡ 9 + 1)
    × WithinAttempts 10 e'
    × ((job : Job)
        → Asks (event 1 9 OutboxStatus.failed) job
        → deliver job ≡ none
        → calls ≡ job ∷ [])
dispatch_event_run =
    dispatch_event-Outcome deliver 10 5000 (event 1 9 OutboxStatus.failed) within
      (unfold is_claimable in refl)

dispatch_outbox_run :
    All
      (WithinAttempts 10)
      (dispatch_outbox deliver 10 50 (with_events (event 1 9 OutboxStatus.failed ∷ []))).1.events
dispatch_outbox_run =
    dispatch_outbox-WithinAttempts deliver 10 50 (with_events (event 1 9 OutboxStatus.failed ∷ []))
      (within, tt)

abbrev mixed : World
mixed = with_events (event 1 9 OutboxStatus.failed ∷ event 2 10 OutboxStatus.dead ∷ [])

differ : (a b : ℕ) → a == b ≡ false → a ≢ b
differ a b h e = ground arith

distinct : Unique (λ (e : OutboxEvent). e.id) mixed.events
distinct = ((differ 2 1 refl, tt), (tt, tt))

found_dead : event_by_id 2 mixed ≡ some (event 2 10 OutboxStatus.dead)
unfolding find
found_dead = refl

one_event : IsDeduped (event 1 9 OutboxStatus.failed ∷ [])
one_event = (tt, tt)

enqueue-IsDeduped_run :
    IsDeduped
      (enqueue_document_index 11 3 (with_events (event 1 9 OutboxStatus.failed ∷ []))).1.events
    × IsDeduped
        (enqueue_document_delete 11 (with_events (event 1 9 OutboxStatus.failed ∷ []))).1.events
enqueue-IsDeduped_run =
    enqueue-IsDeduped 11 3 (with_events (event 1 9 OutboxStatus.failed ∷ [])) one_event

up_to_three : VersionsUpTo 10 3 (event 1 9 OutboxStatus.failed)
up_to_three = λ same kind. (3, ground arith, unfold index_key show_nat in refl)
