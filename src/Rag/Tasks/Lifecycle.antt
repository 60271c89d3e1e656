-- ===== src/Rag/Tasks/Lifecycle.antt =====
-- An index task leaves no document in PROCESSING: how it ends, and the state it ends in.
use mathlib.Core.Path.{subst}
use rag_service.Prelude.{
  ℕ, ◌≤◌, ◌<◌, Text, true, false, ltb, Option, none, some, pos, ◌≡◌, ◌≢◌, refl, sym, ap, ◌∙◌, ◌⊎◌,
  inl, inr, take, Bool-cases, tests,
}
use rag_service.Rag.Model.{Document, DocumentStatus, same_status}
use rag_service.Rag.Indexing.{
  Exception, is_retryable_index_error, sanitize_index_error, index_retry_countdown,
}
use rag_service.Rag.Exec.{Result}
use rag_service.Rag.Settings.{Settings}
use rag_service.Rag.Services.{Services}
use rag_service.Rag.World.{World, get_live, transaction, stamp}
use rag_service.Rag.World.Live.{close_ok}
use rag_service.Rag.Documents.{
  TaskResult, claimed, is_stale, status_value, claim_index, mark_index_failure,
}
use rag_service.Rag.Documents.Claim.{
  Claimed, claim_version, claim_index_exclusive, mark_index_failure_guarded,
}
use rag_service.Rag.Documents.Content.Stored.{IndexOutcome, undone, stored, index_claimed_outcome}
use rag_service.Rag.Tasks.{
  Ending, returned, retried, raised, handle_failure, after_index, after_claim, index_document,
}

module _ (services : Services) (settings : Settings) (retries : ℕ) where
  -- The end of a task that claimed its document, and the document that it leaves.
  pub data TaskOutcome (d' : Document) : Ending → Type 0 where
    indexed :
        d'.status ≡ DocumentStatus.ready
        → d'.error_message ≡ none
        → TaskOutcome d' (returned (status_value DocumentStatus.ready))
    waiting :
        (exc : Exception)
        → is_retryable_index_error exc ≡ true
        → retries < settings.index_max_retries
        → d'.status ≡ DocumentStatus.pending
        → d'.error_message ≡ some (take 512 (sanitize_index_error exc))
        → TaskOutcome d' (
            retried exc
              (index_retry_countdown (pos retries) (pos settings.index_retry_backoff_max_seconds)))
    exhausted :
        (exc : Exception)
        → is_retryable_index_error exc ≡ true
        → settings.index_max_retries ≤ retries
        → d'.status ≡ DocumentStatus.failed
        → d'.error_message ≡ some (take 512 (sanitize_index_error exc))
        → TaskOutcome d' (raised exc)
    rejected :
        (exc : Exception)
        → is_retryable_index_error exc ≡ false
        → d'.status ≡ DocumentStatus.failed
        → d'.error_message ≡ some (take 512 (sanitize_index_error exc))
        → TaskOutcome d' (returned (status_value DocumentStatus.failed))

  abbrev pub FailureOutcome : ℕ → Document → Ending × World → Type 0
  FailureOutcome pk d (ending, w') =
      (d' : Document) × (get_live pk w' ≡ some d')
      × (d'.index_version ≡ d.index_version)
      × TaskOutcome d' ending

  marked :
      (pk : ℕ) (d : Document) (w : World) (status : DocumentStatus) (message : Text)
      → get_live pk w ≡ some d
      → d.status ≡ DocumentStatus.processing
      → (status ≡ DocumentStatus.pending) ⊎ (status ≡ DocumentStatus.failed)
      → let w' = (transaction (mark_index_failure pk d.index_version status message) w).1 in
        get_live pk w'
        ≡ some (record d {
          status = status;
          error_message = some (take 512 message);
          updated_time =
              stamp w.now d (record d { status = status; error_message = some (take 512 message) });
        })
  unfolding transaction
  marked pk d w status message e running fits =
      elim (mark_index_failure_guarded pk d.index_version status message w d e fits) [
        | inl (_, done, live) ↦
            ap (get_live pk)
              (close_ok w.db (mark_index_failure pk d.index_version status message w) true done)
            ∙ live
        | inr (not_so, _, _) ↦ absurd (
            not_so (
              refl,
              rw running (unfold same_status in refl),
              rw running (unfold same_status in refl),
            ))
      ]

  failure_outcome :
      (pk : ℕ) (d : Document) (w : World) (exc : Exception)
      → get_live pk w ≡ some d
      → d.status ≡ DocumentStatus.processing
      → FailureOutcome pk d (handle_failure services settings retries pk d.index_version exc w)
  unfolding handle_failure
  failure_outcome pk d w exc e running = elim (Bool-cases (is_retryable_index_error exc)) [
    | inr permanent ↦ rw permanent (
      _,
      marked pk d w DocumentStatus.failed (sanitize_index_error exc) e running (inr refl),
      refl,
      rejected exc permanent refl refl,
    )
    | inl transient ↦ elim (Bool-cases (ltb retries settings.index_max_retries)) [
      | inl more ↦
          rw (transient, more)
            (
              _,
              marked pk d w DocumentStatus.pending (sanitize_index_error exc) e running (inl refl),
              refl,
              waiting exc transient (omega tests) refl refl,
            )
      | inr last ↦
          rw (transient, last)
            (
              _,
              marked pk d w DocumentStatus.failed (sanitize_index_error exc) e running (inr refl),
              refl,
              exhausted exc transient (omega tests) refl refl,
            )
    ]
  ]

  indexed_outcome :
      (pk : ℕ) (d : Document) (w : World) (r : Result TaskResult × World)
      → get_live pk w ≡ some d
      → d.status ≡ DocumentStatus.processing
      → IndexOutcome services settings pk d w r
      → FailureOutcome pk d (after_index services settings retries pk d.index_version r)
  unfolding after_index
  indexed_outcome pk d w r e running (undone exc) = failure_outcome pk d w exc e running
  indexed_outcome pk d w r e running (stored p content d' w' _ _ live done _ _) =
      (d', live, done.version, indexed done.ready done.no_error)

  claimed_outcome :
      (pk : ℕ) (iv : Option ℕ) (w w' : World) (c : Claimed pk iv w w')
      → FailureOutcome pk c.document
          (after_claim services settings retries pk ((claimed, some c.document.index_version), w'))
  unfolding after_claim
  claimed_outcome pk iv w w' c =
      let d1 = record c.document {
        status = DocumentStatus.processing;
        error_message = none;
        updated_time = some w.now;
      } in
      let (d', live, version, outcome) =
        indexed_outcome pk d1 w' _ c.taken refl
          (index_claimed_outcome services settings pk w' d1 c.taken refl) in
      (d', live, version, outcome)

  after_lost :
      (pk : ℕ) (r : TaskResult) (v : Option ℕ) (w : World)
      → r ≢ claimed
      → after_claim services settings retries pk ((r, v), w) ≡ (returned r, w)
  unfolding after_claim
  after_lost pk claimed v w h = absurd (h refl)
  after_lost pk _ v w h = refl

  after_won :
      (pk : ℕ) (p : (TaskResult × Option ℕ) × World) (v : ℕ)
      → p.0.0 ≡ claimed
      → p.0.1 ≡ some v
      → after_claim services settings retries pk p
        ≡ after_claim services settings retries pk ((claimed, some v), p.1)
  after_won pk ((r, o), w) v e f = rw (e, f)

  -- An index task either does not get its claim, and then returns why and changes nothing; or it
  -- claims a live document that was PENDING in the version of the request, and leaves it, in the same
  -- version, READY with no error, or PENDING with a retry after a transient error while retries are
  -- left, or FAILED, with the exception raised again after a transient error and the text FAILED
  -- returned after a permanent one; each failure leaves its sanitized summary. It is never left
  -- PROCESSING.
  pub index_document_outcome :
      (pk : ℕ) (index_version : Option ℕ) (w : World)
      → ((r : TaskResult) × (r ≢ claimed)
          × (index_document services settings retries pk index_version w ≡ (returned r, w)))
        ⊎ ((d : Document) × (get_live pk w ≡ some d)
            × (d.status ≡ DocumentStatus.pending)
            × (is_stale index_version d.index_version ≡ false)
            × FailureOutcome pk d (index_document services settings retries pk index_version w))
  unfolding index_document
  index_document_outcome pk iv w =
      let claim = claim_index pk iv w in
      elim (claim_index_exclusive pk iv w) [
        | inr (lost, same) ↦ inl (
          claim.0.0,
          lost,
          after_lost pk claim.0.0 claim.0.1 claim.1 lost
              ∙ ap (λ (x : World). (returned claim.0.0, x)) same,
        )
        | inl (won, c, _) ↦ inr (
          c.document,
          c.found,
          c.waiting,
          c.current,
          subst (FailureOutcome pk c.document)
              (sym (
                after_won pk claim c.document.index_version won
                  (claim_version pk iv w c.document c.found)))
              (claimed_outcome pk iv w claim.1 c),
        )
      ]
