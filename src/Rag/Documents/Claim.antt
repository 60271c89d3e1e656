-- ===== src/Rag/Documents/Claim.antt =====
-- The claim of a document by an index task, and the marks of a failed one: only the current
-- version is touched, and only in the states from which the state machine allows it.
use rag_service.Prelude.{
  ℕ, Text, true, false, ◌||◌, ◌==◌, take, Option, none, some, ◌≡◌, ◌≢◌, refl, ap, ◌∙◌, arith, ◌⊎◌,
  inl, inr, Bool-cases,
}
use rag_service.Rag.Model.{Document, DocumentStatus, same_status}
use rag_service.Rag.Exec.{ok}
use rag_service.Rag.World.{World, get_live, update_document, stamp}
use rag_service.Rag.World.Live.{touched, live_updated, stamp_changed}
use rag_service.Rag.Documents.{
  TaskResult, claimed, is_stale, status_claim, set_claimed, finish_claim, claim_document,
  claim_index, fail_document, set_failure, mark_index_failure,
}

-- What a claim found and did.
pub record Claimed (document_id : ℕ) (index_version : Option ℕ) (w w' : World) : Type 0 where
  pub document : Document
  pub found : get_live document_id w ≡ some document
  pub waiting : document.status ≡ DocumentStatus.pending
  pub current : is_stale index_version document.index_version ≡ false
  pub taken :
      get_live document_id w'
      ≡ some (record document {
        status = DocumentStatus.processing;
        error_message = none;
        updated_time = some w.now;
      })

-- A claim succeeds at PENDING only, and writes only when it succeeds.
finish_cases :
    (d : Document) (s : DocumentStatus) (w : World)
    → let ((r, _), w') = finish_claim d (status_claim s) w in
      ((r ≡ claimed) × (s ≡ DocumentStatus.pending) × (w' ≡ update_document d.id set_claimed w))
      ⊎ ((r ≢ claimed) × (s ≢ DocumentStatus.pending) × (w' ≡ w))
unfolding finish_claim status_claim
finish_cases d DocumentStatus.pending w = inl (refl, refl, refl)
finish_cases d DocumentStatus.ready w = inr (λ e. cc, λ e. cc, refl)
finish_cases d DocumentStatus.processing w = inr (λ e. cc, λ e. cc, refl)
finish_cases d DocumentStatus.failed w = inr (λ e. cc, λ e. cc, refl)
finish_cases d DocumentStatus.deleting w = inr (λ e. cc, λ e. cc, refl)

taken_lem :
    (document_id : ℕ) (w : World) (d : Document)
    → get_live document_id w ≡ some d
    → get_live document_id (update_document d.id set_claimed w) ≡ some (touched w.now set_claimed d)
unfolding set_claimed
taken_lem pk w d e = live_updated pk set_claimed w d (λ x. (refl, refl)) e

-- Either the claim succeeds, of a live document that is PENDING in the version asked for, which is
-- then PROCESSING and has no error; or it fails, the state is the same, and there is no such document.
abbrev pub ClaimOutcome : ℕ → Option ℕ → World → TaskResult → World → Type 0
ClaimOutcome document_id index_version w r w' =
    ((r ≡ claimed) × Claimed document_id index_version w w') ⊎ ((r ≢ claimed) × (w' ≡ w))

claim_cases :
    (document_id : ℕ) (index_version : Option ℕ) (w : World) (found : Option Document)
    → get_live document_id w ≡ found
    → let ((r, _), w') = claim_document index_version found w in
      ClaimOutcome document_id index_version w r w'
unfolding claim_document
claim_cases pk iv w none e = inr (λ h. cc, refl)
claim_cases pk iv w (some d) e = elim (Bool-cases (is_stale iv d.index_version)) [
  | inl old ↦ rw old (inr (λ h. cc, refl))
  | inr new ↦ rw new (elim (finish_cases d d.status w) [
    | inl (done, waiting, next) ↦ inl (
      done,
      record {
        document = d;
        found = e;
        waiting = waiting;
        current = new;
        taken =
            ap (get_live pk) next
            ∙ (unfold set_claimed in
                taken_lem pk w d e
                ∙ ap
                    (λ u. some (record d {
                      status = DocumentStatus.processing;
                      error_message = none;
                      updated_time = u;
                    }))
                    (stamp_changed w.now d (set_claimed d)
                      (rw waiting (unfold same_status in refl))));
      },
    )
    | inr (refused, _, same) ↦ inr (refused, same)
  ])
]

processing_not_claimed :
    (d : Document) (other : Option ℕ) (w : World)
    → d.status ≡ DocumentStatus.processing
    → (claim_document other (some d) w).0.0 ≢ claimed
unfolding claim_document finish_claim status_claim
processing_not_claimed d other w e h = ground arith

no_second_claim :
    (pk : ℕ) (iv : Option ℕ) (w w' : World)
    → Claimed pk iv w w'
    → (other : Option ℕ) → (claim_document other (get_live pk w') w').0.0 ≢ claimed
no_second_claim pk iv w w' c other = rw c.taken (processing_not_claimed _ other w' refl)

-- A claim either succeeds, of a live document that is PENDING and in the version asked for, which is
-- PROCESSING with no error afterwards, and then no claim of that document succeeds in the state that
-- is left, for any version and with no version; or it fails and the state is unchanged.
pub claim_index_exclusive :
    (document_id : ℕ) (index_version : Option ℕ) (w : World)
    → let ((r, _), w') = claim_index document_id index_version w in
      ((r ≡ claimed)
        × Claimed document_id index_version w w'
        × ((other : Option ℕ) → (claim_index document_id other w').0.0 ≢ claimed))
      ⊎ ((r ≢ claimed) × (w' ≡ w))
unfolding claim_index
claim_index_exclusive pk iv w = elim (claim_cases pk iv w (get_live pk w) refl) [
  | inl (won, c) ↦ inl (won, c, no_second_claim pk iv w _ c)
  | inr (lost, same) ↦ inr (lost, same)
]

-- The documents that a failure mark may change: of the version that failed, and in a state from
-- which a failure is possible.
abbrev pub MayFail : ℕ → Document → Type 0
MayFail index_version d =
    (d.index_version ≡ index_version)
    × (same_status d.status DocumentStatus.ready ≡ false)
    × (same_status d.status DocumentStatus.deleting ≡ false)

mark_cases :
    (document_id index_version : ℕ) (status : DocumentStatus) (message : Text) (w : World)
    (d : Document)
    → get_live document_id w ≡ some d
    → let (marked, w') = fail_document index_version status message (get_live document_id w) w in
      (MayFail index_version d
        × (ok marked ≡ ok true)
        × (get_live document_id w' ≡ some (touched w.now (set_failure status message) d)))
      ⊎ ((¬ MayFail index_version d) × (ok marked ≡ ok false) × (w' ≡ w))
unfolding fail_document
mark_cases pk v status m w d e = elim (Bool-cases (d.index_version == v)) [
  | inr old ↦ rw (e, fail_document, old) (inr (λ may. ground arith, refl, refl))
  | inl same ↦
      elim (Bool-cases (
        same_status d.status DocumentStatus.ready
        || same_status d.status DocumentStatus.deleting)) [
          | inl final ↦ rw (e, fail_document, same, final) (inr (λ may. ground arith, refl, refl))
          | inr open_state ↦
              rw (e, fail_document, same, open_state)
                (inl (
                  (ground arith, ground arith, ground arith),
                  refl,
                  live_updated pk (set_failure status m) w d (λ x. (refl, refl)) e,
                ))
        ]
]

-- Recording a failure of a live document, with PENDING or FAILED: where the document is of the
-- version that failed and neither READY nor DELETING, it gets that status and the first 512 code
-- points of the message, and the answer is true; otherwise the state is unchanged and the answer is
-- false.
pub mark_index_failure_guarded :
    (document_id index_version : ℕ) (status : DocumentStatus) (message : Text) (w : World)
    (d : Document)
    → get_live document_id w ≡ some d
    → (status ≡ DocumentStatus.pending) ⊎ (status ≡ DocumentStatus.failed)
    → let (r, w') = mark_index_failure document_id index_version status message w in
      (MayFail index_version d
        × (r ≡ ok true)
        × (get_live document_id w'
            ≡ some (record d {
              status = status;
              error_message = some (take 512 message);
              updated_time =
                  stamp w.now d
                    (record d { status = status; error_message = some (take 512 message) });
            })))
      ⊎ ((¬ MayFail index_version d) × (r ≡ ok false) × (w' ≡ w))
unfolding mark_index_failure same_status
mark_index_failure_guarded pk v DocumentStatus.pending m w d e fits =
    mark_cases pk v DocumentStatus.pending m w d e
mark_index_failure_guarded pk v DocumentStatus.failed m w d e fits =
    mark_cases pk v DocumentStatus.failed m w d e
mark_index_failure_guarded pk v _ m w d e fits = elim fits [ inl p ↦ cc | inr p ↦ cc ]

finish_version :
    (d : Document) (s : DocumentStatus) (w : World)
    → (finish_claim d (status_claim s) w).0.1 ≡ some d.index_version
unfolding finish_claim status_claim
finish_version d DocumentStatus.pending w = refl
finish_version d _ w = refl

-- A claim of a live document reports its version.
pub claim_version :
    (document_id : ℕ) (index_version : Option ℕ) (w : World) (d : Document)
    → get_live document_id w ≡ some d
    → (claim_index document_id index_version w).0.1 ≡ some d.index_version
unfolding claim_index claim_document
claim_version pk iv w d e = elim (Bool-cases (is_stale iv d.index_version)) [
  | inl old ↦ rw (e, claim_document, old)
  | inr new ↦ rw (e, claim_document, new) (finish_version d d.status w)
]
