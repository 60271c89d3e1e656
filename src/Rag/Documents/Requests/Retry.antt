-- ===== src/Rag/Documents/Requests/Retry.antt =====
-- A manual retry: a new version with its own request, and what it does to older tasks and to a
-- deletion that is under way.
use mathlib.Core.Path.{subst}
use rag_service.Prelude.{
  ℕ, ◌+◌, Text, Bool, true, false, List, [], ◌∷◌, ◌++◌, none, some, ◌≡◌, refl, sym, ap, ◌∙◌, arith,
  All, ◌==◌, find,
}
use rag_service.Rag.Model.{Document, DocumentStatus, OutboxStatus, OutboxEvent, Payload}
use rag_service.Rag.Exec.{ok}
use rag_service.Rag.World.{World, get_live, is_live, update_document}
use rag_service.Rag.World.Live.{live_updated, touched, live_id}
use rag_service.Rag.Outbox.{enqueue_document_index}
use rag_service.Rag.Outbox.Enqueue.{VersionsUpTo, enqueue_new_version}
use rag_service.Rag.Profiles.{get_or_create_index_profile, profile_frame}
use rag_service.Rag.Documents.{stale_index_request, get_document, claim_index, claim_document}
use rag_service.Rag.Documents.Requests.{retry_document, retry_row, set_retried}

module _ (profile_hash : Text) where
  -- What a retry of `d` leaves.
  pub record Retried (pk : ℕ) (d : Document) (w w' : World) : Type 0 where
    pub document : Document
    pub live : get_live pk w' ≡ some document
    pub pending : document.status ≡ DocumentStatus.pending
    pub no_error : document.error_message ≡ none
    pub next_version : document.index_version ≡ d.index_version + 1
    pub event : OutboxEvent
    pub requested : w'.events ≡ w.events ++ event ∷ []
    pub undelivered : event.status ≡ OutboxStatus.pending
    pub asks : event.payload ≡ Payload.index_payload pk (d.index_version + 1)

  retry_row_lem :
      (pk : ℕ) (d : Document) (w : World)
      → get_live pk w ≡ some d
      → d.id ≡ pk
      → All (VersionsUpTo d.id d.index_version) w.events
      → Retried pk d w (retry_row profile_hash w (ok d)).1
  unfolding retry_row update_document get_live
  retry_row_lem pk d w e key bound =
      let (profile, w1) = get_or_create_index_profile profile_hash w in
      let (docs, events, _) = profile_frame profile_hash w in
      let f = set_retried profile.id in
      let w2 = update_document d.id f w1 in
      let bound1 : All (VersionsUpTo d.id d.index_version) w2.events =
        subst (All (VersionsUpTo d.id d.index_version)) (sym events) bound in
      let fresh =
        enqueue_new_version d.id d.index_version (d.index_version + 1) w2 (omega arith) bound1 in
      let live1 : get_live pk w1 ≡ some d = ap (find (is_live pk)) docs ∙ e in
      record {
        document = touched w1.now f d;
        live = ap (find (is_live pk)) fresh.3 ∙ live_updated pk f w1 d (λ x. (refl, refl)) live1;
        pending = refl;
        no_error = refl;
        next_version = refl;
        event = (enqueue_document_index d.id (d.index_version + 1) w2).0;
        requested =
            fresh.2
            ∙ ap
                (λ (es : List OutboxEvent).
                  es ++ (enqueue_document_index d.id (d.index_version + 1) w2).0 ∷ [])
                events;
        undelivered = fresh.0;
        asks = fresh.1 ∙ ap (λ (n : ℕ). Payload.index_payload n (d.index_version + 1)) key;
      }

  stale_claim :
      (pk : ℕ) (w w' : World) (d : Document)
      → Retried pk d w w'
      → (claim_index pk (some d.index_version) w').0.0 ≡ stale_index_request
  unfolding claim_index claim_document
  stale_claim pk w w' d r =
      let differ : (r.document.index_version == d.index_version) ≡ false =
        ground (arith, r.next_version) in
      rw (r.live, differ)

  -- A retry by a caller who may write to the base, of a document that its primary key finds and
  -- whose index requests are for versions up to its own: the document is PENDING with no error in
  -- the next version, one PENDING request for exactly that version is added to the outbox, and a
  -- task for the old version gets `stale_index_request` from now on.
  pub retry_document_lem :
      (kb_id pk user_id : ℕ) (is_admin : Bool) (w : World) (d : Document)
      → get_document kb_id pk user_id is_admin true w ≡ ok d
      → get_live pk w ≡ some d
      → All (VersionsUpTo pk d.index_version) w.events
      → let w' = (retry_document profile_hash kb_id pk user_id is_admin w).1 in
        Retried pk d w w' × ((claim_index pk (some d.index_version) w').0.0 ≡ stale_index_request)
  unfolding retry_document
  retry_document_lem kb_id pk user_id is_admin w d may e bound =
      let (key, _) = live_id pk w d e in
      let own : All (VersionsUpTo d.id d.index_version) w.events =
        subst (λ k. All (VersionsUpTo k d.index_version) w.events) (sym key) bound in
      let done = retry_row_lem pk d w e key own in rw may (done, stale_claim pk w _ d done)
