-- ===== src/Rag/Outbox/Claims.antt =====
-- A round of the dispatcher touches only events that are PENDING or FAILED.
use rag_service.Prelude.{
  ℕ, true, false, List, [], ◌∷◌, ◌==◌, ◌≡◌, ◌≢◌, refl, sym, ◌∙◌, arith, All, find, find-modify_ne,
  Option, some, Unique, Unique-find,
}
use rag_service.Rag.Model.{OutboxEvent}
use rag_service.Rag.Indexing.{Exception}
use rag_service.Rag.Exec.{Result, ok, err}
use rag_service.Rag.World.{World, Job}
use rag_service.Rag.Outbox.{
  is_claimable, claim_pending_events, settle, mark_dispatched, mark_failed, dispatch_event,
  store_event, dispatch_all, dispatch_outbox,
}
use rag_service.Rag.Outbox.Attempts.{claimed_All}

-- `db.get(OutboxEvent, id)`
abbrev pub event_by_id : ℕ → World → Option OutboxEvent
event_by_id id w = find (λ r. r.id == id) w.events

abbrev event_id : OutboxEvent → ℕ
event_id e = e.id

claimed_is_other :
    (w : World) (e r : OutboxEvent)
    → event_by_id e.id w ≡ some e
    → is_claimable e ≡ false
    → event_by_id r.id w ≡ some r
    → is_claimable r ≡ true
    → ¬ (r.id ≡ e.id)
claimed_is_other w e r found settled itself claimed same =
    let e' : event_by_id e.id w ≡ some r = rw (← same) itself in
    let eq : some e ≡ some r = sym found ∙ e' in cc (claimed, settled, eq)

module _ (deliver : Job → Option Exception) (max_attempts : ℕ) where
  store_other :
      (id : ℕ) (e : OutboxEvent) (o : OutboxEvent × List Job) (w : World)
      → e.id ≢ id
      → o.0.id ≡ e.id
      → event_by_id id (store_event deliver max_attempts e o w) ≡ event_by_id id w
  unfolding store_event
  store_other id e (e', calls) w ne same =
      find-modify_ne (λ r. r.id == e.id) (λ r. r.id == id) (λ _. e') w.events (λ r h. ground arith)
        (λ r h. ground arith)

  settle_id :
      (now : ℕ) (e : OutboxEvent) (r : Result Job)
      → (settle deliver max_attempts now e r).0.id ≡ e.id
  unfolding settle mark_dispatched mark_failed
  settle_id now e (ok job) = refl
  settle_id now e (err exc) = refl

  dispatch_event_id :
      (now : ℕ) (e : OutboxEvent) → (dispatch_event deliver max_attempts now e).0.id ≡ e.id
  unfolding dispatch_event
  dispatch_event_id now e = settle_id now e _

  dispatch_all_other :
      (id : ℕ) (es : List OutboxEvent) (w : World)
      → All (λ e. e.id ≢ id) es
      → event_by_id id (dispatch_all deliver max_attempts es w).1 ≡ event_by_id id w
  unfolding dispatch_all
  dispatch_all_other id [] w h = refl
  dispatch_all_other id (e ∷ es) w h =
      let o = dispatch_event deliver max_attempts w.now e in
      dispatch_all_other id es (store_event deliver max_attempts e o w) h.1
      ∙ store_other id e o w h.0 (dispatch_event_id w.now e)

  -- Where primary keys are unique, a round leaves every event that is DISPATCHED or DEAD as it is:
  -- what is delivered is not delivered again, and what is given up takes no place in a batch.
  pub settled_event_untouched :
      (limit : ℕ) (w : World) (e : OutboxEvent)
      → Unique event_id w.events
      → event_by_id e.id w ≡ some e
      → is_claimable e ≡ false
      → event_by_id e.id (dispatch_outbox deliver max_attempts limit w).1 ≡ some e
  unfolding dispatch_outbox
  settled_event_untouched limit w e unique found settled =
      dispatch_all_other e.id (claim_pending_events limit w) w (
        others (claim_pending_events limit w) (
          claimed_All (λ r. event_by_id r.id w ≡ some r) limit w
            (Unique-find event_id w.events unique)))
      ∙ found
    where
      others :
          (es : List OutboxEvent)
          → All (λ r. (event_by_id r.id w ≡ some r) × (is_claimable r ≡ true)) es
          → All (λ r. r.id ≢ e.id) es
      others [] h = tt
      others (r ∷ es) h =
          (λ same. claimed_is_other w e r found settled h.0.0 h.0.1 same, others es h.1)
