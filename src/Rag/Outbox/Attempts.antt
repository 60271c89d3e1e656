-- ===== src/Rag/Outbox/Attempts.antt =====
-- Every delivery counts, and no event is delivered more often than the limit allows.
use mathlib.Core.Path.{subst}
use rag_service.Prelude.{
  Text, text_eq, text_eq_sound, some, ◌⊎◌, ℕ, ◌+◌, ◌≤◌, ◌<◌, true, List, [], ◌∷◌, leb, ◌==◌, ◌≡◌,
  refl, inl, inr, arith, All, All-take, All-select_where, All-modify, Option, none, Bool-cases,
  select,
}
use rag_service.Rag.Model.{
  OutboxStatus, OutboxEvent, Payload, index_payload, delete_payload, malformed,
}
use rag_service.Rag.Indexing.{Exception}
use rag_service.Rag.Exec.{Result, ok, err, err-ne-ok}
use rag_service.Rag.World.{World, Job, index_job, delete_job}
use rag_service.Rag.Outbox.{
  index_document_event, delete_document_event, index_call, delete_call, unknown_call, is_claimable,
  insert_by_id, order_by_id, claim_pending_events, mark_dispatched, mark_failed, job_of, attempt,
  settle, dispatch_event, store_event, dispatch_all, dispatch_outbox,
}

-- An event was attempted at most `max_attempts` times, and fewer while it can still be claimed.
pub record WithinAttempts (max_attempts : ℕ) (e : OutboxEvent) : Type 0 where
  pub bounded : e.dispatch_attempts ≤ max_attempts
  pub claimable : is_claimable e ≡ true → e.dispatch_attempts < max_attempts

ok-inj : {A : Type 0} {a b : A} → ok a ≡ ok b → a ≡ b
ok-inj e = cc

-- The call that an event asks for, by its type and its payload.
pub data Asks (e : OutboxEvent) : Job → Type 0 where
  asks_index :
      (document_id version : ℕ)
      → e.event_type ≡ index_document_event
      → e.payload ≡ index_payload document_id version
      → Asks e (index_job document_id (some version))
  asks_delete :
      (document_id : ℕ)
      → e.event_type ≡ delete_document_event
      → (e.payload ≡ delete_payload document_id)
        ⊎ ((version : ℕ) × (e.payload ≡ index_payload document_id version))
      → Asks e (delete_job document_id)

-- How one delivery ends: with exactly the call that the event asks for, or with no call and one of
-- the two failed states, by the number of attempts.
pub data Outcome (max_attempts : ℕ) (e : OutboxEvent) : OutboxEvent → List Job → Type 0 where
  sent :
      {e' : OutboxEvent} {calls : List Job} (job : Job)
      → Asks e job
      → calls ≡ job ∷ []
      → e'.status ≡ OutboxStatus.dispatched
      → e'.last_error ≡ none
      → Outcome max_attempts e e' calls
  retried :
      {e' : OutboxEvent} {calls : List Job}
      → calls ≡ []
      → e'.status ≡ OutboxStatus.failed
      → e.dispatch_attempts + 1 < max_attempts
      → Outcome max_attempts e e' calls
  given_up :
      {e' : OutboxEvent} {calls : List Job}
      → calls ≡ []
      → e'.status ≡ OutboxStatus.dead
      → max_attempts ≤ e.dispatch_attempts + 1
      → Outcome max_attempts e e' calls

module _ (P : OutboxEvent → Type 0) where
  insert_All :
      (e : OutboxEvent) (es : List OutboxEvent) → P e → All P es → All P (insert_by_id e es)
  unfolding insert_by_id
  insert_All e [] p h = (p, tt)
  insert_All e (x ∷ xs) p h = elim (Bool-cases (leb e.id x.id)) [
    | inl b ↦ rw b (p, h)
    | inr b ↦ rw b (h.0, insert_All e xs p h.1)
  ]

  order_All : (es : List OutboxEvent) → All P es → All P (order_by_id es)
  unfolding order_by_id
  order_All [] h = tt
  order_All (e ∷ es) h = insert_All e (order_by_id es) h.0 (order_All es h.1)

-- What is claimed is claimable, and shares what holds of every row.
pub claimed_All :
    (P : OutboxEvent → Type 0) (limit : ℕ) (w : World)
    → All P w.events
    → All (λ e. P e × (is_claimable e ≡ true)) (claim_pending_events limit w)
unfolding claim_pending_events
claimed_All P limit w h =
    All-take (λ e. P e × (is_claimable e ≡ true)) limit _
      (order_All (λ e. P e × (is_claimable e ≡ true)) (select is_claimable w.events)
        (All-select_where P is_claimable w.events h))

module _ (deliver : Job → Option Exception) (max_attempts : ℕ) (now : ℕ) where
  attempted :
      (e : OutboxEvent) (r : Result Job)
      → ((job : Job) → r ≡ ok job → Asks e job)
      → Outcome max_attempts e
          (settle deliver max_attempts now e r).0
          (settle deliver max_attempts now e r).1
  unfolding settle mark_dispatched mark_failed
  attempted e (ok job) fits = sent job (fits job refl) refl refl refl
  attempted e (err exc) fits = elim (Bool-cases (leb max_attempts (e.dispatch_attempts + 1))) [
    | inl b ↦ rw b (given_up refl refl (ground arith))
    | inr b ↦ rw b (retried refl refl (ground arith))
  ]

  counted :
      (e : OutboxEvent) (r : Result Job)
      → (settle deliver max_attempts now e r).0.dispatch_attempts ≡ e.dispatch_attempts + 1
  unfolding settle mark_dispatched mark_failed
  counted e (ok job) = refl
  counted e (err exc) = refl

  settled_within :
      (e : OutboxEvent) (r : Result Job)
      → e.dispatch_attempts < max_attempts
      → WithinAttempts max_attempts (settle deliver max_attempts now e r).0
  unfolding settle mark_dispatched mark_failed is_claimable
  settled_within e (ok job) h = record { bounded = omega arith; claimable = λ c. cc }
  settled_within e (err exc) h = record { bounded = omega arith; claimable = λ c. ground arith }

  attempt_ok : (r : Result Job) (job : Job) → attempt deliver max_attempts r ≡ ok job → r ≡ ok job
  unfolding attempt
  attempt_ok (err exc) job h = h
  attempt_ok (ok j) job h = ground arith

  index_call-Asks :
      (e : OutboxEvent) (payload : Payload) (job : Job)
      → e.event_type ≡ index_document_event
      → e.payload ≡ payload
      → index_call payload ≡ ok job
      → Asks e job
  unfolding index_call
  index_call-Asks e (index_payload d v) job t p h = subst (Asks e) (ok-inj h) (asks_index d v t p)
  index_call-Asks e (delete_payload d) job t p h = absurd (err-ne-ok h)
  index_call-Asks e malformed job t p h = absurd (err-ne-ok h)

  delete_call-Asks :
      (e : OutboxEvent) (payload : Payload) (job : Job)
      → e.event_type ≡ delete_document_event
      → e.payload ≡ payload
      → delete_call payload ≡ ok job
      → Asks e job
  unfolding delete_call
  delete_call-Asks e (index_payload d v) job t p h =
      subst (Asks e) (ok-inj h) (asks_delete d t (inr (v, p)))
  delete_call-Asks e (delete_payload d) job t p h =
      subst (Asks e) (ok-inj h) (asks_delete d t (inl p))
  delete_call-Asks e malformed job t p h = absurd (err-ne-ok h)

  unknown_call-ne-ok :
      (payload : Payload) (event_type : Text) (job : Job)
      → ¬ (unknown_call payload event_type ≡ ok job)
  unfolding unknown_call
  unknown_call-ne-ok malformed t job h = cc
  unknown_call-ne-ok (index_payload d v) t job h = cc
  unknown_call-ne-ok (delete_payload d) t job h = cc

  job_of-Asks : (e : OutboxEvent) (job : Job) → job_of e ≡ ok job → Asks e job
  unfolding job_of
  job_of-Asks e job h = elim (Bool-cases (text_eq e.event_type index_document_event)) [
    | inl t ↦
        index_call-Asks e e.payload job (text_eq_sound e.event_type index_document_event t) refl
          (rw t at h)
    | inr t ↦ elim (Bool-cases (text_eq e.event_type delete_document_event)) [
      | inl u ↦
          delete_call-Asks e e.payload job (text_eq_sound e.event_type delete_document_event u) refl
            (rw (t, u) at h)
      | inr u ↦ absurd (unknown_call-ne-ok e.payload e.event_type job (rw (t, u) at h))
    ]
  ]

  asked_call : (e : OutboxEvent) (job : Job) → Asks e job → job_of e ≡ ok job
  unfolding job_of index_call delete_call text_eq
  asked_call e job (asks_index d v t p) = rw (t, p) refl
  asked_call e job (asks_delete d t (inl p)) = rw (t, p) refl
  asked_call e job (asks_delete d t (inr (v, p))) = rw (t, p) refl

  delivered :
      (e : OutboxEvent) (job : Job)
      → Asks e job
      → deliver job ≡ none
      → (dispatch_event deliver max_attempts now e).1 ≡ job ∷ []
  unfolding dispatch_event attempt settle
  delivered e job asks takes = rw (asked_call e job asks, attempt, takes)

  -- A delivery ends in one of three ways: the event's own call is made, once, and the event is
  -- DISPATCHED with no error; or no call is made and the event is FAILED, and then the attempts are
  -- still below the limit; or no call is made and it is DEAD, and then they have reached it. Each way
  -- counts one attempt and leaves the limit respected. The call is made where the broker takes it.
  pub dispatch_event-Outcome :
      (e : OutboxEvent)
      → WithinAttempts max_attempts e
      → is_claimable e ≡ true
      → let (e', calls) = dispatch_event deliver max_attempts now e in
        Outcome max_attempts e e' calls
        × (e'.dispatch_attempts ≡ e.dispatch_attempts + 1)
        × WithinAttempts max_attempts e'
        × ((job : Job) → Asks e job → deliver job ≡ none → calls ≡ job ∷ [])
  unfolding dispatch_event
  dispatch_event-Outcome e within claimed = (
    attempted e (attempt deliver max_attempts (job_of e))
        (λ job h. job_of-Asks e job (attempt_ok (job_of e) job h)),
    counted e _,
    settled_within e _ (within.claimable claimed),
    delivered e,
  )

module _ (deliver : Job → Option Exception) (max_attempts : ℕ) where
  store_within :
      (e : OutboxEvent) (o : OutboxEvent × List Job) (w : World)
      → WithinAttempts max_attempts o.0
      → All (WithinAttempts max_attempts) w.events
      → All (WithinAttempts max_attempts) (store_event deliver max_attempts e o w).events
  unfolding store_event
  store_within e (e', calls) w h rows =
      All-modify (WithinAttempts max_attempts) (λ r. r.id == e.id) (λ _. e') w.events (λ r _ _. h)
        rows

  dispatch_all_within :
      (es : List OutboxEvent) (w : World)
      → All (λ e. WithinAttempts max_attempts e × (is_claimable e ≡ true)) es
      → All (WithinAttempts max_attempts) w.events
      → All (WithinAttempts max_attempts) (dispatch_all deliver max_attempts es w).1.events
  unfolding dispatch_all
  dispatch_all_within [] w h rows = rows
  dispatch_all_within (e ∷ es) w h rows =
      let o = dispatch_event deliver max_attempts w.now e in
      dispatch_all_within es (store_event deliver max_attempts e o w) h.1 (
        store_within e o w (dispatch_event-Outcome deliver max_attempts w.now e h.0.0 h.0.1).2 rows)

  -- Whatever the broker answers, a round of the dispatcher keeps the bound: no event was attempted
  -- more than `max_attempts` times, and those that can be claimed again fewer times.
  pub dispatch_outbox-WithinAttempts :
      (limit : ℕ) (w : World)
      → All (WithinAttempts max_attempts) w.events
      → All (WithinAttempts max_attempts) (dispatch_outbox deliver max_attempts limit w).1.events
  unfolding dispatch_outbox
  dispatch_outbox-WithinAttempts limit w rows =
      dispatch_all_within (claim_pending_events limit w) w
        (claimed_All (WithinAttempts max_attempts) limit w rows) rows
