-- ===== src/Rag/Outbox.antt =====
-- backend/app/rag/service/outbox_service.py, and the dispatch task of
-- backend/app/task/tasks/rag/tasks.py.
pub mod Attempts
pub mod Enqueue
pub mod Claims
use rag_service.Prelude.{
  ℕ, suc, ◌+◌, Text, codes, show_nat, text_eq, Bool, true, false, ◌&&◌, ◌||◌, List, [], ◌∷◌, ◌++◌,
  take, leb, ◌==◌, if◌then◌else◌, Option, none, some, find, select, modify,
}
use rag_service.Rag.Model.{
  OutboxStatus, OutboxEvent, Payload, index_payload, delete_payload, malformed,
}
use rag_service.Rag.Indexing.{Exception, value_error, other_error, sanitize_dispatch_error}
use rag_service.Rag.Exec.{Result, ok, err}
use rag_service.Rag.World.{World, Db, Job, index_job, delete_job}

abbrev pub index_document_event : Text
index_document_event = codes "rag.document.index.requested"

abbrev pub delete_document_event : Text
delete_document_event = codes "rag.document.delete.requested"

-- The WHERE clause of both queries for an event that is there.
unfoldable pub same_event : Text → ℕ → Text → OutboxEvent → Bool
same_event event_type aggregate_id dedupe_key e =
    text_eq e.event_type event_type
    && (e.aggregate_id == aggregate_id && text_eq e.dedupe_key dedupe_key)

-- `OutboxEvent(…)`, with the defaults of its columns and the key that the flush gives it.
new_event : ℕ → Text → ℕ → Payload → Text → OutboxEvent
new_event id event_type aggregate_id payload dedupe_key = record {
  id = id;
  event_type = event_type;
  aggregate_id = aggregate_id;
  payload = payload;
  dedupe_key = dedupe_key;
  status = OutboxStatus.pending;
  dispatch_attempts = 0;
  last_error = none;
  dispatched_time = none;
}

-- `db.add(event)` and `db.flush()`
add_event : (ℕ → OutboxEvent) → World → OutboxEvent × World
add_event event w = (
  event w.next_id,
  record w {
    db = record w.db { events = w.events ++ event w.next_id ∷ []; next_id = w.next_id + 1 };
  },
)

-- `if event: return event`, and else `event` is added.
reuse_or_add : Option OutboxEvent → (ℕ → OutboxEvent) → World → OutboxEvent × World
unfolding add_event
reuse_or_add (some found) event w = (found, w)
reuse_or_add none event w = add_event event w

-- The part that both functions share, in the same words.
get_or_add : Text → ℕ → Payload → Text → World → OutboxEvent × World
unfolding new_event reuse_or_add
get_or_add event_type aggregate_id payload dedupe_key w =
    reuse_or_add (find (same_event event_type aggregate_id dedupe_key) w.events)
      (λ id. new_event id event_type aggregate_id payload dedupe_key) w

-- `f'{document_id}:{index_version}'`
unfoldable pub index_key : ℕ → ℕ → Text
index_key document_id index_version = show_nat document_id ++ (codes ":" ++ show_nat index_version)

unfoldable pub enqueue_document_index : ℕ → ℕ → World → OutboxEvent × World
unfolding get_or_add index_key
enqueue_document_index document_id index_version =
    get_or_add index_document_event document_id (index_payload document_id index_version)
      (index_key document_id index_version)

unfoldable pub enqueue_document_delete : ℕ → World → OutboxEvent × World
unfolding get_or_add
enqueue_document_delete document_id =
    get_or_add delete_document_event document_id (delete_payload document_id) (show_nat document_id)

-- `status.in_([OutboxStatus.PENDING, OutboxStatus.FAILED])`
unfoldable pub is_claimable : OutboxEvent → Bool
is_claimable e = elim e.status [
  | OutboxStatus.pending ↦ true
  | OutboxStatus.failed ↦ true
  | _ ↦ false
]

abbrev pub is_dispatched : OutboxEvent → Bool
is_dispatched e = elim e.status [ OutboxStatus.dispatched ↦ true | _ ↦ false ]

insert_by_id : OutboxEvent → List OutboxEvent → List OutboxEvent
insert_by_id e [] = e ∷ []
insert_by_id e (x ∷ xs) = if leb e.id x.id then e ∷ x ∷ xs else x ∷ insert_by_id e xs

-- `.order_by(OutboxEvent.id)`
order_by_id : List OutboxEvent → List OutboxEvent
unfolding insert_by_id
order_by_id [] = []
order_by_id (e ∷ es) = insert_by_id e (order_by_id es)

unfoldable pub claim_pending_events : ℕ → World → List OutboxEvent
unfolding order_by_id is_claimable
claim_pending_events limit w = take limit (order_by_id (select is_claimable w.events))

unfoldable pub mark_dispatched : ℕ → OutboxEvent → OutboxEvent
mark_dispatched now event = record event {
  status = OutboxStatus.dispatched;
  dispatch_attempts = event.dispatch_attempts + 1;
  last_error = none;
  dispatched_time = some now;
}

unfoldable pub mark_failed : Exception → ℕ → OutboxEvent → OutboxEvent
mark_failed exc max_attempts event =
    let attempts = event.dispatch_attempts + 1 in
    record event {
      dispatch_attempts = attempts;
      status = if leb max_attempts attempts then OutboxStatus.dead else OutboxStatus.failed;
      last_error = some (take 512 (sanitize_dispatch_error exc));
    }

-- The task call of an event: `json.loads`, the test of the type, and the keys of the payload.
index_call : Payload → Result Job
index_call (index_payload document_id index_version) =
    ok (index_job document_id (some index_version))
index_call (delete_payload document_id) =
    err (other_error (codes "KeyError") (codes "'index_version'"))
index_call malformed = err (value_error [])

delete_call : Payload → Result Job
delete_call (index_payload document_id index_version) = ok (delete_job document_id)
delete_call (delete_payload document_id) = ok (delete_job document_id)
delete_call malformed = err (value_error [])

unknown_call : Payload → Text → Result Job
unknown_call malformed event_type = err (value_error [])
unknown_call _ event_type = err (value_error (codes "不支持的 Outbox 事件类型: " ++ event_type))

pub job_of : OutboxEvent → Result Job
unfolding index_call delete_call unknown_call
job_of event =
    if text_eq event.event_type index_document_event
    then index_call event.payload
    else if text_eq event.event_type delete_document_event
    then delete_call event.payload
    else unknown_call event.payload event.event_type

-- `deliver` says whether the broker takes a call of `.delay`, or what that call raises.
module _ (deliver : Job → Option Exception) (max_attempts : ℕ) where
  -- The body of the `try`: the call that was made, or what was raised.
  attempt : Result Job → Result Job
  attempt (err exc) = err exc
  attempt (ok job) = elim (deliver job) [ none ↦ ok job | some exc ↦ err exc ]

  -- The event behind the `try` and its `except`, and the calls that were made.
  settle : ℕ → OutboxEvent → Result Job → OutboxEvent × List Job
  unfolding mark_dispatched mark_failed
  settle now event (ok job) = (mark_dispatched now event, job ∷ [])
  settle now event (err exc) = (mark_failed exc max_attempts event, [])

  pub dispatch_event : ℕ → OutboxEvent → OutboxEvent × List Job
  unfolding job_of attempt settle
  dispatch_event now event = settle now event (attempt (job_of event))

  -- One round of the loop of `dispatch_outbox`: the row of the event is what `_dispatch_event` makes
  -- of it.
  store_event : OutboxEvent → OutboxEvent × List Job → World → World
  store_event event (event', calls) w = record w {
    db = record w.db { events = modify (λ r. r.id == event.id) (λ _. event') w.events };
    queue = w.queue ++ calls;
  }

  -- The loop, and the number of its events that are DISPATCHED at the end.
  dispatch_all : List OutboxEvent → World → ℕ × World
  unfolding dispatch_event store_event
  dispatch_all [] w = (0, w)
  dispatch_all (event ∷ events) w =
      let outcome = dispatch_event w.now event in
      let (n, w') = dispatch_all events (store_event event outcome w) in
      (if is_dispatched outcome.0 then suc n else n, w')

  unfoldable pub dispatch_outbox : ℕ → World → ℕ × World
  unfolding dispatch_all claim_pending_events
  dispatch_outbox limit w = dispatch_all (claim_pending_events limit w) w
