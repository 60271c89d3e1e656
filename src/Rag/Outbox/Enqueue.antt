-- ===== src/Rag/Outbox/Enqueue.antt =====
-- Enqueueing twice is enqueueing once, and the outbox holds one event for each request.
use rag_service.Prelude.{
  ℕ, Text, codes, show_nat, show_nat-injective, append_cancel, text_eq, text_eq_refl, text_eq_sound,
  text_eq_comm, text_eq-false, find-none, find_absent, ◌≤◌, ◌<◌, true, false, List, [], ◌∷◌, ◌++◌,
  ◌==◌, ==_refl, ==_iff, sym, Bool-cases, ◌≡◌, refl, ◌∙◌, arith, All, All-append, find, find-append,
  find-append_some, find_sound, Option, none, some, inl, inr,
}
use rag_service.Rag.Model.{OutboxStatus, OutboxEvent, Payload}
use rag_service.Rag.World.{World}
use rag_service.Rag.Outbox.{
  same_event, new_event, add_event, reuse_or_add, get_or_add, index_key, enqueue_document_index,
  enqueue_document_delete, index_document_event, delete_document_event,
}

module _ (event_type : Text) (aggregate_id : ℕ) (payload : Payload) (dedupe_key : Text) where
  new_event-same :
      (id : ℕ)
      → same_event event_type aggregate_id dedupe_key
          (new_event id event_type aggregate_id payload dedupe_key)
        ≡ true
  unfolding same_event new_event
  new_event-same id = rw (text_eq_refl event_type, ==_refl aggregate_id, text_eq_refl dedupe_key)

  -- Enqueueing what is there gives the event that is there, and changes nothing.
  again :
      (found : Option OutboxEvent) (w : World)
      → find (same_event event_type aggregate_id dedupe_key) w.events ≡ found
      → let (e, w') =
          reuse_or_add found (λ id. new_event id event_type aggregate_id payload dedupe_key) w in
        find (same_event event_type aggregate_id dedupe_key) w'.events ≡ some e
  unfolding reuse_or_add add_event find
  again (some e) w h = h
  again none w h = find-append _ w.events _ h ∙ (rw (new_event-same w.next_id))

  get_or_add_twice :
      (w : World)
      → let (e, w') = get_or_add event_type aggregate_id payload dedupe_key w in
        get_or_add event_type aggregate_id payload dedupe_key w' ≡ (e, w')
  unfolding get_or_add
  get_or_add_twice w =
      rw (again (find (same_event event_type aggregate_id dedupe_key) w.events) w refl)
        (unfold reuse_or_add in refl)

get_or_add_absent :
    (t : Text) (a : ℕ) (p : Payload) (k : Text) (w : World)
    → find (same_event t a k) w.events ≡ none
    → get_or_add t a p k w ≡ add_event (λ id. new_event id t a p k) w
unfolding get_or_add reuse_or_add
get_or_add_absent t a p k w h = rw h

-- Enqueueing a request that is in the outbox gives the event that is there and changes nothing:
-- after one call, the same call returns the same event and the same state, for both kinds.
pub enqueue_twice :
    (document_id index_version : ℕ) (w : World)
    → (let (e, w') = enqueue_document_index document_id index_version w in
        enqueue_document_index document_id index_version w' ≡ (e, w'))
      × (let (e, w') = enqueue_document_delete document_id w in
          enqueue_document_delete document_id w' ≡ (e, w'))
unfolding enqueue_document_index enqueue_document_delete
enqueue_twice d v w = (
  get_or_add_twice index_document_event d _ (index_key d v) w,
  get_or_add_twice delete_document_event d _ (show_nat d) w,
)

-- No two events ask for the same thing: `uq_rag_outbox_dedupe`.
abbrev pub IsDeduped : List OutboxEvent → Type 0
IsDeduped [] = Unit
IsDeduped (e ∷ es) =
    All (λ x. same_event e.event_type e.aggregate_id e.dedupe_key x ≡ false) es × IsDeduped es

same_event_symm :
    (e x : OutboxEvent)
    → same_event e.event_type e.aggregate_id e.dedupe_key x ≡ false
    → same_event x.event_type x.aggregate_id x.dedupe_key e ≡ false
unfolding same_event
same_event_symm e x h =
    ground (arith, text_eq_comm e.event_type x.event_type, text_eq_comm e.dedupe_key x.dedupe_key)

IsDeduped-snoc :
    (es : List OutboxEvent) (x : OutboxEvent)
    → IsDeduped es
    → All (λ e. same_event x.event_type x.aggregate_id x.dedupe_key e ≡ false) es
    → IsDeduped (es ++ x ∷ [])
IsDeduped-snoc [] x h n = (tt, tt)
IsDeduped-snoc (e ∷ es) x h n =
    (All-append _ es (x ∷ []) h.0 (same_event_symm x e n.0, tt), IsDeduped-snoc es x h.1 n.1)

reuse-IsDeduped :
    (t : Text) (a : ℕ) (p : Payload) (k : Text) (found : Option OutboxEvent) (w : World)
    → find (same_event t a k) w.events ≡ found
    → IsDeduped w.events
    → IsDeduped (reuse_or_add found (λ id. new_event id t a p k) w).1.events
unfolding reuse_or_add add_event
reuse-IsDeduped t a p k (some e) w f h = h
reuse-IsDeduped t a p k none w f h =
    IsDeduped-snoc w.events (new_event w.next_id t a p k) h
      (unfold new_event in find-none (same_event t a k) w.events f)

-- Both ways to enqueue keep the outbox free of two events of one type, document and dedupe key.
pub enqueue-IsDeduped :
    (document_id index_version : ℕ) (w : World)
    → IsDeduped w.events
    → IsDeduped (enqueue_document_index document_id index_version w).1.events
      × IsDeduped (enqueue_document_delete document_id w).1.events
unfolding enqueue_document_index enqueue_document_delete
enqueue-IsDeduped d v w h = (
  unfold get_or_add in reuse-IsDeduped index_document_event d _ (index_key d v) _ w refl h,
  unfold get_or_add in reuse-IsDeduped delete_document_event d _ (show_nat d) _ w refl h,
)

-- The keys of one document's requests tell its versions apart.
index_key-injective : (d v v' : ℕ) → index_key d v ≡ index_key d v' → v ≡ v'
unfolding index_key
index_key-injective d v v' h =
    let behind = append_cancel (show_nat d) _ _ h in
    show_nat-injective v v' (append_cancel (codes ":") _ _ behind)

-- The index requests of a document are for versions up to `v`.
abbrev pub VersionsUpTo : ℕ → ℕ → OutboxEvent → Type 0
VersionsUpTo d v e =
    e.aggregate_id ≡ d
    → e.event_type ≡ index_document_event
    → (n : ℕ) × (n ≤ v) × (e.dedupe_key ≡ index_key d n)

new_version_differs :
    (d v v' : ℕ) (e : OutboxEvent)
    → v < v'
    → VersionsUpTo d v e
    → same_event index_document_event d (index_key d v') e ≡ false
unfolding same_event
new_version_differs d v v' e lt bound =
    elim (Bool-cases (text_eq e.event_type index_document_event)) [
      | inr other ↦ rw other
      | inl kind ↦ elim (Bool-cases (e.aggregate_id == d)) [
        | inr other ↦ ground arith
        | inl same ↦
            let (n, le, key) =
              bound ((==_iff e.aggregate_id d).0 same)
                (text_eq_sound e.event_type index_document_event kind) in
            let differs : text_eq e.dedupe_key (index_key d v') ≡ false =
              text_eq-false e.dedupe_key (index_key d v')
                (λ eq. old_key_differs d n v v' le lt (sym key ∙ eq)) in
            ground arith
      ]
    ]
  where
    old_key_differs : (d n v v' : ℕ) → n ≤ v → v < v' → ¬ (index_key d n ≡ index_key d v')
    old_key_differs d n v v' le lt eq = absurd (omega (arith, index_key-injective d n v' eq))

-- A request for a version above all that were asked for is a new event, PENDING, at the end.
pub enqueue_new_version :
    (d v v' : ℕ) (w : World)
    → v < v'
    → All (VersionsUpTo d v) w.events
    → let (e, w') = enqueue_document_index d v' w in
      (e.status ≡ OutboxStatus.pending)
      × (e.payload ≡ Payload.index_payload d v')
      × (w'.events ≡ w.events ++ e ∷ [])
      × (w'.documents ≡ w.documents)
unfolding enqueue_document_index
enqueue_new_version d v v' w lt bound =
    let absent =
      find_absent (same_event index_document_event d (index_key d v')) w.events
        (differ w.events bound) in
    rw
      (get_or_add_absent index_document_event d (Payload.index_payload d v') (index_key d v') w
        absent)
      (unfold add_event new_event in (refl, refl, refl, refl))
  where
    differ :
        (es : List OutboxEvent)
        → All (VersionsUpTo d v) es
        → All (λ e. same_event index_document_event d (index_key d v') e ≡ false) es
    differ [] h = tt
    differ (e ∷ es) h = (new_version_differs d v v' e lt h.0, differ es h.1)

-- A deletion of the document is requested.
abbrev pub IsRequested : ℕ → World → Type 0
IsRequested pk w =
    (e : OutboxEvent) × (find (same_event delete_document_event pk (show_nat pk)) w.events ≡ some e)
    × (e.event_type ≡ delete_document_event)
    × (e.aggregate_id ≡ pk)

-- What a request for a deletion leaves alone, and what it adds.
pub record DeleteRequested (pk : ℕ) (w w' : World) : Type 0 where
  pub documents : w'.documents ≡ w.documents
  pub bases : w'.knowledge_bases ≡ w.knowledge_bases
  pub chunks : w'.chunks ≡ w.chunks
  pub storage : w'.storage ≡ w.storage
  pub queue : w'.queue ≡ w.queue
  pub now : w'.now ≡ w.now
  pub requested : IsRequested pk w'
  pub others : (other : ℕ) → IsRequested other w → IsRequested other w'

is_request :
    (pk : ℕ) (w : World) (e : OutboxEvent)
    → find (same_event delete_document_event pk (show_nat pk)) w.events ≡ some e
    → IsRequested pk w
unfolding same_event
is_request pk w e h =
    let fits = find_sound (same_event delete_document_event pk (show_nat pk)) w.events e h in
    (
      e,
      h,
      text_eq_sound e.event_type delete_document_event (ground (arith, fits)),
      ground (arith, fits),
    )

delete_request :
    (pk : ℕ) (w : World) (found : Option OutboxEvent)
    → find (same_event delete_document_event pk (show_nat pk)) w.events ≡ found
    → DeleteRequested pk w
        (reuse_or_add found
          (λ id. new_event id delete_document_event pk (Payload.delete_payload pk) (show_nat pk))
          w).1
unfolding reuse_or_add add_event
delete_request pk w (some e) h = record {
  documents = refl;
  bases = refl;
  chunks = refl;
  storage = refl;
  queue = refl;
  now = refl;
  requested = is_request pk w e h;
  others = λ other r. r;
}
delete_request pk w none h = record {
  documents = refl;
  bases = refl;
  chunks = refl;
  storage = refl;
  queue = refl;
  now = refl;
  requested =
      is_request pk
        (add_event
          (λ id. new_event id delete_document_event pk (Payload.delete_payload pk) (show_nat pk))
          w).1
        _ (again delete_document_event pk (Payload.delete_payload pk) (show_nat pk) none w h);
  others = λ other (e, f, t, a). (e, find-append_some _ w.events _ e f, t, a);
}

pub enqueue_document_delete_lem :
    (pk : ℕ) (w : World) → DeleteRequested pk w (enqueue_document_delete pk w).1
unfolding enqueue_document_delete get_or_add
enqueue_document_delete_lem pk w =
    delete_request pk w (find (same_event delete_document_event pk (show_nat pk)) w.events) refl
