-- ===== src/Rag/Documents/Recovery.antt =====
-- `recover_stale_indexes` of backend/app/rag/service/document_service.py: which documents the
-- repair requeues, and what it leaves.
use rag_service.Prelude.{
  ℕ, ◌≤◌, ◌<◌, ltb, tests, sym, ◌⊎◌, codes, ap, ◌||◌, Bool, true, false, ◌==◌, if◌then◌else◌, List,
  [], ◌∷◌, map, any, take, length, length-take, Option, none, some, find, select, ◌≡◌, refl, ◌∙◌,
  arith, All, All-take, All-select_where, Unique, Unique-find, Bool-cases, ==_refl, find-narrow,
  inl, inr,
}
use mathlib.Core.Option
use rag_service.Rag.Model.{Document, DocumentStatus, same_status}
use rag_service.Rag.World.{World, get_live, update_document, is_live, is_same, stamp}
use rag_service.Rag.World.Live.{touched, get_live-update_any}
use rag_service.Rag.Documents.{
  is_stuck, is_before, insert_by_activity, order_by_activity, get_stale_index_documents,
  set_requeued, requeue_all, recover_stale_indexes,
}

module _ {κ} (P : Document → Type κ) where
  All-insert :
      (d : Document) (ds : List Document) → P d → All P ds → All P (insert_by_activity d ds)
  unfolding insert_by_activity
  All-insert d [] h hs = (h, tt)
  All-insert d (x ∷ xs) h hs = elim (Bool-cases (is_before d x)) [
    | inl e ↦ rw e (h, hs)
    | inr e ↦ rw e (hs.0, All-insert d xs h hs.1)
  ]

  All-order : (ds : List Document) → All P ds → All P (order_by_activity ds)
  unfolding order_by_activity
  All-order [] h = tt
  All-order (d ∷ ds) h = All-insert d (order_by_activity ds) h.0 (All-order ds h.1)

-- A row of the table, as the query for its key finds it.
abbrev pub Stuck : ℕ → World → Document → Type 0
Stuck stale_before w d = (get_live d.id w ≡ some d) × (is_stuck stale_before d ≡ true)

-- A document behind the repair: PENDING, with the note and the time of the repair.
abbrev pub requeued_row : ℕ → Document → Document
requeued_row now d = record d {
  status = DocumentStatus.pending;
  error_message = some (codes "索引任务超时，已重新排队");
  updated_time = some now;
}

touched-requeued_row :
    (now : ℕ) (d : Document) → touched now (set_requeued now) d ≡ requeued_row now d
unfolding stamp
touched-requeued_row now d =
    ap (λ u. record (requeued_row now d) { updated_time = u })
      (either (is_same d (requeued_row now d)))
  where
    either : (b : Bool) → ◌≡◌ {A = Option ℕ} (if b then some now else some now) (some now)
    either true = refl
    either false = refl

-- The update twice is the update once.
touch_again :
    (now : ℕ) (o : Option Document) (once more : Bool)
    → (if more
        then Option.map
            (touched now (set_requeued now))
            (if once then Option.map (touched now (set_requeued now)) o else o)
        else (if once then Option.map (touched now (set_requeued now)) o else o))
      ≡ (if once || more then Option.map (touched now (set_requeued now)) o else o)
touch_again now none true true = refl
touch_again now (some d) true true =
    ap some (
      touched-requeued_row now (touched now (set_requeued now) d)
      ∙ sym (touched-requeued_row now d))
touch_again now o true false = refl
touch_again now o false more = refl

update-now : (key : ℕ) (f : Document → Document) (w : World) → (update_document key f w).now ≡ w.now
unfolding update_document
update-now key f w = refl

requeue_found :
    (pk : ℕ) (ds : List Document) (w : World)
    → get_live pk (requeue_all ds w) ≡ (
        if any (λ d. d.id == pk) ds
        then Option.map (touched w.now (set_requeued w.now)) (get_live pk w)
        else get_live pk w)
unfolding requeue_all
requeue_found pk [] w = refl
requeue_found pk (d ∷ ds) w =
    rw
      (
        requeue_found pk ds (update_document d.id (set_requeued w.now) w),
        get_live-update_any pk d.id (set_requeued w.now) w (λ x. (refl, refl)),
        update-now d.id (set_requeued w.now) w,
      )
      (touch_again w.now (get_live pk w) (d.id == pk) (any (λ x. x.id == pk) ds))

-- Requests are made for the documents that are requeued.
any_request :
    (pk : ℕ) (ds : List Document)
    → any (λ (r : ℕ × ℕ). r.0 == pk) (map (λ (d : Document). (d.id, d.index_version)) ds)
      ≡ any (λ (d : Document). d.id == pk) ds
any_request pk [] = refl
any_request pk (d ∷ ds) = rw (any_request pk ds)

map-requeued_row :
    (now : ℕ) (o : Option Document)
    → Option.map (touched now (set_requeued now)) o ≡ Option.map (requeued_row now) o
map-requeued_row now none = refl
map-requeued_row now (some d) = ap some (touched-requeued_row now d)

if-requeued_row :
    (now : ℕ) (b : Bool) (o : Option Document)
    → (if b then Option.map (touched now (set_requeued now)) o else o)
      ≡ (if b then Option.map (requeued_row now) o else o)
if-requeued_row now true o = map-requeued_row now o
if-requeued_row now false o = refl

-- The document waits for a worker, or one had it, and nothing happened to it since the threshold.
pub record IsStuck (stale_before : ℕ) (d : Document) : Type 0 where
  pub waiting : (d.status ≡ DocumentStatus.pending) ⊎ (d.status ≡ DocumentStatus.processing)
  pub live : d.deleted ≡ 0
  pub silent :
      ((d.updated_time ≡ none) × (d.created_time < stale_before))
      ⊎ ((t : ℕ) × (d.updated_time ≡ some t) × (t < stale_before))

-- What one request of the answer says: its document was stuck in that version, and is PENDING now,
-- with the note, and not stuck any more.
pub record Requeued (stale_before : ℕ) (w w' : World) (request : ℕ × ℕ) : Type 0 where
  pub document : Document
  pub found : get_live request.0 w ≡ some document
  pub stuck : IsStuck stale_before document
  pub version : document.index_version ≡ request.1
  pub taken : get_live request.0 w' ≡ some (requeued_row w.now document)
  pub unstuck : is_stuck stale_before (requeued_row w.now document) ≡ false

unstuck_lem :
    (stale_before now : ℕ) (d : Document)
    → stale_before ≤ now
    → is_stuck stale_before (requeued_row now d) ≡ false
unfolding is_stuck
unstuck_lem stale_before now d h = ground arith

is_waiting :
    (s : DocumentStatus)
    → (same_status s DocumentStatus.pending || same_status s DocumentStatus.processing) ≡ true
    → (s ≡ DocumentStatus.pending) ⊎ (s ≡ DocumentStatus.processing)
unfolding same_status
is_waiting DocumentStatus.pending h = inl refl
is_waiting DocumentStatus.processing h = inr refl
is_waiting DocumentStatus.ready h = absurd (ground arith)
is_waiting DocumentStatus.failed h = absurd (ground arith)
is_waiting DocumentStatus.deleting h = absurd (ground arith)

is_silent :
    (stale_before created : ℕ) (updated : Option ℕ)
    → ltb (elim updated [ none ↦ created | some t ↦ t ]) stale_before ≡ true
    → ((updated ≡ none) × (created < stale_before))
      ⊎ ((t : ℕ) × (updated ≡ some t) × (t < stale_before))
is_silent stale_before created none h = inl (refl, omega tests)
is_silent stale_before created (some t) h = inr (t, refl, omega tests)

is_stuck-IsStuck :
    (stale_before : ℕ) (d : Document) → is_stuck stale_before d ≡ true → IsStuck stale_before d
unfolding is_stuck
is_stuck-IsStuck stale_before d h = record {
  waiting = is_waiting d.status (ground arith);
  live = ground arith;
  silent = is_silent stale_before d.created_time d.updated_time (ground arith);
}

stuck_live :
    (stale_before : ℕ) (w : World) (d : Document)
    → find (λ r. r.id == d.id) w.documents ≡ some d
    → is_stuck stale_before d ≡ true
    → get_live d.id w ≡ some d
unfolding get_live is_stuck
stuck_live stale_before w d h s =
    find-narrow (λ r. r.id == d.id) (is_live d.id) w.documents d (λ y t. ground arith) h
      (ground (arith, ==_refl d.id))

Requeued-All :
    (stale_before : ℕ) (w w' : World) (ds : List Document)
    → stale_before ≤ w.now
    → ((pk : ℕ)
        → any (λ (d : Document). d.id == pk) ds ≡ true
        → get_live pk w' ≡ Option.map (requeued_row w.now) (get_live pk w))
    → All (λ d. (get_live d.id w ≡ some d) × (is_stuck stale_before d ≡ true)) ds
    → All (Requeued stale_before w w') (map (λ (d : Document). (d.id, d.index_version)) ds)
Requeued-All stale_before w w' [] h seen all = tt
Requeued-All stale_before w w' (d ∷ ds) h seen all = (
  record {
    document = d;
    found = all.0.0;
    stuck = is_stuck-IsStuck stale_before d all.0.1;
    version = refl;
    taken = seen d.id (rw (==_refl d.id)) ∙ (rw all.0.0);
    unstuck = unstuck_lem stale_before w.now d h;
  },
  Requeued-All stale_before w w' ds h (λ pk e. seen pk (rw e (ground arith))) all.1,
)

stuck_rows :
    (stale_before : ℕ) (w : World) (ds : List Document)
    → All
        (λ d. (find (λ r. r.id == d.id) w.documents ≡ some d) × (is_stuck stale_before d ≡ true))
        ds
    → All (λ d. (get_live d.id w ≡ some d) × (is_stuck stale_before d ≡ true)) ds
stuck_rows stale_before w [] h = tt
stuck_rows stale_before w (d ∷ ds) h =
    ((stuck_live stale_before w d h.0.0 h.0.1, h.0.1), stuck_rows stale_before w ds h.1)

length-map : {A : Type 0} {B : Type 0} (f : A → B) (xs : List A) → length (map f xs) ≡ length xs
length-map f [] = refl
length-map f (x ∷ xs) = rw (length-map f xs)

-- With distinct primary keys, and a threshold that is not in the future: the repair answers at most
-- `limit` requests; each is of a live document that was stuck (PENDING or PROCESSING, without an
-- update since the threshold), in its version, which is then PENDING with a note and the time of the repair,
-- and not stuck any more; and a query for any document afterwards sees what it saw before, with that
-- update if the document is among the requests.
pub recover_stale_indexes_lem :
    (stale_before limit : ℕ) (w : World)
    → Unique (λ (d : Document). d.id) w.documents
    → stale_before ≤ w.now
    → let (requests, w') = recover_stale_indexes stale_before limit w in
      (length requests ≤ limit)
      × All (Requeued stale_before w w') requests
      × ((pk : ℕ)
          → get_live pk w' ≡ (
              if any (λ (r : ℕ × ℕ). r.0 == pk) requests
              then Option.map (requeued_row w.now) (get_live pk w)
              else get_live pk w))
unfolding recover_stale_indexes get_stale_index_documents
recover_stale_indexes_lem stale_before limit w unique past =
    let selected = order_by_activity (select (is_stuck stale_before) w.documents) in
    let ds = take limit selected in
    let rows = All-take _ limit selected (
      All-order _ _ (
        All-select_where _ (is_stuck stale_before) w.documents
          (Unique-find (λ (d : Document). d.id) w.documents unique))) in
    (
      rw (length-map {B = ℕ × ℕ} (λ (d : Document). (d.id, d.index_version)) ds)
          (omega (arith, length-take limit selected)),
      Requeued-All stale_before w (requeue_all ds w) ds past
          (λ pk e. requeue_found pk ds w ∙ rw e (map-requeued_row w.now (get_live pk w)))
          (stuck_rows stale_before w ds rows),
      λ pk. rw (any_request pk ds) (
          requeue_found pk ds w
          ∙ if-requeued_row w.now (any (λ (d : Document). d.id == pk) ds) (get_live pk w)),
    )
