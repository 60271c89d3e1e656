-- ===== src/Rag/World/Live.antt =====
-- What a query for a live document sees behind an update.
use mathlib.Core.Path.{subst}
use rag_service.Prelude.{
  ℕ, ◌==◌, ◌≡◌, ◌≢◌, refl, sym, ◌∙◌, arith, find_sound, find-modify, find-modify_ne, some, Bool,
  true, false, Option, none, Text, ◌&&◌, text_eq, text_eq_refl, ==_refl, Bool-cases, inl, inr,
  if◌then◌else◌,
}
use mathlib.Core.Option
use rag_service.Rag.Model.{Document, DocumentStatus, same_status}
use rag_service.Rag.Exec.{Result, ok, err, err-ne-ok}
use rag_service.Rag.World.{
  World, Db, close_transaction, get_live, is_live, update_document, stamp, is_same, same_option,
}

-- An update that leaves the primary key and the deletion mark alone.
abbrev pub KeepsKey : (Document → Document) → Type 0
KeepsKey f = (d : Document) → ((f d).id ≡ d.id) × ((f d).deleted ≡ d.deleted)

abbrev pub touched : ℕ → (Document → Document) → Document → Document
touched now f d = record (f d) { updated_time = stamp now d (f d) }

same_option_refl :
    {A : Type 0} (same : A → A → Bool) (o : Option A)
    → ((a : A) → same a a ≡ true)
    → same_option same o o ≡ true
unfolding same_option
same_option_refl same none h = refl
same_option_refl same (some a) h = h a

-- An assignment to the status alone.
pub stamp_status :
    (now : ℕ) (d : Document) (s : DocumentStatus)
    → stamp now d (record d { status = s })
      ≡ (if same_status d.status s then d.updated_time else some now)
unfolding stamp is_same
stamp_status now d s =
    let message = same_option_refl text_eq d.error_message text_eq_refl in
    let content = same_option_refl text_eq d.parsed_content text_eq_refl in
    let profile = same_option_refl (λ m n. m == n) d.index_profile_id ==_refl in
    rw (message, content, profile, ==_refl d.chunk_count, ==_refl d.index_version) (ground arith)

abbrev pub is_message : Text → Option Text → Bool
is_message message o = elim o [ none ↦ false | some m ↦ text_eq m message ]

-- An assignment to the status and the message.
pub stamp_message :
    (now : ℕ) (d : Document) (s : DocumentStatus) (message : Text)
    → stamp now d (record d { status = s; error_message = some message }) ≡ (
        if same_status d.status s && is_message message d.error_message
        then d.updated_time
        else some now)
unfolding stamp is_same same_option
stamp_message now d s message =
    let content = same_option_refl text_eq d.parsed_content text_eq_refl in
    let profile = same_option_refl (λ m n. m == n) d.index_profile_id ==_refl in
    rw (content, profile, ==_refl d.chunk_count, ==_refl d.index_version) (given d.error_message)
  where
    given :
        (o : Option Text)
        → ◌≡◌ {A = Option ℕ}
            (if same_status d.status s && (same_option text_eq o (some message) && true)
              then d.updated_time
              else some now)
            (if same_status d.status s && is_message message o then d.updated_time else some now)
    given none = ground arith
    given (some m) = ground arith

pub stamp_changed :
    (now : ℕ) (d e : Document) → same_status d.status e.status ≡ false → stamp now d e ≡ some now
unfolding stamp is_same
stamp_changed now d e h = rw h

same_status_refl : (s : DocumentStatus) → same_status s s ≡ true
unfolding same_status
same_status_refl DocumentStatus.pending = refl
same_status_refl DocumentStatus.processing = refl
same_status_refl DocumentStatus.ready = refl
same_status_refl DocumentStatus.failed = refl
same_status_refl DocumentStatus.deleting = refl

-- Writing what is there is no write.
pub stamp_unchanged : (now : ℕ) (d : Document) → stamp now d d ≡ d.updated_time
stamp_unchanged now d = stamp_status now d d.status ∙ (rw (same_status_refl d.status))

pub live_id :
    (pk : ℕ) (w : World) (d : Document) → get_live pk w ≡ some d → (d.id ≡ pk) × (d.deleted ≡ 0)
unfolding get_live
live_id pk w d h = ground (arith, find_sound (is_live pk) w.documents d h)

pub get_live-update :
    (pk : ℕ) (f : Document → Document) (w : World) (d : Document)
    → KeepsKey f
    → get_live pk w ≡ some d
    → get_live pk (update_document pk f w) ≡ some (touched w.now f d)
unfolding get_live update_document
get_live-update pk f w d keeps h =
    find-modify (λ x. x.id == pk) (is_live pk) (touched w.now f) w.documents
      (λ x. ground (arith, keeps x)) (λ x l. ground arith)
    ∙ (rw h)

pub get_live-update_ne :
    (pk other : ℕ) (f : Document → Document) (w : World)
    → KeepsKey f
    → other ≢ pk
    → get_live other (update_document pk f w) ≡ get_live other w
unfolding get_live update_document
get_live-update_ne pk other f w keeps ne =
    find-modify_ne (λ x. x.id == pk) (is_live other) (touched w.now f) w.documents
      (λ x l. ground arith) (λ x l. ground (arith, keeps x))

-- The same for an update by the key of the document that was found.
pub live_updated :
    (pk : ℕ) (f : Document → Document) (w : World) (d : Document)
    → KeepsKey f
    → get_live pk w ≡ some d
    → get_live pk (update_document d.id f w) ≡ some (touched w.now f d)
live_updated pk f w d keeps h =
    subst (λ key. get_live pk (update_document key f w) ≡ some (touched w.now f d))
      (sym (live_id pk w d h).0) (get_live-update pk f w d keeps h)

-- A coroutine that returns has its writes committed.
pub close_ok {ℓ} :
    {A : Type ℓ} (before : Db) (p : Result A × World) (a : A)
    → p.0 ≡ ok a
    → (close_transaction before p).1 ≡ p.1
close_ok before (ok b, w) a h = refl
close_ok before (err e, w) a h = absurd (err-ne-ok h)

-- The query behind an update by any key.
pub get_live-update_any :
    (pk key : ℕ) (f : Document → Document) (w : World)
    → KeepsKey f
    → get_live pk (update_document key f w)
      ≡ (if key == pk then Option.map (touched w.now f) (get_live pk w) else get_live pk w)
unfolding get_live update_document
get_live-update_any pk key f w keeps = elim (Bool-cases (key == pk)) [
  | inl e ↦ rw e (
      find-modify (λ x. x.id == key) (is_live pk) (touched w.now f) w.documents
        (λ x. ground (arith, keeps x)) (λ x l. ground arith))
  | inr e ↦ rw e (
      find-modify_ne (λ x. x.id == key) (is_live pk) (touched w.now f) w.documents
        (λ x l. ground arith) (λ x l. ground (arith, keeps x)))
]
