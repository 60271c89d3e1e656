-- ===== src/Rag/World.antt =====
-- The state that the services and the tasks share: the database (a table is the list of its rows),
-- the object store, the Celery queue and the clock; and the transactions.
pub mod Live
use rag_service.Prelude.{
  text_eq_sound, ap, ◌∙◌, Bool-cases, inl, inr, ℕ, text_eq, if◌then◌else◌, [], ◌∷◌, ◌≡◌, refl,
  arith, Text, Bool, true, false, ◌&&◌, ◌==◌, List, Option, none, some, find, modify, map,
}
use rag_service.Rag.Model.{Document, Chunk, KnowledgeBase, OutboxEvent, IndexProfile, same_status}
use rag_service.Rag.Exec.{Result, ok, err}
use rag_service.Rag.Indexing.{file_not_found}

pub record Db : Type 0 where
  pub documents : List Document
  pub chunks : List Chunk
  pub knowledge_bases : List KnowledgeBase
  pub events : List OutboxEvent
  pub profiles : List IndexProfile
  -- the next primary key
  pub next_id : ℕ

-- A call of `.delay` on a Celery task.
pub data Job : Type 0 where
  index_job : ℕ → Option ℕ → Job
  delete_job : ℕ → Job

pub record World : Type 0 where
  pub db : Db
  pub open db use *
  pub storage : List (Text × Text)
  pub queue : List Job
  pub now : ℕ

-- A coroutine over the state. What was written stays written when it raises.
abbrev pub Exec {ℓ} : Type ℓ → Type ℓ
Exec A = World → Result A × World

-- `async with async_db_session.begin()`: an exception undoes what was written to the database, and
-- only that.
abbrev pub close_transaction {ℓ} : {A : Type ℓ} → Db → Result A × World → Result A × World
close_transaction before (ok a, w) = (ok a, w)
close_transaction before (err e, w) = (err e, record w { db = before })

unfoldable pub transaction {ℓ} : {A : Type ℓ} → Exec A → Exec A
transaction m w = close_transaction w.db (m w)

-- `Document.id == pk, Document.deleted == 0`
abbrev pub is_live : ℕ → Document → Bool
is_live pk d = d.id == pk && d.deleted == 0

-- `document_dao.get_live` and `get_live_for_update`. A row lock is held until the transaction ends,
-- and a transaction is one step here.
unfoldable pub get_live : ℕ → World → Option Document
get_live pk w = find (is_live pk) w.documents

same_option : {A : Type 0} → (A → A → Bool) → Option A → Option A → Bool
same_option same none none = true
same_option same (some a) (some b) = same a b
same_option same _ _ = false

-- No column that the services assign has another value.
unfoldable pub is_same : Document → Document → Bool
unfolding same_option
is_same d e =
    same_status d.status e.status
    && (same_option text_eq d.error_message e.error_message
        && (same_option text_eq d.parsed_content e.parsed_content
            && (d.chunk_count == e.chunk_count
                && (d.index_version == e.index_version
                    && same_option (λ m n. m == n) d.index_profile_id e.index_profile_id))))

-- `onupdate` of common/model.py: a flush sets `updated_time` where a column has changed, and leaves
-- what was assigned to it where none has.
unfoldable pub stamp : ℕ → Document → Document → Option ℕ
unfolding is_same
stamp now d e = if is_same d e then e.updated_time else some now

-- Assignments to the attributes of a loaded document, and the flush.
unfoldable pub update_document : ℕ → (Document → Document) → World → World
unfolding stamp
update_document pk f w = record w {
  db = record w.db {
    documents =
        modify (λ d. d.id == pk) (λ d. record (f d) { updated_time = stamp w.now d (f d) })
          w.documents;
  };
}

-- `LocalStorage` of backend/app/rag/adapters/storage.py: a dictionary from keys to contents.
-- `storage.get` of a missing key raises FileNotFoundError.
unfoldable pub storage_get : Text → List (Text × Text) → Result Text
storage_get key [] = err file_not_found
storage_get key ((k, content) ∷ objects) =
    if text_eq k key then ok content else storage_get key objects

-- `storage.delete`, which is silent about a missing key.
unfoldable pub storage_delete : Text → List (Text × Text) → List (Text × Text)
storage_delete key [] = []
storage_delete key ((k, content) ∷ objects) =
    let rest = storage_delete key objects in if text_eq k key then rest else (k, content) ∷ rest

-- `storage.put`, which overwrites.
unfoldable pub storage_put : Text → Text → List (Text × Text) → List (Text × Text)
unfolding storage_delete
storage_put key content objects = (key, content) ∷ storage_delete key objects

pub storage_get-put :
    (key other content : Text) (objects : List (Text × Text))
    → storage_get other (storage_put key content objects)
      ≡ (if text_eq key other then ok content else storage_get other (storage_delete key objects))
unfolding storage_get storage_put
storage_get-put key other content objects = refl

pub storage_get-delete :
    (key : Text) (objects : List (Text × Text))
    → storage_get key (storage_delete key objects) ≡ err file_not_found
unfolding storage_get storage_delete
storage_get-delete key [] = refl
storage_get-delete key ((k, content) ∷ objects) = ground (arith, storage_get-delete key objects)

-- A deletion of one object leaves every other.
pub storage_get-delete_ne :
    (key other : Text) (objects : List (Text × Text))
    → text_eq key other ≡ false
    → storage_get other (storage_delete key objects) ≡ storage_get other objects
unfolding storage_get storage_delete
storage_get-delete_ne key other [] ne = refl
storage_get-delete_ne key other ((k, content) ∷ objects) ne = elim (Bool-cases (text_eq k key)) [
  | inr e ↦ rw e (
      ap (λ r. if text_eq k other then ok content else r)
        (storage_get-delete_ne key other objects ne))
  | inl e ↦
      let kept : text_eq k other ≡ false = ap (λ x. text_eq x other) (text_eq_sound k key e) ∙ ne in
      rw (e, kept) (storage_get-delete_ne key other objects ne)
]
