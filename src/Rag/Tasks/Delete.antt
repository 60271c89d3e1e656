-- ===== src/Rag/Tasks/Delete.antt =====
-- The deletion task removes a document with all that belongs to it, once; and what a retry does to a
-- deletion that is under way.
use rag_service.Prelude.{
  ℕ, Text, text_eq, Bool, true, false, List, [], ◌∷◌, Option, none, some, ◌==◌, ◌≡◌, ◌≢◌, refl, sym,
  ap, ◌∙◌, arith, All, find, find-remove, select, remove, ◌⊎◌, inl, inr,
}
use rag_service.Rag.Model.{Document, DocumentStatus, same_status}
use rag_service.Rag.Indexing.{file_not_found}
use rag_service.Rag.Exec.{ok, err}
use rag_service.Rag.World.{
  World, get_live, is_live, storage_get, storage_get-delete, storage_get-delete_ne,
}
use rag_service.Rag.World.Live.{live_id}
use rag_service.Rag.Outbox.Enqueue.{VersionsUpTo}
use rag_service.Rag.Documents.{
  TaskResult, deleted, document_not_found, delete_not_requested, get_document,
}
use rag_service.Rag.Documents.Requests.{retry_document}
use rag_service.Rag.Documents.Requests.Retry.{retry_document_lem}
use rag_service.Rag.Tasks.{delete_document, delete_found, has_id, of_document}

select-remove {ℓ} : {A : Type ℓ} (p : A → Bool) (xs : List A) → select p (remove p xs) ≡ []
unfolding select remove
select-remove p [] = refl
select-remove p (x ∷ xs) = ground (arith, select-remove p xs)

-- What is gone and what is left when the document `d` is deleted.
pub record Gone (pk : ℕ) (d : Document) (w w' : World) : Type 0 where
  pub no_document : get_live pk w' ≡ none
  pub no_chunks : select (λ c. c.document_id == d.id) w'.chunks ≡ []
  pub no_object : storage_get d.storage_key w'.storage ≡ err file_not_found
  pub other_objects :
      (key : Text)
      → text_eq d.storage_key key ≡ false
      → storage_get key w'.storage ≡ storage_get key w.storage
  pub other_documents : w'.documents ≡ remove (λ x. x.id == d.id) w.documents
  pub other_chunks : w'.chunks ≡ remove (λ c. c.document_id == d.id) w.chunks
  -- the bases, the events, the profiles, the queue and the clock
  pub rest : w' ≡ record w {
    db = record w.db { documents = w'.documents; chunks = w'.chunks };
    storage = w'.storage;
  }

found_deleting :
    (pk : ℕ) (w : World) (d : Document)
    → get_live pk w ≡ some d
    → d.status ≡ DocumentStatus.deleting
    → let (r, w') = delete_found w (some d) in
      (r ≡ deleted) × Gone pk d w w' × (delete_document pk w' ≡ (document_not_found, w'))
unfolding delete_found delete_document get_live
found_deleting pk w d e s =
    let marked : same_status d.status DocumentStatus.deleting ≡ true =
      rw s (unfold same_status in refl) in
    let none_left : find (is_live pk) (remove (has_id d.id) w.documents) ≡ none =
      find-remove (has_id d.id) (is_live pk) w.documents
        (λ x l. ground (arith, live_id pk w d e)) in
    rw marked (
      refl,
      record {
        no_document = none_left;
        no_chunks = select-remove (of_document d.id) w.chunks;
        no_object = storage_get-delete d.storage_key w.storage;
        other_documents = refl;
        other_chunks = refl;
        other_objects = λ key ne. storage_get-delete_ne d.storage_key key w.storage ne;
        rest = refl;
      },
      rw none_left,
    )

not_deleting :
    (w : World) (d : Document)
    → d.status ≢ DocumentStatus.deleting
    → delete_found w (some d) ≡ (delete_not_requested, w)
unfolding delete_found same_status
not_deleting w d h = ground arith

-- The three ways in which the task ends.
abbrev pub DeleteOutcome : ℕ → World → TaskResult × World → Type 0
DeleteOutcome pk w (r, w') =
    ((get_live pk w ≡ none) × (r ≡ document_not_found) × (w' ≡ w))
    ⊎ ((d : Document) × (get_live pk w ≡ some d)
        × (((d.status ≢ DocumentStatus.deleting) × (r ≡ delete_not_requested) × (w' ≡ w))
            ⊎ ((d.status ≡ DocumentStatus.deleting)
                × (r ≡ deleted)
                × Gone pk d w w'
                × (delete_document pk w' ≡ (document_not_found, w')))))

is_deleting : (s : DocumentStatus) → (s ≡ DocumentStatus.deleting) ⊎ (s ≢ DocumentStatus.deleting)
is_deleting DocumentStatus.deleting = inl refl
is_deleting _ = inr (λ e. cc)

delete_cases :
    (pk : ℕ) (w : World) (found : Option Document)
    → get_live pk w ≡ found
    → DeleteOutcome pk w (delete_found w found)
delete_cases pk w none e = unfold delete_found in inl (e, refl, refl)
delete_cases pk w (some d) e = elim (is_deleting d.status) [
  | inl s ↦ let (r, g, again) = found_deleting pk w d e s in inr (d, e, inr (s, r, g, again))
  | inr s ↦ inr (
    d,
    e,
    inl (
      s,
      ap (λ (p : TaskResult × World). p.0) (not_deleting w d s),
      ap (λ (p : TaskResult × World). p.1) (not_deleting w d s),
    ),
  )
]

-- Running the deletion task on a document that is not live changes nothing and says so; on a live
-- document that is not DELETING it changes nothing and says that no deletion was requested; on one
-- that is DELETING, the document, its object and all its chunks are gone, every other row and object
-- and the rest of the state are left, and a second run of the task finds no document and changes nothing.
pub delete_document_lem : (pk : ℕ) (w : World) → DeleteOutcome pk w (delete_document pk w)
unfolding delete_document
delete_document_lem pk w = delete_cases pk w (get_live pk w) refl

-- A retry of a document that is DELETING, by a caller who may write to the base, takes the deletion
-- back: the deletion task that was requested before finds a document that is PENDING, and changes
-- nothing.
pub retry_cancels_deletion :
    (profile_hash : Text) (kb_id pk user_id : ℕ) (is_admin : Bool) (w : World) (d : Document)
    → get_document kb_id pk user_id is_admin true w ≡ ok d
    → get_live pk w ≡ some d
    → All (VersionsUpTo pk d.index_version) w.events
    → d.status ≡ DocumentStatus.deleting
    → let w' = (retry_document profile_hash kb_id pk user_id is_admin w).1 in
      delete_document pk w' ≡ (delete_not_requested, w')
unfolding delete_document
retry_cancels_deletion h kb_id pk user_id is_admin w d may e bound deleting =
    let r = (retry_document_lem h kb_id pk user_id is_admin w d may e bound).0 in
    rw r.live (not_deleting _ r.document (λ s. pending-ne-deleting (sym r.pending ∙ s)))
  where
    pending-ne-deleting : ¬ (DocumentStatus.pending ≡ DocumentStatus.deleting)
    pending-ne-deleting s = cc
