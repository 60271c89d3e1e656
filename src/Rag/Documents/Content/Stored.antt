-- ===== src/Rag/Documents/Content/Stored.antt =====
-- What one indexing transaction does to the document: all of it or nothing.
use rag_service.Prelude.{ℕ, Text, true, length, ==_refl, none, some, ◌≡◌, refl}
use rag_service.Rag.Model.{Document, DocumentStatus, same_status}
use rag_service.Rag.Indexing.{Exception}
use rag_service.Rag.Exec.{Result, ok, err}
use rag_service.Rag.Settings.{Settings}
use rag_service.Rag.Services.{Services}
use rag_service.Rag.World.{
  World, get_live, update_document, transaction, close_transaction, storage_get,
}
use rag_service.Rag.World.Live.{live_updated, touched}
use rag_service.Rag.Documents.{TaskResult, status_value}
use rag_service.Rag.Documents.Content.{
  Prepared, prepare, pieces_of, store_chunks, finish_index, index_content, after_content,
  read_and_index, index_claimed_document, set_ready, set_processing,
}
use rag_service.Rag.Documents.Content.Rows.{Rewritten, prepared-Rewritten}

module _ (services : Services) (settings : Settings) where
  -- The document is READY, with its text and the number of its children.
  pub record IsIndexed (d d' : Document) (p : Prepared) (first_id : ℕ) : Type 0 where
    pub ready : d'.status ≡ DocumentStatus.ready
    pub no_error : d'.error_message ≡ none
    pub parsed : d'.parsed_content ≡ some p.text
    pub counted : d'.chunk_count ≡ length (pieces_of first_id p.parents)
    pub version : d'.index_version ≡ d.index_version

  -- The transaction fails and leaves the state as it was, or it stores what was prepared of the
  -- object's content.
  pub data IndexOutcome (pk : ℕ) (d : Document) (w : World)
      : Result TaskResult × World → Type 0 where
    undone : (exc : Exception) → IndexOutcome pk d w (err exc, w)
    stored :
        (p : Prepared) (content : Text) (d' : Document) (w' : World)
        → storage_get d.storage_key w.storage ≡ ok content
        → prepare services settings w.next_id d content ≡ ok p
        → get_live pk w' ≡ some d'
        → IsIndexed d d' p w.next_id
        → Rewritten services settings d content w w'
        → w' ≡ store_chunks services settings d p (update_document d.id set_processing w)
        → IndexOutcome pk d w (ok (status_value DocumentStatus.ready), w')

  stored_live :
      (pk : ℕ) (d : Document) (p : Prepared) (w : World)
      → get_live pk w ≡ some d
      → let w' = store_chunks services settings d p (update_document d.id set_processing w) in
        (d' : Document) × (get_live pk w' ≡ some d') × IsIndexed d d' p w.next_id
  unfolding store_chunks update_document get_live
  stored_live pk d p w e =
      let d1 = touched w.now set_processing d in
      let l1 = live_updated pk set_processing w d (λ x. (refl, refl)) e in
      let ready = set_ready p.text (length (pieces_of w.next_id p.parents)) in
      (
        touched w.now ready d1,
        live_updated pk ready (update_document d.id set_processing w) d1 (λ x. (refl, refl)) l1,
        record { ready = refl; no_error = refl; parsed = refl; counted = refl; version = refl },
      )

  content_outcome :
      (pk : ℕ) (d : Document) (w : World) (content : Text) (prepared : Result Prepared)
      → get_live pk w ≡ some d
      → storage_get d.storage_key w.storage ≡ ok content
      → prepare services settings w.next_id d content ≡ prepared
      → IndexOutcome pk d w (
          close_transaction w.db (
            after_content services settings
              (finish_index services settings d (update_document d.id set_processing w) prepared)))
  unfolding finish_index after_content
  content_outcome pk d w content (err exc) e s q = unfold update_document in undone exc
  content_outcome pk d w content (ok p) e s q =
      let (d', live, indexed) = stored_live pk d p w e in
      stored p content d' _ s q live indexed (prepared-Rewritten services settings d content p w q)
        refl

  read_outcome :
      (pk : ℕ) (d : Document) (w : World) (object : Result Text)
      → get_live pk w ≡ some d
      → storage_get d.storage_key w.storage ≡ object
      → IndexOutcome pk d w (close_transaction w.db (read_and_index services settings d w object))
  unfolding read_and_index index_content
  read_outcome pk d w (err exc) e s = undone exc
  read_outcome pk d w (ok content) e s =
      content_outcome pk d w content (prepare services settings w.next_id d content) e s refl

  -- The second transaction of an index task, for a live document that is PROCESSING in the version
  -- of the task, leaves the state as it was and raises, or it rewrites the rows of the document from
  -- the content of its stored object, the rows as for `index_content`, and leaves it READY, without
  -- an error, with the parsed text, the number of its pieces and the same version.
  pub index_claimed_outcome :
      (pk : ℕ) (w : World) (d : Document)
      → get_live pk w ≡ some d
      → d.status ≡ DocumentStatus.processing
      → IndexOutcome pk d w
          (transaction (index_claimed_document services settings pk d.index_version) w)
  unfolding transaction index_claimed_document
  index_claimed_outcome pk w d e processing =
      let running : same_status d.status DocumentStatus.processing ≡ true =
        rw processing (unfold same_status in refl) in
      rw (e, ==_refl d.index_version, running)
        (read_outcome pk d w (storage_get d.storage_key w.storage) e refl)
