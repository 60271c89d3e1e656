-- ===== src/Rag/Documents/Content/Rows.antt =====
-- The rows that `index_content` writes: what replaces the chunks of a document, and how children and
-- parents belong together.
use mathlib.Core.Path.{subst}
use rag_service.Prelude.{
  map, ◌∙◌, ℕ, suc, ◌+◌, Text, true, not, List, [], ◌∷◌, ◌++◌, append-nil, length, ◌==◌, ==_refl,
  some, select, remove, All, All-append, ◌≡◌, refl, ap, arith, Bool-cases, inl, inr,
}
use rag_service.Rag.Model.{Document, Chunk, Vector}
use rag_service.Rag.Exec.{Result, ok, err, err-ne-ok, both_returned}
use rag_service.Rag.Settings.{Settings}
use rag_service.Rag.Services.{Services}
use rag_service.Rag.Chunking.Sections.{ParentChildChunks, split_parent_child_text}
use rag_service.Rag.Parsers.{parse_document}
use rag_service.Rag.Embedding.{embed_texts_in_batches}
use rag_service.Rag.World.{World, update_document}
use rag_service.Rag.Documents.Content.{
  context_of, require_parents, require_equal, Piece, pieces_of, Prepared, prepare, set_processing,
  of_document, parent_row, parent_rows, child_row, child_rows, store_chunks, finish_index,
  index_content,
}
use rag_service.Rag.Documents.Content.Replace.{
  select-append, select-remove_same, select-remove_other, select-All, select-None,
}
use rag_service.Rag.Documents.Content.Groups.{
  IsChild, AreGrouped, pieces-HasRow, child_rows-IsChild, embeddings, contexts, groups,
}

ok-inj : {A : Type 0} {a b : A} → ok a ≡ ok b → a ≡ b
ok-inj e = cc

module _ (services : Services) (settings : Settings) where
  parents_own :
      (d : Document) (id place : ℕ) (parents : List ParentChildChunks)
      → All (λ c. of_document d.id c ≡ true) (parent_rows services settings d id place parents)
  unfolding parent_rows parent_row
  parents_own d id place [] = tt
  parents_own d id place (p ∷ ps) = (==_refl d.id, parents_own d (suc id) (suc place) ps)

  children_own :
      (d : Document) (id index : ℕ) (pieces : List Piece) (vectors : List Vector)
      → All
          (λ c. of_document d.id c ≡ true)
          (child_rows services settings d id index pieces vectors)
  unfolding child_rows child_row
  children_own d id index [] vectors = tt
  children_own d id index (piece ∷ pieces) [] = tt
  children_own d id index (piece ∷ pieces) (v ∷ vectors) =
      (==_refl d.id, children_own d (suc id) (suc index) pieces vectors)

  -- What the indexing leaves in the table of chunks: the parents are the sections of the content, each
  -- followed up by its own pieces, and the vectors are those that the service gave for the pieces in
  -- their contexts.
  pub record Rewritten (d : Document) (content : Text) (w w' : World) : Type 0 where
    pub prepared : Prepared
    pub parsed : parse_document services.readers settings d.filename content ≡ ok prepared.text
    pub sections :
        split_parent_child_text services.is_digit prepared.text settings.chunk_size
          settings.chunk_overlap
        ≡ prepared.parents
    pub parents : List Chunk
    pub children : List Chunk
    pub own : select (λ c. c.document_id == d.id) w'.chunks ≡ parents ++ children
    pub joined : All (IsChild parents) children
    pub grouped : AreGrouped prepared.parents parents children
    pub embedded : map (λ (c : Chunk). c.embedding) children ≡ map some prepared.vectors
    pub answered :
        embed_texts_in_batches services.embed
          (map (λ (c : Chunk). c.contextual_content) children)
          settings.embedding_batch_size
        ≡ ok prepared.vectors
    pub others :
        select (λ c. not (c.document_id == d.id)) w'.chunks
        ≡ select (λ c. not (c.document_id == d.id)) w.chunks

  replaced :
      (d : Document) (old new : List Chunk)
      → All (λ c. of_document d.id c ≡ true) new
      → (select (of_document d.id) (remove (of_document d.id) old ++ new) ≡ new)
        × (select (λ c. not (of_document d.id c)) (remove (of_document d.id) old ++ new)
            ≡ select (λ c. not (of_document d.id c)) old)
  replaced d old new h = (
    rw (
      select-append (of_document d.id) (remove (of_document d.id) old) new,
      select-remove_same (of_document d.id) old,
      select-All (of_document d.id) new h,
    ),
    rw
        (
          select-append (λ c. not (of_document d.id c)) (remove (of_document d.id) old) new,
          select-remove_other (of_document d.id) old,
          select-None (of_document d.id) new h,
        )
        (append-nil _),
  )

  -- What was prepared comes from the content.
  require_parents-ok :
      (sections parents : List ParentChildChunks)
      → require_parents services settings sections ≡ ok parents
      → sections ≡ parents
  unfolding require_parents
  require_parents-ok [] parents h = absurd (err-ne-ok h)
  require_parents-ok (p ∷ ps) parents h = cc

  require_equal-ok :
      (pieces : List Piece) (vectors answer : List Vector)
      → require_equal services settings pieces vectors ≡ ok answer
      → (length pieces ≡ length vectors) × (vectors ≡ answer)
  unfolding require_equal
  require_equal-ok pieces vectors answer h = elim (Bool-cases (length pieces == length vectors)) [
    | inl e ↦ (ground arith, ok-inj (rw e at h))
    | inr e ↦ absurd (err-ne-ok (rw e at h))
  ]

  pub record IsPrepared (first_id : ℕ) (d : Document) (content : Text) (p : Prepared) : Type 0 where
    pub parsed : parse_document services.readers settings d.filename content ≡ ok p.text
    pub sections :
        split_parent_child_text services.is_digit p.text settings.chunk_size settings.chunk_overlap
        ≡ p.parents
    pub answered :
        embed_texts_in_batches services.embed
          (map (context_of d) (pieces_of first_id p.parents))
          settings.embedding_batch_size
        ≡ ok p.vectors
    pub paired : length (pieces_of first_id p.parents) ≡ length p.vectors

  prepare-IsPrepared :
      (first_id : ℕ) (d : Document) (content : Text) (p : Prepared)
      → prepare services settings first_id d content ≡ ok p
      → IsPrepared first_id d content p
  unfolding prepare
  prepare-IsPrepared first_id d content p h =
      let (text, parsed, h1) = both_returned _ _ h in
      let (parents, required, h2) = both_returned _ _ h1 in
      let (answer, answered, h3) = both_returned _ _ h2 in
      let (vectors, equal, h4) = both_returned _ _ h3 in
      let (paired, same) = require_equal-ok (pieces_of first_id parents) answer vectors equal in
      subst (IsPrepared first_id d content) (ok-inj h4) (record {
        parsed = parsed;
        sections = require_parents-ok _ parents required;
        answered = answered ∙ ap ok same;
        paired = paired ∙ ap length same;
      })

  rewritten :
      (d : Document) (content : Text) (p : Prepared) (w : World)
      → IsPrepared w.next_id d content p
      → Rewritten d content w (store_chunks services settings d p w)
  unfolding store_chunks update_document
  rewritten d content p w from =
      let first_child = w.next_id + length p.parents in
      let parents = parent_rows services settings d w.next_id 1 p.parents in
      let children =
        child_rows services settings d first_child 0 (pieces_of w.next_id p.parents) p.vectors in
      let (own, others) = replaced d w.chunks (parents ++ children) (
        All-append (λ c. of_document d.id c ≡ true) parents children
          (parents_own d w.next_id 1 p.parents)
          (children_own d first_child 0 (pieces_of w.next_id p.parents) p.vectors)) in
      let pieces = pieces_of w.next_id p.parents in
      record {
        prepared = p;
        parsed = from.parsed;
        sections = from.sections;
        grouped =
            groups services settings d w.next_id 1 first_child 0 p.parents p.vectors from.paired;
        embedded = embeddings services settings d first_child 0 pieces p.vectors from.paired;
        answered =
            ap (λ texts. embed_texts_in_batches services.embed texts settings.embedding_batch_size)
              (contexts services settings d first_child 0 pieces p.vectors from.paired)
            ∙ from.answered;
        parents = parents;
        children = children;
        own = own;
        joined =
            child_rows-IsChild services settings d w.next_id first_child 0 parents _ p.vectors
              (pieces-HasRow services settings d w.next_id 1 p.parents);
        others = others;
      }

  finished :
      (d : Document) (content : Text) (w w' : World) (prepared : Result Prepared)
      → prepare services settings w.next_id d content ≡ prepared
      → finish_index services settings d w prepared ≡ (ok tt, w')
      → Rewritten d content w w'
  unfolding finish_index
  finished d content w w' (err exc) from h =
      absurd (err-ne-ok (ap (λ (r : Result (Unit {0}) × World). r.0) h))
  finished d content w w' (ok p) from h =
      subst (Rewritten d content w) (ap (λ (r : Result (Unit {0}) × World). r.1) h)
        (rewritten d content p w (prepare-IsPrepared w.next_id d content p from))

  -- Setting PROCESSING leaves the chunks.
  before_processing :
      (d : Document) (content : Text) (w w' : World)
      → Rewritten d content (update_document d.id set_processing w) w'
      → Rewritten d content w w'
  unfolding update_document
  before_processing d content w w' r = record {
    prepared = r.prepared;
    parsed = r.parsed;
    sections = r.sections;
    grouped = r.grouped;
    embedded = r.embedded;
    answered = r.answered;
    parents = r.parents;
    children = r.children;
    own = r.own;
    joined = r.joined;
    others = r.others;
  }

  pub prepared-Rewritten :
      (d : Document) (content : Text) (p : Prepared) (w : World)
      → prepare services settings w.next_id d content ≡ ok p
      → Rewritten d content w
          (store_chunks services settings d p (update_document d.id set_processing w))
  unfolding update_document
  prepared-Rewritten d content p w h = before_processing d content w _ (
      rewritten d content p (update_document d.id set_processing w)
        (prepare-IsPrepared w.next_id d content p h))

  -- An indexing that returns has replaced the chunks of the document: they are one parent for each
  -- section of the parsed content, with its text, and one child for each piece of each section, in
  -- order, which refers to the row of its section under the same headings and has the vector that the
  -- embedding service gave for the piece in its context; and the chunks of every other document are
  -- as they were.
  pub index_content-Rewritten :
      (d : Document) (content : Text) (w w' : World)
      → index_content services settings d content w ≡ (ok tt, w')
      → Rewritten d content w w'
  unfolding index_content update_document
  index_content-Rewritten d content w w' h = before_processing d content w w' (
      finished d content (update_document d.id set_processing w) w'
        (prepare services settings w.next_id d content) refl h)
