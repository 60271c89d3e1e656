-- ===== src/Rag/Documents/Content/Groups.antt =====
-- The rows of `index_content` by sections: what each parent and each child has.
use mathlib.Core.Path.{subst}
use rag_service.Prelude.{
  map, none, sym, ℕ, suc, ◌≤◌, Text, true, false, List, [], ◌∷◌, ◌++◌, length, ◌==◌, ==_refl, some,
  find, All, All-append, ◌≡◌, refl, ap, arith,
}
use rag_service.Rag.Model.{Document, Chunk, Vector}
use rag_service.Rag.Settings.{Settings}
use rag_service.Rag.Services.{Services}
use rag_service.Rag.Chunking.Sections.{ParentChildChunks}
use rag_service.Rag.Documents.Content.{
  context_of, Piece, pieces_of_parent, pieces_of, parent_row, parent_rows, child_row, child_rows,
}

-- The row of the piece's parent, with the piece's heading path.
abbrev HasRow : List Chunk → Piece → Type 0
HasRow rows piece =
    (q : Chunk) × (find (λ r. r.id == piece.parent_id) rows ≡ some q)
    × (q.is_parent ≡ true)
    × (q.heading_path ≡ piece.path)

abbrev RowFrom : ℕ → List Chunk → Piece → Type 0
RowFrom id rows piece = (id ≤ piece.parent_id) × HasRow rows piece

-- The rows of sections and of their pieces: each section has one parent with its text, and its
-- pieces have one child each, in order, which refers to that parent.
pub data AreGrouped : List ParentChildChunks → List Chunk → List Chunk → Type 0 where
  no_groups : AreGrouped [] [] []
  group :
      (p : ParentChildChunks) (row : Chunk) (mine : List Chunk) {ps : List ParentChildChunks}
      {rows rest : List Chunk}
      → row.is_parent ≡ true
      → row.content ≡ p.parent_content
      → row.heading_path ≡ p.heading_path
      → row.embedding ≡ none
      → map (λ (c : Chunk). c.content) mine ≡ p.children
      → All (λ (c : Chunk). c.parent_chunk_id ≡ some row.id) mine
      → AreGrouped ps rows rest
      → AreGrouped (p ∷ ps) (row ∷ rows) (mine ++ rest)

-- A child row: it has a vector, and its parent is one of the rows, under the same headings.
pub record IsChild (rows : List Chunk) (c : Chunk) : Type 0 where
  pub no_parent : c.is_parent ≡ false
  pub vector : Vector
  pub embedded : c.embedding ≡ some vector
  pub parent : Chunk
  pub parent_id : ℕ
  pub refers : c.parent_chunk_id ≡ some parent_id
  pub found : find (λ r. r.id == parent_id) rows ≡ some parent
  pub is_parent : parent.is_parent ≡ true
  pub same_path : parent.heading_path ≡ c.heading_path

module _ (services : Services) (settings : Settings) where
  own_pieces :
      (d : Document) (id place : ℕ) (parent : ParentChildChunks) (rest : List Chunk)
      (texts : List Text)
      → All
          (RowFrom id (parent_row services settings d id place parent ∷ rest))
          (pieces_of_parent id parent.heading_path texts)
  unfolding pieces_of_parent parent_row find
  own_pieces d id place parent rest [] = tt
  own_pieces d id place parent rest (t ∷ texts) = (
    (omega arith, (parent_row services settings d id place parent, rw (==_refl id), refl, refl)),
    own_pieces d id place parent rest texts,
  )

  later_pieces :
      (row : Chunk) (rows : List Chunk) (pieces : List Piece)
      → All (RowFrom (suc row.id) rows) pieces
      → All (RowFrom row.id (row ∷ rows)) pieces
  unfolding find
  later_pieces row rows [] h = tt
  later_pieces row rows (piece ∷ pieces) h =
      let (le, (q, found, parent, path)) = h.0 in
      let other : (row.id == piece.parent_id) ≡ false = ground arith in
      ((omega arith, (q, rw other found, parent, path)), later_pieces row rows pieces h.1)

  pub pieces-HasRow :
      (d : Document) (id place : ℕ) (parents : List ParentChildChunks)
      → All (RowFrom id (parent_rows services settings d id place parents)) (pieces_of id parents)
  unfolding parent_rows pieces_of
  pieces-HasRow d id place [] = tt
  pieces-HasRow d id place (p ∷ ps) =
      All-append
        (RowFrom id (
          parent_row services settings d id place p
          ∷ parent_rows services settings d (suc id) (suc place) ps))
        _ _
        (own_pieces d id place p (parent_rows services settings d (suc id) (suc place) ps)
          p.children)
        (unfold parent_row in
          later_pieces (parent_row services settings d id place p) _ _
            (pieces-HasRow d (suc id) (suc place) ps))

  pub child_rows-IsChild :
      (d : Document) (first id index : ℕ) (rows : List Chunk) (pieces : List Piece)
      (vectors : List Vector)
      → All (RowFrom first rows) pieces
      → All (IsChild rows) (child_rows services settings d id index pieces vectors)
  unfolding child_rows child_row
  child_rows-IsChild d first id index rows [] vectors h = tt
  child_rows-IsChild d first id index rows (piece ∷ pieces) [] h = tt
  child_rows-IsChild d first id index rows (piece ∷ pieces) (v ∷ vectors) h =
      let (_, (q, found, parent, path)) = h.0 in
      (
        record {
          no_parent = refl;
          vector = v;
          embedded = refl;
          parent = q;
          parent_id = piece.parent_id;
          refers = refl;
          found = found;
          is_parent = parent;
          same_path = path;
        },
        child_rows-IsChild d first (suc id) (suc index) rows pieces vectors h.1,
      )

  pub embeddings :
      (d : Document) (id index : ℕ) (pieces : List Piece) (vectors : List Vector)
      → length pieces ≡ length vectors
      → map (λ (c : Chunk). c.embedding) (child_rows services settings d id index pieces vectors)
        ≡ map some vectors
  unfolding child_rows child_row
  embeddings d id index [] [] h = refl
  embeddings d id index [] (v ∷ vs) h = absurd (ground arith)
  embeddings d id index (q ∷ qs) [] h = absurd (ground arith)
  embeddings d id index (q ∷ qs) (v ∷ vs) h =
      ap (λ r. some v ∷ r) (embeddings d (suc id) (suc index) qs vs (omega (arith, h)))

  pub contexts :
      (d : Document) (id index : ℕ) (pieces : List Piece) (vectors : List Vector)
      → length pieces ≡ length vectors
      → map
          (λ (c : Chunk). c.contextual_content)
          (child_rows services settings d id index pieces vectors)
        ≡ map (context_of d) pieces
  unfolding child_rows child_row
  contexts d id index [] vectors h = refl
  contexts d id index (q ∷ qs) [] h = absurd (ground arith)
  contexts d id index (q ∷ qs) (v ∷ vs) h =
      ap (λ r. context_of d q ∷ r) (contexts d (suc id) (suc index) qs vs (omega (arith, h)))

  -- The children of the first section, and the rest.
  abbrev FirstGroup : ℕ → List Text → List ParentChildChunks → List Chunk → List Chunk → Type 0
  FirstGroup parent_id texts ps rows children =
      (mine : List Chunk) × (rest : List Chunk) × (children ≡ mine ++ rest)
      × (map (λ (c : Chunk). c.content) mine ≡ texts)
      × All (λ (c : Chunk). c.parent_chunk_id ≡ some parent_id) mine
      × AreGrouped ps rows rest

  first_group :
      (d : Document) (parent_id : ℕ) (path texts : List Text) (parents : List ParentChildChunks)
      (rows : List Chunk) (more : List Piece) (id index : ℕ) (vectors : List Vector)
      → ((id index : ℕ) (vectors : List Vector)
          → length more ≡ length vectors
          → AreGrouped parents rows (child_rows services settings d id index more vectors))
      → length (pieces_of_parent parent_id path texts ++ more) ≡ length vectors
      → FirstGroup parent_id texts parents rows (
          child_rows services settings d id index
            (pieces_of_parent parent_id path texts ++ more)
            vectors)
  unfolding pieces_of_parent child_rows child_row
  first_group d pid path [] ps rows more id index vs later h =
      ([], _, refl, refl, tt, later id index vs h)
  first_group d pid path (t ∷ ts) ps rows more id index [] later h = absurd (ground arith)
  first_group d pid path (t ∷ ts) ps rows more id index (v ∷ vs) later h =
      let (mine, rest, same, texts, refer, grouped) =
        first_group d pid path ts ps rows more (suc id) (suc index) vs later (omega (arith, h)) in
      (
        child_row services settings d id index (record { parent_id = pid; path = path; text = t }) v
            ∷ mine,
        rest,
        ap
            (λ r.
              child_row services settings d id index
                (record { parent_id = pid; path = path; text = t }) v
              ∷ r)
            same,
        ap (λ r. t ∷ r) texts,
        (refl, refer),
        grouped,
      )

  pub groups :
      (d : Document) (first place id index : ℕ) (parents : List ParentChildChunks)
      (vectors : List Vector)
      → length (pieces_of first parents) ≡ length vectors
      → AreGrouped parents
          (parent_rows services settings d first place parents)
          (child_rows services settings d id index (pieces_of first parents) vectors)
  unfolding parent_rows parent_row pieces_of
  groups d first place id index [] vectors h = unfold child_rows in no_groups
  groups d first place id index (p ∷ ps) vectors h =
      let (mine, rest, same, texts, refer, grouped) =
        first_group d first p.heading_path p.children ps
          (parent_rows services settings d (suc first) (suc place) ps) (pieces_of (suc first) ps) id
          index vectors
          (λ id index vectors h. groups d (suc first) (suc place) id index ps vectors h) h in
      subst (AreGrouped (p ∷ ps) (parent_rows services settings d first place (p ∷ ps))) (sym same)
        (group p (parent_row services settings d first place p) mine refl refl refl refl texts refer
          grouped)
