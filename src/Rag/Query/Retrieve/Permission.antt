-- ===== src/Rag/Query/Retrieve/Permission.antt =====
-- What `retrieve` gives out: sources of bases that the caller asked for and may read, from documents
-- that are live and READY.
use mathlib.Core.Path.{subst}
use rag_service.Prelude.{
  ℕ, suc, Text, Bool, true, false, ◌&&◌, not, List, [], ◌∷◌, map, ◌==◌, Option, none, some, find,
  find_sound, select, ◌≡◌, refl, sym, arith, All, All-take, Bool-cases, inl, inr,
}
use rag_service.Rag.Model.{Chunk, Document, DocumentStatus, KnowledgeBase, Vector, same_status}
use rag_service.Rag.Exec.{ok, both_returned, err-ne-ok}
use rag_service.Rag.Settings.{QuerySettings}
use rag_service.Rag.Context.{Source}
use rag_service.Rag.World.{World}
use rag_service.Rag.KnowledgeBases.Access.{MayUse, authorized_lem}
use rag_service.Rag.Query.{
  RetrieveParam, Numbers, SearchServices, MergedResult, contains_id, require_ids, is_accessible,
  accessible_kb_ids, is_searchable, is_indexed, with_document, base_rows, select_context_results,
  get_parent_content,
}
use rag_service.Rag.Query.Retrieve.{
  Row, source_of, sources_of, present, search, retrieve, first_vector,
}
use rag_service.Rag.Query.Retrieve.Hits.{
  OfRow, OfItem, unique_contexts-All, dense-All, lexical-All, after_rerank-All, fuse-All, ok-inj,
}

-- A chunk that the search may find, with the name of its document.
abbrev IsHit : List ℕ → World → Chunk → Text → Type 0
IsHit ids w c name =
    (contains_id c.knowledge_base_id ids ≡ true)
    × ((d : Document) × (find (is_indexed c.document_id) w.documents ≡ some d)
        × (d.filename ≡ name))

with_document-IsHit :
    (ids : List ℕ) (w : World) (c : Chunk) (found : Option Document) (rows : List Row)
    → contains_id c.knowledge_base_id ids ≡ true
    → find (is_indexed c.document_id) w.documents ≡ found
    → All (OfRow (IsHit ids w)) rows
    → All (OfRow (IsHit ids w)) (with_document c found rows)
unfolding with_document
with_document-IsHit ids w c none rows h e hs = hs
with_document-IsHit ids w c (some d) rows h e hs = ((h, (d, e, refl)), hs)

base_rows-IsHit :
    (ids : List ℕ) (w : World) (cs : List Chunk)
    → All (OfRow (IsHit ids w)) (base_rows ids w.documents cs)
unfolding base_rows
base_rows-IsHit ids w [] = tt
base_rows-IsHit ids w (c ∷ cs) = elim (Bool-cases (is_searchable ids c)) [
  | inl e ↦ rw e (
      with_document-IsHit ids w c (find (is_indexed c.document_id) w.documents) _ (ground arith)
        refl (base_rows-IsHit ids w cs))
  | inr e ↦ rw e (base_rows-IsHit ids w cs)
]

-- An id of a selection is the id of a row that was selected.
selected_row :
    (p : KnowledgeBase → Bool) (id : ℕ) (kbs : List KnowledgeBase)
    → contains_id id (map (λ (kb : KnowledgeBase). kb.id) (select p kbs)) ≡ true
    → (kb : KnowledgeBase) × (find (λ row. p row && row.id == id) kbs ≡ some kb)
unfolding select find
selected_row p id [] h = absurd (ground arith)
selected_row p id (kb ∷ kbs) h = elim (Bool-cases (p kb)) [
  | inr e ↦ rw e (selected_row p id kbs (rw e at h))
  | inl e ↦ elim (Bool-cases (kb.id == id)) [
    | inl same ↦ rw (e, same) (kb, refl)
    | inr other ↦ rw (e, other) (selected_row p id kbs (ground arith))
  ]
]

-- The caller asked for the source's base, which is live and which the caller may read, and the source's
-- document is live and READY.
pub record IsPermitted (user_id : ℕ) (is_admin : Bool) (requested : List ℕ) (w : World) (s : Source)
    : Type 0 where
  pub base : KnowledgeBase
  pub own_base : base.id ≡ s.knowledge_base_id
  pub stored :
      find
        (λ row. is_accessible user_id is_admin requested row && row.id == s.knowledge_base_id)
        w.knowledge_bases
      ≡ some base
  pub asked_for : contains_id base.id requested ≡ true
  pub live_base : base.deleted ≡ 0
  pub readable : MayUse user_id is_admin false base
  pub document : Document
  pub own_document : document.id ≡ s.document_id
  pub ready : document.status ≡ DocumentStatus.ready
  pub live_document : document.deleted ≡ 0
  pub named : document.filename ≡ s.document_name

ready_status :
    (s : DocumentStatus) → same_status s DocumentStatus.ready ≡ true → s ≡ DocumentStatus.ready
unfolding same_status
ready_status DocumentStatus.ready h = refl
ready_status DocumentStatus.pending h = cc
ready_status DocumentStatus.processing h = cc
ready_status DocumentStatus.failed h = cc
ready_status DocumentStatus.deleting h = cc

permitted :
    (user_id : ℕ) (is_admin : Bool) (requested ids : List ℕ) (w : World) (s : Source)
    → map
        (λ (kb : KnowledgeBase). kb.id)
        (select (is_accessible user_id is_admin requested) w.knowledge_bases)
      ≡ ids
    → contains_id s.knowledge_base_id ids ≡ true
    → (d : Document) → find (is_indexed s.document_id) w.documents ≡ some d
    → d.filename ≡ s.document_name
    → IsPermitted user_id is_admin requested w s
permitted user_id is_admin requested ids w s e h d found name =
    let (kb, row) =
      selected_row (is_accessible user_id is_admin requested) s.knowledge_base_id w.knowledge_bases
        (subst (λ xs. contains_id s.knowledge_base_id xs ≡ true) (sym e) h) in
    let fits =
      find_sound
        (λ row. is_accessible user_id is_admin requested row && row.id == s.knowledge_base_id)
        w.knowledge_bases kb row in
    let fits' = find_sound (is_indexed s.document_id) w.documents d found in
    record {
      base = kb;
      own_base = ground (arith, fits);
      stored = row;
      asked_for = ground (arith, fits);
      live_base = ground (arith, fits);
      readable = (authorized_lem user_id is_admin false kb).0 (ground (arith, fits));
      document = d;
      own_document = ground (arith, fits');
      ready = ready_status d.status (ground (arith, fits'));
      live_document = ground (arith, fits');
      named = name;
    }

asked_ids : (found ids : List ℕ) → require_ids found ≡ ok ids → found ≡ ids
unfolding require_ids
asked_ids [] ids h = absurd (err-ne-ok h)
asked_ids (x ∷ xs) ids h = ok-inj h

module _ (services : SearchServices) (numbers : Numbers) (settings : QuerySettings) where
  sources-IsPermitted :
      (user_id : ℕ) (is_admin : Bool) (requested ids : List ℕ) (w : World) (parents : List Chunk)
      (index : ℕ) (items : List MergedResult)
      → map
          (λ (kb : KnowledgeBase). kb.id)
          (select (is_accessible user_id is_admin requested) w.knowledge_bases)
        ≡ ids
      → All (OfItem (IsHit ids w)) items
      → All
          (IsPermitted user_id is_admin requested w)
          (sources_of services numbers settings parents index items)
  unfolding sources_of source_of
  sources-IsPermitted u a r ids w parents index [] e h = tt
  sources-IsPermitted u a r ids w parents index (item ∷ items) e h =
      let (inside, (d, found, name)) = h.0 in
      (
        permitted u a r ids w _ e inside d found name,
        sources-IsPermitted u a r ids w parents (suc index) items e h.1,
      )

  selected-All :
      (ids : List ℕ) (w : World) (items : List MergedResult) (top_k : ℕ)
      → All (OfItem (IsHit ids w)) items
      → All (OfItem (IsHit ids w)) (select_context_results settings items top_k)
  unfolding select_context_results
  selected-All ids w items k h = elim (Bool-cases (not settings.parent_context_enabled)) [
    | inl e ↦ rw e (All-take _ k items h)
    | inr e ↦ rw e (unique_contexts-All (IsHit ids w) k 0 [] items h)
  ]

  search-All :
      (obj : RetrieveParam) (w : World) (v : Vector) (ids : List ℕ) (ordered : List MergedResult)
      → search services numbers settings obj w v ids ≡ ok ordered
      → All (OfItem (IsHit ids w)) ordered
  unfolding search
  search-All obj w v ids ordered e =
      let hits = base_rows-IsHit ids w w.chunks in
      after_rerank-All (IsHit ids w) services numbers settings _ ordered _
        (fuse-All (IsHit ids w) services numbers settings v _ _
          (dense-All (IsHit ids w) services numbers settings v _ hits)
          (lexical-All (IsHit ids w) services numbers settings obj.question _ hits))
        e

  present-IsPermitted :
      (user_id : ℕ) (is_admin : Bool) (obj : RetrieveParam) (ids : List ℕ) (w : World)
      (ordered : List MergedResult)
      → map
          (λ (kb : KnowledgeBase). kb.id)
          (select (is_accessible user_id is_admin obj.knowledge_base_ids) w.knowledge_bases)
        ≡ ids
      → All (OfItem (IsHit ids w)) ordered
      → All
          (IsPermitted user_id is_admin obj.knowledge_base_ids w)
          (present services numbers settings obj w ordered)
  unfolding present
  present-IsPermitted u a obj ids w ordered e h =
      let selected = select_context_results settings ordered obj.top_k in
      sources-IsPermitted u a obj.knowledge_base_ids ids w (get_parent_content settings selected w)
        1 selected e (selected-All ids w ordered obj.top_k h)

  pub retrieve-IsPermitted :
      (user_id : ℕ) (is_admin : Bool) (obj : RetrieveParam) (w : World) (sources : List Source)
      → retrieve services numbers settings user_id is_admin obj w ≡ ok sources
      → All (IsPermitted user_id is_admin obj.knowledge_base_ids w) sources
  unfolding retrieve accessible_kb_ids
  retrieve-IsPermitted u a obj w sources e =
      let (ids, accessible, e1) =
        both_returned (accessible_kb_ids u a obj.knowledge_base_ids w) _ e in
      let (vectors, _, e2) = both_returned (services.embed (obj.question ∷ [])) _ e1 in
      let (v, _, e3) = both_returned (first_vector vectors) _ e2 in
      let (ordered, found, e4) =
        both_returned (search services numbers settings obj w v ids) _ e3 in
      subst (All (IsPermitted u a obj.knowledge_base_ids w)) (ok-inj e4) (
        present-IsPermitted u a obj ids w ordered (asked_ids _ ids accessible)
          (search-All obj w v ids ordered found))
