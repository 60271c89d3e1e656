-- ===== src/Rag/KnowledgeBases/Deletion.antt =====
-- `KnowledgeBaseService.delete`: the cascade from a knowledge base to its documents.
use mathlib.Core.Option
use mathlib.Core.Path.{subst}
use rag_service.Prelude.{
  ℕ, codes, Bool, true, false, ◌&&◌, ◌||◌, List, [], ◌∷◌, ◌==◌, if◌then◌else◌, any, Option, none,
  some, find, select, modify, ◌≡◌, ◌≢◌, refl, ap, ◌∙◌, ◌⊎◌, inl, inr, arith, All, Bool-cases,
  none-ne-some, Unique, ==_iff,
}
use rag_service.Rag.Model.{Document, DocumentStatus, KnowledgeBase, same_status}
use rag_service.Rag.Indexing.{not_found_error}
use rag_service.Rag.Exec.{ok, err}
use rag_service.Rag.World.{World, get_live, is_live, update_document}
use rag_service.Rag.World.Live.{
  touched, get_live-update_any, live_id, stamp_unchanged, stamp_status,
}
use rag_service.Rag.Outbox.{enqueue_document_delete}
use rag_service.Rag.Outbox.Enqueue.{IsRequested, DeleteRequested, enqueue_document_delete_lem}
use rag_service.Rag.KnowledgeBases.Access.{found_base}
use rag_service.Rag.KnowledgeBases.{
  is_authorized, get_authorized, get_knowledge_base, set_deleting, delete_documents, is_in_base,
  mark_base_deleted, delete_row, delete_knowledge_base,
}

-- What the loop over the documents does.
record Cascade (ds : List Document) (w w' : World) : Type 0 where
  found :
      (pk : ℕ)
      → get_live pk w' ≡ (
          if any (λ (d : Document). d.id == pk) ds
          then Option.map (touched w.now set_deleting) (get_live pk w)
          else get_live pk w)
  bases : w'.knowledge_bases ≡ w.knowledge_bases
  requested : All (λ (d : Document). IsRequested d.id w') ds
  others : (pk : ℕ) → IsRequested pk w → IsRequested pk w'

touch_again :
    (now : ℕ) (o : Option Document) (once more : Bool)
    → (if more
        then Option.map
            (touched now set_deleting)
            (if once then Option.map (touched now set_deleting) o else o)
        else (if once then Option.map (touched now set_deleting) o else o))
      ≡ (if once || more then Option.map (touched now set_deleting) o else o)
touch_again now none true true = refl
touch_again now (some d) true true =
    ap (λ u. some (record (touched now set_deleting d) { updated_time = u }))
      (stamp_unchanged now (touched now set_deleting d))
touch_again now o true false = refl
touch_again now o false more = refl

seen :
    (d : Document) (w w1 : World) (pk : ℕ)
    → DeleteRequested d.id (update_document d.id set_deleting w) w1
    → get_live pk w1 ≡ (
        if d.id == pk
        then Option.map (touched w.now set_deleting) (get_live pk w)
        else get_live pk w)
unfolding get_live
seen d w w1 pk r =
    ap (find (is_live pk)) r.documents
    ∙ (get_live-update_any pk d.id set_deleting w (λ x. (refl, refl)))

step :
    (d : Document) (ds : List Document) (w w1 w' : World)
    → DeleteRequested d.id (update_document d.id set_deleting w) w1
    → Cascade ds w1 w'
    → Cascade (d ∷ ds) w w'
unfolding update_document get_live
step d ds w w1 w' r c = record {
  found = λ pk.
      c.found pk
      ∙ (rw (r.now, seen d w w1 pk r)
          (touch_again w.now (get_live pk w) (d.id == pk) (any (λ (x : Document). x.id == pk) ds)));
  bases = c.bases ∙ r.bases;
  requested = (c.others d.id r.requested, c.requested);
  others = λ pk q. c.others pk (r.others pk q);
}

cascade : (ds : List Document) (w : World) → Cascade ds w (delete_documents ds w)
unfolding delete_documents
cascade [] w = record { found = λ pk. refl; bases = refl; requested = tt; others = λ pk r. r }
cascade (d ∷ ds) w =
    let w1 = (enqueue_document_delete d.id (update_document d.id set_deleting w)).1 in
    step d ds w w1 (delete_documents ds w1)
      (enqueue_document_delete_lem d.id (update_document d.id set_deleting w)) (cascade ds w1)

no_key :
    (p : Document → Bool) (pk : ℕ) (xs : List Document)
    → All (λ (x : Document). x.id ≢ pk) xs
    → any (λ (x : Document). x.id == pk) (select p xs) ≡ false
unfolding select
no_key p pk [] h = refl
no_key p pk (x ∷ xs) h = ground (arith, no_key p pk xs h.1, h)

gone_key :
    (pk : ℕ) (xs : List Document)
    → All (λ (x : Document). x.id ≢ pk) xs
    → find (is_live pk) xs ≡ none
unfolding find
gone_key pk [] h = refl
gone_key pk (x ∷ xs) h = ground (arith, gone_key pk xs h.1, h)

-- Whether the key of a live row is among the rows of a selection.
selected_key :
    (p : Document → Bool) (pk : ℕ) (xs : List Document) (d : Document)
    → Unique (λ (x : Document). x.id) xs
    → find (is_live pk) xs ≡ some d
    → any (λ (x : Document). x.id == pk) (select p xs) ≡ p d
unfolding find select
selected_key p pk [] d u h = absurd (none-ne-some d h)
selected_key p pk (x ∷ xs) d u h = elim (Bool-cases (x.id == pk)) [
  | inr e ↦ ground (arith, selected_key p pk xs d u.1)
  | inl e ↦
      let others : All (λ (y : Document). y.id ≢ pk) xs =
        subst (λ key. All (λ (y : Document). y.id ≢ key) xs) ((==_iff x.id pk).0 e) u.0 in
      ground (arith, no_key p pk xs others, gone_key pk xs others)
]

by_key :
    (P : ℕ → Type 0) (pk : ℕ) (ds : List Document)
    → All (λ (d : Document). P d.id) ds
    → any (λ (d : Document). d.id == pk) ds ≡ true
    → P pk
by_key P pk [] h e = cc
by_key P pk (d ∷ ds) h e = elim (Bool-cases (d.id == pk)) [
  | inl same ↦ subst P ((==_iff d.id pk).0 same) h.0
  | inr ne ↦ by_key P pk ds h.1 (rw ne at e)
]

no_base :
    (pk user_id : ℕ) (is_admin write : Bool) (kbs : List KnowledgeBase)
    → pk ≢ 0
    → find
        (λ kb. (kb.id == pk && kb.deleted == 0) && is_authorized user_id is_admin write kb)
        (modify (λ row. row.id == pk) (λ row. record row { deleted = row.id }) kbs)
      ≡ none
unfolding find modify
no_base pk user_id is_admin write [] nz = refl
no_base pk user_id is_admin write (kb ∷ kbs) nz =
    ground (arith, no_base pk user_id is_admin write kbs nz)

-- The state behind the deletion of a base, for a live document.
abbrev pub Cascaded : ℕ → ℕ → Document → World → World → Type 0
Cascaded kb_id pk d w w' =
    ((d.knowledge_base_id ≡ kb_id)
      × (get_live pk w'
          ≡ some (record d {
            status = DocumentStatus.deleting;
            updated_time =
                if same_status d.status DocumentStatus.deleting then d.updated_time else some w.now;
          }))
      × IsRequested pk w')
    ⊎ ((d.knowledge_base_id ≢ kb_id) × (get_live pk w' ≡ some d))

cascaded :
    (kb_id pk : ℕ) (d : Document) (w w' : World)
    → Unique (λ (x : Document). x.id) w.documents
    → get_live pk w ≡ some d
    → Cascade (select (is_in_base kb_id) w.documents) w w'
    → Cascaded kb_id pk d w w'
cascaded kb_id pk d w w' u e c =
    let key : any (λ (x : Document). x.id == pk) (select (is_in_base kb_id) w.documents)
        ≡ is_in_base kb_id d =
      selected_key (is_in_base kb_id) pk w.documents d u (unfold get_live in e) in
    let (_, live) = live_id pk w d e in
    elim (Bool-cases (d.knowledge_base_id == kb_id)) [
      | inl same ↦
          let inside : is_in_base kb_id d ≡ true = ground arith in
          inl (
            ground arith,
            c.found pk
                ∙ rw (key ∙ inside, e)
                    (ap
                      (λ u. some (record d { status = DocumentStatus.deleting; updated_time = u }))
                      (stamp_status w.now d DocumentStatus.deleting)),
            by_key (λ i. IsRequested i w') pk (select (is_in_base kb_id) w.documents) c.requested
                (key ∙ inside),
          )
      | inr other ↦
          let outside : is_in_base kb_id d ≡ false = ground arith in
          inr (ground arith, c.found pk ∙ (rw (key ∙ outside, e)))
    ]

unreachable :
    (pk : ℕ) (w : World) (other : ℕ) (admin write : Bool)
    → pk ≢ 0
    → get_knowledge_base pk other admin write
        (delete_documents (select (is_in_base pk) w.documents) (mark_base_deleted pk w))
      ≡ err (not_found_error (codes "知识库不存在或无权访问"))
unfolding get_knowledge_base get_authorized mark_base_deleted
unreachable pk w other admin write nz =
    let c = cascade (select (is_in_base pk) w.documents) (mark_base_deleted pk w) in
    rw (c.bases, no_base pk other admin write w.knowledge_bases nz)

row_deleted :
    (pk doc : ℕ) (w : World) (d : Document)
    → pk ≢ 0
    → Unique (λ (x : Document). x.id) w.documents
    → get_live doc w ≡ some d
    → let w' = delete_documents (select (is_in_base pk) w.documents) (mark_base_deleted pk w) in
      ((other : ℕ) (admin write : Bool)
        → get_knowledge_base pk other admin write w' ≡ err (not_found_error (codes "知识库不存在或无权访问")))
      × Cascaded pk doc d w w'
unfolding mark_base_deleted get_live
row_deleted pk doc w d nz u e = (
  λ other admin write. unreachable pk w other admin write nz,
  cascaded pk doc d (mark_base_deleted pk w) _ u e
      (cascade (select (is_in_base pk) w.documents) (mark_base_deleted pk w)),
)

-- A caller who may write to a base, whose key is not 0, deletes it: the call returns; afterwards
-- the base is found for nobody; a live document is DELETING and has a request for its deletion in the
-- outbox if it is of that base, and it is as it was if not.
pub delete_knowledge_base_cascade :
    (pk user_id doc : ℕ) (is_admin : Bool) (w : World) (kb : KnowledgeBase) (d : Document)
    → pk ≢ 0
    → Unique (λ (x : Document). x.id) w.documents
    → get_knowledge_base pk user_id is_admin true w ≡ ok kb
    → get_live doc w ≡ some d
    → let (r, w') = delete_knowledge_base pk user_id is_admin w in
      (r ≡ ok tt)
      × ((other : ℕ) (admin write : Bool)
          → get_knowledge_base pk other admin write w'
            ≡ err (not_found_error (codes "知识库不存在或无权访问")))
      × Cascaded pk doc d w w'
unfolding delete_knowledge_base delete_row
delete_knowledge_base_cascade pk user_id doc is_admin w kb d nz u h e =
    let (key, _, _) = found_base pk user_id is_admin true w kb h in
    let (nobody, row) = row_deleted pk doc w d nz u e in rw (h, key) (refl, nobody, row)
