-- ===== src/Rag/KnowledgeBases.antt =====
-- `CRUDKnowledgeBase` of backend/app/rag/crud/crud_rag.py and
-- backend/app/rag/service/knowledge_base_service.py.
pub mod Access
pub mod Deletion
use rag_service.Prelude.{
  ℕ, ◌+◌, Text, codes, text_eq, Bool, true, false, ◌&&◌, ◌||◌, List, [], ◌∷◌, ◌++◌, any, ◌==◌, ltb,
  if◌then◌else◌, Option, none, some, find, select, modify,
}
use rag_service.Rag.Model.{KnowledgeBase, Document, DocumentStatus}
use rag_service.Rag.Indexing.{not_found_error, sqlalchemy_error}
use rag_service.Rag.Exec.{Result, ok, err}
use rag_service.Rag.Chunking.Clean.{strip}
use rag_service.Rag.World.{World, Db, Exec, update_document}
use rag_service.Rag.Outbox.{enqueue_document_delete}

-- `KnowledgeBase.id == pk, KnowledgeBase.deleted == 0`, and the condition that is added unless the
-- caller is an administrator.
unfoldable pub is_authorized : ℕ → Bool → Bool → KnowledgeBase → Bool
is_authorized user_id is_admin write kb =
    is_admin || (if write then kb.owner_id == user_id else kb.owner_id == user_id || kb.is_public)

unfoldable pub get_authorized : ℕ → ℕ → Bool → Bool → World → Option KnowledgeBase
get_authorized pk user_id is_admin write w =
    find (λ kb. (kb.id == pk && kb.deleted == 0) && is_authorized user_id is_admin write kb)
      w.knowledge_bases

insert_by_id_desc : KnowledgeBase → List KnowledgeBase → List KnowledgeBase
insert_by_id_desc e [] = e ∷ []
insert_by_id_desc e (x ∷ xs) = if ltb e.id x.id then x ∷ insert_by_id_desc e xs else e ∷ x ∷ xs

-- `.order_by(KnowledgeBase.id.desc())`
order_by_id_desc : List KnowledgeBase → List KnowledgeBase
unfolding insert_by_id_desc
order_by_id_desc [] = []
order_by_id_desc (e ∷ es) = insert_by_id_desc e (order_by_id_desc es)

unfoldable pub get_all_authorized : ℕ → Bool → World → List KnowledgeBase
unfolding order_by_id_desc is_authorized
get_all_authorized user_id is_admin w =
    order_by_id_desc
      (select (λ kb. kb.deleted == 0 && is_authorized user_id is_admin false kb) w.knowledge_bases)

abbrev pub or_not_found {ℓ} : {A : Type ℓ} → Text → Option A → Result A
or_not_found message none = err (not_found_error message)
or_not_found message (some a) = ok a

-- `KnowledgeBaseService.get`
unfoldable pub get_knowledge_base : ℕ → ℕ → Bool → Bool → World → Result KnowledgeBase
unfolding get_authorized
get_knowledge_base pk user_id is_admin write w =
    or_not_found (codes "知识库不存在或无权访问") (get_authorized pk user_id is_admin write w)

-- `uq_rag_kb_owner_name_deleted`, which a flush of a new or renamed row meets.
pub name_taken : ℕ → Text → World → Bool
name_taken owner_id name w =
    any (λ kb. kb.owner_id == owner_id && (text_eq kb.name name && kb.deleted == 0))
      w.knowledge_bases

-- `KnowledgeBaseService.create`
unfoldable pub create_knowledge_base : ℕ → Text → Option Text → Bool → Exec KnowledgeBase
unfolding name_taken strip
create_knowledge_base user_id name description is_public w =
    let row : KnowledgeBase = record {
      id = w.next_id;
      owner_id = user_id;
      name = strip name;
      description = description;
      is_public = is_public;
      deleted = 0;
    } in
    if name_taken user_id (strip name) w then (err sqlalchemy_error, w) else (
      ok row,
      record w {
        db = record w.db {
          knowledge_bases = w.knowledge_bases ++ row ∷ [];
          next_id = w.next_id + 1;
        };
      },
    )

-- `obj.model_dump(exclude_unset=True)`: a field that was not set is `none`.
pub record UpdateParam : Type 0 where
  pub name : Option Text
  pub description : Option (Option Text)
  pub is_public : Option Bool

abbrev pub or_else {ℓ} : {A : Type ℓ} → Option A → A → A
or_else none a = a
or_else (some b) a = b

-- The loop of `setattr`; a name is stripped.
apply_update : UpdateParam → KnowledgeBase → KnowledgeBase
unfolding strip
apply_update obj kb = record kb {
  name = elim obj.name [ none ↦ kb.name | some name ↦ strip name ];
  description = or_else obj.description kb.description;
  is_public = or_else obj.is_public kb.is_public;
}

update_row : UpdateParam → World → Result KnowledgeBase → Result KnowledgeBase × World
unfolding apply_update
update_row obj w (err exc) = (err exc, w)
update_row obj w (ok kb) = (
  ok (apply_update obj kb),
  record w {
    db = record w.db {
      knowledge_bases = modify (λ row. row.id == kb.id) (apply_update obj) w.knowledge_bases;
    };
  },
)

-- `KnowledgeBaseService.update`. The flush, and so a name that is taken, is the caller's commit.
unfoldable pub update_knowledge_base : ℕ → ℕ → Bool → UpdateParam → Exec KnowledgeBase
unfolding get_knowledge_base update_row
update_knowledge_base pk user_id is_admin obj w =
    update_row obj w (get_knowledge_base pk user_id is_admin true w)

abbrev pub set_deleting : Document → Document
set_deleting d = record d { status = DocumentStatus.deleting }

-- The loop over the live documents of the base.
delete_documents : List Document → World → World
unfolding enqueue_document_delete
delete_documents [] w = w
delete_documents (d ∷ ds) w =
    delete_documents ds (enqueue_document_delete d.id (update_document d.id set_deleting w)).1

-- `Document.knowledge_base_id == data.id, Document.deleted == 0`
abbrev pub is_in_base : ℕ → Document → Bool
is_in_base kb_id d = d.knowledge_base_id == kb_id && d.deleted == 0

mark_base_deleted : ℕ → World → World
mark_base_deleted pk w = record w {
  db = record w.db {
    knowledge_bases =
        modify (λ row. row.id == pk) (λ row. record row { deleted = row.id }) w.knowledge_bases;
  };
}

delete_row : World → Result KnowledgeBase → Result (Unit {0}) × World
unfolding delete_documents mark_base_deleted
delete_row w (err exc) = (err exc, w)
delete_row w (ok kb) =
    (ok tt, delete_documents (select (is_in_base kb.id) w.documents) (mark_base_deleted kb.id w))

-- `KnowledgeBaseService.delete`
unfoldable pub delete_knowledge_base : ℕ → ℕ → Bool → Exec (Unit {0})
unfolding get_knowledge_base delete_row
delete_knowledge_base pk user_id is_admin w =
    delete_row w (get_knowledge_base pk user_id is_admin true w)
