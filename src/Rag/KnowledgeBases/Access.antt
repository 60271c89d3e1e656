-- ===== src/Rag/KnowledgeBases/Access.antt =====
-- Who may see and who may change a knowledge base.
use rag_service.Prelude.{
  ℕ, Text, codes, Bool, true, false, ◌&&◌, ◌||◌, ◌==◌, if◌then◌else◌, Option, none, some, find,
  find_sound, find-narrow, ◌≡◌, refl, ap, ◌⊎◌, ◌↔◌, inl, inr, arith, Bool-cases,
}
use rag_service.Rag.Model.{KnowledgeBase}
use rag_service.Rag.Indexing.{Exception, not_found_error}
use rag_service.Rag.Exec.{ok, err, err-ne-ok}
use rag_service.Rag.World.{World}
use rag_service.Rag.KnowledgeBases.{is_authorized, get_authorized, get_knowledge_base, or_not_found}

-- The rule: an administrator may do everything, the owner too, and anyone may read a public base.
abbrev pub MayUse : ℕ → Bool → Bool → KnowledgeBase → Type 0
MayUse user_id is_admin write kb =
    (is_admin ≡ true) ⊎ ((kb.owner_id ≡ user_id) ⊎ ((write ≡ false) × (kb.is_public ≡ true)))

pub authorized_lem :
    (user_id : ℕ) (is_admin write : Bool) (kb : KnowledgeBase)
    → is_authorized user_id is_admin write kb ≡ true ↔ MayUse user_id is_admin write kb
unfolding is_authorized
authorized_lem user_id is_admin write kb = (to is_admin write, from is_admin write)
  where
    to :
        (a w : Bool)
        → a || (if w then kb.owner_id == user_id else kb.owner_id == user_id || kb.is_public) ≡ true
        → MayUse user_id a w kb
    to true w h = inl refl
    to false true h = inr (inl (ground arith))
    to false false h = elim (Bool-cases (kb.owner_id == user_id)) [
      | inl e ↦ inr (inl (ground arith))
      | inr e ↦ inr (inr (refl, rw e at h))
    ]

    from :
        (a w : Bool)
        → MayUse user_id a w kb
        → a || (if w then kb.owner_id == user_id else kb.owner_id == user_id || kb.is_public) ≡ true
    from a w (inl admin) = rw admin
    from true w h = refl
    from false true (inr (inl owner)) = ground arith
    from false false (inr (inl owner)) = ground arith
    from false false (inr (inr (reads, is_public))) = ground arith
    from false true (inr (inr (reads, is_public))) = ground arith

-- The row of the primary key.
abbrev pub live_base : ℕ → World → Option KnowledgeBase
live_base pk w = find (λ kb. kb.id == pk && kb.deleted == 0) w.knowledge_bases

from_found :
    (pk user_id : ℕ) (is_admin write : Bool) (w : World) (kb : KnowledgeBase)
    → get_authorized pk user_id is_admin write w ≡ some kb
    → (kb.id ≡ pk) × (kb.deleted ≡ 0) × MayUse user_id is_admin write kb
unfolding get_authorized
from_found pk user_id is_admin write w kb h =
    let fits =
      find_sound (λ kb. (kb.id == pk && kb.deleted == 0) && is_authorized user_id is_admin write kb)
        w.knowledge_bases kb h in
    (
      ground (arith, fits),
      ground (arith, fits),
      (authorized_lem user_id is_admin write kb).0 (ground (arith, fits)),
    )

or_not_found-ok :
    {A : Type 0} (message : Text) (found : Option A) (a : A)
    → or_not_found message found ≡ ok a
    → found ≡ some a
or_not_found-ok message none a h = absurd (err-ne-ok h)
or_not_found-ok message (some b) a h = cc

or_not_found-err :
    {A : Type 0} (message : Text) (found : Option A) (raised : Exception)
    → or_not_found message found ≡ err raised
    → raised ≡ not_found_error message
or_not_found-err message none raised h = cc
or_not_found-err message (some a) raised h = cc

pub found_base :
    (pk user_id : ℕ) (is_admin write : Bool) (w : World) (kb : KnowledgeBase)
    → get_knowledge_base pk user_id is_admin write w ≡ ok kb
    → (kb.id ≡ pk) × (kb.deleted ≡ 0) × MayUse user_id is_admin write kb
unfolding get_knowledge_base
found_base pk user_id is_admin write w kb h =
    from_found pk user_id is_admin write w kb (or_not_found-ok _ _ kb h)

-- A knowledge base is returned exactly to those who may use it: the live row of that key is found
-- with a permission to read or write if and only if the caller is an administrator, is its owner, or
-- only reads and the base is public; and for every key, of a missing base or a forbidden one, the
-- only error is the same NotFoundError with the same text.
pub get_knowledge_base_access :
    (pk user_id : ℕ) (is_admin write : Bool) (w : World) (kb : KnowledgeBase)
    → find (λ row. row.id == pk) w.knowledge_bases ≡ some kb
    → ((get_knowledge_base pk user_id is_admin write w ≡ ok kb)
        ↔ ((kb.deleted ≡ 0) × MayUse user_id is_admin write kb))
      × ((other : ℕ) (raised : Exception)
          → get_knowledge_base other user_id is_admin write w ≡ err raised
          → raised ≡ not_found_error (codes "知识库不存在或无权访问"))
unfolding get_knowledge_base get_authorized
get_knowledge_base_access pk user_id is_admin write w kb h = (
  (
    λ e.
        let (_, live, may) =
          from_found pk user_id is_admin write w kb
            (unfold get_authorized in or_not_found-ok _ _ kb e) in
        (live, may),
    λ (live, may). ap (or_not_found (codes "知识库不存在或无权访问")) (
        find-narrow (λ row. row.id == pk)
          (λ row. (row.id == pk && row.deleted == 0) && is_authorized user_id is_admin write row)
          w.knowledge_bases kb (λ y t. ground arith) h
          (let key = find_sound (λ row. row.id == pk) w.knowledge_bases kb h in
            let may' = (authorized_lem user_id is_admin write kb).1 may in ground arith)),
  ),
  λ other raised e. or_not_found-err _ _ raised e,
)
