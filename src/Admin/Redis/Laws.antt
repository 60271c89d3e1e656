-- ===== src/Admin/Redis/Laws.antt =====
-- Reading a key after a write or a deletion.
use mathlib.Core.Option
use rag_service.Prelude.{
  ℕ, ◌+◌, Text, Bool, true, false, ◌&&◌, List, none, some, ltb, text_eq, text_eq_sound,
  text_eq_comm, if◌then◌else◌, ◌≡◌, ap, ◌∙◌, inl, inr, arith, Bool-cases, find, remove, find-remove,
  find-remove_ne,
}
use rag_service.Admin.Redis.{Entry, Redis, contains, is_live, get, set, delete_keys, delete}

&&-true : (a b : Bool) → (a && b) ≡ true → a ≡ true
&&-true a b h = ground arith

-- A removal that takes all entries of a key, or none of them.
get-remove :
    (now : ℕ) (k : Text) (p : Entry → Bool) (gone : Bool) (redis : Redis)
    → ((entry : Entry) → text_eq entry.key k ≡ true → p entry ≡ gone)
    → get now k (remove p redis) ≡ (if gone then none else get now k redis)
unfolding get
get-remove now k p true redis h = ap (Option.map (λ (entry : Entry). entry.value)) (
    find-remove p (λ (entry : Entry). text_eq entry.key k && is_live now entry) redis
      (λ entry e. h entry (&&-true _ _ e)))
get-remove now k p false redis h = ap (Option.map (λ (entry : Entry). entry.value)) (
    find-remove_ne p (λ (entry : Entry). text_eq entry.key k && is_live now entry) redis
      (λ entry e. h entry (&&-true _ _ e)))

pub get-delete_keys :
    (now : ℕ) (keys : List Text) (k : Text) (redis : Redis)
    → get now k (delete_keys keys redis) ≡ (if contains keys k then none else get now k redis)
unfolding delete_keys
get-delete_keys now keys k redis =
    get-remove now k (λ (entry : Entry). contains keys entry.key) (contains keys k) redis
      (λ entry e. ap (contains keys) (text_eq_sound entry.key k e))

same_key : (j k key : Text) → text_eq key k ≡ true → text_eq key j ≡ text_eq j k
same_key j k key e = ap (λ (t : Text). text_eq t j) (text_eq_sound key k e) ∙ text_eq_comm k j

pub get-delete :
    (now : ℕ) (j k : Text) (redis : Redis)
    → get now k (delete j redis) ≡ (if text_eq j k then none else get now k redis)
unfolding delete
get-delete now j k redis =
    get-remove now k (λ (entry : Entry). text_eq entry.key j) (text_eq j k) redis
      (λ entry e. same_key j k entry.key e)

-- A key that was set is read until it expires; other keys are read as before.
pub get-set :
    (t now : ℕ) (j k v : Text) (ex : ℕ) (redis : Redis)
    → get now k (set t j v ex redis)
      ≡ (if text_eq j k then (if ltb now (t + ex) then some v else none) else get now k redis)
unfolding set
get-set t now j k v ex redis =
    let rest = get-delete now j k redis in
    unfold get find delete in
    elim (Bool-cases (text_eq j k)) [
      | inl e ↦ elim (Bool-cases (ltb now (t + ex))) [
        | inl l ↦ rw (e, l)
        | inr l ↦ rw (e, l) (rw e at rest)
      ]
      | inr e ↦ rw e (rw e at rest)
    ]
