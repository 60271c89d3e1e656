-- ===== src/Admin/Redis/Batches.antt =====
-- `delete_by_prefix` deletes what it matches, whatever the size of its batches.
use rag_service.Prelude.{
  ℕ, suc, ◌≤◌, Text, Bool, true, false, ◌&&◌, ◌||◌, not, List, [], ◌∷◌, ◌++◌, Option, none, some,
  leb, text_eq, length, map, select, text_eq_sound, text_eq_refl, if◌then◌else◌, ◌≡◌, refl, ap, ◌∙◌,
  inl, inr, arith, Bool-cases, Option-cases, find,
}
use rag_service.Admin.Redis.{
  Entry, Redis, contains, is_live, below, get, delete_keys, scan, found_keys, delete_batches,
  delete_by_prefix,
}
use rag_service.Admin.Redis.Laws.{get-delete_keys}

pub contains-append :
    (xs ys : List Text) (k : Text) → contains (xs ++ ys) k ≡ (contains xs k || contains ys k)
contains-append [] ys k = refl
contains-append (x ∷ xs) ys k = ground (arith, contains-append xs ys k)

contains-select :
    (p : Text → Bool) (keys : List Text) (k : Text)
    → contains (select p keys) k ≡ (contains keys k && p k)
unfolding select
contains-select p [] k = refl
contains-select p (x ∷ xs) k = elim (Bool-cases (text_eq x k)) [
  | inl e ↦ rw (← text_eq_sound x k e) (ground (arith, text_eq_refl x, contains-select p xs x))
  | inr e ↦ ground (arith, contains-select p xs k)
]

-- The keys of the live entries that pass a test.
keys_where : (Text → Bool) → ℕ → Redis → List Text
keys_where p now redis =
    map (λ (entry : Entry). entry.key)
      (select (λ (entry : Entry). p entry.key && is_live now entry) redis)

is_some : Option Text → Bool
is_some none = false
is_some (some _) = true

contains-keys_where :
    (p : Text → Bool) (now : ℕ) (redis : Redis) (k : Text)
    → contains (keys_where p now redis) k ≡ (p k && is_some (get now k redis))
unfolding keys_where get find select is_some
contains-keys_where p now [] k = ground arith
contains-keys_where p now (x ∷ xs) k = elim (Bool-cases (text_eq x.key k)) [
  | inl e ↦
      let same : p x.key ≡ p k = ap p (text_eq_sound x.key k e) in
      ground (arith, contains-keys_where p now xs k)
  | inr e ↦ ground (arith, contains-keys_where p now xs k)
]

get-delete_batches :
    (now batch_size : ℕ) (batch_keys keys : List Text) (redis : Redis) (k : Text)
    → get now k (delete_batches batch_size batch_keys keys redis)
      ≡ (if contains batch_keys k || contains keys k then none else get now k redis)
unfolding delete_batches
get-delete_batches now size batch [] redis k = ground (arith, get-delete_keys now batch k redis)
get-delete_batches now size batch (x ∷ keys) redis k =
    elim (Bool-cases (leb size (suc (length batch)))) [
      | inl e ↦ rw e (
          ground (
            arith,
            get-delete_batches now size [] keys (delete_keys (batch ++ x ∷ []) redis) k,
            get-delete_keys now (batch ++ x ∷ []) k redis,
            contains-append batch (x ∷ []) k,
          ))
      | inr e ↦ rw e (
          ground (
            arith,
            get-delete_batches now size (batch ++ x ∷ []) keys redis k,
            contains-append batch (x ∷ []) k,
          ))
    ]

either : {x y : Bool} (a b s : Bool) → x ≡ (a && s) → y ≡ (b && s) → (x || y) ≡ ((a || b) && s)
either a b s hx hy = ground arith

contains-found_keys :
    (now : ℕ) (prefix : Text) (ex : List Text) (redis : Redis) (k : Text)
    → contains (found_keys now prefix ex redis) k
      ≡ (((text_eq k prefix || below prefix k) && is_some (get now k redis)) && not (contains ex k))
unfolding found_keys scan keys_where
contains-found_keys now prefix ex redis k =
    contains-select (λ key. not (contains ex key)) _ k
    ∙ ap (λ b. b && not (contains ex k))
        (contains-append (keys_where (λ key. text_eq key prefix) now redis)
            (keys_where (below prefix) now redis) k
          ∙ either (text_eq k prefix) (below prefix k) (is_some (get now k redis))
              (contains-keys_where (λ key. text_eq key prefix) now redis k)
              (contains-keys_where (below prefix) now redis k))

-- A key that is not there is not there later.
pub get_later :
    (now t : ℕ) (k : Text) (redis : Redis) → now ≤ t → get now k redis ≡ none → get t k redis ≡ none
unfolding get find
get_later now t k [] h e = refl
get_later now t k (x ∷ xs) h e = ground (arith, get_later now t k xs h)

-- `delete_by_prefix` removes the key itself and every key below it but the excluded ones, and no
-- other key, for every size of the batches in which it deletes: so reads each time from then on.
pub delete_by_prefix_lem :
    (now t batch_size : ℕ) (key_prefix : Text) (exclude_set : List Text) (redis : Redis) (k : Text)
    → now ≤ t
    → get t k (delete_by_prefix now key_prefix exclude_set batch_size redis) ≡ (
        if (text_eq k key_prefix || below key_prefix k) && not (contains exclude_set k)
        then none
        else get t k redis)
unfolding delete_by_prefix is_some
delete_by_prefix_lem now t size prefix ex redis k h =
    get-delete_batches t size [] (found_keys now prefix ex redis) redis k
    ∙ elim (Option-cases (get now k redis)) [
      | inl e ↦ rw (get_later now t k redis h e) (ground arith)
      | inr (v, e) ↦ rw (contains-found_keys now prefix ex redis k, e) (ground arith)
    ]
