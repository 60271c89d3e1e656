-- ===== src/Admin/Redis.antt =====
-- `RedisCli` of backend/database/redis.py over the keys of a Redis database, each with its value and
-- the second at which it expires. Times are whole seconds.
pub mod Keys
pub mod Laws
pub mod Batches
use mathlib.Core.Option
use rag_service.Prelude.{
  ℕ, suc, ◌+◌, Text, codes, Bool, true, false, ◌&&◌, ◌||◌, not, List, [], ◌∷◌, ◌++◌, map, Option,
  length, any, leb, ltb, text_eq, if◌then◌else◌, find, select, remove,
}
use rag_service.Rag.Indexing.{starts_with}

pub record Entry : Type 0 where
  pub key : Text
  pub value : Text
  pub expires : ℕ

abbrev pub Redis : Type 0
Redis = List Entry

abbrev pub contains : List Text → Text → Bool
contains keys key = any (λ k. text_eq k key) keys

abbrev pub is_live : ℕ → Entry → Bool
is_live now entry = ltb now entry.expires

-- `GET`: an expired key is not there.
unfoldable pub get : ℕ → Text → Redis → Option Text
get now key redis =
    Option.map (λ (entry : Entry). entry.value)
      (find (λ (entry : Entry). text_eq entry.key key && is_live now entry) redis)

-- `SET key value EX ex`
unfoldable pub set : ℕ → Text → Text → ℕ → Redis → Redis
set now key value ex redis =
    record { key = key; value = value; expires = now + ex }
    ∷ remove (λ (entry : Entry). text_eq entry.key key) redis

-- `DEL` of several keys, and of one.
unfoldable pub delete_keys : List Text → Redis → Redis
delete_keys keys redis = remove (λ (entry : Entry). contains keys entry.key) redis

unfoldable pub delete : Text → Redis → Redis
delete key redis = remove (λ (entry : Entry). text_eq entry.key key) redis

-- `SCAN` for `{key_prefix}:*`, where the prefix has no character that Redis reads as a pattern.
abbrev pub below : Text → Text → Bool
below key_prefix key = starts_with key (key_prefix ++ codes ":")

scan : ℕ → Text → Redis → List Text
scan now key_prefix redis =
    map (λ (entry : Entry). entry.key)
      (select (λ (entry : Entry). below key_prefix entry.key && is_live now entry) redis)

unfoldable pub get_by_prefix : ℕ → Text → Redis → List Text
unfolding scan
get_by_prefix now key_prefix redis = scan now key_prefix redis

-- The keys that the loop of `delete_by_prefix` comes to.
found_keys : ℕ → Text → List Text → Redis → List Text
unfolding scan
found_keys now key_prefix exclude_set redis =
    let own : List Text =
      map (λ (entry : Entry). entry.key)
        (select (λ (entry : Entry). text_eq entry.key key_prefix && is_live now entry) redis) in
    select (λ key. not (contains exclude_set key)) (own ++ scan now key_prefix redis)

-- The loop over the keys, with the batch so far: a full batch is deleted at once.
delete_batches : ℕ → List Text → List Text → Redis → Redis
delete_batches batch_size batch_keys [] redis = delete_keys batch_keys redis
delete_batches batch_size batch_keys (key ∷ keys) redis =
    let full : Bool = leb batch_size (suc (length batch_keys)) in
    delete_batches batch_size (if full then [] else batch_keys ++ key ∷ []) keys
      (if full then delete_keys (batch_keys ++ key ∷ []) redis else redis)

unfoldable pub delete_by_prefix : ℕ → Text → List Text → ℕ → Redis → Redis
unfolding found_keys delete_batches
delete_by_prefix now key_prefix exclude_set batch_size redis =
    delete_batches batch_size [] (found_keys now key_prefix exclude_set redis) redis
