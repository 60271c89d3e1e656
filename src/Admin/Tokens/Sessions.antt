-- ===== src/Admin/Tokens/Sessions.antt =====
-- Which sessions are left by the functions that create, renew and revoke tokens.
use rag_service.Prelude.{
  ◌==◌, ==_iff, ℕ, ◌+◌, ◌≤◌, Text, Bool, true, false, ◌&&◌, ◌||◌, not, [], Option, none, some, ltb,
  text_eq, text_eq_refl, if◌then◌else◌, ◌≡◌, refl, sym, ◌∙◌, inl, inr, arith, Bool-cases,
}
use rag_service.Rag.Indexing.{starts_with}
use rag_service.Admin.Redis.{Redis, get, set, delete_by_prefix, below}
use rag_service.Admin.Redis.Laws.{get-set}
use rag_service.Admin.Redis.Batches.{delete_by_prefix_lem}
use rag_service.Admin.Redis.Keys.{
  user_key, session_key, below-session_key, below-session_key_ne, session_key-ne,
  text_eq-session_key, text_eq-user_key, true-ne-false,
}
use rag_service.Admin.Settings.{
  Settings, token_redis_prefix, token_extra_info_redis_prefix, token_refresh_redis_prefix,
}
use rag_service.Admin.Tokens.{Jwt, batch_size, token_of, create_access_token, create_refresh_token}

-- Keys of different kinds are different.
pub extra-ne-token :
    (u v : ℕ) (s x : Text)
    → text_eq (session_key token_extra_info_redis_prefix u s) (session_key token_redis_prefix v x)
      ≡ false
unfolding session_key user_key text_eq
extra-ne-token u v s x = refl

pub extra-ne-refresh :
    (u v : ℕ) (s x : Text)
    → text_eq
        (session_key token_extra_info_redis_prefix u s)
        (session_key token_refresh_redis_prefix v x)
      ≡ false
unfolding session_key user_key text_eq
extra-ne-refresh u v s x = refl

pub token-ne-refresh :
    (u v : ℕ) (s x : Text)
    → text_eq (session_key token_redis_prefix u s) (session_key token_refresh_redis_prefix v x)
      ≡ false
unfolding session_key user_key text_eq
token-ne-refresh u v s x = refl

-- Deleting what lies under the key of a user takes the user's sessions and no others.
read_cleared :
    (prefix : Text) (now t u v : ℕ) (x : Text) (redis : Redis)
    → now ≤ t
    → get t (session_key prefix v x) (delete_by_prefix now (user_key prefix u) [] batch_size redis)
      ≡ (if v == u then none else get t (session_key prefix v x) redis)
read_cleared prefix now t u v x redis h =
    delete_by_prefix_lem now t batch_size (user_key prefix u) [] redis (session_key prefix v x) h
    ∙ elim (Bool-cases (v == u)) [
      | inl e ↦
          rw (e, text_eq-user_key prefix u v x, (==_iff v u).0 e, below-session_key prefix u x)
      | inr e ↦ rw (
        e,
        text_eq-user_key prefix u v x,
        below-session_key_ne prefix v u x (λ same. true-ne-false (sym ((==_iff v u).1 same) ∙ e)),
      )
    ]

pub refresh-ne-token :
    (u v : ℕ) (s x : Text)
    → text_eq (session_key token_refresh_redis_prefix u s) (session_key token_redis_prefix v x)
      ≡ false
unfolding session_key user_key text_eq
refresh-ne-token u v s x = refl

refresh-covers-token :
    (u v : ℕ) (x : Text)
    → ((text_eq (session_key token_redis_prefix v x) (user_key token_refresh_redis_prefix u)
          || below (user_key token_refresh_redis_prefix u) (session_key token_redis_prefix v x))
        && not false)
      ≡ false
unfolding session_key user_key text_eq starts_with
refresh-covers-token u v x = refl

module _ (settings : Settings) (jwt : Jwt) where
  -- Reading a session token after `create_access_token`.
  abbrev pub access_after : ℕ → ℕ → ℕ → ℕ → Text → Text → Redis → Option Text
  access_after now t u v s x redis =
      if v == u
      then (if text_eq s x && ltb t (now + settings.token_expire_seconds)
          then some (token_of settings jwt now settings.token_expire_seconds s u)
          else none)
      else get t (session_key token_redis_prefix v x) redis

  -- Setting a session's value where the other sessions of the user are deleted.
  pub read_stored :
      (prefix value : Text) (ex now t u v : ℕ) (s x : Text) (redis : Redis)
      → now ≤ t
      → get t (session_key prefix v x) (
          set now
            (session_key prefix u s)
            value
            ex
            (delete_by_prefix now (user_key prefix u) [] batch_size redis))
        ≡ (if v == u
            then (if text_eq s x && ltb t (now + ex) then some value else none)
            else get t (session_key prefix v x) redis)
  read_stored prefix value ex now t u v s x redis h =
      get-set now t (session_key prefix u s) (session_key prefix v x) value ex _
      ∙ elim (Bool-cases (v == u)) [
        | inl e ↦
            rw
              (
                read_cleared prefix now t u v x redis h,
                e,
                (==_iff v u).0 e,
                text_eq-session_key prefix u s x,
              )
              (ground arith)
        | inr e ↦ rw (
          e,
          read_cleared prefix now t u v x redis h,
          e,
          session_key-ne prefix u v s x (λ same. true-ne-false (sym ((==_iff v u).1 same) ∙ e)),
        )
      ]

  pub read_access :
      (now t u v : ℕ) (s x : Text) (extra : Option Text) (redis : Redis)
      → now ≤ t
      → get t
          (session_key token_redis_prefix v x)
          (create_access_token settings jwt now s u false extra redis).1
        ≡ access_after now t u v s x redis
  unfolding create_access_token
  read_access now t u v s x none redis h =
      read_stored token_redis_prefix _ settings.token_expire_seconds now t u v s x redis h
  read_access now t u v s x (some extra) redis h =
      get-set now t (session_key token_extra_info_redis_prefix u s)
        (session_key token_redis_prefix v x) extra settings.token_expire_seconds _
      ∙ rw (extra-ne-token u v s x)
          (read_stored token_redis_prefix _ settings.token_expire_seconds now t u v s x redis h)

  own_stored :
      (now t u : ℕ) (s : Text) (redis : Redis)
      → get t (session_key token_redis_prefix u s) (
          set now
            (session_key token_redis_prefix u s)
            (token_of settings jwt now settings.token_expire_seconds s u)
            settings.token_expire_seconds
            redis)
        ≡ (if ltb t (now + settings.token_expire_seconds)
            then some (token_of settings jwt now settings.token_expire_seconds s u)
            else none)
  own_stored now t u s redis =
      get-set now t (session_key token_redis_prefix u s) (session_key token_redis_prefix u s) _
        settings.token_expire_seconds redis
      ∙ rw (text_eq_refl (session_key token_redis_prefix u s))

  -- The session that `create_access_token` makes.
  pub own_session :
      (now t u : ℕ) (s : Text) (multi_login : Bool) (extra : Option Text) (redis : Redis)
      → get t
          (session_key token_redis_prefix u s)
          (create_access_token settings jwt now s u multi_login extra redis).1
        ≡ (if ltb t (now + settings.token_expire_seconds)
            then some (token_of settings jwt now settings.token_expire_seconds s u)
            else none)
  unfolding create_access_token
  own_session now t u s multi none redis = own_stored now t u s _
  own_session now t u s multi (some extra) redis =
      get-set now t (session_key token_extra_info_redis_prefix u s)
        (session_key token_redis_prefix u s) extra settings.token_expire_seconds _
      ∙ rw (extra-ne-token u u s s) (own_stored now t u s _)

  kept_where :
      (now t u v : ℕ) (x : Text) (keep : Bool) (redis : Redis)
      → now ≤ t
      → get t (session_key token_redis_prefix v x) (
          if keep
          then redis
          else delete_by_prefix now (user_key token_refresh_redis_prefix u) [] batch_size redis)
        ≡ get t (session_key token_redis_prefix v x) redis
  kept_where now t u v x true redis h = refl
  kept_where now t u v x false redis h =
      delete_by_prefix_lem now t batch_size (user_key token_refresh_redis_prefix u) [] redis
        (session_key token_redis_prefix v x) h
      ∙ rw (refresh-covers-token u v x)

  -- Making a refresh token leaves all sessions.
  pub kept-create_refresh_token :
      (now t u v : ℕ) (s x : Text) (multi_login : Bool) (redis : Redis)
      → now ≤ t
      → get t
          (session_key token_redis_prefix v x)
          (create_refresh_token settings jwt now s u multi_login redis).1
        ≡ get t (session_key token_redis_prefix v x) redis
  unfolding create_refresh_token
  kept-create_refresh_token now t u v s x multi redis h =
      get-set now t (session_key token_refresh_redis_prefix u s)
        (session_key token_redis_prefix v x) _ settings.token_refresh_expire_seconds _
      ∙ rw (refresh-ne-token u v s x) (kept_where now t u v x multi redis h)
