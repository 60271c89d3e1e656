-- ===== src/Admin/Tokens.antt =====
-- backend/common/security/jwt.py: access and refresh tokens, and their sessions in Redis. The
-- signing library, the JSON of a cached user and of the extra information are parameters; the new
-- session's uuid and the time are arguments.
pub mod Sessions
pub mod Refresh
pub mod Numbers
use rag_service.Prelude.{
  ℕ, zero, suc, ◌+◌, Text, codes, Bool, true, false, ◌&&◌, ◌||◌, not, ◌≡◌, List, [], ◌∷◌, ◌++◌,
  Option, none, some, all, leb, ltb, ◌==◌, text_eq, if◌then◌else◌, find, show_nat, read_nat,
}
use rag_service.Admin.Exec.{
  Error, Result, ok, err, ◌>>=◌, or_raise, token_error, authorization_error, value_error,
}
use rag_service.Admin.Redis.{Redis, get, set, delete, delete_by_prefix}
use rag_service.Admin.Redis.Keys.{user_key, session_key}
use rag_service.Admin.Settings.{
  Settings, token_redis_prefix, token_extra_info_redis_prefix, token_refresh_redis_prefix,
  jwt_user_redis_prefix,
}
use rag_service.Admin.Model.{User, Dept, Role}

pub record Claims : Type 0 where
  pub session_uuid : Text
  pub exp : ℕ
  pub sub : Text

-- What `jwt.decode` gives: the claims that the token has, or one of its two kinds of exceptions.
pub record Payload : Type 0 where
  pub session_uuid : Option Text
  pub sub : Option Text
  pub exp : Option ℕ

pub data Decoded : Type 0 where
  payload : Payload → Decoded
  expired_signature jwt_error : Decoded

pub record Jwt : Type 0 where
  pub encode : Claims → Text
  pub decode : ℕ → Text → Decoded
  -- `model_dump_json` and `model_validate(from_json(...))` of a user
  pub dump_user : User → Text
  pub load_user : Text → User

-- An absent, empty or zero claim is false.
abbrev pub filled : Option Text → Option Text
filled (some (c ∷ s)) = some (c ∷ s)
filled _ = none

-- What the code relies on: a signed text is not empty, and decoding it gives the claims back until
-- they expire.
pub record Signs (jwt : Jwt) : Type 0 where
  pub nonempty : (c : Claims) → filled (some (jwt.encode c)) ≡ some (jwt.encode c)
  pub decode-encode :
      (now : ℕ) (c : Claims)
      → jwt.decode now (jwt.encode c) ≡ (
          if leb now c.exp
          then payload
              (record { session_uuid = some c.session_uuid; sub = some c.sub; exp = some c.exp })
          else expired_signature)

pub record TokenPayload : Type 0 where
  pub user_id : ℕ
  pub session_uuid : Text
  pub expire_time : ℕ

pub record AccessToken : Type 0 where
  pub access_token : Text
  pub access_token_expire_time : ℕ
  pub session_uuid : Text

pub record RefreshToken : Type 0 where
  pub refresh_token : Text
  pub refresh_token_expire_time : ℕ

pub record NewToken : Type 0 where
  pub new_access_token : Text
  pub new_access_token_expire_time : ℕ
  pub new_refresh_token : Text
  pub new_refresh_token_expire_time : ℕ
  pub session_uuid : Text

abbrev pub nonzero : Option ℕ → Option ℕ
nonzero (some (suc n)) = some (suc n)
nonzero _ = none

-- `int(s)` of a text of decimal digits; signs, blanks and underscores are not read.
unfoldable pub int_of : Text → Result ℕ
int_of [] = err (value_error (codes "invalid literal for int()"))
int_of (c ∷ s) =
    if all (λ d. leb 48 d && leb d 57) (c ∷ s)
    then ok (read_nat (c ∷ s))
    else err (value_error (codes "invalid literal for int()"))

claims_of : Payload → Result TokenPayload
claims_of p = do
  session_uuid ← or_raise (token_error (codes "Token 无效")) (filled p.session_uuid)
  sub ← or_raise (token_error (codes "Token 无效")) (filled p.sub)
  exp ← or_raise (token_error (codes "Token 无效")) (nonzero p.exp)
  user_id ← int_of sub
  ok (record { user_id = user_id; session_uuid = session_uuid; expire_time = exp })

unfoldable pub jwt_decode : Jwt → ℕ → Text → Result TokenPayload
unfolding claims_of
jwt_decode jwt now token = elim (jwt.decode now token) [
  | payload p ↦ claims_of p
  | expired_signature ↦ err (token_error (codes "Token 已过期"))
  | jwt_error ↦ err (token_error (codes "Token 无效"))
]

-- The renewal, if Redis has this refresh token for the session.
exchange : Text → NewToken × Redis → Redis → Option Text → Result NewToken × Redis
exchange refresh_token renewed redis stored = elim (filled stored) [
  | none ↦ (err (token_error (codes "Refresh Token 已过期，请重新登录")), redis)
  | some redis_refresh_token ↦
      if text_eq redis_refresh_token refresh_token
      then (ok renewed.0, renewed.1)
      else (err (token_error (codes "Refresh Token 已过期，请重新登录")), redis)
]

-- Deletions by a prefix go in batches of a thousand.
abbrev pub batch_size : ℕ
batch_size = 1000

module _ (settings : Settings) (jwt : Jwt) where
  -- The claims of a token that expires `seconds` after `now`.
  abbrev pub token_of : ℕ → ℕ → Text → ℕ → Text
  token_of now seconds session_uuid user_id =
      jwt.encode
        (record { session_uuid = session_uuid; exp = now + seconds; sub = show_nat user_id })

  -- `kwargs` as JSON, where there are any.
  abbrev store_extra : ℕ → ℕ → Text → Option Text → Redis → Redis
  store_extra now user_id session_uuid none redis = redis
  store_extra now user_id session_uuid (some extra) redis =
      set now (session_key token_extra_info_redis_prefix user_id session_uuid) extra
        settings.token_expire_seconds redis

  unfoldable pub create_access_token :
      ℕ → Text → ℕ → Bool → Option Text → Redis → AccessToken × Redis
  create_access_token now session_uuid user_id multi_login extra redis =
      let token = token_of now settings.token_expire_seconds session_uuid user_id in
      let cleared : Redis =
        if multi_login
        then redis
        else delete_by_prefix now (user_key token_redis_prefix user_id) [] batch_size redis in
      let stored : Redis =
        set now (session_key token_redis_prefix user_id session_uuid) token
          settings.token_expire_seconds cleared in
      (
        record {
          access_token = token;
          access_token_expire_time = now + settings.token_expire_seconds;
          session_uuid = session_uuid;
        },
        store_extra now user_id session_uuid extra stored,
      )

  unfoldable pub create_refresh_token : ℕ → Text → ℕ → Bool → Redis → RefreshToken × Redis
  create_refresh_token now session_uuid user_id multi_login redis =
      let token = token_of now settings.token_refresh_expire_seconds session_uuid user_id in
      let cleared : Redis =
        if multi_login
        then redis
        else delete_by_prefix now (user_key token_refresh_redis_prefix user_id) [] batch_size
            redis in
      (
        record {
          refresh_token = token;
          refresh_token_expire_time = now + settings.token_refresh_expire_seconds;
        },
        set now (session_key token_refresh_redis_prefix user_id session_uuid) token
            settings.token_refresh_expire_seconds cleared,
      )

  -- `new_session` is the uuid of the session that replaces `session_uuid`.
  renew : ℕ → Text → Text → ℕ → Bool → Option Text → Redis → NewToken × Redis
  renew now new_session session_uuid user_id multi_login extra redis =
      let dropped : Redis =
        delete (session_key token_redis_prefix user_id session_uuid)
          (delete (session_key token_refresh_redis_prefix user_id session_uuid) redis) in
      let access = create_access_token now new_session user_id multi_login extra dropped in
      let refresh = create_refresh_token now new_session user_id multi_login access.1 in
      (
        record {
          new_access_token = access.0.access_token;
          new_access_token_expire_time = access.0.access_token_expire_time;
          new_refresh_token = refresh.0.refresh_token;
          new_refresh_token_expire_time = refresh.0.refresh_token_expire_time;
          session_uuid = new_session;
        },
        refresh.1,
      )

  unfoldable pub create_new_token :
      ℕ → Text → Text → Text → ℕ → Bool → Option Text → Redis → Result NewToken × Redis
  unfolding renew exchange
  create_new_token now new_session refresh_token session_uuid user_id multi_login extra redis =
      exchange refresh_token (renew now new_session session_uuid user_id multi_login extra redis)
        redis (get now (session_key token_refresh_redis_prefix user_id session_uuid) redis)

unfoldable pub revoke_token : ℕ → Text → Redis → Redis
revoke_token user_id session_uuid redis =
    delete (session_key token_extra_info_redis_prefix user_id session_uuid)
      (delete (session_key token_redis_prefix user_id session_uuid) redis)
