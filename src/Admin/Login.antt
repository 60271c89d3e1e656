-- ===== src/Admin/Login.antt =====
-- `login` and `logout` of backend/app/admin/service/auth_service.py, over what a
-- request can change: Redis, the table of users, the log of logins that background tasks write, and
-- the refresh cookie of the client. `Server` has what is not modelled: the format of times, the
-- hash of passwords, lower case, the token's signature, the JSON of the extra information. An
-- exception is its class and its message; the status code that it carries is left out.
pub mod Outcome
pub mod Logout
pub mod Opened
pub mod Refresh
use mathlib.Core.Option
use rag_service.Prelude.{
  ℕ, ◌+◌, Text, codes, Bool, true, false, ◌&&◌, ◌||◌, not, List, [], ◌∷◌, ◌++◌, Option, none, some,
  any, ◌==◌, text_eq, if◌then◌else◌, find, modify,
}
use mathlib.Core.List.{reverse}
use rag_service.Rag.Indexing.{starts_with}
use rag_service.Admin.Exec.{
  Error, Result, ok, err, M, chain, or_raise, token_error, authorization_error, forbidden_error,
  not_found_error, request_error, custom_error, server_error, value_error,
}
use rag_service.Admin.Effects.{◌>>=◌, ◌>>◌, return, raise, lift, write}
use rag_service.Admin.Redis.{Redis, get, delete, get_by_prefix}
use rag_service.Admin.Redis.Keys.{user_key, session_key}
use rag_service.Admin.Settings.{
  Settings, login_captcha_redis_prefix, token_redis_prefix, token_extra_info_redis_prefix,
  token_refresh_redis_prefix,
}
use rag_service.Admin.Model.{User}
use rag_service.Admin.Tokens.{
  Jwt, AccessToken, RefreshToken, NewToken, TokenPayload, filled, jwt_decode, create_access_token,
  create_refresh_token, create_new_token,
}
use rag_service.Admin.Lockout.{Format}
use rag_service.Admin.Authentication.{SplitHeader, get_token}
use rag_service.Admin.Auth.{user_verify}

pub record Server : Type 0 where
  pub format : Format
  pub jwt : Jwt
  pub password_verify : Text → Text → Bool
  pub lower : Text → Text
  pub extra_info : User → Option Text
  pub split : SplitHeader

pub record LoginLog : Type 0 where
  pub user_uuid : Text
  pub username : Text
  pub login_time : ℕ
  pub success : Bool
  pub msg : Text

pub record AuthState : Type 0 where
  pub redis : Redis
  pub users : List User
  pub login_logs : List LoginLog
  pub refresh_cookie : Option Text

pub record AuthLoginParam : Type 0 where
  pub username : Text
  pub password : Text
  pub uuid : Option Text
  pub captcha : Option Text

pub record GetLoginToken : Type 0 where
  pub access_token : Text
  pub access_token_expire_time : ℕ
  pub session_uuid : Text
  pub password_expire_days_remaining : Option ℕ
  pub user : User

abbrev captcha_key : Text → Text
captcha_key uuid = login_captcha_redis_prefix ++ (codes ":" ++ uuid)

set_login_time : ℕ → User → User
set_login_time now user = record user { last_login_time = some now }

unfoldable pub update_login_time : ℕ → Text → List User → List User
unfolding set_login_time
update_login_time now username users =
    modify (λ (u : User). text_eq u.username username && u.deleted == 0) (set_login_time now) users

module _ (settings : Settings) (server : Server) where
  compare_captcha : Text → Text → Option Text → M Redis (Unit {0})
  compare_captcha uuid captcha none = raise (request_error (codes "error.captcha.expired"))
  compare_captcha uuid captcha (some captcha_code) =
      if text_eq (server.lower captcha_code) (server.lower captcha)
      then write (delete (captcha_key uuid))
      else raise (custom_error (codes "error.captcha.error"))

  given_captcha : ℕ → Option Text → Option Text → M Redis (Unit {0})
  unfolding compare_captcha
  given_captcha now (some uuid) (some captcha) redis =
      compare_captcha uuid captcha (filled (get now (captcha_key uuid) redis)) redis
  given_captcha now _ _ redis = (err (request_error (codes "error.captcha.invalid")), redis)

  check_captcha : ℕ → AuthLoginParam → M Redis (Unit {0})
  unfolding given_captcha
  check_captcha now obj =
      if settings.login_captcha_enabled
      then given_captcha now (filled obj.uuid) (filled obj.captcha)
      else return tt

  -- The steps that may raise.
  unfoldable pub admit : ℕ → AuthLoginParam → List User → M Redis (User × Option ℕ)
  unfolding check_captcha
  admit now obj users = do
    check_captcha now obj
    user_verify settings server.format server.password_verify now obj.username obj.password users

  -- The error of a login: which of them are logged, and as what they are raised again.
  log_failure : ℕ → Text → AuthLoginParam → Text → AuthState → AuthState
  log_failure now fresh_uuid obj msg s = record s {
    login_logs =
        s.login_logs
        ++ record {
          user_uuid = fresh_uuid;
          username = obj.username;
          login_time = now;
          success = false;
          msg = msg;
        }
          ∷ [];
  }

  failed_login : ℕ → Text → AuthLoginParam → Error → AuthState → Result GetLoginToken × AuthState
  unfolding log_failure
  failed_login now fresh_uuid obj (request_error msg) s =
      (err (request_error msg), log_failure now fresh_uuid obj msg s)
  failed_login now fresh_uuid obj (custom_error msg) s =
      (err (request_error msg), log_failure now fresh_uuid obj msg s)
  failed_login now fresh_uuid obj raised s = (err raised, s)

  -- After the user is verified: the tokens, the cookie, the log.
  open_session :
      ℕ → Text → AuthLoginParam → User × Option ℕ → AuthState → Result GetLoginToken × AuthState
  unfolding set_login_time
  open_session now session_uuid obj (user, days_remaining) s =
      let refreshed = set_login_time now user in
      let access =
        create_access_token settings server.jwt now session_uuid user.id user.is_multi_login
          (server.extra_info refreshed) s.redis in
      let refresh =
        create_refresh_token settings server.jwt now session_uuid user.id user.is_multi_login
          access.1 in
      (
        ok (record {
          access_token = access.0.access_token;
          access_token_expire_time = access.0.access_token_expire_time;
          session_uuid = access.0.session_uuid;
          password_expire_days_remaining = days_remaining;
          user = refreshed;
        }),
        record {
          redis = refresh.1;
          users = update_login_time now obj.username s.users;
          login_logs =
              s.login_logs
              ++ record {
                user_uuid = user.uuid;
                username = obj.username;
                login_time = now;
                success = true;
                msg = codes "success.login.success";
              }
                ∷ [];
          refresh_cookie = some refresh.0.refresh_token;
        },
      )

  settle_login :
      ℕ
      → Text
      → AuthLoginParam
      → AuthState
      → Result (User × Option ℕ) × Redis
      → Result GetLoginToken × AuthState
  unfolding failed_login open_session
  settle_login now fresh_uuid obj s (err raised, redis) =
      failed_login now fresh_uuid obj raised (record s { redis = redis })
  settle_login now fresh_uuid obj s (ok verified, redis) =
      open_session now fresh_uuid obj verified (record s { redis = redis })

  -- `fresh_uuid` is the uuid that the login draws, of its session or of a failed login's log entry.
  unfoldable pub login : ℕ → Text → AuthLoginParam → AuthState → Result GetLoginToken × AuthState
  unfolding settle_login admit
  login now fresh_uuid obj s = settle_login now fresh_uuid obj s (admit now obj s.users s.redis)

  drop_refresh : TokenPayload → Option Text → Redis → Redis
  drop_refresh p none redis = redis
  drop_refresh p (some _) redis =
      delete (session_key token_refresh_redis_prefix p.user_id p.session_uuid) redis

  close_session : TokenPayload → Option Text → Redis → Redis
  unfolding drop_refresh
  close_session p refresh_cookie redis = drop_refresh p (filled refresh_cookie) (
      delete (session_key token_extra_info_redis_prefix p.user_id p.session_uuid)
        (delete (session_key token_redis_prefix p.user_id p.session_uuid) redis))

  logged_out : AuthState → Result TokenPayload → Result (Unit {0}) × AuthState
  unfolding close_session
  logged_out s (ok p) =
      (ok tt, record s { redis = close_session p s.refresh_cookie s.redis; refresh_cookie = none })
  logged_out s (err (token_error _)) = (ok tt, record s { refresh_cookie = none })
  logged_out s (err raised) = (err raised, record s { refresh_cookie = none })

  -- `authorization` is the header of the request.
  unfoldable pub logout : ℕ → Option Text → AuthState → Result (Unit {0}) × AuthState
  unfolding logged_out
  logout now authorization s = logged_out s (elim (get_token server.split authorization) [
    | err raised ↦ err raised
    | ok token ↦ jwt_decode server.jwt now token
  ])
