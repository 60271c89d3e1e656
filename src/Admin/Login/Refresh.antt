-- ===== src/Admin/Login/Refresh.antt =====
-- `refresh_token` of backend/app/admin/service/auth_service.py.
pub mod Once
use mathlib.Core.Option
use rag_service.Prelude.{
  ℕ, ◌+◌, Text, codes, Bool, true, false, ◌&&◌, ◌||◌, not, List, [], ◌∷◌, ◌++◌, Option, none, some,
  any, ◌==◌, text_eq, if◌then◌else◌, find, modify,
}
use mathlib.Core.List.{reverse}
use rag_service.Rag.Indexing.{starts_with}
use rag_service.Admin.Exec.{
  Error, Result, ok, err, M, chain, or_raise, token_error, authorization_error, forbidden_error,
  not_found_error, request_error, custom_error, server_error, value_error,
}
use rag_service.Admin.Effects.{◌>>=◌, ◌>>◌, return, raise, lift, write}
use rag_service.Admin.Redis.{Redis, get, delete, get_by_prefix}
use rag_service.Admin.Redis.Keys.{user_key, session_key}
use rag_service.Admin.Settings.{
  Settings, login_captcha_redis_prefix, token_redis_prefix, token_extra_info_redis_prefix,
  token_refresh_redis_prefix,
}
use rag_service.Admin.Model.{User}
use rag_service.Admin.Tokens.{
  Jwt, AccessToken, RefreshToken, NewToken, TokenPayload, filled, jwt_decode, create_access_token,
  create_refresh_token, create_new_token,
}
use rag_service.Admin.Lockout.{Format}
use rag_service.Admin.Authentication.{SplitHeader, get_token}
use rag_service.Admin.Auth.{user_verify}
use rag_service.Admin.Login.{Server, AuthState}

pub record GetNewToken : Type 0 where
  pub access_token : Text
  pub access_token_expire_time : ℕ
  pub session_uuid : Text

-- `s.endswith(suffix)`
abbrev ends_with : Text → Text → Bool
ends_with s suffix = starts_with (reverse s) (reverse suffix)

module _ (settings : Settings) (server : Server) where
  -- `user_dao.get`
  find_user : ℕ → List User → Option User
  find_user user_id users = find (λ (u : User). u.id == user_id && u.deleted == 0) users

  -- A session of the user besides the one of the token.
  has_other_session : ℕ → ℕ → Text → Redis → Bool
  has_other_session now user_id session_uuid redis =
      any (λ key. not (ends_with key (codes ":" ++ session_uuid)))
        (get_by_prefix now (user_key token_redis_prefix user_id) redis)

  refreshable : ℕ → TokenPayload → List User → Redis → Result User
  unfolding find_user has_other_session
  refreshable now p users redis = elim (find_user p.user_id users) [
    | none ↦ err (not_found_error (codes "用户不存在"))
    | some user ↦
        if not user.status
        then err (authorization_error (codes "用户已被锁定, 请联系统管理员"))
        else if not user.is_multi_login && has_other_session now user.id p.session_uuid redis
        then err (forbidden_error (codes "此用户已在异地登录，请重新登录并及时修改密码"))
        else ok user
  ]

  exchange_for : ℕ → Text → Text → TokenPayload → User → M Redis NewToken
  exchange_for now new_session token p user =
      create_new_token settings server.jwt now new_session token p.session_uuid user.id
        user.is_multi_login (server.extra_info user)

  renewed : AuthState → Result NewToken × Redis → Result GetNewToken × AuthState
  renewed s (err raised, redis) = (err raised, record s { redis = redis })
  renewed s (ok new_token, redis) = (
    ok (record {
      access_token = new_token.new_access_token;
      access_token_expire_time = new_token.new_access_token_expire_time;
      session_uuid = new_token.session_uuid;
    }),
    record s { redis = redis; refresh_cookie = some new_token.new_refresh_token },
  )

  refresh_with : ℕ → Text → Text → AuthState → Result NewToken × Redis
  unfolding refreshable exchange_for
  refresh_with now new_session token s =
      (do
        p ← lift (jwt_decode server.jwt now token)
        user ← lift (refreshable now p s.users s.redis)
        exchange_for now new_session token p user)
        s.redis

  unfoldable pub refresh_token : ℕ → Text → AuthState → Result GetNewToken × AuthState
  unfolding renewed refresh_with
  refresh_token now new_session s = elim (filled s.refresh_cookie) [
    | none ↦ (err (request_error (codes "Refresh Token 已过期，请重新登录")), s)
    | some token ↦ renewed s (refresh_with now new_session token s)
  ]
