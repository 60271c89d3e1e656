-- ===== src/Admin/Authentication.antt =====
-- From the header of a request to its user: `jwt_authentication` and the functions below it of
-- backend/common/security/jwt.py, and middleware/jwt_auth_middleware.py.
pub mod SingleLogin
pub mod RoundTrip
pub mod Entering
use rag_service.Prelude.{
  ℕ, suc, ◌+◌, Text, codes, Bool, true, false, ◌&&◌, ◌||◌, not, List, [], ◌∷◌, map, Option, none,
  some, all, any, leb, ◌==◌, text_eq, if◌then◌else◌, find,
}
use rag_service.Admin.Exec.{
  Error, Result, ok, err, ◌>>=◌, or_raise, token_error, authorization_error, forbidden_error,
  not_found_error, request_error, custom_error, server_error, value_error,
}
use rag_service.Admin.Redis.{Redis, get, set, contains}
use rag_service.Admin.Redis.Keys.{user_key, session_key}
use rag_service.Admin.Settings.{Settings, token_redis_prefix, jwt_user_redis_prefix}
use rag_service.Admin.Model.{User, Dept, Role}
use rag_service.Admin.Tokens.{Jwt, TokenPayload, filled, jwt_decode}

-- `user_dao.get_join`; the ids of users are positive.
unfoldable pub get_join : ℕ → List User → Option User
get_join pk users = find (λ (u : User). u.id == pk && u.deleted == 0) users

check_roles : User → Result User
check_roles user = elim user.roles [
  | [] ↦ ok user
  | role ∷ roles ↦
      if all (λ (r : Role). not r.status) (role ∷ roles)
      then err (authorization_error (codes "用户所属角色已被锁定，请联系系统管理员"))
      else ok user
]

check_dept : User → Option ℕ → Option Dept → Result User
unfolding check_roles
check_dept user (some (suc _)) none = err (authorization_error (codes "用户所属部门不存在或已被删除，请联系系统管理员"))
check_dept user dept_id none = check_roles user
check_dept user dept_id (some dept) =
    if dept.status
    then check_roles user
    else err (authorization_error (codes "用户所属部门已被锁定，请联系系统管理员"))

unfoldable pub get_current_user : ℕ → List User → Result User
unfolding get_join check_dept
get_current_user pk users = do
  user ← or_raise (token_error (codes "Token 无效")) (get_join pk users)
  (if user.status
      then check_dept user user.dept_id user.dept
      else err (authorization_error (codes "用户已被锁定，请联系系统管理员")))

-- The token that Redis has for the session, or nothing, against the token of the request.
judge : Text → TokenPayload → Option Text → Result TokenPayload
judge token p stored = elim (filled stored) [
  | none ↦ err (token_error (codes "Token 已过期"))
  | some redis_token ↦
      if text_eq token redis_token then ok p else err (token_error (codes "Token 已失效"))
]

module _ (settings : Settings) (jwt : Jwt) where
  cache_user : ℕ → ℕ → Result User → Redis → Result User × Redis
  cache_user now user_id (err raised) redis = (err raised, redis)
  cache_user now user_id (ok user) redis = (
    ok user,
    set now (user_key jwt_user_redis_prefix user_id) (jwt.dump_user user)
        settings.token_expire_seconds redis,
  )

  unfoldable pub get_jwt_user : ℕ → ℕ → List User → Redis → Result User × Redis
  unfolding cache_user
  get_jwt_user now user_id users redis =
      elim (filled (get now (user_key jwt_user_redis_prefix user_id) redis)) [
        | none ↦ cache_user now user_id (get_current_user user_id users) redis
        | some cached ↦ (ok (jwt.load_user cached), redis)
      ]

  -- The token is of a session that Redis still has.
  unfoldable pub check_session : ℕ → Text → TokenPayload → Redis → Result TokenPayload
  unfolding judge
  check_session now token p redis =
      judge token p (get now (session_key token_redis_prefix p.user_id p.session_uuid) redis)

  user_of : ℕ → Result TokenPayload → List User → Redis → Result User × Redis
  user_of now (err raised) users redis = (err raised, redis)
  user_of now (ok p) users redis = get_jwt_user now p.user_id users redis

  unfoldable pub jwt_authentication : ℕ → Text → List User → Redis → Result User × Redis
  unfolding check_session user_of jwt_decode
  jwt_authentication now token users redis =
      user_of now (jwt_decode jwt now token >>= λ p. check_session now token p redis) users redis

-- `get_authorization_scheme_param` of FastAPI splits a header at its first blank.
abbrev pub SplitHeader : Type 0
SplitHeader = Option Text → Text × Text

-- `scheme.lower() == 'bearer'`; no letter beyond ASCII has one of these as its lower case.
is_bearer : Text → Bool
is_bearer scheme =
    text_eq (map (λ c. if leb b'A' c && leb c b'Z' then c + 32 else c) scheme) (codes "bearer")

unfoldable pub get_token : SplitHeader → Option Text → Result Text
unfolding is_bearer
get_token split authorization = elim (filled authorization) [
  | none ↦ err (token_error (codes "Token 无效"))
  | some _ ↦
      if is_bearer (split authorization).0
      then ok (split authorization).1
      else err (token_error (codes "Token 无效"))
]

-- What the middleware makes of a request: nobody, nobody with an exception that the route raises
-- later, or a user.
pub data Authentication : Type 0 where
  anonymous : Authentication
  deferred : Error → Authentication
  authenticated : User → Authentication

is_token_error : Error → Bool
is_token_error (token_error _) = true
is_token_error _ = false

module _ (settings : Settings) (jwt : Jwt) (split : SplitHeader) (excluded : Text → Bool) where
  -- `excluded` tests the patterns of TOKEN_REQUEST_PATH_EXCLUDE_PATTERN.
  unfoldable pub extract_token : Option Text → Text → Option Text
  unfolding is_bearer
  extract_token authorization path = elim (filled authorization) [
    | none ↦ none
    | some _ ↦
        if contains settings.token_request_path_exclude path || excluded path
        then none
        else if is_bearer (split authorization).0
        then some (split authorization).1
        else none
  ]

  handled : Result User × Redis → Result Authentication × Redis
  unfolding is_token_error
  handled (ok user, redis) = (ok (authenticated user), redis)
  handled (err raised, redis) = (
    if is_token_error raised && not settings.token_request_underlying_security
        then ok (deferred raised)
        else err raised,
    redis,
  )

  unfoldable pub authenticate :
      ℕ → Option Text → Text → List User → Redis → Result Authentication × Redis
  unfolding extract_token handled
  authenticate now authorization path users redis = elim (extract_token authorization path) [
    | none ↦ (ok anonymous, redis)
    | some token ↦ handled (jwt_authentication settings jwt now token users redis)
  ]

-- The dependencies of the routes: a user who is logged in, and a super user of the back office.
unfoldable pub jwt_authentication_verify : Authentication → Text → Result Text
jwt_authentication_verify anonymous credentials = err (token_error (codes "Not Authenticated"))
jwt_authentication_verify (deferred raised) credentials = err raised
jwt_authentication_verify (authenticated user) credentials = ok credentials

unfoldable pub superuser_verify : Authentication → Result Bool
superuser_verify (authenticated user) =
    if not user.is_superuser || not user.is_staff
    then err (authorization_error (codes "Permission Denied"))
    else ok true
superuser_verify _ = err (token_error (codes "Not Authenticated"))
