-- ===== src/Admin/Auth.antt =====
-- `AuthService` of backend/app/admin/service/auth_service.py. The state of a request is Redis, the
-- table of users, the log of logins that background tasks write, and the client's cookie. Hashing
-- of passwords, lower case and the translations are parameters.
pub mod BruteForce
pub mod Verified
pub mod Quiet
use mathlib.Core.Option
use rag_service.Prelude.{
  ℕ, Text, codes, Bool, true, false, ◌&&◌, ◌||◌, not, List, [], ◌∷◌, ◌++◌, Option, none, some, ◌==◌,
  text_eq, if◌then◌else◌, find, modify,
}
use rag_service.Admin.Exec.{
  Error, Result, ok, err, M, or_raise, token_error, authorization_error, forbidden_error,
  not_found_error, request_error, custom_error,
}
use rag_service.Admin.Effects.{◌>>=◌, ◌>>◌, return, raise, lift, write}
use rag_service.Admin.Redis.{Redis, get, set, delete, get_by_prefix}
use rag_service.Admin.Redis.Keys.{user_key, session_key}
use rag_service.Admin.Settings.{Settings, login_captcha_redis_prefix}
use rag_service.Admin.Model.{User}
use rag_service.Admin.Tokens.{filled}
use rag_service.Admin.Lockout.{
  Format, check_status, handle_login_failure, handle_login_success, check_password_expiry_status,
}

unfoldable pub get_by_username : Text → List User → Option User
get_by_username username users =
    find (λ (u : User). text_eq u.username username && u.deleted == 0) users

module _ (settings : Settings) (format : Format) (password_verify : Text → Text → Bool) where
  -- `user.password is not None and password_verify(password, user.password)`
  unfoldable pub matches : Text → Option Text → Bool
  matches password none = false
  matches password (some hashed) = password_verify password hashed

  check_password : ℕ → Text → User → M Redis (Unit {0})
  unfolding matches
  check_password now password user = if matches password user.password then return tt else (do
    handle_login_failure settings format now user.id
    raise (authorization_error (codes "用户名或密码有误")))

  -- After the password.
  admitted : ℕ → User → M Redis (User × Option ℕ)
  admitted now user = do
    days_remaining ←
        lift (check_password_expiry_status settings format now user.last_password_changed_time)
    handle_login_success user.id
    return (user, days_remaining)

  verified : ℕ → Text → User → M Redis (User × Option ℕ)
  unfolding check_password admitted
  verified now password user = do
    check_status settings format now user.id user.status
    check_password now password user
    admitted now user

  unfoldable pub user_verify : ℕ → Text → Text → List User → M Redis (User × Option ℕ)
  unfolding verified get_by_username
  user_verify now username password users = do
    user ← lift (or_raise (not_found_error (codes "用户名或密码有误")) (get_by_username username users))
    verified now password user
