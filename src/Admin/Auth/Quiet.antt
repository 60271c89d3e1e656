-- ===== src/Admin/Auth/Quiet.antt =====
-- Verifying a login raises no `RequestError` and no `CustomError`.
use rag_service.Prelude.{ℕ, Text, codes, Bool, List, Option, if_elim}
use rag_service.Admin.Exec.{M, chain, or_raise, not_found_error, authorization_error}
use rag_service.Admin.Effects.{lift, return, raise, ◌>>◌}
use rag_service.Admin.Effects.Quiet.{Quiet, chain-Quiet, or_raise-Quiet}
use rag_service.Admin.Redis.{Redis}
use rag_service.Admin.Settings.{Settings}
use rag_service.Admin.Model.{User}
use rag_service.Admin.Lockout.{
  Format, check_status, handle_login_failure, handle_login_success, check_password_expiry_status,
}
use rag_service.Admin.Lockout.Quiet.{check_status-Quiet, handle_login_failure-Quiet, expiry-Quiet}
use rag_service.Admin.Auth.{
  get_by_username, matches, check_password, admitted, verified, user_verify,
}

module _ (settings : Settings) (format : Format) (password_verify : Text → Text → Bool) where
  check_password-Quiet :
      (now : ℕ) (password : Text) (u : User) (redis : Redis)
      → Quiet (check_password settings format password_verify now password u redis).0
  unfolding check_password
  check_password-Quiet now password u redis =
      if_elim (λ (m : M Redis (Unit {0})). Quiet (m redis).0)
        (matches settings format password_verify password u.password) tt
        (chain-Quiet (handle_login_failure settings format now u.id redis)
          (λ _. raise {A = Unit {0}} (authorization_error (codes "用户名或密码有误")))
          (handle_login_failure-Quiet settings format now u.id redis) (λ _ _. tt))

  admitted-Quiet :
      (now : ℕ) (u : User) (redis : Redis)
      → Quiet (admitted settings format password_verify now u redis).0
  unfolding admitted handle_login_success
  admitted-Quiet now u redis =
      chain-Quiet
        (lift (check_password_expiry_status settings format now u.last_password_changed_time) redis)
        (λ left. handle_login_success u.id >> return {A = User × Option ℕ} (u, left))
        (expiry-Quiet settings format now u.last_password_changed_time) (λ _ _. tt)

  verified-Quiet :
      (now : ℕ) (password : Text) (u : User) (redis : Redis)
      → Quiet (verified settings format password_verify now password u redis).0
  unfolding verified
  verified-Quiet now password u redis =
      let admit : Unit {0} → M Redis (User × Option ℕ) =
        λ _. admitted settings format password_verify now u in
      chain-Quiet (check_status settings format now u.id u.status redis)
        (λ _ r. chain (check_password settings format password_verify now password u r) admit)
        (check_status-Quiet settings format now u.id u.status redis)
        (λ _ r.
          chain-Quiet (check_password settings format password_verify now password u r) admit
            (check_password-Quiet now password u r) (λ _ s. admitted-Quiet now u s))

  pub user_verify-Quiet :
      (now : ℕ) (username password : Text) (users : List User) (redis : Redis)
      → Quiet (user_verify settings format password_verify now username password users redis).0
  unfolding user_verify
  user_verify-Quiet now username password users redis =
      let missing = not_found_error (codes "用户名或密码有误") in
      chain-Quiet (lift (or_raise missing (get_by_username username users)) redis)
        (verified settings format password_verify now password)
        (or_raise-Quiet missing (get_by_username username users) tt) (verified-Quiet now password)
