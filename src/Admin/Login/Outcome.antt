-- ===== src/Admin/Login/Outcome.antt =====
-- Which failed logins leave an entry in the log.
use rag_service.Prelude.{ℕ, Text, false, Option, if◌then◌else◌, ◌≡◌, refl, ap, sym, ◌∙◌}
use rag_service.Admin.Exec.{
  Error, Result, ok, err, chain, token_error, authorization_error, forbidden_error, not_found_error,
  request_error, custom_error, server_error, value_error,
}
use rag_service.Admin.Effects.{return}
use rag_service.Admin.Effects.Quiet.{Quiet}
use rag_service.Admin.Redis.{Redis}
use rag_service.Admin.Settings.{Settings}
use rag_service.Admin.Model.{User}
use rag_service.Admin.Tokens.{filled}
use rag_service.Admin.Auth.{user_verify}
use rag_service.Admin.Auth.Quiet.{user_verify-Quiet}
use rag_service.Admin.Login.{
  Server, AuthState, AuthLoginParam, GetLoginToken, admit, login, settle_login, failed_login,
  check_captcha, given_captcha, open_session,
}

module _ (settings : Settings) (server : Server) where
  failed_login-unlogged :
      (now : ℕ) (fresh : Text) (obj : AuthLoginParam) (raised : Error) (s : AuthState)
      → Quiet {A = User × Option ℕ} (err raised)
      → failed_login settings server now fresh obj raised s ≡ (err raised, s)
  unfolding failed_login
  failed_login-unlogged now fresh obj (token_error m) s q = refl
  failed_login-unlogged now fresh obj (authorization_error m) s q = refl
  failed_login-unlogged now fresh obj (forbidden_error m) s q = refl
  failed_login-unlogged now fresh obj (not_found_error m) s q = refl
  failed_login-unlogged now fresh obj (request_error m) s q = absurd q
  failed_login-unlogged now fresh obj (custom_error m) s q = absurd q
  failed_login-unlogged now fresh obj (server_error m) s q = refl
  failed_login-unlogged now fresh obj (value_error m) s q = refl

  ok-ne-err :
      {token : GetLoginToken} {raised : Error}
      → ¬ ◌≡◌ {A = Result GetLoginToken} (ok token) (err raised)
  ok-ne-err h = cc

  settled-unlogged :
      (now : ℕ) (fresh : Text) (obj : AuthLoginParam) (s : AuthState) (r : Result (User × Option ℕ))
      (redis : Redis) (raised : Error)
      → Quiet r
      → (settle_login settings server now fresh obj s (r, redis)).0 ≡ err raised
      → settle_login settings server now fresh obj s (r, redis)
        ≡ (err raised, record s { redis = redis })
  unfolding settle_login open_session
  settled-unlogged now fresh obj s (ok verified) redis raised q h = absurd (ok-ne-err h)
  settled-unlogged now fresh obj s (err e) redis raised q h =
      let same = failed_login-unlogged now fresh obj e (record s { redis = redis }) q in
      same
      ∙ ap (λ r. (r, record s { redis = redis }))
          (sym (ap (λ (r : Result GetLoginToken × AuthState). r.0) same) ∙ h)

  without_captcha :
      (now : ℕ) (fresh : Text) (obj : AuthLoginParam) (s : AuthState)
      → settings.login_captcha_enabled ≡ false
      → login settings server now fresh obj s
        ≡ settle_login settings server now fresh obj s (
            user_verify settings server.format server.password_verify now obj.username obj.password
              s.users s.redis)
  unfolding login admit check_captcha
  without_captcha now fresh obj s off =
      ap
        (λ b. settle_login settings server now fresh obj s (
          chain
            ((if b
                then given_captcha settings server now (filled obj.uuid) (filled obj.captcha)
                else return tt)
              s.redis)
            (λ _.
              user_verify settings server.format server.password_verify now obj.username
                obj.password s.users)))
        off

  -- Without a captcha, a login that fails, whether the name is unknown, the user locked, the
  -- password wrong or expired, writes no entry to the log of logins, and changes no user and not
  -- the cookie.
  pub failed_login_is_not_logged :
      (now : ℕ) (fresh_uuid : Text) (obj : AuthLoginParam) (s : AuthState) (raised : Error)
      → settings.login_captcha_enabled ≡ false
      → (login settings server now fresh_uuid obj s).0 ≡ err raised
      → let after = (login settings server now fresh_uuid obj s).1 in
        (after.login_logs ≡ s.login_logs)
        × (after.users ≡ s.users)
        × (after.refresh_cookie ≡ s.refresh_cookie)
  failed_login_is_not_logged now fresh obj s raised off h =
      let verified =
        user_verify settings server.format server.password_verify now obj.username obj.password
          s.users s.redis in
      let same = without_captcha now fresh obj s off in
      let final =
        same
        ∙ settled-unlogged now fresh obj s verified.0 verified.1 raised
            (user_verify-Quiet settings server.format server.password_verify now obj.username
              obj.password s.users s.redis)
            (sym (ap (λ (r : Result GetLoginToken × AuthState). r.0) same) ∙ h) in
      (
        ap (λ (r : Result GetLoginToken × AuthState). r.1.login_logs) final,
        ap (λ (r : Result GetLoginToken × AuthState). r.1.users) final,
        ap (λ (r : Result GetLoginToken × AuthState). r.1.refresh_cookie) final,
      )
