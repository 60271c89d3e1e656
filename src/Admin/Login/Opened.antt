-- ===== src/Admin/Login/Opened.antt =====
-- What a login that succeeds has done.
use rag_service.Prelude.{
  ℕ, ◌+◌, ◌≤◌, ◌<◌, Text, codes, true, [], ◌∷◌, ◌++◌, Option, some, ◌≡◌, refl, subst, ◌∙◌, ltb,
  arith,
}
use rag_service.Admin.Exec.{
  Error, Result, ok, err, chain_returned, token_error, authorization_error, forbidden_error,
  not_found_error, request_error, custom_error, server_error, value_error,
}
use rag_service.Admin.Redis.{Redis}
use rag_service.Admin.Settings.{Settings}
use rag_service.Admin.Model.{User}
use rag_service.Admin.Tokens.{Signs, token_of, create_access_token}
use rag_service.Admin.Tokens.Sessions.{own_session, kept-create_refresh_token}
use rag_service.Admin.Authentication.{check_session}
use rag_service.Admin.Authentication.SingleLogin.{payload_of, stored_passes}
use rag_service.Admin.Auth.{get_by_username, matches, user_verify}
use rag_service.Admin.Auth.Verified.{user_verify-IsVerified}
use rag_service.Admin.Login.{
  Server, AuthState, AuthLoginParam, GetLoginToken, admit, login, settle_login, failed_login,
  check_captcha, open_session, set_login_time,
}

module _ (settings : Settings) (server : Server) where
  -- The user is the live, active one of the name and gave the right password; the success is logged
  -- under the user's uuid; and the access token passes as that of the new session of this user.
  pub record IsOpened (now t : ℕ) (session_uuid : Text) (obj : AuthLoginParam) (s : AuthState)
      (made : GetLoginToken) (after : AuthState) : Type 0 where
    pub user : User
    pub found : get_by_username obj.username s.users ≡ some user
    pub active : user.status ≡ true
    pub right :
        matches settings server.format server.password_verify obj.password user.password ≡ true
    pub logged :
        after.login_logs
        ≡ s.login_logs
          ++ record {
            user_uuid = user.uuid;
            username = obj.username;
            login_time = now;
            success = true;
            msg = codes "success.login.success";
          }
            ∷ []
    pub session :
        let p = payload_of user.id session_uuid (now + settings.token_expire_seconds) in
        check_session settings server.jwt t made.access_token p after.redis ≡ ok p

  failed-ne-ok :
      (now : ℕ) (fresh : Text) (obj : AuthLoginParam) (raised : Error) (s after : AuthState)
      (made : GetLoginToken)
      → ¬ (failed_login settings server now fresh obj raised s ≡ (ok made, after))
  unfolding failed_login
  failed-ne-ok now fresh obj (token_error m) s after made h = cc
  failed-ne-ok now fresh obj (authorization_error m) s after made h = cc
  failed-ne-ok now fresh obj (forbidden_error m) s after made h = cc
  failed-ne-ok now fresh obj (not_found_error m) s after made h = cc
  failed-ne-ok now fresh obj (request_error m) s after made h = cc
  failed-ne-ok now fresh obj (custom_error m) s after made h = cc
  failed-ne-ok now fresh obj (server_error m) s after made h = cc
  failed-ne-ok now fresh obj (value_error m) s after made h = cc

  first-eq :
      {a b : GetLoginToken} {s t : AuthState}
      → ◌≡◌ {A = Result GetLoginToken × AuthState} (ok a, s) (ok b, t)
      → a ≡ b
  first-eq h = cc

  second-eq :
      {a b : GetLoginToken} {s t : AuthState}
      → ◌≡◌ {A = Result GetLoginToken × AuthState} (ok a, s) (ok b, t)
      → s ≡ t
  second-eq h = cc

  along :
      (now t : ℕ) (fresh : Text) (obj : AuthLoginParam) (s : AuthState) (a b : GetLoginToken)
      (x y : AuthState)
      → ◌≡◌ {A = Result GetLoginToken × AuthState} (ok a, x) (ok b, y)
      → IsOpened now t fresh obj s a x
      → IsOpened now t fresh obj s b y
  along now t fresh obj s a b x y e io =
      subst (λ m. IsOpened now t fresh obj s m y) (first-eq e)
        (subst (IsOpened now t fresh obj s a) (second-eq e) io)

  module _ (signs : Signs server.jwt) where
    -- The token of a session that was opened passes while it lasts.
    session_passes :
        (now t : ℕ) (fresh : Text) (user : User) (days : Option ℕ) (obj : AuthLoginParam)
        (s : AuthState)
        → now ≤ t
        → t < now + settings.token_expire_seconds
        → check_session settings server.jwt t
            (token_of settings server.jwt now settings.token_expire_seconds fresh user.id)
            (payload_of user.id fresh (now + settings.token_expire_seconds))
            (open_session settings server now fresh obj (user, days) s).1.redis
          ≡ ok (payload_of user.id fresh (now + settings.token_expire_seconds))
    unfolding open_session
    session_passes now t fresh user days obj s h l =
        let early : ltb t (now + settings.token_expire_seconds) ≡ true = ground arith in
        let extra = server.extra_info (set_login_time now user) in
        let access =
          create_access_token settings server.jwt now fresh user.id user.is_multi_login extra
            s.redis in
        stored_passes settings server.jwt signs t _
          (payload_of user.id fresh (now + settings.token_expire_seconds)) _
          (kept-create_refresh_token settings server.jwt now t user.id user.id fresh fresh
              user.is_multi_login access.1 h
            ∙ own_session settings server.jwt now t user.id fresh user.is_multi_login extra s.redis
            ∙ rw early)

    opened :
        (now t : ℕ) (fresh : Text) (obj : AuthLoginParam) (s : AuthState)
        (r : Result (User × Option ℕ)) (redis : Redis) (made : GetLoginToken) (after : AuthState)
        → now ≤ t
        → t < now + settings.token_expire_seconds
        → admit settings server now obj s.users s.redis ≡ (r, redis)
        → settle_login settings server now fresh obj s (r, redis) ≡ (ok made, after)
        → IsOpened now t fresh obj s made after
    unfolding settle_login admit open_session create_access_token
    opened now t fresh obj s (err raised) redis made after h l a e =
        absurd (failed-ne-ok now fresh obj raised (record s { redis = redis }) after made e)
    opened now t fresh obj s (ok (user, days)) redis made after h l a e =
        let (_, before, _, verify) =
          chain_returned (check_captcha settings server now obj s.redis)
            (λ _.
              user_verify settings server.format server.password_verify now obj.username
                obj.password s.users)
            a in
        let v =
          user_verify-IsVerified settings server.format server.password_verify now obj.username
            obj.password s.users before redis user days verify in
        along now t fresh obj s _ made _ after e (record {
          user = user;
          found = v.found;
          active = v.active;
          right = v.right;
          logged = refl;
          session = session_passes now t fresh user days obj (record s { redis = redis }) h l;
        })

    -- A login that succeeds is one of the live and active user of its name, with the right password;
    -- it is logged once, as a success of this user; and until the access token expires it passes as
    -- the token of the new session.
    pub login-IsOpened :
        (now t : ℕ) (fresh_uuid : Text) (obj : AuthLoginParam) (s : AuthState)
        (made : GetLoginToken) (after : AuthState)
        → now ≤ t
        → t < now + settings.token_expire_seconds
        → login settings server now fresh_uuid obj s ≡ (ok made, after)
        → IsOpened now t fresh_uuid obj s made after
    unfolding login
    login-IsOpened now t fresh obj s made after h l e =
        let admitted = admit settings server now obj s.users s.redis in
        opened now t fresh obj s admitted.0 admitted.1 made after h l refl e
