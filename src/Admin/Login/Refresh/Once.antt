-- ===== src/Admin/Login/Refresh/Once.antt =====
-- `refresh_token` answers each refresh token once.
use rag_service.Prelude.{
  ℕ, ◌+◌, ◌≤◌, ◌<◌, Text, codes, Bool, true, false, not, ◌&&◌, List, [], some, leb, text_eq,
  if◌then◌else◌, ◌≡◌, ◌≢◌, refl, ap, sym, subst, ◌∙◌, ◌⊎◌, inl, inr, Bool-cases, Option-cases,
  some-inj,
}
use rag_service.Admin.Exec.{
  Error, Result, ok, err, chain_returned, token_error, authorization_error, forbidden_error,
}
use rag_service.Admin.Redis.{Redis}
use rag_service.Admin.Settings.{Settings}
use rag_service.Admin.Model.{User}
use rag_service.Admin.Tokens.{Signs, NewToken, TokenPayload, filled, token_of, jwt_decode}
use rag_service.Admin.Tokens.Refresh.{refresh_once}
use rag_service.Admin.Authentication.RoundTrip.{decode-token_of}
use rag_service.Admin.Login.{Server, AuthState}
use rag_service.Admin.Login.Refresh.{
  GetNewToken, find_user, has_other_session, refreshable, exchange_for, renewed, refresh_with,
  refresh_token,
}

err-ne-ok : {A : Type 0} {e : Error} {a : A} → ¬ (◌≡◌ {A = Result A} (err e) (ok a))
err-ne-ok h = cc

Result-cases : {A : Type 0} (r : Result A) → ((e : Error) × (r ≡ err e)) ⊎ ((a : A) × (r ≡ ok a))
Result-cases (err e) = inl (e, refl)
Result-cases (ok a) = inr (a, refl)

-- What comes out of two checks is what went in.
checked :
    (b c : Bool) (x y : Error) (u v : User)
    → (if b then err x else if c then err y else ok u) ≡ ok v
    → u ≡ v
checked true c x y u v h = cc
checked false true x y u v h = cc
checked false false x y u v h = cc

same_state :
    {A S : Type 0} (m : Result A) (s r : S) (a : A)
    → ◌≡◌ {A = Result A × S} (m, s) (ok a, r)
    → (m ≡ ok a) × (s ≡ r)
same_state m s r a h = (ap (λ (x : Result _ × _). x.0) h, ap (λ (x : Result _ × _). x.1) h)

module _ (settings : Settings) (server : Server) where
  -- The user of a refresh that is allowed.
  refreshable_found :
      (now : ℕ) (p : TokenPayload) (users : List User) (redis : Redis) (user : User)
      → refreshable settings server now p users redis ≡ ok user
      → find_user settings server p.user_id users ≡ some user
  unfolding refreshable
  refreshable_found now p users redis user h =
      elim (Option-cases (find_user settings server p.user_id users)) [
        | inl e ↦ absurd (err-ne-ok (rw (e, refreshable) at h))
        | inr (u, e) ↦
            e
            ∙ ap some (
                checked (not u.status)
                  (not u.is_multi_login
                    && has_other_session settings server now u.id p.session_uuid redis)
                  (authorization_error (codes "用户已被锁定, 请联系统管理员"))
                  (forbidden_error (codes "此用户已在异地登录，请重新登录并及时修改密码")) u user
                  (rw (e, refreshable) at h))
      ]

  renewed_returned :
      (s after : AuthState) (m : Result NewToken × Redis) (made : GetNewToken)
      → renewed settings server s m ≡ (ok made, after)
      → (new_token : NewToken) × (redis : Redis) × (m ≡ (ok new_token, redis))
        × (after.redis ≡ redis)
        × (after.users ≡ s.users)
  unfolding renewed
  renewed_returned s after (err raised, r) made h = cc
  renewed_returned s after (ok new_token, r) made h = (
    new_token,
    r,
    refl,
    ap (λ (x : Result GetNewToken × AuthState). x.1.redis) (sym h),
    ap (λ (x : Result GetNewToken × AuthState). x.1.users) (sym h),
  )

  -- What a refresh that succeeds went through.
  refreshed :
      (now : ℕ) (n token : Text) (p : TokenPayload) (s after : AuthState) (made : GetNewToken)
      → jwt_decode server.jwt now token ≡ ok p
      → renewed settings server s (refresh_with settings server now n token s) ≡ (ok made, after)
      → (user : User) × (new_token : NewToken) × (redis : Redis) × (find_user settings server
            p.user_id s.users
          ≡ some user)
        × (exchange_for settings server now n token p user s.redis ≡ (ok new_token, redis))
        × (after.redis ≡ redis)
        × (after.users ≡ s.users)
  unfolding refresh_with
  refreshed now n token p s after made d h =
      let (new_token, redis, returned, same, users) =
        renewed_returned s after (refresh_with settings server now n token s) made h in
      let (user, r, allowed, exchanged) =
        chain_returned (refreshable settings server now p s.users s.redis, s.redis)
          (exchange_for settings server now n token p) (rw (d, refresh_with) at returned) in
      let (found, kept) =
        same_state (refreshable settings server now p s.users s.redis) s.redis r user allowed in
      (
        user,
        new_token,
        redis,
        refreshable_found now p s.users s.redis user found,
        ap (exchange_for settings server now n token p user) kept ∙ exchanged,
        same,
        users,
      )

  replayed :
      (t : ℕ) (other token : Text) (p : TokenPayload) (s : AuthState) (user : User) (e : Error)
      → (jwt_decode server.jwt t token ≡ ok p)
        ⊎ ((raised : Error) × (jwt_decode server.jwt t token ≡ err raised))
      → find_user settings server p.user_id s.users ≡ some user
      → exchange_for settings server t other token p user s.redis ≡ (err e, s.redis)
      → (raised : Error) × (refresh_with settings server t other token s ≡ (err raised, s.redis))
  unfolding refresh_with
  replayed t other token p s user e (inr (raised, d)) f h = (raised, rw d)
  replayed t other token p s user e (inl d) f h =
      elim (Result-cases (refreshable settings server t p s.users s.redis)) [
        | inl (raised, r) ↦ (raised, rw (d, r))
        | inr (u, r) ↦ (
          e,
          rw (d, r)
              (ap (λ v. exchange_for settings server t other token p v s.redis)
                  (some-inj (sym (refreshable_found t p s.users s.redis u r) ∙ f))
                ∙ h),
        )
      ]

  -- A request with a cookie that is not empty.
  sent :
      (now : ℕ) (n token : Text) (s : AuthState)
      → s.refresh_cookie ≡ some token
      → filled (some token) ≡ some token
      → refresh_token settings server now n s
        ≡ renewed settings server s (refresh_with settings server now n token s)
  unfolding refresh_token
  sent now n token s e f = simp (refresh_token, e, f)

  not_refreshed :
      (now : ℕ) (n token : Text) (s after : AuthState) (made : GetNewToken) (raised : Error)
      → jwt_decode server.jwt now token ≡ err raised
      → ¬ (
          renewed settings server s (refresh_with settings server now n token s) ≡ (ok made, after))
  unfolding refresh_with renewed
  not_refreshed now n token s after made raised d h =
      err-ne-ok (ap (λ (x : Result GetNewToken × AuthState). x.0) (rw d at h))

  module _ (signs : Signs server.jwt) where
    decoded :
        (made_at seconds t user_id : ℕ) (session_uuid : Text)
        → 0 < made_at
        → session_uuid ≢ []
        → let token = token_of settings server.jwt made_at seconds session_uuid user_id in
          (jwt_decode server.jwt t token
            ≡ ok (record {
              user_id = user_id;
              session_uuid = session_uuid;
              expire_time = made_at + seconds;
            }))
          ⊎ ((raised : Error) × (jwt_decode server.jwt t token ≡ err raised))
    decoded m d t u s h ne =
        let made = decode-token_of settings server.jwt signs m t d u s h ne in
        elim (Bool-cases (leb t (m + d))) [
          | inl e ↦ inl (made ∙ rw e)
          | inr e ↦ inr (token_error (codes "Token 已过期"), made ∙ rw e)
        ]

    -- A refresh with a refresh token that was made for a session gives a new session at most once:
    -- the client that sends the same token again, at any later time, gets an exception, and nothing
    -- is changed.
    pub refresh_token_once :
        (made_at seconds now t user_id : ℕ) (session_uuid new_session other : Text)
        (s after : AuthState) (made : GetNewToken)
        → 0 < made_at
        → session_uuid ≢ []
        → now ≤ t
        → text_eq new_session session_uuid ≡ false
        → let token = token_of settings server.jwt made_at seconds session_uuid user_id in
          s.refresh_cookie ≡ some token
          → refresh_token settings server now new_session s ≡ (ok made, after)
          → let again = record after { refresh_cookie = s.refresh_cookie } in
            (raised : Error) × (refresh_token settings server t other again ≡ (err raised, again))
    unfolding renewed exchange_for
    refresh_token_once m d now t u session n other s after made h ne later fresh cookie success =
        let token = token_of settings server.jwt m d session u in
        let p : TokenPayload = record {
          user_id = u;
          session_uuid = session;
          expire_time = m + d;
        } in
        let nonempty : filled (some token) ≡ some token = signs.nonempty _ in
        let first = sym (sent now n token s cookie nonempty) ∙ success in
        let again = record after { refresh_cookie = s.refresh_cookie } in
        elim (decoded m d now u session h ne) [
          | inr (raised, e) ↦ absurd (not_refreshed now n token s after made raised e first)
          | inl e ↦
              let (user, new_token, redis, found, exchanged, same, users) =
                refreshed now n token p s after made e first in
              let refused =
                refresh_once settings server.jwt now t n other token session user.id
                  user.is_multi_login (server.extra_info user) s.redis redis new_token later fresh
                  exchanged in
              let (raised, r) =
                replayed t other token p again user (token_error (codes "Refresh Token 已过期，请重新登录"))
                  (decoded m d t u session h ne) (ap (find_user settings server u) users ∙ found)
                  (subst
                    (λ r.
                      exchange_for settings server t other token p user r
                      ≡ (err (token_error (codes "Refresh Token 已过期，请重新登录")), r))
                    (sym same) refused) in
              (
                raised,
                sent t other token again cookie nonempty ∙ ap (renewed settings server again) r,
              )
        ]
