-- ===== src/Admin/Authentication/RoundTrip.antt =====
-- A token that was created is read back, and authenticates while its session lasts.
use rag_service.Prelude.{
  ℕ, ◌+◌, ◌≤◌, ◌<◌, Text, codes, true, false, List, [], Option, ltb, leb, text_eq, if◌then◌else◌,
  ◌≡◌, ◌≢◌, ap, ◌∙◌, inl, inr, arith, Bool-cases, show_nat, show_nat-ne, text_eq_refl, ==_refl,
}
use rag_service.Admin.Exec.{Error, Result, ok, err, token_error}
use rag_service.Admin.Redis.{Redis}
use rag_service.Admin.Settings.{Settings}
use rag_service.Admin.Model.{User}
use rag_service.Admin.Tokens.{Jwt, Signs, TokenPayload, token_of, create_access_token, jwt_decode}
use rag_service.Admin.Tokens.Numbers.{int_of-show, filled_text, nonzero_number}
use rag_service.Admin.Authentication.{check_session, jwt_authentication, user_of}
use rag_service.Admin.Authentication.Entering.{MayEnter, IsCachedAs, get_jwt_user-entered}
use rag_service.Admin.Authentication.SingleLogin.{payload_of, single_login}

before : (a b : ℕ) → a < b → leb a b ≡ true
before a b h = ground arith

later : (a b : ℕ) → a < b → ltb a b ≡ true
later a b h = ground arith

module _ (settings : Settings) (jwt : Jwt) (signs : Signs jwt) where
  -- Decoding a token gives the user, the session and the time for which it was made, until then.
  pub decode-token_of :
      (now t seconds user_id : ℕ) (session_uuid : Text)
      → 0 < now
      → session_uuid ≢ []
      → jwt_decode jwt t (token_of settings jwt now seconds session_uuid user_id) ≡ (
          if leb t (now + seconds)
          then ok (record {
            user_id = user_id;
            session_uuid = session_uuid;
            expire_time = now + seconds;
          })
          else err (token_error (codes "Token 已过期")))
  unfolding jwt_decode
  decode-token_of now t seconds u s p ne = elim (Bool-cases (leb t (now + seconds))) [
    | inl e ↦
        rw (signs.decode-encode, e, jwt_decode)
          (rw (
            filled_text s ne,
            filled_text (show_nat u) (show_nat-ne u),
            nonzero_number (now + seconds) (omega arith),
            int_of-show u,
          ))
    | inr e ↦ rw (signs.decode-encode, e, jwt_decode)
  ]

  authenticated_by :
      (t : ℕ) (token : Text) (p : TokenPayload) (users : List User) (redis : Redis)
      (r : Result TokenPayload)
      → jwt_decode jwt t token ≡ ok p
      → check_session settings jwt t token p redis ≡ r
      → jwt_authentication settings jwt t token users redis ≡ user_of settings jwt t r users redis
  unfolding jwt_authentication
  authenticated_by t token p users redis r d c = rw (d, c)

  refused_by :
      (t : ℕ) (token : Text) (users : List User) (redis : Redis) (raised : Error)
      → jwt_decode jwt t token ≡ err raised
      → jwt_authentication settings jwt t token users redis ≡ (err raised, redis)
  unfolding jwt_authentication
  refused_by t token users redis raised d = rw d

  -- For a user who is live and active, has no disabled department and not only disabled roles, and who
  -- is not cached as another, `create_access_token` without several logins gives a token that
  -- authenticates exactly this user until it expires, and every token of another session of the user is refused from then on.
  pub new_login_replaces :
      (now t user_id : ℕ) (session_uuid : Text) (extra : Option Text) (users : List User)
      (redis : Redis) (old_time : ℕ) (old_session : Text) (user : User)
      → MayEnter user_id users user
      → IsCachedAs settings jwt t user_id
          (create_access_token settings jwt now session_uuid user_id false extra redis).1
          user
      → 0 < now
      → now ≤ t
      → t < now + settings.token_expire_seconds
      → session_uuid ≢ []
      → 0 < old_time
      → old_session ≢ []
      → text_eq session_uuid old_session ≡ false
      → let made = create_access_token settings jwt now session_uuid user_id false extra redis in
        let old_token =
          token_of settings jwt old_time settings.token_expire_seconds old_session user_id in
        ((jwt_authentication settings jwt t made.0.access_token users made.1).0 ≡ ok user)
        × (jwt_authentication settings jwt t old_token users made.1
            ≡ (err (token_error (codes "Token 已过期")), made.1))
  unfolding create_access_token user_of
  new_login_replaces now t u s extra users redis t0 s0 user may cached positive h l ne p0 ne0
        other =
      let made = create_access_token settings jwt now s u false extra redis in
      let token = token_of settings jwt now settings.token_expire_seconds s u in
      let seconds = settings.token_expire_seconds in
      let old_token = token_of settings jwt t0 seconds s0 u in
      let p = payload_of u s (now + seconds) in
      let expired = token_error (codes "Token 已过期") in
      let q = payload_of u s0 (t0 + seconds) in
      (
        ap (λ (r : Result User × Redis). r.0)
              (authenticated_by t token p users made.1 (ok p)
                (decode-token_of now t seconds u s positive ne ∙ rw (before t (now + seconds) l))
                (single_login settings jwt signs now t u s token extra p redis h
                  ∙ rw (==_refl u, text_eq_refl s, later t (now + seconds) l, text_eq_refl token)))
            ∙ get_jwt_user-entered settings jwt t u users made.1 user may cached,
        elim (Bool-cases (leb t (t0 + seconds))) [
          | inl e ↦
              authenticated_by t old_token q users made.1 (err expired)
                (decode-token_of t0 t seconds u s0 p0 ne0 ∙ rw e)
                (single_login settings jwt signs now t u s old_token extra q redis h
                  ∙ rw (==_refl u, other))
          | inr e ↦
              refused_by t old_token users made.1 expired
                (decode-token_of t0 t seconds u s0 p0 ne0 ∙ rw e)
        ],
      )
