-- ===== src/Admin/Authentication/SingleLogin.antt =====
-- A user who may log in once has one session.
use rag_service.Prelude.{
  ℕ, ◌+◌, ◌≤◌, Text, codes, Bool, true, false, ◌&&◌, Option, none, some, ltb, ◌==◌, text_eq,
  text_eq_refl, if◌then◌else◌, ◌≡◌, ap, ◌∙◌, inl, inr, Bool-cases,
}
use rag_service.Admin.Exec.{ok, err, token_error}
use rag_service.Admin.Redis.{Redis, get}
use rag_service.Admin.Redis.Keys.{session_key}
use rag_service.Admin.Settings.{Settings, token_redis_prefix}
use rag_service.Admin.Tokens.{Jwt, Claims, Signs, TokenPayload, create_access_token}
use rag_service.Admin.Tokens.Sessions.{read_access}
use rag_service.Admin.Authentication.{judge, check_session}

abbrev pub payload_of : ℕ → Text → ℕ → TokenPayload
payload_of user_id session_uuid expire_time = record {
  user_id = user_id;
  session_uuid = session_uuid;
  expire_time = expire_time;
}

module _ (settings : Settings) (jwt : Jwt) where
  -- A session that is dropped, where a test says so, is refused.
  pub session_dropped :
      (t : ℕ) (token : Text) (p : TokenPayload) (b : Bool) (redis before : Redis)
      → get t (session_key token_redis_prefix p.user_id p.session_uuid) redis ≡ (
          if b
          then none
          else get t (session_key token_redis_prefix p.user_id p.session_uuid) before)
      → check_session settings jwt t token p redis ≡ (
          if b
          then err (token_error (codes "Token 已过期"))
          else check_session settings jwt t token p before)
  unfolding check_session judge
  session_dropped t token p true redis before e = ap (judge token p) e
  session_dropped t token p false redis before e = ap (judge token p) e

module _ (settings : Settings) (jwt : Jwt) (signs : Signs jwt) where
  judge_encoded :
      (c : Claims) (token : Text) (p : TokenPayload)
      → judge token p (some (jwt.encode c))
        ≡ (if text_eq token (jwt.encode c) then ok p else err (token_error (codes "Token 已失效")))
  unfolding judge
  judge_encoded c token p = rw (signs.nonempty c, judge)

  -- A token passes where Redis has it for its session.
  pub stored_passes :
      (t : ℕ) (c : Claims) (p : TokenPayload) (redis : Redis)
      → get t (session_key token_redis_prefix p.user_id p.session_uuid) redis ≡ some (jwt.encode c)
      → check_session settings jwt t (jwt.encode c) p redis ≡ ok p
  unfolding check_session
  stored_passes t c p redis e =
      ap (judge (jwt.encode c) p) e
      ∙ judge_encoded c (jwt.encode c) p
      ∙ rw (text_eq_refl (jwt.encode c))

  -- After `create_access_token` for a user who may log in once, a token of that user passes exactly
  -- if it is the new one, of the new session, and not expired; a token of another session of the
  -- user is refused, and the tokens of other users are judged as before.
  pub single_login :
      (now t user_id : ℕ) (session_uuid token : Text) (extra : Option Text) (p : TokenPayload)
      (redis : Redis)
      → now ≤ t
      → let made = create_access_token settings jwt now session_uuid user_id false extra redis in
        check_session settings jwt t token p made.1 ≡ (
          if p.user_id == user_id
          then (if text_eq session_uuid p.session_uuid
                && ltb t (now + settings.token_expire_seconds)
              then (if text_eq token made.0.access_token
                  then ok p
                  else err (token_error (codes "Token 已失效")))
              else err (token_error (codes "Token 已过期")))
          else check_session settings jwt t token p redis)
  unfolding check_session judge create_access_token
  single_login now t u s token extra p redis h =
      ap (judge token p) (read_access settings jwt now t u p.user_id s p.session_uuid extra redis h)
      ∙ elim (Bool-cases (p.user_id == u)) [
        | inl e ↦
            elim (Bool-cases
              (text_eq s p.session_uuid && ltb t (now + settings.token_expire_seconds))) [
                | inl k ↦ rw (e, k) (judge_encoded _ token p)
                | inr k ↦ rw (e, k)
              ]
        | inr e ↦ rw e
      ]
