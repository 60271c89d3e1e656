-- ===== src/Admin/Login/Logout.antt =====
-- A logout ends the session of its token and no other.
use rag_service.Prelude.{
  ℕ, Text, codes, Bool, true, false, [], ◌∷◌, ap, ◌&&◌, Option, none, some, if◌then◌else◌, ◌≡◌,
  refl, sym, ◌∙◌, ◌==◌, ==_iff, text_eq, inl, inr, Bool-cases,
}
use rag_service.Admin.Exec.{ok, err, token_error}
use rag_service.Admin.Redis.{Redis, get, delete}
use rag_service.Admin.Redis.Laws.{get-delete}
use rag_service.Admin.Redis.Keys.{session_key, session_key-ne, text_eq-session_key, true-ne-false}
use rag_service.Admin.Settings.{
  Settings, token_redis_prefix, token_extra_info_redis_prefix, token_refresh_redis_prefix,
}
use rag_service.Admin.Tokens.{TokenPayload, filled, jwt_decode}
use rag_service.Admin.Tokens.Sessions.{
  extra-ne-token, refresh-ne-token, extra-ne-refresh, token-ne-refresh,
}
use rag_service.Admin.Authentication.{get_token, check_session}
use rag_service.Admin.Authentication.SingleLogin.{session_dropped}
use rag_service.Admin.Login.{Server, AuthState, close_session, drop_refresh, logged_out, logout}

session-key-eq :
    (prefix : Text) (u v : ℕ) (s x : Text)
    → text_eq (session_key prefix u s) (session_key prefix v x) ≡ (v == u && text_eq s x)
session-key-eq prefix u v s x = elim (Bool-cases (v == u)) [
  | inl e ↦ rw (e, (==_iff v u).0 e, text_eq-session_key prefix u s x)
  | inr e ↦
      rw (e, session_key-ne prefix u v s x (λ same. true-ne-false (sym ((==_iff v u).1 same) ∙ e)))
]

-- The client has sent a refresh token.
abbrev pub is_sent : Option Text → Bool
is_sent (some (_ ∷ _)) = true
is_sent _ = false

module _ (settings : Settings) (server : Server) where
  read_kept :
      (t : ℕ) (p : TokenPayload) (stored : Option Text) (redis : Redis) (v : ℕ) (x : Text)
      → get t (session_key token_redis_prefix v x) (drop_refresh settings server p stored redis)
        ≡ get t (session_key token_redis_prefix v x) redis
  unfolding drop_refresh
  read_kept t p none redis v x = refl
  read_kept t p (some _) redis v x =
      get-delete t _ (session_key token_redis_prefix v x) redis
      ∙ rw (refresh-ne-token p.user_id v p.session_uuid x)

  -- Reading a session after the writes of a logout.
  read_closed :
      (t : ℕ) (p : TokenPayload) (cookie : Option Text) (redis : Redis) (v : ℕ) (x : Text)
      → get t (session_key token_redis_prefix v x) (close_session settings server p cookie redis)
        ≡ (if v == p.user_id && text_eq p.session_uuid x
            then none
            else get t (session_key token_redis_prefix v x) redis)
  unfolding close_session
  read_closed t p cookie redis v x =
      read_kept t p (filled cookie) _ v x
      ∙ get-delete t _ (session_key token_redis_prefix v x) _
      ∙ rw (extra-ne-token p.user_id v p.session_uuid x) (
          get-delete t _ (session_key token_redis_prefix v x) redis
          ∙ rw (session-key-eq token_redis_prefix p.user_id v p.session_uuid x))

  -- Reading a refresh token after them.
  read_refresh :
      (t : ℕ) (p : TokenPayload) (cookie : Option Text) (redis : Redis) (v : ℕ) (x : Text)
      → get t
          (session_key token_refresh_redis_prefix v x)
          (close_session settings server p cookie redis)
        ≡ (if is_sent cookie && (v == p.user_id && text_eq p.session_uuid x)
            then none
            else get t (session_key token_refresh_redis_prefix v x) redis)
  unfolding close_session drop_refresh
  read_refresh t p cookie redis v x = by_cookie cookie
    where
      kept :
          get t (session_key token_refresh_redis_prefix v x) (
            delete
              (session_key token_extra_info_redis_prefix p.user_id p.session_uuid)
              (delete (session_key token_redis_prefix p.user_id p.session_uuid) redis))
          ≡ get t (session_key token_refresh_redis_prefix v x) redis
      kept =
          get-delete t _ (session_key token_refresh_redis_prefix v x) _
          ∙ rw (extra-ne-refresh p.user_id v p.session_uuid x) (
              get-delete t _ (session_key token_refresh_redis_prefix v x) redis
              ∙ rw (token-ne-refresh p.user_id v p.session_uuid x))

      dropped :
          get t (session_key token_refresh_redis_prefix v x) (
            delete (session_key token_refresh_redis_prefix p.user_id p.session_uuid) (
              delete
                (session_key token_extra_info_redis_prefix p.user_id p.session_uuid)
                (delete (session_key token_redis_prefix p.user_id p.session_uuid) redis)))
          ≡ (if v == p.user_id && text_eq p.session_uuid x
              then none
              else get t (session_key token_refresh_redis_prefix v x) redis)
      dropped =
          get-delete t _ (session_key token_refresh_redis_prefix v x) _
          ∙ rw (session-key-eq token_refresh_redis_prefix p.user_id v p.session_uuid x)
              (ap (λ r. if v == p.user_id && text_eq p.session_uuid x then none else r) kept)

      by_cookie :
          (c : Option Text)
          → get t
              (session_key token_refresh_redis_prefix v x)
              (close_session settings server p c redis)
            ≡ (if is_sent c && (v == p.user_id && text_eq p.session_uuid x)
                then none
                else get t (session_key token_refresh_redis_prefix v x) redis)
      by_cookie none = kept
      by_cookie (some []) = kept
      by_cookie (some (_ ∷ _)) = dropped

  decoded :
      (now : ℕ) (authorization : Option Text) (token : Text) (p : TokenPayload) (s : AuthState)
      → get_token server.split authorization ≡ ok token
      → jwt_decode server.jwt now token ≡ ok p
      → logout settings server now authorization s ≡ (
        ok tt,
        record s {
          redis = close_session settings server p s.refresh_cookie s.redis;
          refresh_cookie = none;
        },
      )
  unfolding logout logged_out
  decoded now authorization token p s g d = rw (g, logged_out, d)

  -- A logout with a token that decodes removes the cookie and ends the session of the token: from
  -- then on a token of this session is refused, and a token of any other session is judged as
  -- before; and if the client sent a refresh token, Redis has none for this session any more, while
  -- every other refresh token is left.
  pub logout_ends_session :
      (now t : ℕ) (authorization : Option Text) (token other : Text) (p q : TokenPayload)
      (s : AuthState)
      → get_token server.split authorization ≡ ok token
      → jwt_decode server.jwt now token ≡ ok p
      → let after = (logout settings server now authorization s).1 in
        ((logout settings server now authorization s).0 ≡ ok tt)
        × (after.refresh_cookie ≡ none)
        × (check_session settings server.jwt t other q after.redis ≡ (
            if q.user_id == p.user_id && text_eq p.session_uuid q.session_uuid
            then err (token_error (codes "Token 已过期"))
            else check_session settings server.jwt t other q s.redis))
        × ((v : ℕ) (x : Text)
            → get t (session_key token_refresh_redis_prefix v x) after.redis ≡ (
                if is_sent s.refresh_cookie && (v == p.user_id && text_eq p.session_uuid x)
                then none
                else get t (session_key token_refresh_redis_prefix v x) s.redis))
  logout_ends_session now t authorization token other p q s g d =
      rw (decoded now authorization token p s g d) (
        refl,
        refl,
        session_dropped settings server.jwt t other q
            (q.user_id == p.user_id && text_eq p.session_uuid q.session_uuid) _ s.redis
            (read_closed t p s.refresh_cookie s.redis q.user_id q.session_uuid),
        λ v x. read_refresh t p s.refresh_cookie s.redis v x,
      )
