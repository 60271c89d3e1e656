-- ===== src/Admin/Tokens/Refresh.antt =====
-- A refresh token serves once, and outlives the revocation of its session.
use rag_service.Prelude.{
  ℕ, ◌≤◌, Text, codes, Bool, true, false, [], ◌∷◌, Option, none, some, text_eq, text_eq_refl,
  if◌then◌else◌, ◌≡◌, refl, ap, sym, ◌∙◌, inl, inr, arith, Bool-cases,
}
use rag_service.Admin.Exec.{Error, Result, ok, err, token_error}
use rag_service.Admin.Redis.{Redis, get, set, delete, delete_by_prefix}
use rag_service.Admin.Redis.Laws.{get-set, get-delete}
use rag_service.Admin.Redis.Batches.{delete_by_prefix_lem}
use rag_service.Admin.Redis.Keys.{user_key, session_key, text_eq-session_key}
use rag_service.Admin.Settings.{
  Settings, token_redis_prefix, token_extra_info_redis_prefix, token_refresh_redis_prefix,
}
use rag_service.Admin.Tokens.{
  Jwt, NewToken, exchange, batch_size, store_extra, create_access_token, create_refresh_token,
  create_new_token, renew, revoke_token,
}
use rag_service.Admin.Tokens.Sessions.{extra-ne-refresh, token-ne-refresh}

-- A key that is not there is not there after these writes.
module _ (t : ℕ) (k : Text) (redis : Redis) (absent : get t k redis ≡ none) where
  absent-set :
      (now : ℕ) (j value : Text) (ex : ℕ)
      → text_eq j k ≡ false
      → get t k (set now j value ex redis) ≡ none
  absent-set now j value ex e = get-set now t j k value ex redis ∙ rw e absent

  absent-delete : (j : Text) → get t k (delete j redis) ≡ none
  absent-delete j = get-delete t j k redis ∙ rw absent (ground arith)

  absent-delete_by_prefix :
      (now : ℕ) (prefix : Text)
      → now ≤ t
      → get t k (delete_by_prefix now prefix [] batch_size redis) ≡ none
  absent-delete_by_prefix now prefix h =
      delete_by_prefix_lem now t batch_size prefix [] redis k h ∙ rw absent (ground arith)

  absent-cleared :
      (now : ℕ) (prefix : Text) (keep : Bool)
      → now ≤ t
      → get t k (if keep then redis else delete_by_prefix now prefix [] batch_size redis) ≡ none
  absent-cleared now prefix true h = absent
  absent-cleared now prefix false h = absent-delete_by_prefix now prefix h

pair-inj {ℓ κ} :
    {A : Type ℓ} {B : Type κ} {a c : A} {b d : B} → ◌≡◌ {A = A × B} (a, b) (c, d) → b ≡ d
pair-inj h = cc

err-ne-ok :
    {e : Error} {m : NewToken} {r q : Redis}
    → ¬ ◌≡◌ {A = Result NewToken × Redis} (err e, r) (ok m, q)
err-ne-ok h = cc

exchanged :
    (token : Text) (renewed : NewToken × Redis) (redis : Redis) (stored : Option Text)
    (made : NewToken) (after : Redis)
    → exchange token renewed redis stored ≡ (ok made, after)
    → after ≡ renewed.1
unfolding exchange
exchanged token renewed redis none made after h = cc
exchanged token renewed redis (some []) made after h = cc
exchanged token renewed redis (some (c ∷ s)) made after h =
    elim (Bool-cases (text_eq (c ∷ s) token)) [
      | inl e ↦ sym (pair-inj (rw e at h))
      | inr e ↦ absurd (err-ne-ok (rw e at h))
    ]

same_outcome :
    (token : Text) (n m : NewToken × Redis) (r q : Redis) (stored : Option Text)
    → n.0 ≡ m.0
    → (exchange token n r stored).0 ≡ (exchange token m q stored).0
unfolding exchange
same_outcome token n m r q none h = refl
same_outcome token n m r q (some []) h = refl
same_outcome token n m r q (some (c ∷ s)) h = elim (Bool-cases (text_eq (c ∷ s) token)) [
  | inl e ↦ rw e (ap ok h)
  | inr e ↦ rw e
]

module _ (settings : Settings) (jwt : Jwt) where
  absent-store_extra :
      (now t u v : ℕ) (s x : Text) (extra : Option Text) (redis : Redis)
      → get t (session_key token_refresh_redis_prefix v x) redis ≡ none
      → get t
          (session_key token_refresh_redis_prefix v x)
          (store_extra settings jwt now u s extra redis)
        ≡ none
  absent-store_extra now t u v s x none redis a = a
  absent-store_extra now t u v s x (some extra) redis a =
      absent-set t _ redis a now _ extra settings.token_expire_seconds (extra-ne-refresh u v s x)

  -- The old refresh token is not there after a renewal.
  absent-renew :
      (now t : ℕ) (new_session session_uuid : Text) (u : ℕ) (multi_login : Bool)
      (extra : Option Text) (redis : Redis)
      → now ≤ t
      → text_eq new_session session_uuid ≡ false
      → get t
          (session_key token_refresh_redis_prefix u session_uuid)
          (renew settings jwt now new_session session_uuid u multi_login extra redis).1
        ≡ none
  unfolding renew create_refresh_token create_access_token
  absent-renew now t n s u multi extra redis h other =
      let k = session_key token_refresh_redis_prefix u s in
      let gone : get t k (delete k redis) ≡ none = get-delete t k k redis ∙ rw (text_eq_refl k) in
      let dropped = absent-delete t k _ gone (session_key token_redis_prefix u s) in
      let cleared = absent-cleared t k _ dropped now (user_key token_redis_prefix u) multi h in
      let stored =
        absent-set t k _ cleared now _ _ settings.token_expire_seconds (token-ne-refresh u u n s) in
      let access = absent-store_extra now t u u n s extra _ stored in
      absent-set t k _
        (absent-cleared t k _ access now (user_key token_refresh_redis_prefix u) multi h) now _ _
        settings.token_refresh_expire_seconds
        (text_eq-session_key token_refresh_redis_prefix u n s ∙ other)

  -- Without its entry a refresh token is refused.
  refused :
      (t : ℕ) (other token s : Text) (u : ℕ) (multi : Bool) (extra : Option Text) (redis : Redis)
      → get t (session_key token_refresh_redis_prefix u s) redis ≡ none
      → create_new_token settings jwt t other token s u multi extra redis
        ≡ (err (token_error (codes "Refresh Token 已过期，请重新登录")), redis)
  unfolding create_new_token
  refused t other token s u multi extra redis absent = rw (absent, exchange)

  -- A refresh that succeeds was a renewal.
  was_renewal :
      (now : ℕ) (n token s : Text) (u : ℕ) (multi : Bool) (extra : Option Text) (redis : Redis)
      (made : NewToken) (after : Redis)
      → create_new_token settings jwt now n token s u multi extra redis ≡ (ok made, after)
      → after ≡ (renew settings jwt now n s u multi extra redis).1
  unfolding create_new_token
  was_renewal now n token s u multi extra redis made after h =
      exchanged token (renew settings jwt now n s u multi extra redis) redis
        (get now (session_key token_refresh_redis_prefix u s) redis) made after h

  -- A refresh token serves once: after a refresh has given a new session, the same token is refused
  -- at every later time, and the refusal changes nothing.
  pub refresh_once :
      (now t : ℕ) (new_session other refresh_token session_uuid : Text) (user_id : ℕ)
      (multi_login : Bool) (extra : Option Text) (redis after : Redis) (made : NewToken)
      → now ≤ t
      → text_eq new_session session_uuid ≡ false
      → create_new_token settings jwt now new_session refresh_token session_uuid user_id multi_login
          extra redis
        ≡ (ok made, after)
      → create_new_token settings jwt t other refresh_token session_uuid user_id multi_login extra
          after
        ≡ (err (token_error (codes "Refresh Token 已过期，请重新登录")), after)
  refresh_once now t n other token s u multi extra redis after made h ne success =
      refused t other token s u multi extra after (
        ap (get t (session_key token_refresh_redis_prefix u s))
          (was_renewal now n token s u multi extra redis made after success)
        ∙ absent-renew now t n s u multi extra redis h ne)

  -- Revoking a session takes its access token and its extra information, but a refresh with the
  -- session's refresh token has the same result as before.
  pub revoked_session_refreshes :
      (now : ℕ) (new_session refresh_token session_uuid : Text) (user_id : ℕ) (multi_login : Bool)
      (extra : Option Text) (redis : Redis)
      → let revoked = revoke_token user_id session_uuid redis in
        (get now (session_key token_redis_prefix user_id session_uuid) revoked ≡ none)
        × (get now (session_key token_extra_info_redis_prefix user_id session_uuid) revoked ≡ none)
        × ((create_new_token settings jwt now new_session refresh_token session_uuid user_id
              multi_login extra revoked).0
            ≡ (create_new_token settings jwt now new_session refresh_token session_uuid user_id
                multi_login extra redis).0)
  unfolding revoke_token create_new_token renew create_access_token create_refresh_token
  revoked_session_refreshes now n token s u multi extra redis =
      let access = session_key token_redis_prefix u s in
      let info = session_key token_extra_info_redis_prefix u s in
      let refresh = session_key token_refresh_redis_prefix u s in
      let revoked = revoke_token u s redis in
      let gone : get now access (delete access redis) ≡ none =
        get-delete now access access redis ∙ rw (text_eq_refl access) in
      let kept : get now refresh revoked ≡ get now refresh redis =
        get-delete now info refresh (delete access redis)
        ∙ rw (extra-ne-refresh u u s s)
            (get-delete now access refresh redis ∙ rw (token-ne-refresh u u s s)) in
      (
        absent-delete now access (delete access redis) gone info,
        get-delete now info info (delete access redis) ∙ rw (text_eq_refl info),
        ap
              (λ stored.
                (exchange token (renew settings jwt now n s u multi extra revoked) revoked
                  stored).0)
              kept
            ∙ same_outcome token (renew settings jwt now n s u multi extra revoked)
                (renew settings jwt now n s u multi extra redis) revoked redis
                (get now refresh redis) refl,
      )
