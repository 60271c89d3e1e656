-- ===== src/Tests/SessionRuns.antt =====
-- Logins, sessions and lockouts of the small administration.
use rag_service.Prelude.{
  inl, inr, ℕ, ◌+◌, ◌/◌, ◌-◌, Text, codes, false, ◌&&◌, ◌||◌, not, List, [], ◌∷◌, none, some, ◌==◌,
  if◌then◌else◌, text_eq, show_nat, read_nat, find, select, ◌≡◌, refl, arith,
}
use rag_service.Admin.Exec.{Error, ok, err, token_error, authorization_error}
use rag_service.Admin.Redis.{get, get_by_prefix, contains, below, Redis, delete_by_prefix}
use rag_service.Admin.Redis.Batches.{delete_by_prefix_lem}
use rag_service.Admin.Redis.Keys.{session_key}
use rag_service.Admin.Settings.{
  token_redis_prefix, token_extra_info_redis_prefix, token_refresh_redis_prefix,
}
use rag_service.Admin.Tokens.{
  jwt_decode, int_of, create_refresh_token, create_new_token, TokenPayload, token_of,
  create_access_token, revoke_token,
}
use rag_service.Admin.Tokens.Refresh.{revoked_session_refreshes}
use rag_service.Admin.Authentication.{jwt_authentication, check_session, get_token}
use rag_service.Admin.Authentication.Entering.{MayEnter, IsCachedAs}
use rag_service.Admin.Authentication.RoundTrip.{decode-token_of, new_login_replaces}
use rag_service.Admin.Lockout.{
  locked_message, count_of, check_status, handle_login_failure, handle_login_success,
  check_password_expiry_status,
}
use rag_service.Admin.Lockout.Counting.{Counted}
use rag_service.Admin.Auth.{get_by_username, matches, user_verify}
use rag_service.Admin.Auth.BruteForce.{after_guesses, brute_force_locks}
use rag_service.Admin.Login.{AuthState, GetLoginToken, login, logout}
use rag_service.Admin.Login.Refresh.{GetNewToken, refresh_token}
use rag_service.Rag.Indexing.{starts_with}
use rag_service.Admin.Login.Refresh.Once.{refresh_token_once}
use rag_service.Admin.Login.Outcome.{failed_login_is_not_logged}
use rag_service.Admin.Login.Opened.{IsOpened, login-IsOpened}
use rag_service.Admin.Login.Logout.{is_sent, logout_ends_session}
use rag_service.Tests.AdminData.{
  user, jwt, signs, format, formats, settings, server, state, login_param, encode, read_claims,
}

abbrev entry : Text → Redis
entry key = record { key = key; value = codes "v"; expires = 2000 } ∷ []

delete_by_prefix_run :
    get 1000
      (codes "fba:token:7:a")
      (delete_by_prefix 1000 (codes "fba:token:7") [] 1 (entry (codes "fba:token:7:a")))
    ≡ (if (text_eq (codes "fba:token:7:a") (codes "fba:token:7")
            || below (codes "fba:token:7") (codes "fba:token:7:a"))
          && not (contains [] (codes "fba:token:7:a"))
        then none
        else get 1000 (codes "fba:token:7:a") (entry (codes "fba:token:7:a")))
delete_by_prefix_run =
    delete_by_prefix_lem 1000 1000 1 (codes "fba:token:7") [] (entry (codes "fba:token:7:a"))
      (codes "fba:token:7:a") (ground arith)

entered : MayEnter 7 (user ∷ []) user
unfolding find
entered = record { found = refl; active = refl; dept = inl (refl, refl); roles = inr refl }

not_cached :
    IsCachedAs settings jwt 1500 7
      (create_access_token settings jwt 1000 (codes "b") 7 false none []).1
      user
not_cached cached h = refl

new_login_replaces_run :
    let made = create_access_token settings jwt 1000 (codes "b") 7 false none [] in
    ((jwt_authentication settings jwt 1500 made.0.access_token (user ∷ []) made.1).0 ≡ ok user)
    × (jwt_authentication settings jwt 1500
          (token_of settings jwt 900 settings.token_expire_seconds (codes "a") 7)
          (user ∷ [])
          made.1
        ≡ (err (token_error (codes "Token 已过期")), made.1))
new_login_replaces_run =
    new_login_replaces settings jwt signs 1000 1500 7 (codes "b") none (user ∷ []) [] 900
      (codes "a") user entered not_cached (ground arith) (ground arith) (ground arith) (λ h. cc)
      (ground arith) (λ h. cc) (unfold text_eq in refl)

-- The refresh token of a session, in Redis and in the cookie.
abbrev sent : Text
sent = token_of settings jwt 900 settings.token_refresh_expire_seconds (codes "a") 7

abbrev with_refresh : Redis
with_refresh =
    record {
      key = session_key token_refresh_redis_prefix 7 (codes "a");
      value = sent;
      expires = 2000;
    }
    ∷ []

abbrev before_refresh : AuthState
before_refresh = record state { redis = with_refresh; refresh_cookie = some sent }

abbrev after_refresh : AuthState
after_refresh = (refresh_token settings server 1000 (codes "b") before_refresh).1

abbrev new_session : GetNewToken
new_session = record {
  access_token = token_of settings jwt 1000 settings.token_expire_seconds (codes "b") 7;
  access_token_expire_time = 1000 + settings.token_expire_seconds;
  session_uuid = codes "b";
}

refresh_succeeds :
    refresh_token settings server 1000 (codes "b") before_refresh ≡ (ok new_session, after_refresh)
unfolding refresh_token jwt_decode encode read_claims int_of show_nat read_nat create_new_token get
    get_by_prefix text_eq session_key create_access_token create_refresh_token find select
    starts_with
refresh_succeeds = refl

refresh_token_once_run :
    let again = record after_refresh { refresh_cookie = some sent } in
    (raised : Error) × (refresh_token settings server 1100 (codes "c") again ≡ (err raised, again))
refresh_token_once_run =
    refresh_token_once settings server signs 900 settings.token_refresh_expire_seconds 1000 1100 7
      (codes "a") (codes "b") (codes "c") before_refresh after_refresh new_session (ground arith)
      (λ h. cc) (ground arith) (unfold text_eq in refl) refl refresh_succeeds

revoked_run :
    (get 1000
        (session_key token_redis_prefix 7 (codes "a"))
        (revoke_token 7 (codes "a") with_refresh)
      ≡ none)
    × (get 1000
          (session_key token_extra_info_redis_prefix 7 (codes "a"))
          (revoke_token 7 (codes "a") with_refresh)
        ≡ none)
    × ((create_new_token settings jwt 1000
          (codes "b")
          sent
          (codes "a")
          7
          false
          none
          (revoke_token 7 (codes "a") with_refresh)).0
        ≡ (create_new_token settings jwt 1000
            (codes "b")
            sent
            (codes "a")
            7
            false
            none
            with_refresh).0)
revoked_run =
    revoked_session_refreshes settings jwt 1000 (codes "b") sent (codes "a") 7 false none
      with_refresh

guesses : List (ℕ × Text)
guesses = (1000, codes "a") ∷ (1010, codes "b") ∷ []

nothing-Counted : Counted settings format 7 0 1000 []
unfolding count_of get find
nothing-Counted = record { count = λ t _ _. refl; unlocked = λ t _. refl }

brute_force_locks_run :
    let after = after_guesses settings format text_eq (codes "ann") (user ∷ []) guesses [] in
    user_verify settings format text_eq 1100 (codes "ann") (codes "secret1") (user ∷ []) after
    ≡ (err (authorization_error (locked_message ((1310 - 1100 + 59) / 60))), after)
unfolding guesses
brute_force_locks_run =
    brute_force_locks settings format text_eq (codes "ann") (user ∷ []) user (codes "secret1")
      (unfold get_by_username text_eq find in refl) refl refl formats 1000 1100 guesses
      (codes "secret1") [] nothing-Counted (unfold text_eq in (refl, (refl, tt)))
      (ground arith, ground arith, (ground arith, ground arith, tt)) (ground arith) refl
      (ground arith)

failed_login_run :
    let after = (login settings server 1000 (codes "s") (login_param (codes "wrong")) state).1 in
    (after.login_logs ≡ state.login_logs)
    × (after.users ≡ state.users)
    × (after.refresh_cookie ≡ state.refresh_cookie)
failed_login_run =
    failed_login_is_not_logged settings server 1000 (codes "s") (login_param (codes "wrong")) state
      (authorization_error (codes "用户名或密码有误")) refl
      (unfold login user_verify get_by_username find matches check_status handle_login_failure
          count_of get text_eq in
        refl)

abbrev passed : AuthState
passed = (login settings server 1000 (codes "s") (login_param (codes "secret1")) state).1

abbrev made : GetLoginToken
made = record {
  access_token = token_of settings jwt 1000 settings.token_expire_seconds (codes "s") 7;
  access_token_expire_time = 1000 + settings.token_expire_seconds;
  session_uuid = codes "s";
  password_expire_days_remaining = none;
  user = record user { last_login_time = some 1000 };
}

login_succeeds :
    login settings server 1000 (codes "s") (login_param (codes "secret1")) state ≡ (ok made, passed)
unfolding login user_verify get_by_username find matches check_status handle_login_success
    check_password_expiry_status count_of get text_eq create_access_token create_refresh_token
login_succeeds = refl

login_run :
    IsOpened settings server 1000 1500 (codes "s") (login_param (codes "secret1")) state made passed
login_run =
    login-IsOpened settings server signs 1000 1500 (codes "s") (login_param (codes "secret1")) state
      made passed (ground arith) (ground arith) login_succeeds

abbrev session_token : Text
session_token = token_of settings jwt 1000 settings.token_expire_seconds (codes "s") 7

abbrev session_payload : TokenPayload
session_payload = record {
  user_id = 7;
  session_uuid = codes "s";
  expire_time = 1000 + settings.token_expire_seconds;
}

logout_run :
    let after = (logout settings server 1100 (some session_token) passed).1 in
    ((logout settings server 1100 (some session_token) passed).0 ≡ ok tt)
    × (after.refresh_cookie ≡ none)
    × (check_session settings jwt 1200 session_token session_payload after.redis ≡ (
        if session_payload.user_id == session_payload.user_id
          && text_eq session_payload.session_uuid session_payload.session_uuid
        then err (token_error (codes "Token 已过期"))
        else check_session settings jwt 1200 session_token session_payload passed.redis))
    × ((v : ℕ) (x : Text)
        → get 1200 (session_key token_refresh_redis_prefix v x) after.redis ≡ (
            if is_sent passed.refresh_cookie && (v == 7 && text_eq (codes "s") x)
            then none
            else get 1200 (session_key token_refresh_redis_prefix v x) passed.redis))
logout_run =
    logout_ends_session settings server 1100 1200 (some session_token) session_token session_token
      session_payload session_payload passed (unfold get_token encode text_eq in refl)
      (decode-token_of settings jwt signs 1000 1100 settings.token_expire_seconds 7 (codes "s")
        (ground arith) (λ h. cc))
