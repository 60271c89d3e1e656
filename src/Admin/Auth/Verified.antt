-- ===== src/Admin/Auth/Verified.antt =====
-- What a verified login has passed.
use rag_service.Prelude.{
  ℕ, ◌≤◌, Text, codes, Bool, true, List, Option, none, some, text_eq_refl, ◌≡◌, refl, ap, sym,
  subst, ◌∙◌, ◌⊎◌, inl, inr, arith, Bool-cases,
}
use rag_service.Admin.Exec.{
  Error, Result, ok, err, M, chain, chain_returned, or_raise, not_found_error,
}
use rag_service.Admin.Effects.{◌>>◌, lift, raise, return}
use rag_service.Admin.Redis.{Redis, get, delete}
use rag_service.Admin.Redis.Laws.{get-delete}
use rag_service.Admin.Settings.{Settings}
use rag_service.Admin.Model.{User}
use rag_service.Admin.Tokens.{filled}
use rag_service.Admin.Lockout.{
  Format, lock_key, failure_key, check_status, handle_login_failure, handle_login_success,
  check_password_expiry_status,
}
use rag_service.Admin.Lockout.Counting.{check_passed}
use rag_service.Admin.Auth.{
  get_by_username, matches, check_password, admitted, verified, user_verify,
}

module _ (settings : Settings) (format : Format) (password_verify : Text → Text → Bool) where
  -- The user is the live one of that name and active, was not locked, gave the right password, which
  -- has not expired, and has neither a lock nor counted failures afterwards.
  pub record IsVerified (now : ℕ) (username password : Text) (users : List User) (redis : Redis)
      (user : User) (days : Option ℕ) (after : Redis) : Type 0 where
    pub found : get_by_username username users ≡ some user
    pub active : user.status ≡ true
    pub not_locked :
        (filled (get now (lock_key user.id) redis) ≡ none)
        ⊎ ((s : Text) × (filled (get now (lock_key user.id) redis) ≡ some s)
            × (format.from_str s ≤ now))
    pub right : matches settings format password_verify password user.password ≡ true
    pub unexpired :
        check_password_expiry_status settings format now user.last_password_changed_time ≡ ok days
    pub unlocked : (t : ℕ) → get t (lock_key user.id) after ≡ none
    pub uncounted : (t : ℕ) → get t (failure_key user.id) after ≡ none

  raised-ne-ok :
      {A : Type 0} {raised : Error} {r s : Redis} {value : A}
      → ¬ ◌≡◌ {A = Result A × Redis} (err raised, r) (ok value, s)
  raised-ne-ok h = cc

  raise_after :
      (m : Result (Unit {0}) × Redis) (e : Error) {after : Redis}
      → ¬ ◌≡◌ {A = Result (Unit {0}) × Redis} (chain m (λ _. raise e)) (ok tt, after)
  raise_after (ok _, r) e h = cc
  raise_after (err _, r) e h = cc

  -- The state that `handle_login_success` leaves.
  cleared : ℕ → Redis → Redis
  cleared u redis = delete (failure_key u) (delete (lock_key u) redis)

  AdmittedAs : ℕ → User → Redis → User → Option ℕ → Redis → Type 0
  AdmittedAs now u redis user days after =
      (user ≡ u)
      × (check_password_expiry_status settings format now u.last_password_changed_time ≡ ok days)
      × (after ≡ cleared u.id redis)

  admitted_expiry :
      (now : ℕ) (u : User) (redis after : Redis) (user : User) (days : Option ℕ)
      (expiry : Result (Option ℕ))
      → chain
          (lift expiry redis)
          (λ left. handle_login_success u.id >> return {A = User × Option ℕ} (u, left))
        ≡ (ok (user, days), after)
      → (user ≡ u) × (expiry ≡ ok days) × (after ≡ cleared u.id redis)
  unfolding handle_login_success cleared
  admitted_expiry now u redis after user days (err raised) h = absurd (raised-ne-ok h)
  admitted_expiry now u redis after user days (ok d) h = (cc, cc, cc)

  admitted-ok :
      (now : ℕ) (u : User) (redis after : Redis) (user : User) (days : Option ℕ)
      → admitted settings format password_verify now u redis ≡ (ok (user, days), after)
      → AdmittedAs now u redis user days after
  unfolding admitted AdmittedAs
  admitted-ok now u redis after user days h =
      admitted_expiry now u redis after user days
        (check_password_expiry_status settings format now u.last_password_changed_time) h

  password-ok :
      (now : ℕ) (password : Text) (u : User) (redis after : Redis)
      → check_password settings format password_verify now password u redis ≡ (ok tt, after)
      → matches settings format password_verify password u.password ≡ true
  unfolding check_password
  password-ok now password u redis after h =
      elim (Bool-cases (matches settings format password_verify password u.password)) [
        | inl e ↦ e
        | inr e ↦
            absurd (raise_after (handle_login_failure settings format now u.id redis) _ (rw e at h))
      ]

  lock_cleared : (t u : ℕ) (redis : Redis) → get t (lock_key u) (cleared u redis) ≡ none
  unfolding cleared
  lock_cleared t u redis =
      get-delete t (failure_key u) (lock_key u) _
      ∙ rw (get-delete t (lock_key u) (lock_key u) redis, text_eq_refl (lock_key u)) (ground arith)

  failure_cleared : (t u : ℕ) (redis : Redis) → get t (failure_key u) (cleared u redis) ≡ none
  unfolding cleared
  failure_cleared t u redis =
      get-delete t (failure_key u) (failure_key u) _ ∙ rw (text_eq_refl (failure_key u))

  unknown_user :
      (now : ℕ) (password : Text) (found : Option User) (redis after : Redis) (user : User)
      (days : Option ℕ)
      → chain
          (lift (or_raise (not_found_error (codes "用户名或密码有误")) found) redis)
          (verified settings format password_verify now password)
        ≡ (ok (user, days), after)
      → (u : User) × (found ≡ some u)
        × (verified settings format password_verify now password u redis ≡ (ok (user, days), after))
  unknown_user now password none redis after user days h = cc
  unknown_user now password (some u) redis after user days h = (u, refl, h)

  verified-IsVerified :
      (now : ℕ) (username password : Text) (users : List User) (redis after : Redis) (u user : User)
      (days : Option ℕ)
      → get_by_username username users ≡ some u
      → verified settings format password_verify now password u redis ≡ (ok (user, days), after)
      → IsVerified now username password users redis user days after
  unfolding verified cleared AdmittedAs
  verified-IsVerified now username password users redis after u user days found h =
      let admit : Unit {0} → M Redis (User × Option ℕ) =
        λ _. admitted settings format password_verify now u in
      let check : Unit {0} → M Redis (User × Option ℕ) =
        λ _ r. chain (check_password settings format password_verify now password u r) admit in
      let (_, s1, status, h1) =
        chain_returned (check_status settings format now u.id u.status redis) check h in
      let (_, s2, pass, h2) =
        chain_returned (check_password settings format password_verify now password u s1) admit
          h1 in
      let (same, expiry, final) = admitted-ok now u s2 after user days h2 in
      let passed = check_passed settings format now u.id u.status redis s1 status in
      subst (λ x. IsVerified now username password users redis x days after) (sym same)
        (record {
          found = found;
          active = passed.0;
          not_locked = passed.1;
          right = password-ok now password u s1 s2 pass;
          unexpired = expiry;
          unlocked = λ t. ap (get t (lock_key u.id)) final ∙ lock_cleared t u.id s2;
          uncounted = λ t. ap (get t (failure_key u.id)) final ∙ failure_cleared t u.id s2;
        })

  -- A login that is verified is that of the live user with this name, who is active and not locked,
  -- gave the right password, and whose password has not expired; afterwards neither a lock nor a
  -- failure is counted for the user.
  pub user_verify-IsVerified :
      (now : ℕ) (username password : Text) (users : List User) (redis after : Redis) (user : User)
      (days : Option ℕ)
      → user_verify settings format password_verify now username password users redis
        ≡ (ok (user, days), after)
      → IsVerified now username password users redis user days after
  unfolding user_verify verified admitted
  user_verify-IsVerified now username password users redis after user days h =
      let (u, found, rest) =
        unknown_user now password (get_by_username username users) redis after user days h in
      verified-IsVerified now username password users redis after u user days found rest
