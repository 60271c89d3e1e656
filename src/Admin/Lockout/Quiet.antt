-- ===== src/Admin/Lockout/Quiet.antt =====
-- The lock on users raises no `RequestError` and no `CustomError`.
use rag_service.Prelude.{
  ℕ, suc, ◌+◌, ◌*◌, Text, Bool, true, false, [], ◌∷◌, Option, none, some, if_elim, ◌-◌, ◌/◌, ◌&&◌,
  leb, ltb, ◌==◌, all, show_nat,
}
use rag_service.Admin.Exec.{Result, ok, M}
use rag_service.Admin.Effects.{lift}
use rag_service.Admin.Effects.Quiet.{Quiet, chain-Quiet}
use rag_service.Admin.Redis.{Redis, get, set}
use rag_service.Admin.Settings.{Settings}
use rag_service.Admin.Tokens.{filled, int_of}
use rag_service.Admin.Lockout.{
  Format, lock_key, failure_key, count_of, still_locked, check_status, count_failure,
  handle_login_failure, check_password_expiry_status,
}

int_of-Quiet : (s : Text) → Quiet (int_of s)
unfolding int_of
int_of-Quiet [] = tt
int_of-Quiet (c ∷ s) = if_elim Quiet (all (λ d. leb 48 d && leb d 57) (c ∷ s)) tt tt

stored-Quiet :
    (stored : Option Text)
    → Quiet (elim stored as (λ _. Result ℕ) [ none ↦ ok 0 | some s ↦ int_of s ])
stored-Quiet none = tt
stored-Quiet (some s) = int_of-Quiet s

count_of-Quiet : (now u : ℕ) (redis : Redis) → Quiet (count_of now u redis)
unfolding count_of
count_of-Quiet now u redis = stored-Quiet (filled (get now (failure_key u) redis))

module _ (settings : Settings) (format : Format) where
  still_locked-Quiet :
      (now u : ℕ) (stored : Option Text) (redis : Redis)
      → Quiet (still_locked settings format now u stored redis).0
  unfolding still_locked
  still_locked-Quiet now u none redis = tt
  still_locked-Quiet now u (some s) redis =
      if_elim (λ (m : M Redis (Unit {0})). Quiet (m redis).0) (ltb now (format.from_str s)) tt tt

  pub check_status-Quiet :
      (now u : ℕ) (status : Bool) (redis : Redis)
      → Quiet (check_status settings format now u status redis).0
  unfolding check_status
  check_status-Quiet now u false redis = tt
  check_status-Quiet now u true redis =
      still_locked-Quiet now u (filled (get now (lock_key u) redis)) redis

  count_failure-Quiet :
      (now u n : ℕ) (redis : Redis) → Quiet (count_failure settings format now u n redis).0
  unfolding count_failure
  count_failure-Quiet now u n redis =
      if_elim
        (λ (m : M Redis (Unit {0})).
          Quiet (m (set now (failure_key u) (show_nat (suc n)) settings.user_lock_seconds redis)).0)
        (leb settings.user_lock_threshold (suc n)) tt tt

  pub handle_login_failure-Quiet :
      (now u : ℕ) (redis : Redis) → Quiet (handle_login_failure settings format now u redis).0
  unfolding handle_login_failure
  handle_login_failure-Quiet now u redis =
      if_elim (λ (r : Result (Unit {0}) × Redis). Quiet r.0) (settings.user_lock_threshold == 0) tt
        (chain-Quiet (lift (count_of now u redis) redis) (count_failure settings format now u)
          (count_of-Quiet now u redis) (count_failure-Quiet now u))

  pub expiry-Quiet :
      (now : ℕ) (changed : Option ℕ)
      → Quiet (check_password_expiry_status settings format now changed)
  unfolding check_password_expiry_status
  expiry-Quiet now none = if_elim Quiet (settings.user_password_expiry_days == 0) tt tt
  expiry-Quiet now (some changed) =
      let expiry_time = changed + settings.user_password_expiry_days * 86400 in
      if_elim Quiet (settings.user_password_expiry_days == 0) tt (
        if_elim Quiet (ltb expiry_time now) tt (
          if_elim Quiet (leb ((expiry_time - now) / 86400) settings.user_password_reminder_days) tt
            tt))
