-- ===== src/Admin/Lockout.antt =====
-- `UserPasswordHistoryService` of backend/app/admin/service/user_password_history_service.py: the
-- lock on a user after failed logins, and the expiry of passwords. `Format` stands for the
-- formatting and parsing of a time by `timezone.to_str` and `timezone.from_str`.
pub mod Counting
pub mod Quiet
use rag_service.Prelude.{
  ℕ, suc, ◌+◌, ◌-◌, ◌*◌, ◌/◌, Text, codes, Bool, true, false, List, ◌++◌, Option, none, some, ltb,
  leb, ◌==◌, if◌then◌else◌, ◌≡◌, show_nat,
}
use rag_service.Admin.Exec.{Error, Result, ok, err, M, authorization_error}
use rag_service.Admin.Effects.{◌>>=◌, ◌>>◌, return, raise, lift, write}
use rag_service.Admin.Redis.{Redis, get, set, delete}
use rag_service.Admin.Redis.Keys.{user_key}
use rag_service.Admin.Settings.{Settings, user_lock_redis_prefix, login_failure_prefix}
use rag_service.Admin.Tokens.{filled, int_of}

pub record Format : Type 0 where
  pub to_str : ℕ → Text
  pub from_str : Text → ℕ

pub record Formats (f : Format) : Type 0 where
  pub nonempty : (t : ℕ) → filled (some (f.to_str t)) ≡ some (f.to_str t)
  pub from_str-to_str : (t : ℕ) → f.from_str (f.to_str t) ≡ t

unfoldable pub locked_message : ℕ → Text
locked_message minutes = codes "账号已被锁定，请在 " ++ (show_nat minutes ++ codes " 分钟后重试")

abbrev pub lock_key : ℕ → Text
lock_key user_id = user_key user_lock_redis_prefix user_id

abbrev pub failure_key : ℕ → Text
failure_key user_id = user_key login_failure_prefix user_id

-- The failures that Redis has counted.
unfoldable pub count_of : ℕ → ℕ → Redis → Result ℕ
count_of now user_id redis = elim (filled (get now (failure_key user_id) redis)) [
  | none ↦ ok 0
  | some failure_count ↦ int_of failure_count
]

unfoldable pub handle_login_success : ℕ → M Redis (Unit {0})
handle_login_success user_id = do
  write (delete (lock_key user_id))
  write (delete (failure_key user_id))

module _ (settings : Settings) (format : Format) where
  -- `locked_until - now` in whole minutes, rounded up.
  still_locked : ℕ → ℕ → Option Text → M Redis (Unit {0})
  unfolding handle_login_success
  still_locked now user_id none = return tt
  still_locked now user_id (some locked_until_str) =
      let locked_until = format.from_str locked_until_str in
      if ltb now locked_until
      then raise (authorization_error (locked_message ((locked_until - now + 59) / 60)))
      else handle_login_success user_id

  unfoldable pub check_status : ℕ → ℕ → Bool → M Redis (Unit {0})
  unfolding still_locked
  check_status now user_id user_status redis =
      if user_status
      then still_locked now user_id (filled (get now (lock_key user_id) redis)) redis
      else (err (authorization_error (codes "用户已被锁定, 请联系统管理员")), redis)

  count_failure : ℕ → ℕ → ℕ → M Redis (Unit {0})
  count_failure now user_id failure_count = do
    write (set now (failure_key user_id) (show_nat (suc failure_count)) settings.user_lock_seconds)
    (if leb settings.user_lock_threshold (suc failure_count)
        then (do
          write (
              set now (lock_key user_id) (format.to_str (now + settings.user_lock_seconds))
                settings.user_lock_seconds)
          raise (authorization_error (codes "登录失败次数过多，账号已被锁定")))
        else return tt)

  unfoldable pub handle_login_failure : ℕ → ℕ → M Redis (Unit {0})
  unfolding count_failure count_of
  handle_login_failure now user_id redis =
      if settings.user_lock_threshold == 0
      then (ok tt, redis)
      else (lift (count_of now user_id redis) >>= count_failure now user_id) redis

  -- A remaining time is measured in whole days; a negative one is below zero days.
  unfoldable pub check_password_expiry_status : ℕ → Option ℕ → Result (Option ℕ)
  check_password_expiry_status now password_changed_time =
      if settings.user_password_expiry_days == 0 then ok none else elim password_changed_time [
        | none ↦ err (authorization_error (codes "密码已过期，请修改密码后重新登录"))
        | some changed ↦
            let expiry_time = changed + settings.user_password_expiry_days * 86400 in
            let days_remaining = (expiry_time - now) / 86400 in
            if ltb expiry_time now
            then err (authorization_error (codes "密码已过期，请修改密码后重新登录"))
            else if leb days_remaining settings.user_password_reminder_days
            then ok (some days_remaining)
            else ok none
      ]
