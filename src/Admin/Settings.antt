-- ===== src/Admin/Settings.antt =====
-- The settings of backend/core/conf.py on which the code of Admin depends, as the configuration
-- that the database may hold has set them (backend/utils/dynamic_config.py). Times are in seconds.
use rag_service.Prelude.{ℕ, ◌*◌, Text, codes, Bool, true, false, List, [], ◌∷◌}

pub record Settings : Type 0 where
  pub token_expire_seconds : ℕ
  pub token_refresh_expire_seconds : ℕ
  pub token_request_underlying_security : Bool
  pub token_request_path_exclude : List Text
  pub user_lock_threshold : ℕ
  pub user_lock_seconds : ℕ
  pub user_password_expiry_days : ℕ
  pub user_password_reminder_days : ℕ
  pub user_password_history_check_count : ℕ
  pub user_password_min_length : ℕ
  pub user_password_max_length : ℕ
  pub user_password_require_special_char : Bool
  pub login_captcha_enabled : Bool
  pub rbac_role_menu_mode : Bool
  pub rbac_role_menu_exclude : List Text

abbrev pub default_settings : Settings
default_settings = record {
  token_expire_seconds = 60 * 60 * 24;
  token_refresh_expire_seconds = 60 * 60 * 24 * 7;
  token_request_underlying_security = true;
  token_request_path_exclude = codes "/api/v1/auth/login" ∷ [];
  user_lock_threshold = 5;
  user_lock_seconds = 60 * 5;
  user_password_expiry_days = 365;
  user_password_reminder_days = 7;
  user_password_history_check_count = 3;
  user_password_min_length = 6;
  user_password_max_length = 32;
  user_password_require_special_char = false;
  login_captcha_enabled = true;
  rbac_role_menu_mode = true;
  rbac_role_menu_exclude = [];
}

abbrev pub token_redis_prefix : Text
token_redis_prefix = codes "fba:token"

abbrev pub token_extra_info_redis_prefix : Text
token_extra_info_redis_prefix = codes "fba:token_extra_info"

abbrev pub token_refresh_redis_prefix : Text
token_refresh_redis_prefix = codes "fba:refresh_token"

abbrev pub user_lock_redis_prefix : Text
user_lock_redis_prefix = codes "fba:user:lock"

abbrev pub login_captcha_redis_prefix : Text
login_captcha_redis_prefix = codes "fba:login:captcha"

abbrev pub login_failure_prefix : Text
login_failure_prefix = codes "fba:login:failure"

abbrev pub jwt_user_redis_prefix : Text
jwt_user_redis_prefix = codes "fba:user"
