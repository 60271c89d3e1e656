-- ===== src/Admin/Passwords.antt =====
-- `validate_new_password` of backend/app/admin/utils/password_security.py, with the patterns of
-- backend/utils/pattern_validate.py that it uses. `is_digit` is Python's table of decimal digits.
pub mod Policy
use mathlib.Core.List.{reverse}
use rag_service.Prelude.{
  ℕ, Text, codes, Bool, true, false, ◌&&◌, ◌||◌, not, List, [], ◌∷◌, ◌++◌, map, take, any, length,
  leb, ltb, ◌==◌, if◌then◌else◌, select, show_nat,
}
use rag_service.Admin.Exec.{Error, Result, ok, err, ◌>>=◌, guard, request_error}
use rag_service.Admin.Settings.{Settings}

-- A row of the password history, with the hash of a password.
pub record UserPasswordHistory : Type 0 where
  pub id : ℕ
  pub user_id : ℕ
  pub password : Text

-- The rows of a user in descending order of their ids, which the table holds in ascending order.
unfoldable pub get_by_user_id : ℕ → List UserPasswordHistory → List UserPasswordHistory
get_by_user_id user_id rows =
    reverse (select (λ (row : UserPasswordHistory). row.user_id == user_id) rows)

abbrev pub is_letter : ℕ → Bool
is_letter c = (leb b'a' c && leb c b'z') || (leb b'A' c && leb c b'Z')

abbrev pub special_chars : Text
special_chars = codes "!@#$%^&*()_+-=[]{};:',.<>?/|`~" ++ (34 ∷ 92 ∷ [])

abbrev pub is_special : ℕ → Bool
is_special c = any (λ d. c == d) special_chars

is_has_number : (ℕ → Bool) → Text → Bool
is_has_number is_digit value = any is_digit value

is_has_letter : Text → Bool
is_has_letter value = any is_letter value

is_has_special_char : Text → Bool
is_has_special_char value = any is_special value

module _ (settings : Settings) (is_digit : ℕ → Bool) (password_verify : Text → Text → Bool) where
  -- The loop over the last passwords.
  check_reuse : Text → List UserPasswordHistory → Result (Unit {0})
  check_reuse new_password [] = ok tt
  check_reuse new_password (hist ∷ history) =
      let rest = check_reuse new_password history in
      if password_verify new_password hist.password
      then err (
          request_error (
            codes "新密码不能与最近 "
            ++ (show_nat settings.user_password_history_check_count ++ codes " 次使用的密码相同")))
      else rest

  abbrev too_short : Error
  too_short =
      request_error
        (codes "密码长度不能少于 " ++ (show_nat settings.user_password_min_length ++ codes " 个字符"))

  abbrev too_long : Error
  too_long =
      request_error
        (codes "密码长度不能超过 " ++ (show_nat settings.user_password_max_length ++ codes " 个字符"))

  unfoldable pub validate_new_password : ℕ → Text → List UserPasswordHistory → Result (Unit {0})
  unfolding is_has_number is_has_letter is_has_special_char check_reuse
  validate_new_password user_id new_password rows = do
    _ ← guard (not (ltb (length new_password) settings.user_password_min_length)) too_short
    _ ← guard (not (ltb settings.user_password_max_length (length new_password))) too_long
    _ ← guard (is_has_number is_digit new_password) (request_error (codes "密码必须包含数字"))
    _ ← guard (is_has_letter new_password) (request_error (codes "密码必须包含字母"))
    _ ←
        guard
          (not
            (settings.user_password_require_special_char && not (is_has_special_char new_password)))
          (request_error (codes "密码必须包含特殊字符（如：!@#$%）"))
    check_reuse new_password
        (take settings.user_password_history_check_count (get_by_user_id user_id rows))
