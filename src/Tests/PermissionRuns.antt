-- ===== src/Tests/PermissionRuns.antt =====
-- Permissions and password rules of the small administration.
use rag_service.Prelude.{
  ℕ, Text, codes, Bool, true, false, List, [], ◌∷◌, Option, none, some, leb, ◌&&◌, text_eq, select,
  ◌≡◌, ◌↔◌, refl,
}
use rag_service.Admin.Exec.{ok, guard, authorization_error}
use rag_service.Admin.Redis.{contains}
use rag_service.Admin.Model.{User}
use rag_service.Admin.Passwords.{UserPasswordHistory, validate_new_password}
use rag_service.Admin.Passwords.Policy.{FollowsPolicy, validate_new_password_iff}
use rag_service.Admin.Permissions.{enabled_roles, get_codes}
use rag_service.Admin.Rbac.{Request, rbac_verify}
use rag_service.Admin.Rbac.Menus.{rbac_verify-get_codes}
use rag_service.Admin.DataPermission.{ColumnType, Raw, Table, typed_column, filter_data_permission}
use rag_service.Admin.DataPermission.Meaning.{disabled_roles_ignored}
use rag_service.Tests.AdminData.{menu, role, user, settings}

abbrev ascii_digit : ℕ → Bool
ascii_digit c = leb 48 c && leb c 57

abbrev history : List UserPasswordHistory
history = record { id = 1; user_id = 7; password = codes "secret1" } ∷ []

validate_new_password_run :
    (validate_new_password settings ascii_digit text_eq 7 (codes "secret2") history ≡ ok tt)
    ↔ FollowsPolicy settings ascii_digit text_eq 7 (codes "secret2") history
validate_new_password_run =
    validate_new_password_iff settings ascii_digit text_eq 7 (codes "secret2") history

abbrev request : Request
request = record {
  path = codes "/api/v1/sys/roles";
  method = codes "POST";
  has_scopes = true;
  user = user;
  permission = some (codes "sys:role:add");
}

rbac_verify_run :
    rbac_verify settings (λ path. false) none request
    ≡ guard
        (contains (get_codes user (menu ∷ [])) (codes "sys:role:add"))
        (authorization_error (codes "Permission Denied"))
rbac_verify_run =
    rbac_verify-get_codes settings (λ path. false) none (λ id. menu) (menu ∷ [])
      (codes "sys:role:add") request (unfold text_eq in refl) refl refl (unfold text_eq in refl)
      (unfold enabled_roles select in refl) (unfold enabled_roles select in refl) refl refl refl
      (unfold enabled_roles select in (refl, tt))

abbrev conversion : ColumnType → Raw → Option Text
conversion column_type raw = none

abbrev two_roles : User
two_roles = record user {
  roles = role ∷ record role { id = 2; status = false; is_filter_scopes = true } ∷ [];
}

abbrev tables : List Table
tables = record { name = codes "Notice"; columns = (codes "dept_id", typed_column 0) ∷ [] } ∷ []

disabled_roles_run :
    filter_data_permission conversion tables
      (record two_roles { roles = enabled_roles two_roles })
      []
    ≡ filter_data_permission conversion tables two_roles []
disabled_roles_run = disabled_roles_ignored conversion tables two_roles []
