-- ===== src/Admin/Rbac.antt =====
-- `rbac_verify` of backend/common/security/rbac.py. The patterns of excluded paths and the Casbin
-- plugin are parameters; without the plugin there is no `casbin_verify`.
pub mod Menus
use rag_service.Prelude.{
  ℕ, Text, codes, Bool, true, false, ◌&&◌, ◌||◌, not, List, [], ◌∷◌, ◌++◌, map, concat, any, Option,
  none, some, ◌==◌, text_eq, if◌then◌else◌,
}
use rag_service.Admin.Exec.{
  Error, Result, ok, err, ◌>>=◌, guard, token_error, authorization_error, server_error,
}
use rag_service.Admin.Redis.{contains}
use rag_service.Admin.Settings.{Settings}
use rag_service.Admin.Model.{User, Role, Menu}
use rag_service.Admin.Tokens.{filled}
use rag_service.Admin.Permissions.{menu_perms, enabled_roles}

-- The user of a request, and whether it is authenticated (`request.auth.scopes`).
pub record Request : Type 0 where
  pub path : Text
  pub method : Text
  pub has_scopes : Bool
  pub user : User
  -- `ctx.permission`
  pub permission : Option Text

-- `unique_menus[menu.id] = menu`
put_menu : Menu → List Menu → List Menu
put_menu menu [] = menu ∷ []
put_menu menu (m ∷ menus) =
    let rest = put_menu menu menus in if m.id == menu.id then menu ∷ menus else m ∷ rest

unique_menus : List Menu → List Menu → List Menu
unfolding put_menu
unique_menus [] found = found
unique_menus (menu ∷ menus) found = unique_menus menus (put_menu menu found)

allow_perms : List Menu → List Text
allow_perms menus = concat (map menu_perms menus)

abbrev has_menus : Role → Bool
has_menus role = elim role.menus [ [] ↦ false | _ ∷ _ ↦ true ]

abbrev is_some_role : List Role → Bool
is_some_role roles = elim roles [ [] ↦ false | _ ∷ _ ↦ true ]

module _ (settings : Settings) (excluded : Text → Bool)
    (casbin_verify : Option (Request → Result (Unit {0}))) where
  check_menus : Text → List Role → Result (Unit {0})
  unfolding unique_menus allow_perms
  check_menus path_auth_perm roles =
      let menus = unique_menus (concat (map (λ (role : Role). role.menus) roles)) [] in
      guard (contains (allow_perms menus) path_auth_perm)
        (authorization_error (codes "Permission Denied"))

  check_permission : Option Text → List Role → Result (Unit {0})
  unfolding check_menus
  check_permission permission roles = elim (filled permission) [
    | none ↦ ok tt
    | some path_auth_perm ↦
        if contains settings.rbac_role_menu_exclude path_auth_perm
        then ok tt
        else check_menus path_auth_perm roles
  ]

  check_casbin : Request → Result (Unit {0})
  check_casbin request = elim casbin_verify [
    | none ↦ err (server_error (codes "Casbin RBAC 插件用法导入失败，请联系系统管理员"))
    | some verify ↦ verify request
  ]

  check_user : Request → List Role → Result (Unit {0})
  unfolding check_permission check_casbin
  check_user request roles = do
    _ ← guard (is_some_role roles) (authorization_error (codes "用户所属角色已被锁定，请联系系统管理员"))
    _ ← guard (any has_menus roles) (authorization_error (codes "用户未分配菜单，请联系系统管理员"))
    _ ←
        guard
          (text_eq request.method (codes "GET")
            || text_eq request.method (codes "OPTIONS")
            || request.user.is_staff)
          (authorization_error (codes "用户已被禁止后台管理操作，请联系系统管理员"))
    (if settings.rbac_role_menu_mode
        then check_permission request.permission roles
        else check_casbin request)

  unfoldable pub rbac_verify : Request → Result (Unit {0})
  unfolding check_user
  rbac_verify request =
      if contains settings.token_request_path_exclude request.path || excluded request.path
      then ok tt
      else if not request.has_scopes
      then err (token_error (codes "Not Authenticated"))
      else if request.user.is_superuser
      then ok tt
      else check_user request (enabled_roles request.user)
