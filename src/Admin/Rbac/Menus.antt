-- ===== src/Admin/Rbac/Menus.antt =====
-- The permission check against the list of codes that the user can ask for.
use rag_service.Prelude.{
  ℕ, Text, codes, Bool, true, false, ◌||◌, List, [], ◌∷◌, map, concat, any, All, Option, some, ◌==◌,
  ==_iff, text_eq, ◌≡◌, refl, ap, sym, ◌∙◌, arith, inl, inr, Bool-cases,
}
use rag_service.Admin.Exec.{Result, guard, authorization_error}
use rag_service.Admin.Redis.{contains}
use rag_service.Admin.Redis.Batches.{contains-append}
use rag_service.Admin.Settings.{Settings}
use rag_service.Admin.Model.{Role, Menu}
use rag_service.Admin.Tokens.{filled}
use rag_service.Admin.Permissions.{menu_perms, enabled_roles, get_codes}
use rag_service.Admin.Permissions.Codes.{granted, contains-get_codes}
use rag_service.Admin.Rbac.{
  Request, put_menu, unique_menus, allow_perms, has_menus, is_some_role, check_menus,
  check_permission, check_user, rbac_verify,
}

contains-allow_perms :
    (menus : List Menu) (p : Text) → contains (allow_perms menus) p ≡ granted menus p
unfolding allow_perms
contains-allow_perms [] p = refl
contains-allow_perms (m ∷ menus) p =
    contains-append (menu_perms m) (concat (map menu_perms menus)) p
    ∙ ap (λ b. contains (menu_perms m) p || b) (contains-allow_perms menus p)

twice : (a b c : Bool) → a ≡ c → (a || b) ≡ ((a || b) || c)
twice a b c e = ground arith

-- The menus are rows of one table: those with the same id are the same.
module _ (row : ℕ → Menu) where
  abbrev pub AreRows : List Menu → Type 0
  AreRows menus = All (λ (m : Menu). row m.id ≡ m) menus

  put_menu-AreRows :
      (m : Menu) (found : List Menu) → row m.id ≡ m → AreRows found → AreRows (put_menu m found)
  unfolding put_menu
  put_menu-AreRows m [] h f = (h, tt)
  put_menu-AreRows m (x ∷ xs) h f = elim (Bool-cases (x.id == m.id)) [
    | inl e ↦ rw e (h, f.1)
    | inr e ↦ rw e (f.0, put_menu-AreRows m xs h f.1)
  ]

  granted-put_menu :
      (m : Menu) (found : List Menu) (p : Text)
      → row m.id ≡ m
      → AreRows found
      → granted (put_menu m found) p ≡ (granted found p || contains (menu_perms m) p)
  unfolding put_menu
  granted-put_menu m [] p h f = ground arith
  granted-put_menu m (x ∷ xs) p h f = elim (Bool-cases (x.id == m.id)) [
    | inl e ↦
        let same : x ≡ m = sym f.0 ∙ ap row ((==_iff x.id m.id).0 e) ∙ h in
        rw e (
          ap (λ (y : Menu). contains (menu_perms y) p || granted xs p) (sym same)
          ∙ twice _ _ _ (ap (λ (y : Menu). contains (menu_perms y) p) same))
    | inr e ↦
        rw e
          (ap (λ b. contains (menu_perms x) p || b) (granted-put_menu m xs p h f.1) ∙ ground arith)
  ]

  granted-unique_menus :
      (menus found : List Menu) (p : Text)
      → AreRows menus
      → AreRows found
      → granted (unique_menus menus found) p ≡ (granted found p || granted menus p)
  unfolding unique_menus
  granted-unique_menus [] found p h f = ground arith
  granted-unique_menus (m ∷ menus) found p h f =
      granted-unique_menus menus (put_menu m found) p h.1 (put_menu-AreRows m found h.0 f)
      ∙ ap (λ b. b || granted menus p) (granted-put_menu m found p h.0 f)
      ∙ ground arith

module _ (settings : Settings) (excluded : Text → Bool)
    (casbin_verify : Option (Request → Result (Unit {0}))) where
  -- The unique menus grant what all of them do.
  check_menus-granted :
      (row : ℕ → Menu) (path_auth_perm : Text) (roles : List Role)
      → AreRows row (concat (map (λ (role : Role). role.menus) roles))
      → check_menus settings excluded casbin_verify path_auth_perm roles
        ≡ guard
            (granted (concat (map (λ (role : Role). role.menus) roles)) path_auth_perm)
            (authorization_error (codes "Permission Denied"))
  unfolding check_menus
  check_menus-granted row p roles h =
      let menus = concat (map (λ (role : Role). role.menus) roles) in
      ap (λ b. guard b (authorization_error (codes "Permission Denied")))
        (contains-allow_perms (unique_menus menus []) p ∙ granted-unique_menus row menus [] p h tt)

  check_permission-granted :
      (row : ℕ → Menu) (permission : Option Text) (path_auth_perm : Text) (roles : List Role)
      → filled permission ≡ some path_auth_perm
      → contains settings.rbac_role_menu_exclude path_auth_perm ≡ false
      → AreRows row (concat (map (λ (role : Role). role.menus) roles))
      → check_permission settings excluded casbin_verify permission roles
        ≡ guard
            (granted (concat (map (λ (role : Role). role.menus) roles)) path_auth_perm)
            (authorization_error (codes "Permission Denied"))
  unfolding check_permission
  check_permission-granted row permission p roles e off h =
      rw (e, check_permission) (simp off (check_menus-granted row p roles h))

  -- For a request of an authenticated user who is no super user, has an enabled role with menus, and is
  -- of the back office or only reads, and for a path that is not excluded and asks for a permission that is not
  -- excluded, the check of the menu mode passes exactly if the permission is among the codes that
  -- `get_codes` gives this user, where menus with the same id are the same.
  pub rbac_verify-get_codes :
      (row : ℕ → Menu) (all_menus : List Menu) (path_auth_perm : Text) (request : Request)
      → (contains settings.token_request_path_exclude request.path || excluded request.path) ≡ false
      → request.has_scopes ≡ true
      → request.user.is_superuser ≡ false
      → (text_eq request.method (codes "GET")
          || text_eq request.method (codes "OPTIONS")
          || request.user.is_staff)
        ≡ true
      → is_some_role (enabled_roles request.user) ≡ true
      → any has_menus (enabled_roles request.user) ≡ true
      → settings.rbac_role_menu_mode ≡ true
      → filled request.permission ≡ some path_auth_perm
      → contains settings.rbac_role_menu_exclude path_auth_perm ≡ false
      → AreRows row (concat (map (λ (role : Role). role.menus) (enabled_roles request.user)))
      → rbac_verify settings excluded casbin_verify request
        ≡ guard
            (contains (get_codes request.user all_menus) path_auth_perm)
            (authorization_error (codes "Permission Denied"))
  unfolding rbac_verify check_user
  rbac_verify-get_codes row all_menus p request h1 h2 h3 h4 h5 h6 h7 h8 h9 rows =
      let checked =
        check_permission-granted row request.permission p (enabled_roles request.user) h8 h9 rows in
      simp (h1, h2, h3, h4, h5, h6, h7, contains-get_codes) checked
