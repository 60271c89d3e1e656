-- ===== src/Admin/Permissions/Codes.antt =====
-- Membership in the list that `get_codes` gives.
use rag_service.Prelude.{
  Text, Bool, true, ◌||◌, List, [], ◌∷◌, ◌++◌, map, concat, any, if◌then◌else◌, ◌≡◌, ap, sym, ◌∙◌,
  arith, text_eq, text_eq_sound, inl, inr, Bool-cases,
}
use rag_service.Admin.Redis.{contains}
use rag_service.Admin.Redis.Batches.{contains-append}
use rag_service.Admin.Model.{User, Role, Menu}
use rag_service.Admin.Permissions.{menu_perms, enabled_roles, update, collect, get_codes}

contains-update :
    (perms found : List Text) (p : Text)
    → contains (update perms found) p ≡ (contains found p || contains perms p)
unfolding update
contains-update [] found p = ground arith
contains-update (x ∷ xs) found p = elim (Bool-cases (contains found x)) [
  | inl e ↦ rw e (
      contains-update xs found p ∙ elim (Bool-cases (text_eq x p)) [
        | inl k ↦
            let had : contains found p ≡ true =
              ap (contains found) (sym (text_eq_sound x p k)) ∙ e in
            ground arith
        | inr k ↦ ground arith
      ])
  | inr e ↦
      rw e
        (contains-update xs (found ++ x ∷ []) p ∙ ground (arith, contains-append found (x ∷ []) p))
]

-- Some menu has the permission.
abbrev pub granted : List Menu → Text → Bool
granted menus p = any (λ menu. contains (menu_perms menu) p) menus

contains-collect :
    (menus : List Menu) (found : List Text) (p : Text)
    → contains (collect menus found) p ≡ (contains found p || granted menus p)
unfolding collect
contains-collect [] found p = ground arith
contains-collect (m ∷ menus) found p =
    contains-collect menus (update (menu_perms m) found) p
    ∙ ground (arith, contains-update (menu_perms m) found p)

-- The menus whose permissions a user has.
abbrev pub menus_of : User → List Menu → List Menu
menus_of user menus =
    if user.is_superuser
    then menus
    else concat (map (λ (role : Role). role.menus) (enabled_roles user))

pub contains-get_codes :
    (user : User) (menus : List Menu) (p : Text)
    → contains (get_codes user menus) p ≡ granted (menus_of user menus) p
unfolding get_codes
contains-get_codes user menus p = contains-collect (menus_of user menus) [] p
