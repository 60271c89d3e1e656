-- ===== src/Admin/Permissions.antt =====
-- The permissions of a user: `get_codes` of backend/app/admin/service/auth_service.py. The list of
-- a Python set has each code once, here in the order in which they are met.
pub mod Codes
use rag_service.Prelude.{
  ℕ, Text, codes, Bool, true, false, not, List, [], ◌∷◌, ◌++◌, map, concat, Option, none, some,
  ◌==◌, if◌then◌else◌, select,
}
use rag_service.Admin.Redis.{contains}
use rag_service.Admin.Model.{User, Role, Menu}
use rag_service.Admin.Tokens.{filled}

abbrev cons_head : ℕ → List Text → List Text
cons_head c [] = (c ∷ []) ∷ []
cons_head c (s ∷ rest) = (c ∷ s) ∷ rest

-- `s.split(',')`
unfoldable pub split_commas : Text → List Text
split_commas [] = [] ∷ []
split_commas (c ∷ s) =
    let rest = split_commas s in if c == b',' then [] ∷ rest else cons_head c rest

-- The codes of an enabled menu; those of a disabled menu do not count.
unfoldable pub menu_perms : Menu → List Text
unfolding split_commas
menu_perms menu =
    if menu.status
    then (elim (filled menu.perms) [ none ↦ [] | some perms ↦ split_commas perms ])
    else []

unfoldable pub enabled_roles : User → List Role
enabled_roles user = select (λ (role : Role). role.status) user.roles

-- `codes.update(perms)`
update : List Text → List Text → List Text
update [] found = found
update (perm ∷ perms) found =
    update perms (if contains found perm then found else found ++ perm ∷ [])

collect : List Menu → List Text → List Text
unfolding update menu_perms
collect [] found = found
collect (menu ∷ menus) found = collect menus (update (menu_perms menu) found)

-- `menus` are all menus that are not deleted.
unfoldable pub get_codes : User → List Menu → List Text
unfolding enabled_roles collect
get_codes user menus =
    collect
      (if user.is_superuser
        then menus
        else concat (map (λ (role : Role). role.menus) (enabled_roles user)))
      []
