-- ===== src/Admin/Authentication/Entering.antt =====
-- Who gets in: what the loading of a user gives.
use rag_service.Prelude.{
  ℕ, zero, suc, Text, true, false, ◌&&◌, not, List, [], ◌∷◌, any, all, Option, none, some, find,
  ◌==◌, ◌≡◌, refl, ap, sym, subst, ◌∙◌, ◌⊎◌, inl, inr, arith, Option-cases,
}
use rag_service.Admin.Exec.{ok}
use rag_service.Admin.Redis.{Redis, get}
use rag_service.Admin.Redis.Keys.{user_key}
use rag_service.Admin.Settings.{Settings, jwt_user_redis_prefix}
use rag_service.Admin.Model.{User, Role, Dept}
use rag_service.Admin.Tokens.{Jwt, filled}
use rag_service.Admin.Authentication.{
  get_join, check_roles, check_dept, get_current_user, cache_user, get_jwt_user,
}

-- The user of a row that may be used: live and active, with no department or one that is enabled,
-- and with no role or one that is enabled.
pub record MayEnter (user_id : ℕ) (users : List User) (user : User) : Type 0 where
  pub found : find (λ (u : User). u.id == user_id && u.deleted == 0) users ≡ some user
  pub active : user.status ≡ true
  pub dept :
      ((user.dept_id ≡ none) × (user.dept ≡ none))
      ⊎ ((d : Dept) × (user.dept ≡ some d) × (d.status ≡ true))
  pub roles : (user.roles ≡ []) ⊎ (any (λ (r : Role). r.status) user.roles ≡ true)

not-all :
    (roles : List Role)
    → any (λ (r : Role). r.status) roles ≡ true
    → all (λ (r : Role). not r.status) roles ≡ false
not-all [] h = absurd (ground arith)
not-all (r ∷ rs) h = ground (arith, not-all rs)

checked_roles :
    (user : User) (roles : List Role)
    → user.roles ≡ roles
    → (roles ≡ []) ⊎ (any (λ (r : Role). r.status) roles ≡ true)
    → check_roles user ≡ ok user
unfolding check_roles
checked_roles user [] e h = rw e
checked_roles user (r ∷ rs) e (inl none_left) = cc
checked_roles user (r ∷ rs) e (inr some_enabled) = rw (e, not-all (r ∷ rs) some_enabled)

abbrev HasDept : Option ℕ → Option Dept → Type 0
HasDept dept_id dept =
    ((dept_id ≡ none) × (dept ≡ none)) ⊎ ((d : Dept) × (dept ≡ some d) × (d.status ≡ true))

enabled :
    (user : User) (dept_id : Option ℕ) (d : Dept)
    → d.status ≡ true
    → check_dept user dept_id (some d) ≡ check_roles user
unfolding check_dept
enabled user none d on = rw on
enabled user (some zero) d on = rw on
enabled user (some (suc n)) d on = rw on

with_dept :
    (user : User) (dept_id : Option ℕ) (dept : Option Dept)
    → HasDept dept_id dept
    → check_dept user dept_id dept ≡ check_roles user
unfolding check_dept
with_dept user none none h = refl
with_dept user (some n) none (inl (e, _)) = cc
with_dept user (some n) none (inr (d, e, _)) = cc
with_dept user o (some d) (inl (_, e)) = cc
with_dept user none (some d) (inr (e, same, on)) =
    enabled user none d
      (subst (λ (x : Option Dept). elim x [ none ↦ Unit | some y ↦ y.status ≡ true ]) (sym same) on)
with_dept user (some n) (some d) (inr (e, same, on)) =
    enabled user (some n) d
      (subst (λ (x : Option Dept). elim x [ none ↦ Unit | some y ↦ y.status ≡ true ]) (sym same) on)

current :
    (user_id : ℕ) (users : List User) (user : User)
    → MayEnter user_id users user
    → get_current_user user_id users ≡ ok user
unfolding get_current_user get_join
current user_id users user may =
    rw (may.found, get_current_user)
      (simp may.active (
        with_dept user user.dept_id user.dept may.dept
        ∙ checked_roles user user.roles refl may.roles))

module _ (settings : Settings) (jwt : Jwt) where
  -- The cache, if it has the user, has the same one.
  abbrev pub IsCachedAs : ℕ → ℕ → Redis → User → Type 0
  IsCachedAs t user_id redis user =
      (cached : Text)
      → filled (get t (user_key jwt_user_redis_prefix user_id) redis) ≡ some cached
      → jwt.load_user cached ≡ user

  pub get_jwt_user-entered :
      (t user_id : ℕ) (users : List User) (redis : Redis) (user : User)
      → MayEnter user_id users user
      → IsCachedAs t user_id redis user
      → (get_jwt_user settings jwt t user_id users redis).0 ≡ ok user
  unfolding get_jwt_user cache_user
  get_jwt_user-entered t user_id users redis user may same =
      elim (Option-cases (filled (get t (user_key jwt_user_redis_prefix user_id) redis))) [
        | inl e ↦ rw (e, get_jwt_user, current user_id users user may)
        | inr (cached, e) ↦ rw (e, get_jwt_user) (ap ok (same cached e))
      ]
