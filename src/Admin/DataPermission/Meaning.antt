-- ===== src/Admin/DataPermission/Meaning.antt =====
-- Which rows the filter lets through.
use rag_service.Prelude.{
  Text, Bool, true, false, ◌&&◌, not, List, [], ◌∷◌, ◌++◌, All, any, Option, select, ◌≡◌, refl, ap,
  ◌∙◌, inl, inr, arith, Bool-cases,
}
use rag_service.Admin.Model.{User, Role, DataRule, RuleOperator, and_operator, or_operator}
use rag_service.Admin.Permissions.{enabled_roles}
use rag_service.Admin.DataPermission.{
  ColumnType, Raw, Table, Condition, combined, passes, conditions_of, build_conditions, role_rules,
  filter_by, condition_of, values_of, cast_value, template_value, target_models, models_of,
  filter_data_permission,
}

abbrev pub is_unfiltered : Role → Bool
is_unfiltered role = role.status && not role.is_filter_scopes

unfiltered_enabled :
    (roles : List Role)
    → any is_unfiltered (select (λ (r : Role). r.status) roles) ≡ any is_unfiltered roles
unfolding select
unfiltered_enabled [] = refl
unfiltered_enabled (r ∷ roles) = ground (arith, unfiltered_enabled roles)

module _ (convert : ColumnType → Raw → Option Text) where
  -- The rules that the enabled roles of a user have by their enabled scopes.
  pub rules_of : User → List DataRule
  rules_of user = role_rules convert user.roles []

  rules_enabled :
      (roles : List Role) (found : List DataRule)
      → role_rules convert (select (λ (r : Role). r.status) roles) found
        ≡ role_rules convert roles found
  unfolding role_rules select
  rules_enabled [] found = refl
  rules_enabled (r ∷ roles) found = elim (Bool-cases r.status) [
    | inl e ↦ rw e (rules_enabled roles _)
    | inr e ↦ rw e (rules_enabled roles found)
  ]

  as_enabled : User → User
  as_enabled user = record user { roles = enabled_roles user }

  same_conditions :
      (user : User) (tables : List Table) (rules : List DataRule) (ands ors : List Condition)
      → build_conditions convert (as_enabled user) tables rules ands ors
        ≡ build_conditions convert user tables rules ands ors
  unfolding build_conditions as_enabled conditions_of condition_of values_of cast_value
      template_value target_models
  same_conditions user tables [] ands ors = refl
  same_conditions user tables (rule ∷ rules) ands ors = same_conditions user tables rules _ _

  no_step :
      (user : User) (tables : List Table) (rules : List DataRule) (o : RuleOperator)
      (found : List Condition)
      → found ≡ []
      → build_conditions convert user tables rules
          (elim o [ and_operator ↦ [] ++ found | or_operator ↦ [] ])
          (elim o [ and_operator ↦ [] | or_operator ↦ [] ++ found ])
        ≡ build_conditions convert user tables rules [] []
  no_step user tables rules and_operator found e = rw e
  no_step user tables rules or_operator found e = rw e

  no_conditions :
      (user : User) (tables : List Table) (rules : List DataRule)
      → All (λ rule. conditions_of convert user tables rule ≡ []) rules
      → build_conditions convert user tables rules [] [] ≡ combined [] []
  unfolding build_conditions
  no_conditions user tables [] h = refl
  no_conditions user tables (rule ∷ rules) h =
      no_step user tables rules rule.operator (conditions_of convert user tables rule) h.0
      ∙ no_conditions user tables rules h.1

  same_filter :
      (user : User) (tables : List Table) (rules : List DataRule)
      → filter_by convert (as_enabled user) tables rules ≡ filter_by convert user tables rules
  unfolding filter_by
  same_filter user tables [] = refl
  same_filter user tables (rule ∷ rules) = same_conditions user tables (rule ∷ rules) [] []

  no_rules_or_conditions :
      (user : User) (tables : List Table) (holds : Condition → Bool) (rules : List DataRule)
      → All (λ rule. conditions_of convert user tables rule ≡ []) rules
      → passes holds (filter_by convert user tables rules)
        ≡ (elim rules [ [] ↦ false | _ ∷ _ ↦ true ])
  unfolding filter_by passes
  no_rules_or_conditions user tables holds [] h = refl
  no_rules_or_conditions user tables holds (rule ∷ rules) h =
      ap (passes holds) (no_conditions user tables (rule ∷ rules) h)

  -- Roles that are disabled neither show nor hide anything: the filter of a user is that of the
  -- user's enabled roles.
  pub disabled_roles_ignored :
      (all_models : List Table) (user : User) (models : List Table)
      → filter_data_permission convert all_models
          (record user { roles = enabled_roles user })
          models
        ≡ filter_data_permission convert all_models user models
  unfolding filter_data_permission enabled_roles as_enabled
  disabled_roles_ignored all_models user models = rw (
    unfiltered_enabled user.roles,
    rules_enabled user.roles [],
    same_filter user (models_of convert all_models models) (role_rules convert user.roles []),
  )

  -- For a user who is no super user and whose enabled roles all filter: without rules no row is
  -- shown, but rules that give no condition on the tables show every row.
  pub filter_extremes :
      (all_models : List Table) (user : User) (models : List Table) (holds : Condition → Bool)
      → user.is_superuser ≡ false
      → any is_unfiltered user.roles ≡ false
      → All
          (λ rule. conditions_of convert user (models_of convert all_models models) rule ≡ [])
          (rules_of user)
      → passes holds (filter_data_permission convert all_models user models)
        ≡ (elim (rules_of user) [ [] ↦ false | _ ∷ _ ↦ true ])
  unfolding filter_data_permission rules_of
  filter_extremes all_models user models holds s f h =
      simp (s, f)
        (no_rules_or_conditions user (models_of convert all_models models) holds
          (role_rules convert user.roles []) h)
