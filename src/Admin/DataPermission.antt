-- ===== src/Admin/DataPermission.antt =====
-- `filter_data_permission` of backend/common/security/permission.py: the condition that a query
-- gets from the data rules of the user's roles. A table is its name and the types of its columns.
-- Python's conversion of a value to a column's type is a parameter, which may fail; a value is the
-- text of its literal. A Python set of rules has each once, here in the order in which they are met.
pub mod Meaning
use rag_service.Prelude.{
  ℕ, Text, codes, Bool, true, false, ◌&&◌, ◌||◌, not, List, [], ◌∷◌, ◌++◌, map, concat, any, all,
  Option, none, some, ◌==◌, text_eq, if◌then◌else◌, find, select,
}
use mathlib.Core.Option
use rag_service.Rag.Chunking.Clean.{strip}
use rag_service.Admin.Redis.{contains}
use rag_service.Admin.Model.{
  User, Role, DataScope, DataRule, RuleOperator, RuleExpression, and_operator, or_operator, eq, ne,
  gt, ge, lt, le, in_list, not_in,
}
use rag_service.Admin.Permissions.{split_commas}

pub data ColumnType : Type 0 where
  text_column : ColumnType
  typed_column : ℕ → ColumnType

-- What is converted: a text, the id of a user or a department, or the method `timezone.now`.
pub data Raw : Type 0 where
  raw_text : Text → Raw
  raw_id : Option ℕ → Raw
  raw_method : Raw

pub record Table : Type 0 where
  pub name : Text
  pub columns : List (Text × ColumnType)

pub record Condition : Type 0 where
  pub table : Text
  pub column : Text
  pub expression : RuleExpression
  pub values : List Text

-- `or_(1 == 1)`, `or_(1 != 1)`, or the conjunction of the first list, if it has any, or the
-- disjunction of the second, if it has any.
pub data Filter : Type 0 where
  constant : Bool → Filter
  combined : List Condition → List Condition → Filter

abbrev pub column_exclude : List Text
column_exclude =
    codes "id"
    ∷ codes "sort"
    ∷ codes "deleted"
    ∷ codes "deleted_time"
    ∷ codes "created_time"
    ∷ codes "updated_time"
    ∷ []

-- The column that a rule names, or for which its template stands.
unfoldable pub rule_column : Text → Text
rule_column column =
    if text_eq column (codes "__dept_id__")
    then codes "dept_id"
    else if text_eq column (codes "__created_by__")
    then codes "created_by"
    else column

unfoldable pub template_value : User → Text → Option Raw
template_value user value =
    if text_eq value (codes "${user_id}")
    then some (raw_id (some user.id))
    else if text_eq value (codes "${dept_id}")
    then some (raw_id user.dept_id)
    else if text_eq value (codes "${now}")
    then some raw_method
    else none

abbrev or_else : Option Text → Text → Text
or_else none value = value
or_else (some converted) value = converted

module _ (convert : ColumnType → Raw → Option Text) where
  cast_plain : ColumnType → Text → Text
  cast_plain text_column value = value
  cast_plain (typed_column n) value = or_else (convert (typed_column n) (raw_text value)) value

  unfoldable pub cast_value : User → ColumnType → Text → Text
  unfolding cast_plain
  cast_value user column_type value = elim (template_value user value) [
    | none ↦ cast_plain column_type value
    | some raw ↦ or_else (convert column_type raw) value
  ]

  values_of : User → ColumnType → RuleExpression → Text → List Text
  values_of user column_type in_list value =
      map (λ v. cast_value user column_type (strip v)) (split_commas value)
  values_of user column_type not_in value =
      map (λ v. cast_value user column_type (strip v)) (split_commas value)
  values_of user column_type _ value = cast_value user column_type value ∷ []

  column_type_of : Text → Table → Option ColumnType
  column_type_of column table =
      Option.map (λ (c : Text × ColumnType). c.1)
        (find (λ (c : Text × ColumnType). text_eq c.0 column) table.columns)

  -- The condition of a rule on a table that has its column.
  condition_of : User → DataRule → Table → List Condition
  unfolding values_of column_type_of
  condition_of user rule table =
      let column = rule_column rule.column in
      elim (column_type_of column table) [
        | none ↦ []
        | some column_type ↦
            if contains column_exclude column
            then []
            else record {
              table = table.name;
              column = column;
              expression = rule.expression;
              values = values_of user column_type rule.expression rule.value;
            }
              ∷ []
      ]

  target_models : List Table → DataRule → List Table
  target_models tables rule =
      if text_eq rule.model (codes "__ALL__")
      then tables
      else elim (find (λ (t : Table). text_eq t.name rule.model) tables) [
        | none ↦ []
        | some table ↦ table ∷ []
      ]

  unfoldable pub conditions_of : User → List Table → DataRule → List Condition
  unfolding condition_of target_models
  conditions_of user tables rule = concat (map (condition_of user rule) (target_models tables rule))

  -- The loop over the rules, with the two lists.
  build_conditions : User → List Table → List DataRule → List Condition → List Condition → Filter
  build_conditions user tables [] where_and_list where_or_list =
      combined where_and_list where_or_list
  build_conditions user tables (rule ∷ rules) where_and_list where_or_list =
      let found = conditions_of user tables rule in
      build_conditions user tables rules
        (elim rule.operator [
          | and_operator ↦ where_and_list ++ found
          | or_operator ↦ where_and_list
        ])
        (elim rule.operator [ and_operator ↦ where_or_list | or_operator ↦ where_or_list ++ found ])

  -- `data_rules.update(...)`
  add_rules : List DataRule → List DataRule → List DataRule
  add_rules [] found = found
  add_rules (rule ∷ rules) found =
      add_rules rules
        (if any (λ (r : DataRule). r.id == rule.id) found then found else found ++ rule ∷ [])

  scope_rules : List DataScope → List DataRule → List DataRule
  unfolding add_rules
  scope_rules [] found = found
  scope_rules (scope ∷ scopes) found =
      scope_rules scopes (if scope.status then add_rules scope.rules found else found)

  role_rules : List Role → List DataRule → List DataRule
  unfolding scope_rules
  role_rules [] found = found
  role_rules (role ∷ roles) found =
      role_rules roles (if role.status then scope_rules role.scopes found else found)

  filter_by : User → List Table → List DataRule → Filter
  unfolding build_conditions
  filter_by user tables [] = constant false
  filter_by user tables (rule ∷ rules) = build_conditions user tables (rule ∷ rules) [] []

  -- `models if models else get_data_permission_models()`
  pub models_of : List Table → List Table → List Table
  models_of all_models [] = all_models
  models_of all_models (model ∷ models) = model ∷ models

  -- `all_models` are those of the program, which count where a caller names none.
  unfoldable pub filter_data_permission : List Table → User → List Table → Filter
  unfolding role_rules filter_by models_of
  filter_data_permission all_models user models =
      if user.is_superuser
      then constant true
      else if any (λ (role : Role). role.status && not role.is_filter_scopes) user.roles
      then constant true
      else filter_by user (models_of all_models models) (role_rules user.roles [])

abbrev some_and_all : (Condition → Bool) → List Condition → Bool
some_and_all holds [] = false
some_and_all holds (c ∷ cs) = all holds (c ∷ cs)

-- The rows for which the filter holds, where `holds` tests each condition on the row.
unfoldable pub passes : (Condition → Bool) → Filter → Bool
passes holds (constant b) = b
passes holds (combined [] []) = true
passes holds (combined ands ors) = some_and_all holds ands || any holds ors
