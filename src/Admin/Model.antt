-- ===== src/Admin/Model.antt =====
-- The rows of backend/app/admin/model that authentication and permissions read. The association
-- tables are resolved: a user holds its department and its roles, a role its menus and data scopes.
-- A status of 0 is `false`.
use rag_service.Prelude.{ℕ, Text, Bool, List, Option}

pub record Menu : Type 0 where
  pub id : ℕ
  pub perms : Option Text
  pub status : Bool

pub data RuleOperator : Type 0 where
  and_operator or_operator : RuleOperator

pub data RuleExpression : Type 0 where
  eq ne gt ge lt le in_list not_in : RuleExpression

pub record DataRule : Type 0 where
  pub id : ℕ
  pub model : Text
  pub column : Text
  pub operator : RuleOperator
  pub expression : RuleExpression
  pub value : Text

pub record DataScope : Type 0 where
  pub status : Bool
  pub rules : List DataRule

pub record Role : Type 0 where
  pub id : ℕ
  pub status : Bool
  pub is_filter_scopes : Bool
  pub menus : List Menu
  pub scopes : List DataScope

pub record Dept : Type 0 where
  pub id : ℕ
  pub status : Bool

pub record User : Type 0 where
  pub id : ℕ
  pub uuid : Text
  pub username : Text
  pub nickname : Text
  pub password : Option Text
  pub status : Bool
  pub is_superuser : Bool
  pub is_staff : Bool
  pub is_multi_login : Bool
  -- in seconds
  pub last_login_time : Option ℕ
  pub last_password_changed_time : Option ℕ
  pub dept_id : Option ℕ
  pub dept : Option Dept
  pub roles : List Role
  pub deleted : ℕ
