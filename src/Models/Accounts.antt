-- ===== src/Models/Accounts.antt =====
-- models/user.py, audit_log.py
use mdmfleetmanagement.Prelude.{ℕ, String, Option, List, Bool}

pub record User : Type 0 where
  pub id : String
  pub email : String
  pub hashed_password : String
  pub role : String
  pub is_active : Bool

-- What the JSON of an audit entry's details holds under a key.
pub data Detail : Type 0 where
  str : String → Detail
  int : ℕ → Detail
  flag : Bool → Detail
  strs : List String → Detail
  changed_text : String → String → Detail
  changed_flag : Bool → Bool → Detail
  columns : List (String × Option String) → Detail

pub record AuditLog : Type 0 where
  pub id : ℕ
  pub user_id : Option String
  pub action : String
  pub resource : String
  pub details : List (String × Detail)
