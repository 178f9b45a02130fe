-- ===== src/Server/Tables.antt =====
-- The tables of migrations/001_init.up.sql, 002 and 003, and the row types of internal/server/store.
-- An id stands for its UUID; an instant is a number of microseconds, as TIMESTAMPTZ keeps it.
use trasker.Prelude.{ℕ, Bool, Option, List, String, Result, err, if◌then◌else◌}
use trasker.Prelude.Int.{ℤ}

pub record User : Type 0 where
  pub id : ℕ
  pub entra_oid : Option String
  pub email : String
  pub display_name : String
  pub role : String
  pub password_hash : Option String
  pub force_password_change : Bool
  pub created_at : ℕ
  pub updated_at : ℕ

pub record ApiKey : Type 0 where
  pub id : ℕ
  pub user_id : ℕ
  pub key_hash : String
  pub key_prefix : String
  pub last_used_at : ℕ
  pub expires_at : ℕ
  pub revoked : Bool
  pub created_at : ℕ
  pub revoked_at : Option ℕ

pub record Device : Type 0 where
  pub id : ℕ
  pub user_id : ℕ
  pub api_key_id : ℕ
  pub client_device_id : String
  pub device_name : Option String
  pub os : String
  pub last_seen_at : ℕ
  pub created_at : ℕ

pub record Timesheet : Type 0 where
  pub id : ℕ
  pub user_id : ℕ
  pub device_id : ℕ
  pub submitted_at : ℕ
  pub created_at : ℕ

pub record TimesheetEntry : Type 0 where
  pub id : ℕ
  pub timesheet_id : ℕ
  pub tag : String
  pub started_at : ℕ
  pub ended_at : ℕ
  pub duration_s : ℤ
  pub notes : Option String
  pub app_summary : Option String

-- The JSON of `old_value` and `new_value` is that of an entry.
pub record AuditLogEntry : Type 0 where
  pub id : ℕ
  pub admin_id : ℕ
  pub action : String
  pub target_type : String
  pub target_id : ℕ
  pub old_value : Option TimesheetEntry
  pub new_value : Option TimesheetEntry
  pub created_at : ℕ

pub record OrgSettings : Type 0 where
  pub org_name : String
  pub entra_tenant : String
  pub entra_client : String
  pub entra_secret : String
  pub key_expiry_days : ℤ
  pub updated_at : ℕ

pub record ServerDb : Type 0 where
  pub users : List User
  pub api_keys : List ApiKey
  pub devices : List Device
  pub timesheets : List Timesheet
  pub timesheet_entries : List TimesheetEntry
  pub audit_log : List AuditLogEntry
  -- The row with id 1, if there is one.
  pub org_settings : Option OrgSettings

-- `gen_random_uuid()`, which the database calls for a new row, and `now()` of the statement.
pub record Given : Type 0 where
  pub fresh_id : ServerDb → ℕ
  pub now : ℕ

-- `ErrNotFound`, and every other error of the database.
pub data StoreError : Type 0 where
  not_found failed : StoreError

-- A statement that the database fails changes nothing.
abbrev pub query {ℓ} : {A : Type ℓ} → Bool → Result StoreError A → Result StoreError A
query fails r = if fails then err failed else r
