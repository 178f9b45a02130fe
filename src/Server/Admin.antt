-- ===== src/Server/Admin.antt =====
-- internal/server/store/audit.go, apikeys.go and the entry, key and audit handlers of
-- internal/server/api/admin_handlers.go.
pub mod Trail
use trasker.Prelude.{
  ℕ, Bool, true, false, not, ◌&&◌, Option, none, some, List, [], ◌∷◌, ◌++◌, String, str_eq, ltb,
  leb, ◌==◌, if◌then◌else◌, find, filter, any, Result, ok, err,
}
use trasker.Prelude.Int.{ℤ}
use trasker.Store.Tables.{update_where}
use trasker.Server.Tables.{
  User, ApiKey, TimesheetEntry, AuditLogEntry, ServerDb, Given, StoreError, not_found, failed,
  query,
}
use trasker.Server.Http.{
  Failure, Caller, ◌>>=◌, ◌>>◌, check, present, stored, answered, page, parse_pagination,
  limit_or_default,
}
use trasker.Server.Devices.{found, newest_first}
use trasker.Server.Timesheets.{
  passes, get_timesheet_entry_by_id, delete_timesheet_entry, update_timesheet_entry,
  UpdateTimesheetEntryParams,
}

pub record CreateAuditLogParams : Type 0 where
  pub admin_id : ℕ
  pub action : String
  pub target_type : String
  pub target_id : ℕ
  pub old_value : Option TimesheetEntry
  pub new_value : Option TimesheetEntry

unfoldable pub new_audit_row : Given → CreateAuditLogParams → ServerDb → AuditLogEntry
new_audit_row g p db = record {
  id = g.fresh_id db;
  admin_id = p.admin_id;
  action = p.action;
  target_type = p.target_type;
  target_id = p.target_id;
  old_value = p.old_value;
  new_value = p.new_value;
  created_at = g.now;
}

unfoldable pub create_audit_log :
    Bool → Given → CreateAuditLogParams → ServerDb → Result StoreError (ServerDb × AuditLogEntry)
unfolding new_audit_row
create_audit_log fails g p db =
    query fails (
      ok
        (record db { audit_log = db.audit_log ++ new_audit_row g p db ∷ [] }, new_audit_row g p db))

-- The handlers only log that a row of the audit was not written.
unfoldable pub audited : Bool → Given → CreateAuditLogParams → ServerDb → ServerDb
unfolding create_audit_log
audited fails g p db = elim (create_audit_log fails g p db) [ err _ ↦ db | ok r ↦ r.0 ]

pub record AuditLogFilters : Type 0 where
  pub admin_id : Option ℕ
  pub action : Option String
  pub target_type : Option String
  pub target_id : Option ℕ
  pub limit : ℕ
  pub offset : ℕ

unfoldable pub matches_audit : AuditLogFilters → AuditLogEntry → Bool
matches_audit f r =
    passes f.admin_id (λ a. r.admin_id == a)
    && passes f.action (λ a. str_eq r.action a)
    && passes f.target_type (λ a. str_eq r.target_type a)
    && passes f.target_id (λ a. r.target_id == a)

unfoldable pub list_audit_logs :
    Bool → AuditLogFilters → ServerDb → Result StoreError (List AuditLogEntry)
unfolding matches_audit
list_audit_logs fails f db = query fails (
    ok (
      page (limit_or_default f.limit) f.offset
        (newest_first (λ r. r.created_at) (filter (matches_audit f) db.audit_log))))

-- `adminAuditLogHandler`; a parameter of the query that is absent or empty is no filter.
unfoldable pub admin_audit_log :
    Bool
    → Option String
    → Option String
    → Option ℤ
    → Option ℤ
    → ServerDb
    → Result Failure (List AuditLogEntry)
unfolding parse_pagination list_audit_logs
admin_audit_log fails action target_type limit offset db =
    let p = parse_pagination limit offset in
    answered
      (list_audit_logs fails
        (record {
          admin_id = none;
          action = action;
          target_type = target_type;
          target_id = none;
          limit = p.0;
          offset = p.1;
        })
        db)
      500 "failed to list audit logs"

-- Whether each of a handler's statements fails.
pub record Faults : Type 0 where
  pub lookup : Bool
  pub change : Bool
  pub audit : Bool

-- `adminDeleteEntryHandler`.
unfoldable pub admin_delete_entry :
    Faults → Given → Caller → Option ℕ → ServerDb → Result Failure ServerDb
unfolding get_timesheet_entry_by_id delete_timesheet_entry audited
admin_delete_entry faults g caller path_id db = do
  entry_id ← present path_id 400 "invalid entry ID"
  admin_id ← present caller.user_id 500 "internal error"
  entry ←
      stored (get_timesheet_entry_by_id faults.lookup entry_id db)
        (record { status = 404; error = "entry not found" })
        (record { status = 500; error = "failed to look up entry" })
  db' ← answered (delete_timesheet_entry faults.change entry_id db) 500 "failed to delete entry"
  ok (
      audited faults.audit g
        (record {
          admin_id = admin_id;
          action = "entry.delete";
          target_type = "timesheet_entry";
          target_id = entry_id;
          old_value = some entry;
          new_value = none;
        })
        db')

pub record EditReq : Type 0 where
  pub tag : Option String
  pub duration_s : Option ℤ
  pub notes : Option String

-- The fields that the handler passes on.
unfoldable pub edit_params : EditReq → UpdateTimesheetEntryParams
edit_params req = record {
  tag = req.tag;
  started_at = none;
  ended_at = none;
  duration_s = req.duration_s;
  notes = req.notes;
}

-- `adminEditEntryHandler`.
unfoldable pub admin_edit_entry :
    Faults
    → Given
    → Caller
    → Option ℕ
    → Option EditReq
    → ServerDb
    → Result Failure (ServerDb × TimesheetEntry)
unfolding get_timesheet_entry_by_id update_timesheet_entry audited edit_params
admin_edit_entry faults g caller path_id body db = do
  entry_id ← present path_id 400 "invalid entry ID"
  admin_id ← present caller.user_id 500 "internal error"
  old_entry ←
      stored (get_timesheet_entry_by_id faults.lookup entry_id db)
        (record { status = 404; error = "entry not found" })
        (record { status = 500; error = "failed to look up entry" })
  req ← present body 400 "invalid request body"
  r ←
      answered (update_timesheet_entry faults.change entry_id (edit_params req) db) 500
        "failed to update entry"
  ok (
    audited faults.audit g
        (record {
          admin_id = admin_id;
          action = "entry.update";
          target_type = "timesheet_entry";
          target_id = entry_id;
          old_value = some old_entry;
          new_value = some r.1;
        })
        r.0,
    r.1,
  )

pub record CreateApiKeyParams : Type 0 where
  pub user_id : ℕ
  pub key_hash : String
  pub key_prefix : String
  pub expires_at : ℕ

unfoldable pub new_api_key : Given → CreateApiKeyParams → ServerDb → ApiKey
new_api_key g p db = record {
  id = g.fresh_id db;
  user_id = p.user_id;
  key_hash = p.key_hash;
  key_prefix = p.key_prefix;
  last_used_at = g.now;
  expires_at = p.expires_at;
  revoked = false;
  created_at = g.now;
  revoked_at = none;
}

unfoldable pub create_api_key :
    Bool → Given → CreateApiKeyParams → ServerDb → Result StoreError (ServerDb × ApiKey)
unfolding new_api_key
create_api_key fails g p db =
    query fails
      (ok (record db { api_keys = db.api_keys ++ new_api_key g p db ∷ [] }, new_api_key g p db))

unfoldable pub get_api_key_by_id : Bool → ℕ → ServerDb → Result StoreError ApiKey
get_api_key_by_id fails id db = query fails (found (find (λ k. k.id == id) db.api_keys))

unfoldable pub list_api_keys_by_user : Bool → ℕ → ServerDb → Result StoreError (List ApiKey)
list_api_keys_by_user fails user_id db =
    query fails
      (ok (newest_first (λ k. k.created_at) (filter (λ k. k.user_id == user_id) db.api_keys)))

-- `revoked = false AND expires_at > now()`.
unfoldable pub is_active : ℕ → ApiKey → Bool
is_active now k = not k.revoked && ltb now k.expires_at

unfoldable pub list_active_api_keys_by_user :
    Bool → ℕ → ℕ → ServerDb → Result StoreError (List ApiKey)
unfolding is_active
list_active_api_keys_by_user fails now user_id db = query fails (
    ok (
      newest_first (λ k. k.created_at)
        (filter (λ k. (k.user_id == user_id) && is_active now k) db.api_keys)))

unfoldable pub update_api_key_last_used : Bool → ℕ → ℕ → ServerDb → Result StoreError ServerDb
update_api_key_last_used fails now id db = query fails (
    if any (λ k. k.id == id) db.api_keys
    then ok (record db {
      api_keys = update_where (λ k. k.id == id) (λ k. record k { last_used_at = now }) db.api_keys;
    })
    else err not_found)

-- A key joined with its user's role; a key with no user is in no row of the join.
abbrev pub with_role : ServerDb → ApiKey → Option (ApiKey × String)
with_role db k = elim (find (λ u. u.id == k.user_id) db.users) [
  | none ↦ none
  | some u ↦ some (k, u.role)
]

abbrev pub first_some : {A B : Type 0} → (A → Option B) → List A → Option B
first_some f [] = none
first_some f (x ∷ xs) = let rest = first_some f xs in elim (f x) [ none ↦ rest | some b ↦ some b ]

unfoldable pub active_by_prefix : ℕ → String → ServerDb → ApiKey → Option (ApiKey × String)
unfolding is_active
active_by_prefix now prefix db k =
    if str_eq k.key_prefix prefix && is_active now k then with_role db k else none

-- `GetActiveAPIKeyByPrefix`: the first row of the query, which has no order of its own.
unfoldable pub get_active_api_key_by_prefix :
    Bool → ℕ → String → ServerDb → Result StoreError (ApiKey × String)
unfolding active_by_prefix
get_active_api_key_by_prefix fails now prefix db =
    query fails (found (first_some (active_by_prefix now prefix db) db.api_keys))

unfoldable pub revoked_row : ℕ → ApiKey → ApiKey
revoked_row now k = record k { revoked = true; revoked_at = some now }

unfoldable pub revoke_api_key : Bool → ℕ → ℕ → ServerDb → Result StoreError ServerDb
unfolding revoked_row
revoke_api_key fails now id db = query fails (
    if any (λ k. k.id == id) db.api_keys
    then ok (record db { api_keys = update_where (λ k. k.id == id) (revoked_row now) db.api_keys })
    else err not_found)

-- `adminRevokeKeyHandler`.
unfoldable pub admin_revoke_key :
    Faults → Given → Caller → Option ℕ → ServerDb → Result Failure ServerDb
unfolding revoke_api_key audited
admin_revoke_key faults g caller path_id db = do
  key_id ← present path_id 400 "invalid key ID"
  admin_id ← present caller.user_id 500 "internal error"
  db' ←
      stored (revoke_api_key faults.change g.now key_id db)
        (record { status = 404; error = "API key not found" })
        (record { status = 500; error = "failed to revoke API key" })
  ok (
      audited faults.audit g
        (record {
          admin_id = admin_id;
          action = "key.revoke";
          target_type = "api_key";
          target_id = key_id;
          old_value = none;
          new_value = none;
        })
        db')

-- `adminListKeysHandler`: the `user_id` of the query, none if it is absent or empty, and what
-- `uuid.Parse` makes of it.
unfoldable pub admin_list_keys : Bool → Option (Option ℕ) → ServerDb → Result Failure (List ApiKey)
unfolding list_api_keys_by_user
admin_list_keys fails user_id_param db = do
  parsed ← present user_id_param 400 "user_id query parameter required"
  user_id ← present parsed 400 "invalid user_id"
  answered (list_api_keys_by_user fails user_id db) 500 "failed to list API keys"
