-- ===== src/Server/Examples.antt =====
-- A server with one user, key, device and timesheet entry.
use trasker.Prelude.{ℕ, ◌≡◌, ◌≢◌, refl, true, false, none, some, List, [], ◌∷◌, ◌++◌, map, ok}
use trasker.Prelude.Int.{pos}
use trasker.Prelude.Sort.{sort_by}
use trasker.Store.Tables.{update_where}
use trasker.Server.Tables.{
  User, ApiKey, Device, Timesheet, TimesheetEntry, OrgSettings, ServerDb, Given,
}
use trasker.Server.Http.{Caller}
use trasker.Server.Timesheets.{
  CreateTimesheetParams, create_timesheet, get_timesheet_by_id, TimesheetReq, timesheet_submit,
}
use trasker.Server.Timesheets.Stored.{entry_params, get-create}
use trasker.Server.Timesheets.Resent.{no_faults, submit-again}
use trasker.Server.Settings.{mask, SettingsView, admin_get_settings, admin_update_settings}
use trasker.Server.Settings.Masked.{as_shown, update-get}
use trasker.Server.Admin.{Faults, admin_delete_entry, admin_revoke_key}
use trasker.Server.Admin.Trail.{Deleted, admin_delete-Deleted}
use trasker.Server.Keys.{Reading, store_lookup}
use trasker.Server.Keys.Revoked.{revoked_key_refused}
use trasker.ServerAuth.{Bytes, member, authenticate}

abbrev pub anna : User
anna = record {
  id = 1;
  entra_oid = none;
  email = "anna@example.org";
  display_name = "Anna";
  role = "admin";
  password_hash = none;
  force_password_change = false;
  created_at = 1;
  updated_at = 1;
}

abbrev pub old_key : ApiKey
old_key = record {
  id = 5;
  user_id = 1;
  key_hash = "hash";
  key_prefix = "tsk_1234";
  last_used_at = 2;
  expires_at = 9000;
  revoked = false;
  created_at = 2;
  revoked_at = none;
}

abbrev pub laptop : Device
laptop = record {
  id = 9;
  user_id = 1;
  api_key_id = 5;
  client_device_id = "laptop";
  device_name = none;
  os = "linux";
  last_seen_at = 3;
  created_at = 3;
}

abbrev pub work : TimesheetEntry
work = record {
  id = 20;
  timesheet_id = 10;
  tag = "dev";
  started_at = 100;
  ended_at = 160;
  duration_s = pos 60;
  notes = none;
  app_summary = none;
}

abbrev pub settings : OrgSettings
settings = record {
  org_name = "Org";
  entra_tenant = "tenant";
  entra_client = "client";
  entra_secret = "secret";
  key_expiry_days = pos 60;
  updated_at = 4;
}

abbrev pub small_server : ServerDb
small_server = record {
  users = anna ∷ [];
  api_keys = old_key ∷ [];
  devices = laptop ∷ [];
  timesheets =
      record { id = 10; user_id = 1; device_id = 9; submitted_at = 200; created_at = 200 } ∷ [];
  timesheet_entries = work ∷ [];
  audit_log = [];
  org_settings = some settings;
}

abbrev pub given : Given
given = record { fresh_id = λ db. 100; now = 1000 }

abbrev pub anna_calls : Caller
anna_calls = record { user_id = some 1; api_key_id = some 5 }

abbrev new_work : TimesheetReq
new_work = record {
  client_device_id = "laptop";
  entries =
      record {
        tag = "dev";
        started_at = some 300;
        ended_at = some 330;
        duration_s = pos 30;
        notes = "";
        app_summary = "editor";
      }
      ∷ [];
}

abbrev new_params : CreateTimesheetParams
new_params = record {
  user_id = 1;
  device_id = 9;
  submitted_at = 1000;
  entries =
      record {
        tag = "dev";
        started_at = 300;
        ended_at = 330;
        duration_s = pos 30;
        notes = none;
        app_summary = some "editor";
      }
      ∷ [];
}

abbrev new_sheet : Timesheet
new_sheet = record { id = 100; user_id = 1; device_id = 9; submitted_at = 1000; created_at = 1000 }

abbrev new_row : TimesheetEntry
new_row = record {
  id = 100;
  timesheet_id = 100;
  tag = "dev";
  started_at = 300;
  ended_at = 330;
  duration_s = pos 30;
  notes = none;
  app_summary = some "editor";
}

abbrev after_submit : ServerDb
after_submit = record small_server {
  timesheets = small_server.timesheets ++ new_sheet ∷ [];
  timesheet_entries = work ∷ new_row ∷ [];
}

get-create_example :
    (get_timesheet_by_id (λ es. es) false 100 after_submit
      ≡ ok (new_sheet, sort_by (λ e. e.started_at) (new_row ∷ [])))
    × (map entry_params (new_row ∷ []) ≡ new_params.entries)
unfolding create_timesheet
get-create_example =
    get-create (λ es. es) (λ i. false) given new_params small_server after_submit new_sheet
      (new_row ∷ []) refl refl refl

submit-again_example :
    (db2 : ServerDb) × (ts2 : Timesheet) × (es2 : List TimesheetEntry) × (timesheet_submit no_faults
        given anna_calls
        (some new_work)
        after_submit
      ≡ ok (db2, ts2, es2))
    × (db2.timesheets ≡ (small_server.timesheets ++ new_sheet ∷ []) ++ ts2 ∷ [])
    × (db2.timesheet_entries ≡ (small_server.timesheet_entries ++ new_row ∷ []) ++ es2)
    × (ts2.user_id ≡ 1)
    × (ts2.device_id ≡ 9)
    × (map entry_params es2 ≡ map entry_params (new_row ∷ []))
unfolding timesheet_submit
submit-again_example =
    submit-again no_faults given given anna_calls (some new_work) small_server after_submit
      new_sheet (new_row ∷ []) refl

abbrev shown : SettingsView
shown = record {
  org_name = "Org";
  entra_tenant = "tenant";
  entra_client = "client";
  entra_secret = mask;
  key_expiry_days = pos 60;
  updated_at = 4;
}

update-get_example :
    (o : OrgSettings) × (small_server.org_settings ≡ some o)
    × (admin_update_settings false false 1000 (some (as_shown shown)) small_server
        ≡ ok (
          record small_server { org_settings = some (record o { updated_at = 1000 }) },
          record shown { updated_at = 1000 },
          true,
        ))
unfolding admin_get_settings
update-get_example = update-get 1000 small_server shown refl

-- No statement fails but the insert of the audit's row.
abbrev audit_fails : Faults
audit_fails = record { lookup = false; change = false; audit = true }

admin_delete-Deleted_example :
    Deleted audit_fails given anna_calls 20 small_server
      (record small_server { timesheet_entries = [] })
unfolding admin_delete_entry
admin_delete-Deleted_example =
    admin_delete-Deleted audit_fails given anna_calls 20 small_server
      (record small_server { timesheet_entries = [] }) refl

abbrev reading : Reading
reading = record { bytes = λ s. []; text = λ b. "tsk_1234"; role = λ s. member }

abbrev revoked_server : ServerDb
revoked_server = record small_server {
  api_keys =
      record old_key { revoked = true; revoked_at = some 1000 } ∷ record old_key { id = 6 } ∷ [];
}

abbrev before_revoke : ServerDb
before_revoke = record small_server { api_keys = old_key ∷ record old_key { id = 6 } ∷ [] }

-- "Bearer k".
abbrev header : Bytes
header = 66 ∷ 101 ∷ 97 ∷ 114 ∷ 101 ∷ 114 ∷ 32 ∷ 107 ∷ []

-- The other key of the prefix still gets through.
revoked_key_refused_example : ◌≢◌ {A = ℕ} 6 5
unfolding admin_revoke_key authenticate store_lookup update_where
revoked_key_refused_example =
    revoked_key_refused audit_fails given anna_calls 5 before_revoke revoked_server reading false
      (λ h k. true) 2000 header (record { user_id = 1; role = member; key_id = 6 }) refl refl
