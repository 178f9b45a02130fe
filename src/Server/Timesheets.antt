-- ===== src/Server/Timesheets.antt =====
-- internal/server/store/timesheets.go and internal/server/api/timesheet_handlers.go.
pub mod Stored
pub mod Resent
use trasker.Prelude.{
  ℕ, suc, ◌+◌, Bool, true, false, not, ◌&&◌, Option, none, some, List, [], ◌∷◌, ◌++◌, String,
  str_eq, ltb, leb, ◌==◌, if◌then◌else◌, find, filter, any, length, Result, ok, err,
}
use trasker.Prelude.Int.{ℤ}
use trasker.Prelude.Sort.{sort_by}
use trasker.Store.Tables.{update_where}
use trasker.Server.Tables.{
  Timesheet, TimesheetEntry, ServerDb, Given, StoreError, not_found, failed, query,
}
use trasker.Server.Http.{
  Failure, Caller, ◌>>=◌, ◌>>◌, check, present, stored, answered, is_set, page, parse_pagination,
  limit_or_default,
}
use trasker.Server.Devices.{found, newest_first, get_device_by_client_id}

pub record CreateTimesheetEntryParams : Type 0 where
  pub tag : String
  pub started_at : ℕ
  pub ended_at : ℕ
  pub duration_s : ℤ
  pub notes : Option String
  pub app_summary : Option String

pub record CreateTimesheetParams : Type 0 where
  pub user_id : ℕ
  pub device_id : ℕ
  pub submitted_at : ℕ
  pub entries : List CreateTimesheetEntryParams

unfoldable pub new_timesheet : Given → CreateTimesheetParams → ServerDb → Timesheet
new_timesheet g p db = record {
  id = g.fresh_id db;
  user_id = p.user_id;
  device_id = p.device_id;
  submitted_at = p.submitted_at;
  created_at = g.now;
}

unfoldable pub new_entry : Given → ℕ → CreateTimesheetEntryParams → ServerDb → TimesheetEntry
new_entry g timesheet_id p db = record {
  id = g.fresh_id db;
  timesheet_id = timesheet_id;
  tag = p.tag;
  started_at = p.started_at;
  ended_at = p.ended_at;
  duration_s = p.duration_s;
  notes = p.notes;
  app_summary = p.app_summary;
}

abbrev pub add_row : TimesheetEntry → ServerDb → ServerDb
add_row e db = record db { timesheet_entries = db.timesheet_entries ++ e ∷ [] }

-- The loop of `CreateTimesheet`, whose statement with number `i` may fail.
unfoldable pub insert_entries :
    (ℕ → Bool)
    → Given
    → ℕ
    → List CreateTimesheetEntryParams
    → ℕ
    → ServerDb
    → Result StoreError (ServerDb × List TimesheetEntry)
unfolding new_entry
insert_entries fails g timesheet_id [] i db = ok (db, [])
insert_entries fails g timesheet_id (p ∷ ps) i db =
    let e = new_entry g timesheet_id p db in
    let rest = insert_entries fails g timesheet_id ps (suc i) (add_row e db) in
    if fails i then err failed else elim rest [ err x ↦ err x | ok (db', es) ↦ ok (db', e ∷ es) ]

-- One transaction: the result of an error is the database as it was. Its statements are numbered
-- from 1, and `fails 0` is that of the commit.
unfoldable pub create_timesheet :
    (ℕ → Bool)
    → Given
    → CreateTimesheetParams
    → ServerDb
    → Result StoreError (ServerDb × Timesheet × List TimesheetEntry)
unfolding new_timesheet insert_entries
create_timesheet fails g p db =
    let ts = new_timesheet g p db in
    let inserted =
      insert_entries fails g ts.id p.entries 2
        (record db { timesheets = db.timesheets ++ ts ∷ [] }) in
    if fails 1 then err failed else elim inserted [
      | err x ↦ err x
      | ok (db', es) ↦ if fails 0 then err failed else ok (db', ts, es)
    ]

-- `scan` is the order in which the database reads the rows, and leaves those of equal start.
unfoldable pub get_timesheet_by_id :
    (List TimesheetEntry → List TimesheetEntry)
    → Bool
    → ℕ
    → ServerDb
    → Result StoreError (Timesheet × List TimesheetEntry)
get_timesheet_by_id scan fails id db = query fails (elim (find (λ t. t.id == id) db.timesheets) [
  | none ↦ err not_found
  | some t ↦ ok (
    t,
    sort_by (λ e. e.started_at) (scan (filter (λ e. e.timesheet_id == id) db.timesheet_entries)),
  )
])

unfoldable pub list_timesheets_by_user :
    Bool → ℕ → ℕ → ℕ → ServerDb → Result StoreError (List Timesheet)
list_timesheets_by_user fails user_id limit offset db = query fails (
    ok (
      page (limit_or_default limit) offset
        (newest_first (λ t. t.submitted_at) (filter (λ t. t.user_id == user_id) db.timesheets))))

pub record TimesheetFilters : Type 0 where
  pub user_id : Option ℕ
  pub from : Option ℕ
  pub to : Option ℕ
  pub limit : ℕ
  pub offset : ℕ

-- A filter that is not given passes every row.
abbrev pub passes : {A : Type 0} → Option A → (A → Bool) → Bool
passes none test = true
passes (some a) test = test a

unfoldable pub matches_filters : TimesheetFilters → Timesheet → Bool
matches_filters f t =
    passes f.user_id (λ u. t.user_id == u)
    && passes f.from (λ a. leb a t.submitted_at)
    && passes f.to (λ b. leb t.submitted_at b)

unfoldable pub list_timesheets_all :
    Bool → TimesheetFilters → ServerDb → Result StoreError (List Timesheet)
unfolding matches_filters
list_timesheets_all fails f db = query fails (
    ok (
      page (limit_or_default f.limit) f.offset
        (newest_first (λ t. t.submitted_at) (filter (matches_filters f) db.timesheets))))

unfoldable pub delete_timesheet_entry : Bool → ℕ → ServerDb → Result StoreError ServerDb
delete_timesheet_entry fails id db = query fails (
    if any (λ e. e.id == id) db.timesheet_entries
    then ok (record db { timesheet_entries = filter (λ e. not (e.id == id)) db.timesheet_entries })
    else err not_found)

pub record UpdateTimesheetEntryParams : Type 0 where
  pub tag : Option String
  pub started_at : Option ℕ
  pub ended_at : Option ℕ
  pub duration_s : Option ℤ
  pub notes : Option String

abbrev pub given_or {ℓ} : {A : Type ℓ} → Option A → A → A
given_or none a = a
given_or (some b) a = b

abbrev pub some_or {ℓ} : {A : Type ℓ} → Option A → Option A → Option A
some_or none a = a
some_or (some b) a = some b

abbrev pub is_empty {ℓ} : {A : Type ℓ} → Option A → Bool
is_empty none = true
is_empty (some _) = false

-- The SET clauses, one for each field that is given.
unfoldable pub edited : UpdateTimesheetEntryParams → TimesheetEntry → TimesheetEntry
edited p e = record e {
  tag = given_or p.tag e.tag;
  started_at = given_or p.started_at e.started_at;
  ended_at = given_or p.ended_at e.ended_at;
  duration_s = given_or p.duration_s e.duration_s;
  notes = some_or p.notes e.notes;
}

unfoldable pub no_fields : UpdateTimesheetEntryParams → Bool
no_fields p =
    is_empty p.tag
    && is_empty p.started_at
    && is_empty p.ended_at
    && is_empty p.duration_s
    && is_empty p.notes

unfoldable pub update_timesheet_entry :
    Bool → ℕ → UpdateTimesheetEntryParams → ServerDb → Result StoreError (ServerDb × TimesheetEntry)
unfolding edited no_fields
update_timesheet_entry fails id p db =
    if no_fields p
    then err failed
    else query fails (elim (find (λ e. e.id == id) db.timesheet_entries) [
      | none ↦ err not_found
      | some e ↦ ok (
        record db {
          timesheet_entries = update_where (λ r. r.id == id) (edited p) db.timesheet_entries;
        },
        edited p e,
      )
    ])

unfoldable pub get_timesheet_entry_by_id : Bool → ℕ → ServerDb → Result StoreError TimesheetEntry
get_timesheet_entry_by_id fails id db =
    query fails (found (find (λ e. e.id == id) db.timesheet_entries))

-- An entry of a request: its instants are none where `time.Parse` fails.
pub record EntryReq : Type 0 where
  pub tag : String
  pub started_at : Option ℕ
  pub ended_at : Option ℕ
  pub duration_s : ℤ
  pub notes : String
  pub app_summary : String

pub record TimesheetReq : Type 0 where
  pub client_device_id : String
  pub entries : List EntryReq

abbrev pub text_or_null : String → Option String
text_or_null s = if str_eq s "" then none else some s

-- The loop that parses the entries.
unfoldable pub parse_entries : List EntryReq → Result Failure (List CreateTimesheetEntryParams)
parse_entries [] = ok []
parse_entries (e ∷ es) = do
  started_at ← present e.started_at 400 "invalid started_at format, use RFC3339"
  ended_at ← present e.ended_at 400 "invalid ended_at format, use RFC3339"
  rest ← parse_entries es
  ok (
      record {
        tag = e.tag;
        started_at = started_at;
        ended_at = ended_at;
        duration_s = e.duration_s;
        notes = text_or_null e.notes;
        app_summary = text_or_null e.app_summary;
      }
      ∷ rest)

abbrev pub has_any {ℓ} : {A : Type ℓ} → List A → Bool
has_any [] = false
has_any (_ ∷ _) = true

-- What the database does during the request: whether the lookup of the device fails, and the
-- statements of `CreateTimesheet`.
pub record Faults : Type 0 where
  pub lookup : Bool
  pub create : ℕ → Bool

-- `timesheetSubmitHandler`; the new timesheet and its entries make the answer.
unfoldable pub timesheet_submit :
    Faults
    → Given
    → Caller
    → Option TimesheetReq
    → ServerDb
    → Result Failure (ServerDb × Timesheet × List TimesheetEntry)
unfolding get_device_by_client_id parse_entries create_timesheet
timesheet_submit faults g caller body db = do
  user_id ← present caller.user_id 401 "not authenticated"
  api_key_id ← present caller.api_key_id 401 "no API key context"
  req ← present body 400 "invalid request body"
  check (is_set req.client_device_id) 400 "client_device_id is required"
  check (has_any req.entries) 400 "at least one entry is required"
  device ←
      stored (get_device_by_client_id faults.lookup req.client_device_id api_key_id db)
        (record { status = 400; error = "device not registered" })
        (record { status = 500; error = "failed to look up device" })
  entries ← parse_entries req.entries
  answered
      (create_timesheet faults.create g
        (record {
          user_id = user_id;
          device_id = device.id;
          submitted_at = g.now;
          entries = entries;
        })
        db)
      500 "failed to create timesheet"

-- `timesheetListOwnHandler`.
unfoldable pub timesheet_list_own :
    Bool → Caller → Option ℤ → Option ℤ → ServerDb → Result Failure (List Timesheet)
unfolding parse_pagination list_timesheets_by_user
timesheet_list_own fails caller limit offset db = do
  user_id ← present caller.user_id 401 "not authenticated"
  let p = parse_pagination limit offset
  answered (list_timesheets_by_user fails user_id p.0 p.1 db) 500 "failed to list timesheets"

-- `timesheetListTeamHandler`.
unfoldable pub timesheet_list_team :
    Bool → Option ℤ → Option ℤ → ServerDb → Result Failure (List Timesheet)
unfolding parse_pagination list_timesheets_all
timesheet_list_team fails limit offset db =
    let p = parse_pagination limit offset in
    answered
      (list_timesheets_all fails
        (record { user_id = none; from = none; to = none; limit = p.0; offset = p.1 }) db)
      500 "failed to list team timesheets"
