-- ===== src/Server/Reports.antt =====
-- internal/server/store/reports.go and internal/server/api/report_handlers.go.
pub mod Tags
pub mod Agree
pub mod Examples
use trasker.Prelude.{
  ℕ, suc, ◌+◌, Bool, true, false, ◌&&◌, Option, none, some, List, [], ◌∷◌, String, str_eq, leb,
  ◌==◌, if◌then◌else◌, find, filter, map, Result, ok, err,
}
use trasker.Prelude.Int.{ℤ, ◌+ℤ◌, le_ℤ}
use trasker.Prelude.Sort.{sort_by}
use trasker.Server.Tables.{User, Timesheet, TimesheetEntry, ServerDb, StoreError, query}
use trasker.Server.Http.{Failure, ◌>>=◌, ◌>>◌, check, present, answered}
use trasker.Server.Timesheets.{passes}

pub record ReportSummaryRow : Type 0 where
  pub tag : String
  pub total_duration_s : ℤ
  pub entry_count : ℕ

pub record ReportFilters : Type 0 where
  pub user_id : Option ℕ
  pub from : Option ℕ
  pub to : Option ℕ

-- A row of the join of entries and timesheets.
pub record Reported : Type 0 where
  pub entry : TimesheetEntry
  pub sheet : Timesheet

abbrev pub with_sheet : TimesheetEntry → Option Timesheet → List Reported → List Reported
with_sheet e none rows = rows
with_sheet e (some t) rows = record { entry = e; sheet = t } ∷ rows

unfoldable pub join_sheets : List Timesheet → List TimesheetEntry → List Reported
join_sheets sheets [] = []
join_sheets sheets (e ∷ entries) =
    with_sheet e (find (λ t. t.id == e.timesheet_id) sheets) (join_sheets sheets entries)

-- The conditions that both queries add.
unfoldable pub matches_report : ReportFilters → Reported → Bool
matches_report f r =
    passes f.user_id (λ u. r.sheet.user_id == u)
    && passes f.from (λ a. leb a r.entry.started_at)
    && passes f.to (λ b. leb r.entry.ended_at b)

unfoldable pub report_rows : ReportFilters → ServerDb → List Reported
unfolding join_sheets matches_report
report_rows f db = filter (matches_report f) (join_sheets db.timesheets db.timesheet_entries)

-- GROUP BY with SUM and COUNT.
unfoldable pub add_to_summary : TimesheetEntry → List ReportSummaryRow → List ReportSummaryRow
add_to_summary e [] = record { tag = e.tag; total_duration_s = e.duration_s; entry_count = 1 } ∷ []
add_to_summary e (r ∷ rows) =
    let rest = add_to_summary e rows in
    if str_eq r.tag e.tag
    then record r {
      total_duration_s = r.total_duration_s +ℤ e.duration_s;
      entry_count = suc r.entry_count;
    }
      ∷ rows
    else r ∷ rest

unfoldable pub summarize : List Reported → List ReportSummaryRow → List ReportSummaryRow
unfolding add_to_summary
summarize [] rows = rows
summarize (x ∷ xs) rows = summarize xs (add_to_summary x.entry rows)

-- ORDER BY total_duration_s DESC.
unfoldable pub insert_summary : ReportSummaryRow → List ReportSummaryRow → List ReportSummaryRow
insert_summary r [] = r ∷ []
insert_summary r (s ∷ rows) =
    let rest = insert_summary r rows in
    if le_ℤ s.total_duration_s r.total_duration_s then r ∷ s ∷ rows else s ∷ rest

unfoldable pub longest_first : List ReportSummaryRow → List ReportSummaryRow
unfolding insert_summary
longest_first [] = []
longest_first (r ∷ rows) = insert_summary r (longest_first rows)

unfoldable pub get_report_summary :
    Bool → ReportFilters → ServerDb → Result StoreError (List ReportSummaryRow)
unfolding report_rows summarize longest_first
get_report_summary fails f db = query fails (ok (longest_first (summarize (report_rows f db) [])))

pub record ReportExportRow : Type 0 where
  pub user_email : String
  pub display_name : String
  pub tag : String
  pub started_at : ℕ
  pub ended_at : ℕ
  pub duration_s : ℤ
  pub notes : Option String
  pub app_summary : Option String
  pub submitted_at : ℕ

unfoldable pub export_row : User → Reported → ReportExportRow
export_row u r = record {
  user_email = u.email;
  display_name = u.display_name;
  tag = r.entry.tag;
  started_at = r.entry.started_at;
  ended_at = r.entry.ended_at;
  duration_s = r.entry.duration_s;
  notes = r.entry.notes;
  app_summary = r.entry.app_summary;
  submitted_at = r.sheet.submitted_at;
}

abbrev pub with_user : Reported → Option User → List ReportExportRow → List ReportExportRow
unfolding export_row
with_user r none rows = rows
with_user r (some u) rows = export_row u r ∷ rows

unfoldable pub join_users : List User → List Reported → List ReportExportRow
unfolding with_user
join_users users [] = []
join_users users (r ∷ rows) =
    with_user r (find (λ u. u.id == r.sheet.user_id) users) (join_users users rows)

unfoldable pub get_report_export :
    Bool → ReportFilters → ServerDb → Result StoreError (List ReportExportRow)
unfolding report_rows join_users
get_report_export fails f db =
    query fails (ok (sort_by (λ r. r.started_at) (join_users db.users (report_rows f db))))

-- The parameters of the URL: none if it is absent or empty, some none if it does not parse.
pub record Query : Type 0 where
  pub user_id : Option (Option ℕ)
  pub from : Option (Option ℕ)
  pub to : Option (Option ℕ)

unfoldable pub parsed : Option (Option ℕ) → String → Result Failure (Option ℕ)
parsed none message = ok none
parsed (some none) message = err (record { status = 400; error = message })
parsed (some (some v)) message = ok (some v)

unfoldable pub parse_report_filters : Query → Result Failure ReportFilters
unfolding parsed
parse_report_filters q = do
  user_id ← parsed q.user_id "invalid user_id: must be a valid UUID"
  from ← parsed q.from "invalid from: must be RFC3339 format"
  to ← parsed q.to "invalid to: must be RFC3339 format"
  ok (record { user_id = user_id; from = from; to = to })

-- What fmt and time print: a number, a number of seconds in hours, and an instant.
pub record Formats : Type 0 where
  pub decimal : ℤ → String
  pub hours : ℤ → String
  pub rfc3339 : ℕ → String

-- `reportSummaryHandler`: the rows, each with its hours.
unfoldable pub report_summary :
    Formats → Bool → Query → ServerDb → Result Failure (List (ReportSummaryRow × String))
unfolding parse_report_filters get_report_summary
report_summary p fails q db = do
  filters ← parse_report_filters q
  summary ← answered (get_report_summary fails filters db) 500 "failed to generate summary"
  ok (map (λ (r : ReportSummaryRow). (r, p.hours r.total_duration_s)) summary)

abbrev pub text_of : Option String → String
text_of none = ""
text_of (some s) = s

unfoldable pub csv_record : Formats → ReportExportRow → List String
csv_record p r =
    r.user_email
    ∷ r.display_name
    ∷ r.tag
    ∷ p.rfc3339 r.started_at
    ∷ p.rfc3339 r.ended_at
    ∷ p.decimal r.duration_s
    ∷ p.hours r.duration_s
    ∷ text_of r.notes
    ∷ text_of r.app_summary
    ∷ p.rfc3339 r.submitted_at
    ∷ []

abbrev pub csv_header : List String
csv_header =
    "Email" ∷ "Name" ∷ "Tag" ∷ "Started" ∷ "Ended" ∷ "Duration (s)" ∷ "Duration (h)" ∷ "Notes"
    ∷ "App Summary" ∷ "Submitted" ∷ []

-- `reportExportHandler`: the records that it writes.
unfoldable pub report_export :
    Formats → Bool → Query → ServerDb → Result Failure (List (List String))
unfolding parse_report_filters get_report_export csv_record
report_export p fails q db = do
  filters ← parse_report_filters q
  rows ← answered (get_report_export fails filters db) 500 "failed to generate export"
  ok (csv_header ∷ map (csv_record p) rows)
