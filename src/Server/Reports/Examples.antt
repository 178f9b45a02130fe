-- ===== src/Server/Reports/Examples.antt =====
-- The reports of a server with three entries of two tags.
use trasker.Prelude.{◌≡◌, refl, none, some, List, [], ◌∷◌}
use trasker.Prelude.Int.{pos, ◌+ℤ◌}
use trasker.Prelude.Sort.{sort_by}
use trasker.Prelude.Perm.{total}
use trasker.Server.Tables.{TimesheetEntry, ServerDb}
use trasker.Server.Examples.{work, small_server}
use trasker.Server.Reports.{
  ReportSummaryRow, ReportFilters, ReportExportRow, get_report_summary, get_report_export,
}
use trasker.Server.Reports.Tags.{DistinctTags}
use trasker.Server.Reports.Agree.{of_tag, summary-export}

abbrev more_work : TimesheetEntry
more_work = record work { id = 21; started_at = 200; ended_at = 300; duration_s = pos 100 }

abbrev mail : TimesheetEntry
mail = record work { id = 22; tag = "mail"; started_at = 170; ended_at = 190; duration_s = pos 20 }

-- This one is before the time of the report.
abbrev early : TimesheetEntry
early = record work { id = 23; started_at = 10; ended_at = 20; duration_s = pos 10 }

abbrev busy_server : ServerDb
busy_server = record small_server { timesheet_entries = mail ∷ work ∷ early ∷ more_work ∷ [] }

abbrev filters : ReportFilters
filters = record { user_id = some 1; from = some 50; to = none }

abbrev summary : List ReportSummaryRow
summary =
    record { tag = "dev"; total_duration_s = pos 160; entry_count = 2 }
    ∷ record { tag = "mail"; total_duration_s = pos 20; entry_count = 1 }
    ∷ []

abbrev exported : TimesheetEntry → ReportExportRow
exported e = record {
  user_email = "anna@example.org";
  display_name = "Anna";
  tag = e.tag;
  started_at = e.started_at;
  ended_at = e.ended_at;
  duration_s = e.duration_s;
  notes = none;
  app_summary = none;
  submitted_at = 200;
}

abbrev export : List ReportExportRow
export = exported work ∷ exported mail ∷ exported more_work ∷ []

summary-export_example :
    (total (λ (r : ReportSummaryRow). of_tag "dev" r.tag r.total_duration_s) summary
      ≡ total (λ (r : ReportExportRow). of_tag "dev" r.tag r.duration_s) export)
    × (total (λ (r : ReportSummaryRow). of_tag "dev" r.tag (pos r.entry_count)) summary
        ≡ total (λ (r : ReportExportRow). of_tag "dev" r.tag (pos 1)) export)
    × DistinctTags summary
unfolding get_report_summary get_report_export sort_by ◌+ℤ◌
summary-export_example =
    summary-export filters busy_server summary export "dev" (refl, tt) refl refl
