-- ===== src/Sync/Examples.antt =====
-- One submission of one event with a tag, a server that refuses the key, and two lists of entries.
use mathlib.Core.List.Perm
use mathlib.Core.List.{Memᴰ}
use trasker.Prelude.{
  ℕ, inr, ◌+◌, ◌≡◌, refl, true, false, none, some, List, [], ◌∷◌, String, str_eq, Result, ok, err,
  arith,
}
use trasker.Prelude.Int.{pos}
use trasker.Prelude.Sort.{sort_by}
use trasker.Prelude.Perm.{total}
use trasker.Store.Tables.{
  FocusEvent, manual, auto_rule, Submission, Db, pending, next_rowid, has_row,
}
use trasker.Sync.Entries.{
  TimesheetEntry, left_join, tag_name, duration_of, linked_events, load_submission_entries,
}
use trasker.Sync.Aggregate.{aggregate}
use trasker.Sync.Aggregate.Totals.{tag_total, aggregate-tag_total}
use trasker.Sync.Auth.{SyncError, key_expired, Response, submit_timesheet, is_permanent}
use trasker.Sync.Auth.Classified.{Explains, submit_timesheet-Explains}
use trasker.Sync.Queue.{World, is_due, list_due_submissions, process_one, process_pending}
use trasker.Sync.Queue.Backoff.{permanent_error_retried}
use trasker.Sync.Queue.Outcomes.{Passed, process_pending-Passed}
use trasker.Sync.Queue.Delivered.{IsConfirmed, process_pending-IsConfirmed}
use trasker.Sync.Queue.Double.{times, copies, duration, load_submission_entries-total}
use trasker.Sync.Submit.{submit_events}
use trasker.Sync.Submit.Links.{submitted, submit_events-ok}

abbrev event : ℕ → ℕ → ℕ → FocusEvent
event id from seconds = record {
  id = id;
  app_name = "editor";
  window_title = "main.go";
  started_at = from;
  ended_at = some (from + seconds);
  duration_s = some (pos seconds);
  is_idle = false;
  created_at = from;
}

abbrev waiting_submission : Submission
waiting_submission = record {
  id = 1;
  server_id = none;
  submitted_at = 500;
  status = pending;
  retry_count = 0;
  last_retry = none;
}

abbrev store_of_one : Db
store_of_one = record {
  focus_events = event 1 100 60 ∷ event 2 200 30 ∷ [];
  tags = record { id = 1; name = "dev"; color = "#fff"; created_at = 5 } ∷ [];
  event_tags = record { event_id = 1; tag_id = 1; source = manual; cascade_from = none } ∷ [];
  notes = [];
  submissions = waiting_submission ∷ [];
  submission_events = record { submission_id = 1; event_id = 1 } ∷ [];
  auto_submit_config = none;
  auto_submit_tags = [];
  enforces = λ i. true;
}

-- A server with one answer, and Go taking equal things in the order given.
abbrev answering : Result SyncError String → World
answering r = record {
  shuffle = λ es. es;
  server = λ id es. r;
  clock = λ id. 1000;
  ended = λ id. false;
}

process_pending-Passed_example :
    Passed
      (answering (ok "s1"))
      store_of_one
      (process_pending (answering (ok "s1")) 1000 store_of_one)
process_pending-Passed_example = process_pending-Passed (answering (ok "s1")) 1000 store_of_one

abbrev dev_entry : TimesheetEntry
dev_entry = record {
  tag = "dev";
  started_at = 100;
  ended_at = some 160;
  duration_s = pos 60;
  notes = "";
}

permanent_error_retried_example :
    (process_one (answering (err key_expired)) waiting_submission store_of_one ≡ store_of_one)
    × Memᴰ waiting_submission (
        list_due_submissions 1060
          (process_one (answering (err key_expired)) waiting_submission store_of_one))
unfolding load_submission_entries is_due sort_by left_join tag_name
permanent_error_retried_example =
    permanent_error_retried (answering (err key_expired)) waiting_submission store_of_one dev_entry
      [] key_expired 1000 1060 (Memᴰ.head refl) refl refl refl refl refl (omega arith)

-- The event with a second tag.
abbrev tagged_twice : Db
tagged_twice = record store_of_one {
  event_tags =
      record { event_id = 1; tag_id = 1; source = manual; cascade_from = none }
      ∷ record { event_id = 1; tag_id = 2; source = auto_rule; cascade_from = none }
      ∷ [];
}

load_submission_entries-total_example :
    total duration (load_submission_entries 1 tagged_twice)
    ≡ total (λ fe. times (copies tagged_twice fe) (duration_of fe)) (linked_events 1 tagged_twice)
load_submission_entries-total_example = load_submission_entries-total 1 tagged_twice

abbrev three_entries : List TimesheetEntry
three_entries =
    dev_entry
    ∷ record {
      tag = "mail";
      started_at = 50;
      ended_at = some 90;
      duration_s = pos 40;
      notes = "inbox";
    }
    ∷ record {
      tag = "dev";
      started_at = 10;
      ended_at = some 30;
      duration_s = pos 20;
      notes = "fix";
    }
    ∷ []

aggregate-tag_total_example :
    tag_total "dev" (aggregate (λ es. es) three_entries) ≡ tag_total "dev" three_entries
aggregate-tag_total_example =
    aggregate-tag_total (λ es. es) (λ es. Perm.refl es) "dev" three_entries

submit_events-ok_example :
    submit_events (2 ∷ 1 ∷ []) 900 store_of_one
    ≡ ok (submitted (2 ∷ 1 ∷ []) 900 store_of_one, next_rowid (λ s. s.id) store_of_one.submissions)
unfolding has_row
submit_events-ok_example =
    submit_events-ok (2 ∷ 1 ∷ []) 900 store_of_one (refl, tt) (refl, refl, (refl, refl, tt))

abbrev refusal : Response
refusal = record { status_code = 401; error_contains = λ s. str_eq s "expired"; decoded_id = none }

submit_timesheet-Explains_example : (is_permanent key_expired ≡ true) × Explains key_expired refusal
unfolding submit_timesheet
submit_timesheet-Explains_example = submit_timesheet-Explains refusal key_expired refl

process_pending-IsConfirmed_example :
    IsConfirmed 1 (process_pending (answering (ok "s1")) 1000 store_of_one)
unfolding list_due_submissions sort_by is_due
process_pending-IsConfirmed_example =
    process_pending-IsConfirmed (answering (ok "s1")) 1000 waiting_submission store_of_one
      (λ i. refl) (Memᴰ.head refl) (inr ("s1", refl))
