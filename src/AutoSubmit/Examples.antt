-- ===== src/AutoSubmit/Examples.antt =====
-- A store in which auto-submit has never been set up, turned on every two hours.
use trasker.Prelude.{ℕ, ◌+◌, ◌≡◌, refl, false, true, none, some, [], ◌∷◌, arith}
use trasker.Prelude.Int.{pos}
use trasker.Prelude.Sort.{sort_by}
use trasker.Store.Tables.{FocusEvent, manual, Db}
use trasker.AutoSubmit.{
  valid_interval, load, run_once, enabled, is_run_due, save, upsert, save_tags,
}
use trasker.AutoSubmit.Runs.{Ran, run_once-Ran}
use trasker.AutoSubmit.Saved.{Cycle, save-Cycle}

abbrev never_set_up : Db
never_set_up = record {
  focus_events = [];
  tags = record { id = 1; name = "dev"; color = "#fff"; created_at = 5 } ∷ [];
  event_tags = [];
  notes = [];
  submissions = [];
  submission_events = [];
  auto_submit_config = none;
  auto_submit_tags = [];
  enforces = λ i. true;
}

abbrev turned_on : Db
turned_on = record never_set_up {
  auto_submit_config =
      some (record { interval_hours = 2; enabled_at = some 7000; last_run = some 7000 });
  auto_submit_tags = 1 ∷ [];
  enforces = λ i. true;
}

save-Cycle_example : (valid_interval 2 ≡ true) × Cycle 2 7000 (load never_set_up) (load turned_on)
unfolding save valid_interval upsert save_tags
save-Cycle_example = save-Cycle 2 7000 (1 ∷ []) never_set_up turned_on refl

abbrev event : ℕ → ℕ → FocusEvent
event id from = record {
  id = id;
  app_name = "editor";
  window_title = "main.go";
  started_at = from;
  ended_at = some (from + 60);
  duration_s = some (pos 60);
  is_idle = false;
  created_at = from;
}

-- One event from before the cutoff, and one after it; both carry the ticked tag.
abbrev one_eligible : Db
one_eligible = record turned_on {
  focus_events = event 1 6000 ∷ event 2 8000 ∷ [];
  event_tags =
      record { event_id = 1; tag_id = 1; source = manual; cascade_from = none }
      ∷ record { event_id = 2; tag_id = 1; source = manual; cascade_from = none }
      ∷ [];
}

run_once-Ran_example : Ran 20000 20001 7000 one_eligible (run_once 20000 20001 one_eligible)
unfolding load enabled is_run_due sort_by
run_once-Ran_example =
    run_once-Ran 20000 20001 7000 one_eligible tt (λ i. ground arith) refl refl refl refl
