-- ===== src/Engine/Examples.antt =====
-- Runs of the engine on an empty store.
use trasker.Prelude.{ℕ, ◌≡◌, ◌≤◌, refl, true, false, none, some, List, [], ◌∷◌, String, All, arith}
use trasker.Store.Tables.{FocusEvent, Db}
use trasker.Store.FocusEvents.{ended}
use trasker.Presence.Deadman.{paused, tracking}
use trasker.Engine.{Engine, FocusChange, focus, presence, done, new_engine, run}
use trasker.Engine
use trasker.Engine.OpenEvents.{count_open, RowOk, run_open_events}
use trasker.Engine.Faults.{row, failed_insert_extends}

abbrev empty_store : Db
empty_store = record {
  focus_events = [];
  tags = [];
  event_tags = [];
  notes = [];
  submissions = [];
  submission_events = [];
  auto_submit_config = none;
  auto_submit_tags = [];
  enforces = λ i. true;
}

abbrev to_app : String → ℕ → FocusChange
to_app app t = record { app_name = app; window_title = "window"; timestamp = t }

abbrev inputs : List Engine.Input
inputs =
    focus true true 100 (to_app "editor" 100)
    ∷ focus true true 160 (to_app "browser" 160)
    ∷ presence true 400 paused
    ∷ focus true true 500 (to_app "editor" 500)
    ∷ presence true 600 tracking
    ∷ focus true true 610 (to_app "editor" 610)
    ∷ []

run_open_events_example :
    (count_open (run inputs (new_engine empty_store)).db.focus_events ≤ 1)
    × All
        (RowOk (run inputs (new_engine empty_store)).current_event_id)
        (run inputs (new_engine empty_store)).db.focus_events
    × ((run inputs (new_engine empty_store)).is_paused ≡ true
        → count_open (run inputs (new_engine empty_store)).db.focus_events ≡ 0)
run_open_events_example =
    run_open_events empty_store inputs refl (refl, (refl, (refl, (refl, (refl, (refl, tt))))))

abbrev editing : FocusEvent
editing = record {
  id = 1;
  app_name = "editor";
  window_title = "window";
  started_at = 100;
  ended_at = none;
  duration_s = none;
  is_idle = false;
  created_at = 100;
}

abbrev engine_editing : Engine
engine_editing = record {
  db = record empty_store { focus_events = editing ∷ [] };
  current_event_id = 1;
  is_paused = false;
}

failed_insert_extends_example :
    row 1
      (run
        (focus true false 160 (to_app "browser" 160) ∷ focus true true 400 (to_app "mail" 400) ∷ [])
        engine_editing).db.focus_events
    ≡ some (ended 400 editing)
failed_insert_extends_example =
    failed_insert_extends engine_editing editing 160 400 (to_app "browser" 160) (to_app "mail" 400)
      refl (omega arith) refl
