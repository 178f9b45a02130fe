-- ===== src/Cascade/Examples.antt =====
-- A store with three events, one of them submitted.
use trasker.Prelude.{ℕ, refl, true, false, none, some, [], ◌∷◌}
use trasker.Prelude.Int.{pos}
use trasker.Store.Tables.{FocusEvent, Db, confirmed, has_row}
use trasker.Store.FocusEvents.{get_focus_event}
use trasker.Cascade.{apply}
use trasker.Cascade.Applied.{Applied, apply-Applied}

abbrev event : ℕ → ℕ → ℕ → FocusEvent
event id from to = record {
  id = id;
  app_name = "editor";
  window_title = "main.go";
  started_at = from;
  ended_at = some to;
  duration_s = some (pos 60);
  is_idle = false;
  created_at = from;
}

abbrev store_of_three : Db
store_of_three = record {
  focus_events = event 1 10000 10060 ∷ event 2 11000 11060 ∷ event 3 12000 12060 ∷ [];
  tags = record { id = 1; name = "dev"; color = "#fff"; created_at = 5 } ∷ [];
  event_tags = [];
  notes = [];
  submissions =
      record {
        id = 1;
        server_id = some "s1";
        submitted_at = 11500;
        status = confirmed;
        retry_count = 0;
        last_retry = none;
      }
      ∷ [];
  submission_events = record { submission_id = 1; event_id = 2 } ∷ [];
  auto_submit_config = none;
  auto_submit_tags = [];
  enforces = λ i. true;
}

apply-Applied_example : Applied store_of_three 1 1 10000 (apply 1 1 store_of_three)
unfolding get_focus_event has_row
apply-Applied_example = apply-Applied 1 1 store_of_three (event 1 10000 10060) refl refl
