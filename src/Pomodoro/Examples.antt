-- ===== src/Pomodoro/Examples.antt =====
-- A timer of the default times through its work phase, and one whose work was cancelled too late.
use trasker.Prelude.{◌≡◌, ◌≤◌, refl, true, false, none, some, List, [], ◌∷◌, length, All}
use trasker.Prelude.Int.{pos}
use trasker.Pomodoro.{
  idle, work, break, paused, default_config, Timer, Event, start_called, cancel_called, wait, arm,
  elapse, take, elapsed, started, gone, new_timer, step, run,
}
use trasker.Pomodoro.Invariant.{follows}
use trasker.Pomodoro.Machine.{run-Sound}
use trasker.Pomodoro.Stale.{stale_timer_ends_new_work}

abbrev fresh_timer : Timer
fresh_timer = record {
  state = idle;
  config = default_config;
  tag_id = none;
  started_at = none;
  end_at = none;
  changes = [];
  stop_ch = none;
  ticking = false;
  closed = [];
  waiters = [];
  now = 0;
  panicked = false;
}

abbrev one_pomodoro : List Event
one_pomodoro = start_called (some 3) ∷ arm 0 ∷ wait 1500 ∷ elapse 0 ∷ take 0 ∷ []

abbrev at_break : Timer
at_break = record {
  state = break;
  config = default_config;
  tag_id = some 3;
  started_at = some 1500;
  end_at = some 1800;
  changes =
      record { from = idle; to = work; remaining = some (pos 1500); tag_id = some 3 }
      ∷ record { from = work; to = break; remaining = some (pos 300); tag_id = some 3 }
      ∷ [];
  stop_ch = some 1;
  ticking = true;
  closed = 0 ∷ [];
  waiters = record { phase = work; stage = gone } ∷ record { phase = break; stage = started } ∷ [];
  now = 1500;
  panicked = false;
}

run-Sound_example :
    (at_break.panicked ≡ false)
    × (at_break.state ≡ paused → ⊥)
    × (length at_break.changes ≤ 16)
    × All (λ x. follows x.from x.to ≡ true) at_break.changes
unfolding new_timer run step
run-Sound_example = run-Sound default_config 0 fresh_timer at_break one_pomodoro refl refl

-- The work phase has run out, and its goroutine waits for the mutex.
abbrev work_over : Timer
work_over = record at_break {
  state = work;
  started_at = some 0;
  end_at = some 1500;
  stop_ch = some 0;
  changes = record { from = idle; to = work; remaining = some (pos 1500); tag_id = some 3 } ∷ [];
  closed = [];
  waiters = record { phase = work; stage = elapsed } ∷ [];
}

-- A new timer gets there.
work_over-reached :
    run fresh_timer (start_called (some 3) ∷ arm 0 ∷ wait 1500 ∷ elapse 0 ∷ []) ≡ some work_over
unfolding run step
work_over-reached = refl

stale_timer_ends_new_work_example :
    (t' : Timer) × (run work_over (cancel_called ∷ start_called (some 4) ∷ take 0 ∷ []) ≡ some t')
    × (t'.state ≡ break)
    × (t'.now ≡ 1500)
stale_timer_ends_new_work_example = stale_timer_ends_new_work work_over 0 (some 4) refl
