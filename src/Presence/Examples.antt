-- ===== src/Presence/Examples.antt =====
-- A switch of two intervals, through a check that is answered and one that is missed.
use trasker.Prelude.{◌≡◌, refl, false, some, List, [], ◌∷◌, arith}
use trasker.Prelude.Int.{ℤ, pos}
use trasker.Presence.Deadman.{
  tracking, checking, paused, waiting, resuming, Deadman, Input, acknowledge, take_ack, timer_fires,
  countdown_expires, new_deadman, run, step,
}
use trasker.Presence.Diagram.{IsHistory, Reported, latest, run_follows_diagram}
use trasker.Presence.Tiers.{answered, run-answered}

abbrev two_intervals : List ℤ
two_intervals = pos 1800 ∷ pos 2700 ∷ []

abbrev switch_of_two : Deadman
switch_of_two = record {
  intervals = two_intervals;
  countdown_duration = pos 90;
  tier = 0;
  phase = waiting;
  timer = some (pos 1800);
  ack_pending = false;
  reset_pending = false;
  cancelled = false;
  emitted = [];
}

abbrev inputs : List Input
inputs = timer_fires ∷ acknowledge ∷ take_ack ∷ timer_fires ∷ countdown_expires ∷ []

abbrev after_miss : Deadman
after_miss = record switch_of_two {
  tier = 1;
  phase = resuming;
  timer = some (pos 2700);
  emitted = paused ∷ checking ∷ tracking ∷ checking ∷ [];
}

run_follows_diagram_example :
    IsHistory after_miss.emitted × Reported after_miss.phase (latest after_miss.emitted)
unfolding new_deadman run step
run_follows_diagram_example =
    run_follows_diagram two_intervals (pos 90) switch_of_two after_miss inputs refl refl refl

run-answered_example :
    (d' : Deadman) × (run switch_of_two (answered 3) ≡ some d')
    × (d'.phase ≡ waiting)
    × (d'.tier ≡ 1)
    × (d'.timer ≡ some (pos 2700))
run-answered_example = run-answered 3 switch_of_two refl (omega arith) refl
