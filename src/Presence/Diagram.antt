-- ===== src/Presence/Diagram.antt =====
-- The state machine drawn in the comment of `PresenceDetector` (presence.go), against deadman.go.
use trasker.Prelude.{◌≡◌, Bool, true, false, some, List, [], ◌∷◌, arith, subst, ok}
use mathlib.Core.Option.{some-injective}
use trasker.Prelude.Int.{ℤ}
use trasker.Presence.Deadman.{
  State, tracking, checking, paused, Phase, waiting, counting, resuming, Deadman, Input, step, run,
  run-cons, new_deadman, begin_round, check_intervals,
}

-- The arrows of the diagram that the switch itself drives. A focus change while tracking reports
-- tracking again.
pub follows : State → State → Bool
follows tracking tracking = true
follows tracking checking = true
follows checking tracking = true
follows checking paused = true
follows paused tracking = true
follows _ _ = false

-- The newest state reported; tracking before any report.
abbrev pub latest : List State → State
latest [] = tracking
latest (s ∷ _) = s

-- Each report follows from the one before it.
abbrev pub IsHistory : List State → Type 0
IsHistory [] = Unit
IsHistory (s ∷ earlier) = (follows (latest earlier) s ≡ true) × IsHistory earlier

-- The report that goes with each select.
abbrev pub Reported : Phase → State → Type 0
Reported waiting s = s ≡ tracking
Reported counting s = s ≡ checking
Reported resuming s = s ≡ paused
Reported _ s = ⊥

pub record Inv (d : Deadman) : Type 0 where
  pub history : IsHistory d.emitted
  pub phase_reported : Reported d.phase (latest d.emitted)

step-cancelled :
    (d d' : Deadman) (i : Input) → step d i ≡ some d' → d'.cancelled ≡ false → d.cancelled ≡ false
unfolding step
step-cancelled d d' i e c = ground arith

run-cancelled :
    (d d' : Deadman) (is : List Input)
    → run d is ≡ some d'
    → d'.cancelled ≡ false
    → d.cancelled ≡ false
unfolding run
run-cancelled d d' [] e c = ground arith
run-cancelled d d' (i ∷ is) e c =
    let (m, s, r) = run-cons d d' i is e in step-cancelled d m i s (run-cancelled m d' is r c)

-- One step keeps the reports in line with the diagram and with the select at which the loop stands.
pub step-Inv :
    (d d' : Deadman) (i : Input) → Inv d → d.cancelled ≡ false → step d i ≡ some d' → Inv d'
unfolding step follows
step-Inv d d' i v c e = ground arith

run-Inv :
    (d d' : Deadman) (is : List Input) → Inv d → run d is ≡ some d' → d'.cancelled ≡ false → Inv d'
unfolding run
run-Inv d d' [] v e c = subst Inv (some-injective _ _ e) v
run-Inv d d' (i ∷ is) v e c =
    let (m, s, r) = run-cons d d' i is e in
    run-Inv m d' is (step-Inv d m i v (step-cancelled d m i s (run-cancelled m d' is r c)) s) r c

new_deadman-Inv :
    (ds : List ℤ) (countdown : ℤ) (d : Deadman) → new_deadman ds countdown ≡ ok d → Inv d
unfolding new_deadman begin_round check_intervals
new_deadman-Inv [] countdown d e = cc
new_deadman-Inv (x ∷ ds) countdown d e = ground (arith)

-- From a new switch, through any calls and any choices of the selects, for as long as it has not
-- been cancelled: the reports follow the arrows of the diagram, and the newest one tells at which
-- select the loop stands (tracking at the interval, checking at the countdown, paused in
-- `waitForResume`).
pub run_follows_diagram :
    (ds : List ℤ) (countdown : ℤ) (d d' : Deadman) (is : List Input)
    → new_deadman ds countdown ≡ ok d
    → run d is ≡ some d'
    → d'.cancelled ≡ false
    → IsHistory d'.emitted × Reported d'.phase (latest d'.emitted)
run_follows_diagram ds countdown d d' is e r c =
    let v = run-Inv d d' is (new_deadman-Inv ds countdown d e) r c in (v.history, v.phase_reported)
