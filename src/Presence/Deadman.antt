-- ===== src/Presence/Deadman.antt =====
-- internal/client/presence/presence.go (State) and deadman.go: the deadman's switch.
-- The loop of `loop` and `waitForResume` is cut at its `select` statements: `phase` says at which
-- select the goroutine stands, and an `Input` is either a call from outside (`acknowledge`, `reset`,
-- `cancel`) or the branch that the select takes. A branch whose channel is not ready gives `none`.
-- The one-slot channels `ackCh` and `resetCh` are the flags `ack_pending` and `reset_pending`.
-- What `emit` sends is kept newest first; the reader of the channel keeps up with it.
use trasker.Prelude.{
  ℕ, suc, ◌+◌, ◌-◌, ◌*◌, ◌≡◌, refl, Bool, true, false, Option, none, some, List, [], ◌∷◌, length,
  get_elem?, ltb, leb, if◌then◌else◌, Result, ok, err,
}
use trasker.Prelude.Int.{ℤ, pos, is_positive}

pub data State : Type 0 where
  tracking checking paused away : State

pub data ConfigError : Type 0 where
  empty_intervals : ConfigError
  bad_interval : ℕ → ℤ → ConfigError
  bad_countdown : ℤ → ConfigError

-- The select at which the goroutine waits: for the interval, for the countdown, in
-- `waitForResume`, or none (it has returned).
pub data Phase : Type 0 where
  waiting counting resuming stopped : Phase

pub record Deadman : Type 0 where
  pub intervals : List ℤ
  pub countdown_duration : ℤ
  pub tier : ℕ
  pub phase : Phase
  -- The duration of the timer made at the head of the loop.
  pub timer : Option ℤ
  pub ack_pending : Bool
  pub reset_pending : Bool
  pub cancelled : Bool
  pub emitted : List State

-- The loop over `intervals`: the first duration that is not positive is refused.
unfoldable pub check_intervals : ℕ → List ℤ → Option ConfigError
check_intervals i [] = none
check_intervals i (d ∷ ds) =
    if is_positive d then check_intervals (suc i) ds else some (bad_interval i d)

-- `none` is the panic of an index out of range.
unfoldable pub current_interval : List ℤ → ℕ → Option ℤ
current_interval intervals tier =
    if leb (length intervals) tier
    then get_elem? intervals (length intervals - 1)
    else get_elem? intervals tier

-- The head of the loop: a timer over the interval of the present tier.
unfoldable pub begin_round : Deadman → Deadman
unfolding current_interval
begin_round d = record d { phase = waiting; timer = current_interval d.intervals d.tier }

-- `NewDeadman`, and the first round that `Start` begins.
unfoldable pub new_deadman : List ℤ → ℤ → Result ConfigError Deadman
unfolding check_intervals begin_round
new_deadman [] countdown = err empty_intervals
new_deadman (d ∷ ds) countdown = elim (check_intervals 0 (d ∷ ds)) [
  | some e ↦ err e
  | none ↦
      if is_positive countdown
      then ok (
          begin_round (record {
            intervals = d ∷ ds;
            countdown_duration = countdown;
            tier = 0;
            phase = waiting;
            timer = none;
            ack_pending = false;
            reset_pending = false;
            cancelled = false;
            emitted = [];
          }))
      else err (bad_countdown countdown)
]

pub data Input : Type 0 where
  acknowledge reset cancel : Input
  take_done take_reset take_ack timer_fires countdown_expires : Input

abbrev pub emit : State → Deadman → Deadman
emit s d = record d { emitted = s ∷ d.emitted }

-- A focus change, or any resumption: the tier falls back to the first.
abbrev pub resume_first_tier : Deadman → Deadman
resume_first_tier d = begin_round (emit tracking (record d { tier = 0 }))

abbrev pub escalate : Deadman → Deadman
escalate d = begin_round (
    emit tracking
      (record d { tier = if ltb d.tier (length d.intervals - 1) then d.tier + 1 else d.tier }))

abbrev when_ready {ℓ} : {A : Type ℓ} → Bool → A → Option A
when_ready true a = some a
when_ready false a = none

dispatch : Phase → Input → Deadman → Option Deadman
unfolding begin_round
dispatch _ acknowledge d = some (record d { ack_pending = true })
dispatch _ reset d = some (record d { reset_pending = true })
dispatch _ cancel d = some (record d { cancelled = true })
dispatch waiting take_done d = when_ready d.cancelled (record d { phase = stopped })
dispatch waiting take_reset d =
    when_ready d.reset_pending (resume_first_tier (record d { reset_pending = false }))
dispatch waiting timer_fires d = some (emit checking (record d { phase = counting }))
dispatch counting take_done d = when_ready d.cancelled (record d { phase = stopped })
dispatch counting take_ack d =
    when_ready d.ack_pending (escalate (record d { ack_pending = false }))
dispatch counting take_reset d =
    when_ready d.reset_pending (resume_first_tier (record d { reset_pending = false }))
dispatch counting countdown_expires d = some (emit paused (record d { phase = resuming }))
dispatch resuming take_done d = when_ready d.cancelled (begin_round d)
dispatch resuming take_reset d =
    when_ready d.reset_pending (resume_first_tier (record d { reset_pending = false }))
dispatch resuming take_ack d =
    when_ready d.ack_pending (resume_first_tier (record d { ack_pending = false }))
dispatch _ _ d = none

unfoldable pub step : Deadman → Input → Option Deadman
unfolding dispatch
step d i = dispatch d.phase i d

-- A run: `none` as soon as a branch is taken that is not ready.
unfoldable pub run : Deadman → List Input → Option Deadman
run d [] = some d
run d (i ∷ is) = elim (step d i) [ none ↦ none | some d' ↦ run d' is ]

-- The production defaults, in seconds.
abbrev pub minute : ℕ
minute = 60

unfoldable pub default_deadman : Result ConfigError Deadman
unfolding new_deadman
default_deadman =
    new_deadman
      (pos (30 * minute)
        ∷ pos (45 * minute)
        ∷ pos (60 * minute)
        ∷ pos (90 * minute)
        ∷ pos (120 * minute)
        ∷ [])
      (pos 90)

-- A run that goes through has gone through its first input.
pub run-cons :
    (d d' : Deadman) (i : Input) (is : List Input)
    → run d (i ∷ is) ≡ some d'
    → (m : Deadman) × (step d i ≡ some m) × (run m is ≡ some d')
unfolding run
run-cons d d' i is e = go (step d i) refl e
  where
    go :
        (o : Option Deadman)
        → step d i ≡ o
        → elim o [ none ↦ none | some m ↦ run m is ] ≡ some d'
        → (m : Deadman) × (step d i ≡ some m) × (run m is ≡ some d')
    go none s e = cc
    go (some m) s e = (m, s, e)
