-- ===== src/Pomodoro.antt =====
-- internal/client/pomodoro/timer.go: the pomodoro timer and its goroutines.
-- Every `transitionTo` that starts a phase makes one stop channel and one goroutine, so both have
-- the goroutine's number. A goroutine evaluates `time.After` (`arm`), its select takes the timer or
-- the stop channel (`elapse`, `stop`), and it then takes the mutex (`take`); a step that is not
-- possible gives `none`. Instants and durations are in seconds.
pub mod Invariant
pub mod Machine
pub mod Stale
pub mod Examples
use trasker.Prelude.{
  ℕ, zero, suc, ◌+◌, ◌*◌, Bool, true, false, ◌&&◌, Option, none, some, List, [], ◌∷◌, ◌++◌, length,
  get_elem?, any, ltb, leb, ◌==◌, if◌then◌else◌, Result, ok, err,
}
use trasker.Prelude.Int.{ℤ, pos, negsuc, is_positive, sub_ℕ, pos_part}

pub data State : Type 0 where
  idle work break done paused : State

pub record Config : Type 0 where
  pub work_mins : ℤ
  pub break_mins : ℤ

abbrev pub default_config : Config
default_config = record { work_mins = pos 25; break_mins = pos 5 }

-- `remaining` is `time.Until(t.endAt)`: none while `endAt` is the zero time.
pub record StateChange : Type 0 where
  pub from : State
  pub to : State
  pub remaining : Option ℤ
  pub tag_id : Option ℕ

-- Where a goroutine of `runPhase` stands: before its select, in it with the deadline, or past the
-- timer and waiting for the mutex; `gone` has returned.
pub data Stage : Type 0 where
  started : Stage
  armed : ℕ → Stage
  elapsed gone : Stage

pub record Waiter : Type 0 where
  pub phase : State
  pub stage : Stage

-- The timer, the channel that it sends on (oldest first), the stop channels that have been closed,
-- the goroutines, the clock, and whether a channel was closed twice, on which Go panics.
pub record Timer : Type 0 where
  pub state : State
  pub config : Config
  pub tag_id : Option ℕ
  pub started_at : Option ℕ
  pub end_at : Option ℕ
  pub changes : List StateChange
  pub stop_ch : Option ℕ
  pub ticking : Bool
  pub closed : List ℕ
  pub waiters : List Waiter
  pub now : ℕ
  pub panicked : Bool

pub data ConfigError : Type 0 where
  bad_work bad_break : ℤ → ConfigError

abbrev pub is_negative : ℤ → Bool
is_negative (pos _) = false
is_negative (negsuc _) = true

unfoldable pub new_timer : Config → ℕ → Result ConfigError Timer
new_timer config now =
    if is_positive config.work_mins
    then if is_negative config.break_mins
      then err (bad_break config.break_mins)
      else ok (record {
        state = idle;
        config = config;
        tag_id = none;
        started_at = none;
        end_at = none;
        changes = [];
        stop_ch = none;
        ticking = false;
        closed = [];
        waiters = [];
        now = now;
        panicked = false;
      })
    else err (bad_work config.work_mins)

abbrev pub until : Option ℕ → ℕ → Option ℤ
until none now = none
until (some t) now = some (sub_ℕ t now)

unfoldable pub remaining : Timer → ℕ
remaining t = elim t.state [
  | idle ↦ 0
  | done ↦ 0
  | _ ↦ elim (until t.end_at t.now) [ none ↦ 0 | some d ↦ pos_part d ]
]

-- The channel holds 16 changes; with no room the change is dropped.
unfoldable pub emit_change : State → State → Timer → Timer
emit_change from to t =
    if ltb (length t.changes) 16
    then record t {
      changes =
          t.changes
          ++ record { from = from; to = to; remaining = until t.end_at t.now; tag_id = t.tag_id }
            ∷ [];
    }
    else t

-- `if t.stopCh != nil { close(t.stopCh) }`.
unfoldable pub close_stop : Timer → Timer
close_stop t = elim t.stop_ch [
  | none ↦ t
  | some c ↦
      if any (λ k. k == c) t.closed
      then record t { panicked = true }
      else record t { closed = c ∷ t.closed }
]

-- The last lines of `transitionTo`: the end, the notice, and a new channel, ticker and goroutine.
unfoldable pub begin_phase : State → ℤ → Timer → Timer
unfolding emit_change
begin_phase new_state mins t =
    let t' =
      emit_change t.state new_state (record t { end_at = some (t.now + pos_part mins * 60) }) in
    record t' {
      state = new_state;
      stop_ch = some (length t'.waiters);
      ticking = true;
      waiters = t'.waiters ++ record { phase = new_state; stage = started } ∷ [];
    }

unfoldable pub transition_to : State → Timer → Timer
unfolding begin_phase close_stop emit_change
transition_to new_state t =
    let t' = record (close_stop t) { started_at = some t.now; ticking = false } in
    elim new_state [
      | work ↦ begin_phase work t.config.work_mins t'
      | break ↦ begin_phase break t.config.break_mins t'
      | s ↦ emit_change t.state s (record t' { state = s })
    ]

-- `Start`: an error, with the state, leaves the timer as it was.
unfoldable pub start : Option ℕ → Timer → Result State Timer
unfolding transition_to
start tag t = elim t.state [
  | idle ↦ ok (transition_to work (record t { tag_id = tag }))
  | done ↦ ok (transition_to work (record t { tag_id = tag }))
  | s ↦ err s
]

unfoldable pub cancel : Timer → Timer
unfolding close_stop emit_change
cancel t =
    let t' = record (close_stop t) { stop_ch = none; ticking = false; state = idle } in
    emit_change t.state idle t'

abbrev pub same_phase : State → State → Bool
same_phase work work = true
same_phase break break = true
same_phase _ _ = false

-- What a goroutine does under the mutex when its timer has fired. The ticker is stopped, and the
-- stop channel of a break that ends stays in place.
unfoldable pub phase_ends : State → Timer → Timer
unfolding transition_to emit_change
phase_ends phase t =
    if same_phase t.state phase
    then elim phase [
      | work ↦ transition_to break t
      | _ ↦ emit_change break done (record t { state = done; ticking = false })
    ]
    else t

abbrev pub set_stage : ℕ → Stage → List Waiter → List Waiter
set_stage n s [] = []
set_stage zero s (w ∷ ws) = record w { stage = s } ∷ ws
set_stage (suc n) s (w ∷ ws) = w ∷ set_stage n s ws

abbrev pub at_stage : ℕ → Stage → Timer → Timer
at_stage n s t = record t { waiters = set_stage n s t.waiters }

pub data Event : Type 0 where
  start_called : Option ℕ → Event
  cancel_called receive : Event
  wait : ℕ → Event
  arm elapse stop take : ℕ → Event

-- One step of goroutine `n`, which runs the given phase and stands at the given stage.
abbrev pub advance : Event → Stage → State → ℕ → Timer → Option Timer
advance (arm _) started phase n t = elim t.end_at [
  | none ↦ none
  | some d ↦ some (at_stage n (armed d) t)
]
advance (elapse _) (armed d) phase n t = if leb d t.now then some (at_stage n elapsed t) else none
advance (stop _) (armed d) phase n t =
    if any (λ k. k == n) t.closed then some (at_stage n gone t) else none
advance (take _) elapsed phase n t = some (at_stage n gone (phase_ends phase t))
advance _ _ phase n t = none

abbrev pub of_waiter : Event → ℕ → Timer → Option Timer
of_waiter v n t = elim (get_elem? t.waiters n) [
  | none ↦ none
  | some w ↦ advance v w.stage w.phase n t
]

unfoldable pub step : Timer → Event → Option Timer
unfolding start cancel phase_ends
step t (start_called tag) = elim (start tag t) [ err _ ↦ some t | ok t' ↦ some t' ]
step t cancel_called = some (cancel t)
step t receive = elim t.changes [ [] ↦ none | _ ∷ cs ↦ some (record t { changes = cs }) ]
step t (wait seconds) = some (record t { now = t.now + seconds })
step t (arm n) = of_waiter (arm n) n t
step t (elapse n) = of_waiter (elapse n) n t
step t (stop n) = of_waiter (stop n) n t
step t (take n) = of_waiter (take n) n t

unfoldable pub run : Timer → List Event → Option Timer
run t [] = some t
run t (v ∷ vs) = elim (step t v) [ none ↦ none | some t' ↦ run t' vs ]
