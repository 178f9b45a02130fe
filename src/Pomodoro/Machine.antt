-- ===== src/Pomodoro/Machine.antt =====
-- The state machine of the timer.
use trasker.Prelude.{
  ℕ, ◌≤◌, ◌<◌, ◌≡◌, refl, true, false, Option, none, some, List, [], ◌∷◌, length, All, sym,
  if◌then◌else◌, arith, subst, if_elim, Result, get_elem?, ok, err, leb, any, ◌==◌,
}
use trasker.Prelude.Int.{is_positive}
use trasker.Pomodoro.{
  State, idle, work, break, done, paused, Config, ConfigError, Timer, Event, start_called,
  cancel_called, receive, wait, arm, elapse, stop, take, new_timer, step, run, emit_change,
  transition_to, start, phase_ends, Stage, started, at_stage, same_phase, is_negative, advance,
  of_waiter, armed, elapsed, gone,
}
use trasker.Pomodoro.Invariant.{
  follows, Inv, emit_change-Inv, transition_to-work, transition_to-break, cancel-Inv,
  length-set_stage,
}

-- What holds of the result of a step, if there is one.
abbrev Keeps : Option Timer → Type 0
Keeps o = elim o [ none ↦ Unit | some t ↦ Inv t ]

start-Keeps : (tag : Option ℕ) (t : Timer) → Inv t → Keeps (step t (start_called tag))
unfolding step start follows
start-Keeps tag t i = go t.state refl
  where
    t0 : Timer
    t0 = record t { tag_id = tag }

    go :
        (s : State)
        → t.state ≡ s
        → Keeps
            (elim (elim s as (λ x. Result State Timer) [
              | idle ↦ ok (transition_to work t0)
              | done ↦ ok (transition_to work t0)
              | s ↦ err s
            ]) [ err _ ↦ some t | ok t' ↦ some t' ])
    go idle k = transition_to-work t0 i (rw k refl)
    go done k = transition_to-work t0 i (rw k refl)
    go work k = i
    go break k = i
    go paused k = i

phase_ends-Inv : (phase : State) (t : Timer) → Inv t → Inv (phase_ends phase t)
unfolding phase_ends follows
phase_ends-Inv phase t i = go t.state phase refl
  where
    go :
        (s phase : State)
        → t.state ≡ s
        → Inv (
            if same_phase s phase
            then elim phase [
              | work ↦ transition_to break t
              | _ ↦ emit_change break done (record t { state = done; ticking = false })
            ]
            else t)
    go work work k = transition_to-break t i (rw k refl)
    go break break k =
        emit_change-Inv break done (record t { state = done; ticking = false }) refl
          (i.0, i.1, i.2, λ e. cc)
    go _ _ k = i

set_stage-Inv : (n : ℕ) (s : Stage) (t : Timer) → Inv t → Inv (at_stage n s t)
set_stage-Inv n s t i =
    let e = sym (length-set_stage n s t.waiters) in
    (
      (i.0.0, subst (λ l. All (λ k. k < l) t.closed) e i.0.1, i.0.2, i.0.3),
      i.1,
      (λ c h. subst (λ l. c < l) e (i.2 c h)),
      i.3,
    )

advance-Keeps :
    (v : Event) (s : Stage) (phase : State) (n : ℕ) (t : Timer)
    → Inv t
    → Keeps (advance v s phase n t)
advance-Keeps (arm _) started phase n t i =
    elim t.end_at
      as (λ o. Keeps (elim o [ none ↦ none | some d ↦ some (at_stage n (armed d) t) ])) [
        | none ↦ tt
        | some d ↦ set_stage-Inv n (armed d) t i
      ]
advance-Keeps (elapse _) (armed d) phase n t i =
    if_elim (λ o. Keeps o) (leb d t.now) _ _ (λ _. set_stage-Inv n elapsed t i) (λ _. tt)
advance-Keeps (stop _) (armed d) phase n t i =
    if_elim (λ o. Keeps o) (any (λ k. k == n) t.closed) _ _ (λ _. set_stage-Inv n gone t i)
      (λ _. tt)
advance-Keeps (take _) elapsed phase n t i =
    set_stage-Inv n gone (phase_ends phase t) (phase_ends-Inv phase t i)
advance-Keeps _ _ phase n t i = tt

of_waiter-Keeps : (v : Event) (n : ℕ) (t : Timer) → Inv t → Keeps (of_waiter v n t)
of_waiter-Keeps v n t i =
    elim (get_elem? t.waiters n)
      as (λ o. Keeps (elim o [ none ↦ none | some w ↦ advance v w.stage w.phase n t ])) [
        | none ↦ tt
        | some w ↦ advance-Keeps v w.stage w.phase n t i
      ]

step-Keeps : (t : Timer) (v : Event) → Inv t → Keeps (step t v)
unfolding step
step-Keeps t (start_called tag) i = start-Keeps tag t i
step-Keeps t cancel_called i = cancel-Inv t i
step-Keeps t receive i = ground arith
step-Keeps t (wait seconds) i = i
step-Keeps t (arm n) i = of_waiter-Keeps (arm n) n t i
step-Keeps t (elapse n) i = of_waiter-Keeps (elapse n) n t i
step-Keeps t (stop n) i = of_waiter-Keeps (stop n) n t i
step-Keeps t (take n) i = of_waiter-Keeps (take n) n t i

run_rest :
    (o : Option Timer) (vs : List Event)
    → ((t : Timer) → Inv t → Keeps (run t vs))
    → Keeps o
    → Keeps (elim o [ none ↦ none | some t' ↦ run t' vs ])
run_rest none vs f k = tt
run_rest (some t) vs f k = f t k

run-Keeps : (vs : List Event) (t : Timer) → Inv t → Keeps (run t vs)
unfolding run
run-Keeps [] t i = i
run-Keeps (v ∷ vs) t i = run_rest (step t v) vs (run-Keeps vs) (step-Keeps t v i)

abbrev Built : Result ConfigError Timer → Type 0
Built (err _) = Unit
Built (ok t) = Inv t

new_timer-Built : (c : Config) (now : ℕ) → Built (new_timer c now)
unfolding new_timer
new_timer-Built c now =
    if_elim (λ r. Built r) (is_positive c.work_mins) _ _
      (λ _.
        if_elim (λ r. Built r) (is_negative c.break_mins) _ _ (λ _. tt)
          (λ _. ((refl, tt, (omega arith), tt), (λ k e. cc), (λ k e. cc), λ e. cc)))
      (λ _. tt)

-- From a new timer, through any calls, any clock and any order in which its goroutines run: no stop
-- channel is closed twice, so nothing panics; the timer is never in the state `paused`; and the
-- channel holds at most 16 changes, each from idle or done to work, from work to break, from break
-- to done, or to idle.
pub run-Sound :
    (c : Config) (now : ℕ) (t t' : Timer) (vs : List Event)
    → new_timer c now ≡ ok t
    → run t vs ≡ some t'
    → (t'.panicked ≡ false)
      × (t'.state ≡ paused → ⊥)
      × (length t'.changes ≤ 16)
      × All (λ x. follows x.from x.to ≡ true) t'.changes
run-Sound c now t t' vs n r =
    let i =
      subst (λ o. Keeps o) r (run-Keeps vs t (subst (λ x. Built x) n (new_timer-Built c now))) in
    (i.0.0, i.3, i.0.2, i.0.3)
