-- ===== src/Pomodoro/Stale.antt =====
-- A goroutine of `runPhase` whose timer has fired, against a phase that was started after it.
use trasker.Prelude.{
  ℕ, zero, suc, ◌≡◌, refl, ◌∙◌, ap, false, Option, none, some, List, [], ◌∷◌, ◌++◌, get_elem?,
  arith, if◌then◌else◌,
}
use trasker.Prelude.Int.{ℤ}
use trasker.Pomodoro.{
  State, idle, work, break, elapsed, started, gone, Waiter, Timer, start_called, cancel_called,
  take, step, run, emit_change, close_stop, begin_phase, transition_to, start, cancel, phase_ends,
  at_stage, advance, same_phase,
}

get_elem?-left {ℓ} :
    {A : Type ℓ} (xs ys : List A) (n : ℕ) (a : A)
    → get_elem? xs n ≡ some a
    → get_elem? (xs ++ ys) n ≡ some a
get_elem?-left [] ys n a h = cc
get_elem?-left (x ∷ xs) ys zero a h = h
get_elem?-left (x ∷ xs) ys (suc n) a h = get_elem?-left xs ys n a h

-- What stays when a change is sent, or a stop channel is closed.
emit_change-kept :
    (a b : State) (t : Timer)
    → ((emit_change a b t).waiters ≡ t.waiters)
      × ((emit_change a b t).state ≡ t.state)
      × ((emit_change a b t).now ≡ t.now)
unfolding emit_change
emit_change-kept a b t = ground arith

close_stop-kept : (t : Timer) → ((close_stop t).waiters ≡ t.waiters) × ((close_stop t).now ≡ t.now)
unfolding close_stop
close_stop-kept t = ground arith

cancel_lem :
    (t : Timer)
    → ((cancel t).waiters ≡ t.waiters) × ((cancel t).state ≡ idle) × ((cancel t).now ≡ t.now)
unfolding cancel
cancel_lem t =
    let k =
      emit_change-kept t.state idle
        (record (close_stop t) { stop_ch = none; ticking = false; state = idle }) in
    let c = close_stop-kept t in (k.0 ∙ c.0, k.1, k.2 ∙ c.1)

begin_phase_lem :
    (s : State) (mins : ℤ) (t : Timer)
    → ((begin_phase s mins t).state ≡ s)
      × ((begin_phase s mins t).waiters ≡ t.waiters ++ record { phase = s; stage = started } ∷ [])
      × ((begin_phase s mins t).now ≡ t.now)
unfolding begin_phase
begin_phase_lem s mins t =
    let k = emit_change-kept t.state s _ in
    (refl, ap (λ l. l ++ record { phase = s; stage = started } ∷ []) k.0, k.2)

start_idle :
    (tag : Option ℕ) (t : Timer)
    → t.state ≡ idle
    → step t (start_called tag) ≡ some (transition_to work (record t { tag_id = tag }))
unfolding step start
start_idle tag t h = rw h

abbrev entered : Timer → Timer
entered t = record (close_stop t) { started_at = some t.now; ticking = false }

to_work :
    (t : Timer)
    → ((transition_to work t).state ≡ work)
      × ((transition_to work t).waiters
          ≡ t.waiters ++ record { phase = work; stage = started } ∷ [])
      × ((transition_to work t).now ≡ t.now)
unfolding transition_to
to_work t =
    let k = begin_phase_lem work t.config.work_mins (entered t) in
    let c = close_stop-kept t in
    (k.0, k.1 ∙ ap (λ l. l ++ record { phase = work; stage = started } ∷ []) c.0, k.2 ∙ c.1)

to_break :
    (t : Timer) → ((transition_to break t).state ≡ break) × ((transition_to break t).now ≡ t.now)
unfolding transition_to
to_break t =
    let k = begin_phase_lem break t.config.break_mins (entered t) in
    (k.0, k.2 ∙ (close_stop-kept t).1)

work_ends : (t : Timer) → t.state ≡ work → phase_ends work t ≡ transition_to break t
unfolding phase_ends
work_ends t h = ap (λ s. if same_phase s work then transition_to break t else t) h

take_elapsed :
    (t : Timer) (n : ℕ)
    → get_elem? t.waiters n ≡ some (record { phase = work; stage = elapsed })
    → step t (take n) ≡ some (at_stage n gone (phase_ends work t))
unfolding step
take_elapsed t n h =
    ap
      (λ (o : Option Waiter). elim o as (λ x. Option Timer) [
        | none ↦ none
        | some w ↦ advance (take n) w.stage w.phase n t
      ])
      h

ran :
    (t u v x : Timer) (n : ℕ) (tag : Option ℕ)
    → step t cancel_called ≡ some u
    → step u (start_called tag) ≡ some v
    → step v (take n) ≡ some x
    → run t (cancel_called ∷ start_called tag ∷ take n ∷ []) ≡ some x
unfolding run
ran t u v x n tag a b c = rw (a, run) (rw (b, run) (rw (c, run) refl))

cancelled : (t : Timer) → step t cancel_called ≡ some (cancel t)
unfolding step
cancelled t = refl

-- The check of `runPhase` under the mutex, "Verify we're still in the expected phase", does not tell
-- two phases of the same kind apart. A goroutine of a work phase whose timer has fired, and which
-- waits for the mutex, ends the work phase that `Start` began after a `Cancel`: the timer goes to the
-- break with no time passed.
pub stale_timer_ends_new_work :
    (t : Timer) (n : ℕ) (tag : Option ℕ)
    → get_elem? t.waiters n ≡ some (record { phase = work; stage = elapsed })
    → (t' : Timer) × (run t (cancel_called ∷ start_called tag ∷ take n ∷ []) ≡ some t')
      × (t'.state ≡ break)
      × (t'.now ≡ t.now)
stale_timer_ends_new_work t n tag h =
    let c = cancel_lem t in
    let u : Timer = record (cancel t) { tag_id = tag } in
    let w = to_work u in
    let v = transition_to work u in
    let found =
      ap (λ l. get_elem? l n)
        (w.1 ∙ ap (λ l. l ++ record { phase = work; stage = started } ∷ []) c.0)
      ∙ get_elem?-left t.waiters _ n _ h in
    let b = to_break v in
    (
      at_stage n gone (transition_to break v),
      ran t (cancel t) v _ n tag (cancelled t) (start_idle tag (cancel t) c.1)
          (take_elapsed v n found ∙ ap (λ x. some (at_stage n gone x)) (work_ends v w.0)),
      b.0,
      b.1 ∙ w.2 ∙ c.2,
    )
