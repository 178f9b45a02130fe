-- ===== src/Pomodoro/Invariant.antt =====
-- What holds of the timer between its calls, and the parts of a call that keep it.
use trasker.Prelude.{
  ℕ, zero, suc, ◌+◌, ◌≤◌, ◌<◌, ◌≡◌, refl, Bool, true, false, Option, none, some, List, [], ◌∷◌,
  ◌++◌, length, All, All-append, sym, if◌then◌else◌, arith, subst, if_elim, length-append, ◌∙◌, ◌*◌,
  ltb, any, ◌==◌,
}
use trasker.Prelude.Int.{ℤ, pos_part}
use mathlib.Core.Option.{some-injective}
use trasker.Pomodoro.{
  State, idle, work, break, done, paused, StateChange, Timer, emit_change, close_stop, begin_phase,
  transition_to, cancel, set_stage, Stage, started, Waiter,
}

-- The transitions of the timer; `Cancel` goes to idle from anywhere.
unfoldable pub follows : State → State → Bool
follows idle work = true
follows done work = true
follows work break = true
follows break done = true
follows idle idle = true
follows work idle = true
follows break idle = true
follows done idle = true
follows _ _ = false

abbrev pub Follows : StateChange → Type 0
Follows c = follows c.from c.to ≡ true

-- What holds also between two statements, when the stop channel may be closed: no panic, the closed
-- channels are there, and the channel of the changes holds at most 16, all of them transitions.
abbrev pub Loose : Timer → Type 0
Loose t =
    (t.panicked ≡ false)
    × All (λ k. k < length t.waiters) t.closed
    × (length t.changes ≤ 16)
    × All Follows t.changes

-- Between two calls the stop channel is there and not closed.
abbrev pub Inv : Timer → Type 0
Inv t =
    Loose t
    × ((c : ℕ) → t.stop_ch ≡ some c → any (λ k. k == c) t.closed ≡ false)
    × ((c : ℕ) → t.stop_ch ≡ some c → c < length t.waiters)
    × (t.state ≡ paused → ⊥)

All-mono_lt : (m n : ℕ) (ks : List ℕ) → m ≤ n → All (λ k. k < m) ks → All (λ k. k < n) ks
All-mono_lt m n [] h a = tt
All-mono_lt m n (k ∷ ks) h a = (omega arith, All-mono_lt m n ks h a.1)

fresh : (n : ℕ) (ks : List ℕ) → All (λ k. k < n) ks → any (λ k. k == n) ks ≡ false
fresh n [] a = refl
fresh n (k ∷ ks) a = ground (arith, fresh n ks a.1)

close_stop-Loose : (t : Timer) → Inv t → Loose (close_stop t)
unfolding close_stop
close_stop-Loose t i = go t.stop_ch refl
  where
    go :
        (o : Option ℕ)
        → t.stop_ch ≡ o
        → Loose (elim o [
          | none ↦ t
          | some c ↦
              if any (λ k. k == c) t.closed
              then record t { panicked = true }
              else record t { closed = c ∷ t.closed }
        ])
    go none e = i.0
    go (some c) e =
        if_elim (λ x. Loose x) (any (λ k. k == c) t.closed) _ _
          (λ h. absurd (let u = i.1 c e in let v : true ≡ false = sym h ∙ u in cc))
          (λ _. (i.0.0, (i.2 c e, i.0.1), i.0.2, i.0.3))

emit_change-Loose :
    (a b : State) (t : Timer) → follows a b ≡ true → Loose t → Loose (emit_change a b t)
unfolding emit_change
emit_change-Loose a b t f l =
    if_elim (λ x. Loose x) (ltb (length t.changes) 16) _ _
      (λ h. (l.0, l.1, rw length-append (ground arith), All-append Follows t.changes _ l.3 (f, tt)))
      (λ _. l)

length-snoc : (ws : List Waiter) (w : Waiter) → length (ws ++ w ∷ []) ≡ suc (length ws)
length-snoc ws w = length-append ws (w ∷ []) ∙ (omega arith)

begin_phase-Inv :
    (s : State) (mins : ℤ) (t : Timer)
    → (s ≡ paused → ⊥)
    → follows t.state s ≡ true
    → Loose t
    → Inv (begin_phase s mins t)
unfolding begin_phase
begin_phase-Inv s mins t p f l =
    let t0 = record t { end_at = some (t.now + pos_part mins * 60) } in
    let t' = emit_change t.state s t0 in
    let l' = emit_change-Loose t.state s t0 f l in
    let w : Waiter = record { phase = s; stage = started } in
    let more = length-snoc t'.waiters w in
    (
      (
        l'.0,
        All-mono_lt _ (length (t'.waiters ++ w ∷ [])) t'.closed (omega (arith, more)) l'.1,
        l'.2,
        l'.3,
      ),
      (λ c e.
          subst (λ n. any (λ k. k == n) t'.closed ≡ false) (some-injective _ _ e)
            (fresh (length t'.waiters) t'.closed l'.1)),
      (λ c e.
          subst (λ n. n < length (t'.waiters ++ w ∷ [])) (some-injective _ _ e)
            (omega (arith, more))),
      p,
    )

pub length-set_stage :
    (n : ℕ) (s : Stage) (ws : List Waiter) → length (set_stage n s ws) ≡ length ws
length-set_stage n s [] = refl
length-set_stage zero s (w ∷ ws) = refl
length-set_stage (suc n) s (w ∷ ws) = omega (arith, length-set_stage n s ws)

close_stop-state : (t : Timer) → (close_stop t).state ≡ t.state
unfolding close_stop
close_stop-state t = ground arith

pub emit_change-Inv :
    (a b : State) (t : Timer) → follows a b ≡ true → Inv t → Inv (emit_change a b t)
unfolding emit_change
emit_change-Inv a b t f i =
    let l = emit_change-Loose a b t f i.0 in
    if_elim (λ x. Loose x → Inv x) (ltb (length t.changes) 16) _ _ (λ h k. (k, i.1, i.2, i.3))
      (λ _ _. i) l

pub transition_to-work :
    (t : Timer) → Inv t → follows t.state work ≡ true → Inv (transition_to work t)
unfolding transition_to
transition_to-work t i f =
    begin_phase-Inv work t.config.work_mins
      (record (close_stop t) { started_at = some t.now; ticking = false }) (λ e. cc)
      (subst (λ s. follows s work ≡ true) (sym (close_stop-state t)) f) (close_stop-Loose t i)

pub transition_to-break :
    (t : Timer) → Inv t → follows t.state break ≡ true → Inv (transition_to break t)
unfolding transition_to
transition_to-break t i f =
    begin_phase-Inv break t.config.break_mins
      (record (close_stop t) { started_at = some t.now; ticking = false }) (λ e. cc)
      (subst (λ s. follows s break ≡ true) (sym (close_stop-state t)) f) (close_stop-Loose t i)

to_idle : (s : State) → (s ≡ paused → ⊥) → follows s idle ≡ true
unfolding follows
to_idle idle p = refl
to_idle work p = refl
to_idle break p = refl
to_idle done p = refl
to_idle paused p = absurd (p refl)

pub cancel-Inv : (t : Timer) → Inv t → Inv (cancel t)
unfolding cancel
cancel-Inv t i =
    emit_change-Inv t.state idle
      (record (close_stop t) { stop_ch = none; ticking = false; state = idle })
      (to_idle t.state i.3) (close_stop-Loose t i, (λ c e. cc), (λ c e. cc), λ e. cc)
