-- ===== src/Presence/Tiers.antt =====
-- Which interval the deadman's switch waits for.
use trasker.Prelude.{
  ℕ, zero, suc, ◌+◌, ◌-◌, ◌<◌, ◌≡◌, refl, sym, ap, ◌∙◌, min, false, some, List, [], ◌∷◌, arith,
  subst, ok, length, get_elem?, get_elem?-lt,
}
use mathlib.Core.Option.{some-injective}
use trasker.Prelude.Int.{ℤ}
use trasker.Presence.Deadman.{
  waiting, counting, Deadman, Input, timer_fires, acknowledge, take_ack, step, run, run-cons,
  escalate, checking, new_deadman, begin_round, check_intervals, current_interval,
}

-- The tier is an index of `intervals`, and the timer of the round was made from it.
pub record Inv (d : Deadman) : Type 0 where
  pub in_range : d.tier < length d.intervals
  pub armed : d.phase ≡ waiting → d.timer ≡ get_elem? d.intervals d.tier

step-Inv : (d d' : Deadman) (i : Input) → Inv d → step d i ≡ some d' → Inv d'
unfolding step current_interval
step-Inv d d' i v e = ground arith

new_deadman-Inv :
    (ds : List ℤ) (countdown : ℤ) (d : Deadman) → new_deadman ds countdown ≡ ok d → Inv d
unfolding new_deadman begin_round check_intervals current_interval
new_deadman-Inv [] countdown d e = cc
new_deadman-Inv (x ∷ ds) countdown d e = ground arith

step-intervals : (d d' : Deadman) (i : Input) → step d i ≡ some d' → d'.intervals ≡ d.intervals
unfolding step
step-intervals d d' i e = ground arith

run-Inv :
    (d d' : Deadman) (is : List Input)
    → Inv d
    → run d is ≡ some d'
    → Inv d' × (d'.intervals ≡ d.intervals)
unfolding run
run-Inv d d' [] v e = (subst Inv (some-injective _ _ e) v, ground arith)
run-Inv d d' (i ∷ is) v e =
    let (m, s, r) = run-cons d d' i is e in
    let (v', p) = run-Inv m d' is (step-Inv d m i v s) r in (v', p ∙ step-intervals d m i s)

new_deadman-intervals :
    (ds : List ℤ) (countdown : ℤ) (d : Deadman) → new_deadman ds countdown ≡ ok d → d.intervals ≡ ds
unfolding new_deadman begin_round
new_deadman-intervals [] countdown d e = cc
new_deadman-intervals (x ∷ ds) countdown d e = ground arith

-- However a new switch is run, its tier stays an index of the configured intervals, and a round
-- that waits for its interval waits for one of them, the one of its tier (so `currentInterval`
-- never indexes out of range).
pub run_tier_in_range :
    (ds : List ℤ) (countdown : ℤ) (d d' : Deadman) (is : List Input)
    → new_deadman ds countdown ≡ ok d
    → run d is ≡ some d'
    → (d'.tier < length ds)
      × (d'.phase ≡ waiting → (t : ℤ) × (get_elem? ds d'.tier ≡ some t) × (d'.timer ≡ some t))
run_tier_in_range ds countdown d d' is e r =
    let (v, p) = run-Inv d d' is (new_deadman-Inv ds countdown d e) r in
    let q : d'.intervals ≡ ds = p ∙ new_deadman-intervals ds countdown d e in
    let h : d'.tier < length ds = subst (λ l. d'.tier < length l) q v.in_range in
    let (t, g) = get_elem?-lt ds d'.tier h in
    (h, λ w. (t, g, v.armed w ∙ subst (λ l. get_elem? l d'.tier ≡ some t) (sym q) g))

-- `k` rounds in which the check is shown and the user answers it.
abbrev pub answered : ℕ → List Input
answered zero = []
answered (suc k) = timer_fires ∷ acknowledge ∷ take_ack ∷ answered k

-- The switch after one such round.
abbrev answer_round : Deadman → Deadman
answer_round d =
    escalate (record d { phase = counting; emitted = checking ∷ d.emitted; ack_pending = false })

answer_round_lem :
    (d : Deadman) (is : List Input)
    → d.phase ≡ waiting
    → run d (timer_fires ∷ acknowledge ∷ take_ack ∷ is) ≡ run (answer_round d) is
unfolding run step begin_round
answer_round_lem d is w = ground arith

answer_round-tier :
    (d : Deadman) (k : ℕ)
    → d.tier < length d.intervals
    → ((answer_round d).phase ≡ waiting)
      × ((answer_round d).intervals ≡ d.intervals)
      × ((answer_round d).tier < length d.intervals)
      × (min ((answer_round d).tier + k) (length d.intervals - 1)
          ≡ min (d.tier + suc k) (length d.intervals - 1))
      × ((answer_round d).timer ≡ get_elem? d.intervals (answer_round d).tier)
unfolding begin_round current_interval
answer_round-tier d k h = ground arith

-- Each answered check moves the switch one tier up and no further than the last: after `k` of them
-- the round waits for the interval of tier `min (tier + k) (len - 1)`.
pub run-answered :
    (k : ℕ) (d : Deadman)
    → d.phase ≡ waiting
    → d.tier < length d.intervals
    → d.timer ≡ get_elem? d.intervals d.tier
    → let top = min (d.tier + k) (length d.intervals - 1) in
      (d' : Deadman) × (run d (answered k) ≡ some d')
      × (d'.phase ≡ waiting)
      × (d'.tier ≡ top)
      × (d'.timer ≡ get_elem? d.intervals top)
unfolding run begin_round
run-answered zero d w h t =
    let e : min (d.tier + 0) (length d.intervals - 1) ≡ d.tier = omega arith in
    (d, refl, w, sym e, rw e t)
run-answered (suc k) d w h t =
    let (p, q, r, e, a) = answer_round-tier d k h in
    let ih = run-answered k (answer_round d) p r a in
    (
      ih.0,
      answer_round_lem d (answered k) w ∙ ih.1,
      ih.2,
      ih.3 ∙ e,
      ih.4 ∙ ap (get_elem? d.intervals) e,
    )
