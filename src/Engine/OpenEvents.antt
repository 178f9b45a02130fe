-- ===== src/Engine/OpenEvents.antt =====
-- Which focus events are open, and how long the others lasted.
use trasker.Prelude.{
  ℕ, ◌≤◌, ◌<◌, ◌≡◌, refl, Bool, true, false, none, some, List, [], ◌∷◌, ◌++◌, ltb, ◌==◌, All,
  All-append, length, filter, arith, Bool-cases, inl, inr, subst, if_elim,
}
use trasker.Prelude.Int.{sub_ℕ}
use trasker.Store.Tables.{FocusEvent, Db, next_rowid, update_where}
use trasker.Store.FocusEvents.{open_event, is_open, ended, insert_focus_event, end_focus_event}
use trasker.Presence.Deadman.{tracking, checking, paused, away}
use trasker.Engine.{
  Engine, FocusChange, Input, focus, presence, done, new_engine, end_current, handle_focus_change,
  record_focus, end_current_event_locked, handle_presence_change, handle, run,
}

abbrev pub count_open : List FocusEvent → ℕ
count_open es = length (filter is_open es)

-- A row of an engine whose current event is `current`: the row has an id, an open row is the
-- current one, and a row has a duration exactly if it has ended, the time between its ends.
abbrev pub RowOk : ℕ → FocusEvent → Type 0
RowOk current e =
    (0 < e.id)
    × (is_open e ≡ true → e.id ≡ current)
    × (e.duration_s ≡ elim e.ended_at [ none ↦ none | some t ↦ some (sub_ℕ t e.started_at) ])

pub record Inv (e : Engine) : Type 0 where
  pub rows : All (RowOk e.current_event_id) e.db.focus_events
  pub one_open : count_open e.db.focus_events ≤ 1
  pub paused_idle : e.is_paused ≡ true → e.current_event_id ≡ 0

-- Ending the current event closes every open row.
abbrev Closed : FocusEvent → Type 0
Closed e =
    (0 < e.id)
    × (is_open e ≡ false)
    × (e.duration_s ≡ elim e.ended_at [ none ↦ none | some t ↦ some (sub_ℕ t e.started_at) ])

end_rows :
    (current at : ℕ) (es : List FocusEvent)
    → All (RowOk current) es
    → All Closed (update_where (λ e. e.id == current) (ended at) es)
unfolding update_where
end_rows current at [] h = tt
end_rows current at (e ∷ es) h = (ground arith, end_rows current at es h.1)

idle_rows : (es : List FocusEvent) → All (RowOk 0) es → All Closed es
idle_rows [] h = tt
idle_rows (e ∷ es) h = (ground arith, idle_rows es h.1)

end_current-Closed :
    (at : ℕ) (e : Engine)
    → All (RowOk e.current_event_id) e.db.focus_events
    → All Closed (end_current true at e).focus_events
unfolding end_current end_focus_event
end_current-Closed at e h = elim (Bool-cases (ltb 0 e.current_event_id)) [
  | inl p ↦ rw p (end_rows e.current_event_id at e.db.focus_events h)
  | inr p ↦
      rw p (
        idle_rows e.db.focus_events (subst (λ c. All (RowOk c) e.db.focus_events) (ground arith) h))
]

Closed-none : (es : List FocusEvent) → All Closed es → count_open es ≡ 0
Closed-none [] h = refl
Closed-none (e ∷ es) h = ground (arith, Closed-none es h.1)

Closed-RowOk : (c : ℕ) (es : List FocusEvent) → All Closed es → All (RowOk c) es
Closed-RowOk c [] h = tt
Closed-RowOk c (e ∷ es) h = (ground arith, Closed-RowOk c es h.1)

count_open-snoc :
    (es : List FocusEvent) (e : FocusEvent) → count_open es ≡ 0 → count_open (es ++ e ∷ []) ≤ 1
count_open-snoc [] e h = ground arith
count_open-snoc (x ∷ es) e h = ground (arith, count_open-snoc es e)

next_rowid-pos : (es : List FocusEvent) → 0 < next_rowid (λ e. e.id) es
unfolding next_rowid
next_rowid-pos [] = omega arith
next_rowid-pos (e ∷ es) = ground (arith, next_rowid-pos es)

record_focus-Inv :
    (insert_ok : Bool) (now : ℕ) (fc : FocusChange) (e : Engine)
    → All Closed e.db.focus_events
    → e.is_paused ≡ false
    → Inv (record_focus insert_ok now fc e).0
unfolding record_focus insert_focus_event open_event
record_focus-Inv true now fc e h u = record {
  rows =
      All-append _ e.db.focus_events _ (Closed-RowOk _ e.db.focus_events h)
        ((next_rowid-pos e.db.focus_events, λ _. refl, refl), tt);
  one_open = count_open-snoc e.db.focus_events _ (Closed-none e.db.focus_events h);
  paused_idle = λ p. absurd (cc);
}
record_focus-Inv false now fc e h u = record {
  rows = Closed-RowOk e.current_event_id e.db.focus_events h;
  one_open = omega (arith, Closed-none e.db.focus_events h);
  paused_idle = λ p. absurd (cc);
}

handle_focus_change-Inv :
    (insert_ok : Bool) (now : ℕ) (fc : FocusChange) (e : Engine)
    → Inv e
    → Inv (handle_focus_change true insert_ok now fc e).0
unfolding handle_focus_change
handle_focus_change-Inv insert_ok now fc e v =
    if_elim (λ (r : Engine × Bool). Inv r.0) e.is_paused _ _ (λ _. v)
      (λ p. record_focus-Inv insert_ok now fc _ (end_current-Closed fc.timestamp e v.rows) p)

close_engine-Inv :
    (now : ℕ) (p : Bool) (e : Engine)
    → Inv e
    → Inv (record (end_current_event_locked true now e) { is_paused = p })
unfolding end_current_event_locked
close_engine-Inv now p e v =
    let h = end_current-Closed now e v.rows in
    record {
      rows = Closed-RowOk 0 _ h;
      one_open = omega (arith, Closed-none _ h);
      paused_idle = λ _. refl;
    }

-- A handler whose `EndFocusEvent` did not fail.
abbrev pub EndOk : Input → Type 0
EndOk (focus end_ok _ _ _) = end_ok ≡ true
EndOk (presence end_ok _ _) = end_ok ≡ true
EndOk (done end_ok _) = end_ok ≡ true

pub handle-Inv : (i : Input) (e : Engine) → EndOk i → Inv e → Inv (handle i e)
unfolding handle handle_presence_change
handle-Inv (focus a b now fc) e k v = rw k (handle_focus_change-Inv b now fc e v)
handle-Inv (presence a now away) e k v = rw k (close_engine-Inv now true e v)
handle-Inv (presence a now paused) e k v = rw k (close_engine-Inv now true e v)
handle-Inv (presence a now tracking) e k v = record {
  rows = v.rows;
  one_open = v.one_open;
  paused_idle = λ p. absurd (cc);
}
handle-Inv (presence a now checking) e k v = v
handle-Inv (done a now) e k v = rw k (close_engine-Inv now e.is_paused e v)

run-Inv : (is : List Input) (e : Engine) → All EndOk is → Inv e → Inv (run is e)
unfolding run
run-Inv [] e k v = v
run-Inv (focus a b n fc ∷ is) e k v = run-Inv is _ k.1 (handle-Inv (focus a b n fc) e k.0 v)
run-Inv (presence a n s ∷ is) e k v = run-Inv is _ k.1 (handle-Inv (presence a n s) e k.0 v)
run-Inv (done a n ∷ is) e k v = handle-Inv (done a n) e k.0 v

new_engine-Inv : (db : Db) → db.focus_events ≡ [] → Inv (new_engine db)
unfolding new_engine
new_engine-Inv db h = record {
  rows = rw h tt;
  one_open = rw h (omega arith);
  paused_idle = λ p. cc;
}

idle-none : (e : Engine) → Inv e → e.current_event_id ≡ 0 → count_open e.db.focus_events ≡ 0
idle-none e v h =
    Closed-none e.db.focus_events
      (idle_rows e.db.focus_events (subst (λ c. All (RowOk c) e.db.focus_events) h v.rows))

-- From an empty `focus_events`, through any focus changes and presence states of which no
-- `EndFocusEvent` fails (an insertion may): at most one event is open, an open event is the engine's
-- current one, none is open while the engine is paused, and the events that have ended, and no
-- others, have a duration, the time from their start to their end.
pub run_open_events :
    (db : Db) (is : List Input)
    → db.focus_events ≡ []
    → All EndOk is
    → let e = run is (new_engine db) in
      (count_open e.db.focus_events ≤ 1)
      × All (RowOk e.current_event_id) e.db.focus_events
      × (e.is_paused ≡ true → count_open e.db.focus_events ≡ 0)
run_open_events db is h k =
    let v = run-Inv is (new_engine db) k (new_engine-Inv db h) in
    (v.one_open, v.rows, λ p. idle-none _ v (v.paused_idle p))
