-- ===== src/Engine.antt =====
-- internal/client/session/engine.go: the session engine.
-- Each handler runs under the engine's mutex, so a run is a sequence of whole handlers. A write to
-- the store may fail, which the engine logs and passes over: the input says whether it did.
pub mod OpenEvents
pub mod Faults
pub mod Examples
use trasker.Prelude.{ℕ, Bool, true, false, ◌&&◌, List, [], ◌∷◌, String, ltb, if◌then◌else◌}
use trasker.Store.Tables.{Db}
use trasker.Store.FocusEvents.{insert_focus_event, end_focus_event}
use trasker.Presence.Deadman.{State, tracking, checking, paused, away}

pub record FocusChange : Type 0 where
  pub app_name : String
  pub window_title : String
  pub timestamp : ℕ

-- `current_event_id` is 0 while no event is open.
pub record Engine : Type 0 where
  pub db : Db
  pub current_event_id : ℕ
  pub is_paused : Bool

unfoldable pub new_engine : Db → Engine
new_engine db = record { db = db; current_event_id = 0; is_paused = false }

-- `EndFocusEvent` of the current event; a failed write leaves the store as it was.
unfoldable pub end_current : Bool → ℕ → Engine → Db
end_current end_ok at e =
    if ltb 0 e.current_event_id && end_ok then end_focus_event e.current_event_id at e.db else e.db

-- The insertion after it: on failure the handler returns with the old id.
unfoldable pub record_focus : Bool → ℕ → FocusChange → Engine → Engine × Bool
record_focus true now fc e =
    let (db, id) = insert_focus_event fc.app_name fc.window_title fc.timestamp now e.db in
    (record e { db = db; current_event_id = id }, true)
record_focus false now fc e = (e, false)

-- The new engine, and whether it called the presence detector's `ResetOnFocusChange`.
unfoldable pub handle_focus_change : Bool → Bool → ℕ → FocusChange → Engine → Engine × Bool
unfolding end_current record_focus
handle_focus_change end_ok insert_ok now fc e =
    if e.is_paused
    then (e, false)
    else record_focus insert_ok now fc (record e { db = end_current end_ok fc.timestamp e })

-- The id is forgotten also when the write fails.
unfoldable pub end_current_event_locked : Bool → ℕ → Engine → Engine
unfolding end_current
end_current_event_locked end_ok now e = record e {
  db = end_current end_ok now e;
  current_event_id = 0;
}

unfoldable pub handle_presence_change : Bool → ℕ → State → Engine → Engine
unfolding end_current_event_locked
handle_presence_change end_ok now away e = record (end_current_event_locked end_ok now e) {
  is_paused = true;
}
handle_presence_change end_ok now paused e = record (end_current_event_locked end_ok now e) {
  is_paused = true;
}
handle_presence_change end_ok now tracking e = record e { is_paused = false }
handle_presence_change end_ok now checking e = e

-- What the loop of `run` takes from its channels: a focus change or a presence state, or the end of
-- the context.
pub data Input : Type 0 where
  focus : Bool → Bool → ℕ → FocusChange → Input
  presence : Bool → ℕ → State → Input
  done : Bool → ℕ → Input

unfoldable pub handle : Input → Engine → Engine
unfolding handle_focus_change handle_presence_change end_current_event_locked
handle (focus end_ok insert_ok now fc) e = (handle_focus_change end_ok insert_ok now fc e).0
handle (presence end_ok now s) e = handle_presence_change end_ok now s e
handle (done end_ok now) e = end_current_event_locked end_ok now e

-- The loop over the inputs that arrive; it returns at `done`.
unfoldable pub run : List Input → Engine → Engine
run [] e = e
run (done end_ok now ∷ _) e = handle (done end_ok now) e
run (focus a b n fc ∷ is) e = run is (handle (focus a b n fc) e)
run (presence a n s ∷ is) e = run is (handle (presence a n s) e)
