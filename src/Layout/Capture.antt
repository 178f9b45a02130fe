-- ===== src/Layout/Capture.antt =====
-- internal/client/layout/capturer.go: the state of the capturer and what its two goroutines do to
-- it. `hash` is HashWindows.
pub mod Changes
use trasker.Prelude.{
  ℕ, Bool, true, false, Option, none, some, List, [], ◌∷◌, ◌++◌, String, str_eq, if◌then◌else◌,
}
use trasker.Presence.Deadman.{State, tracking, checking, paused, away}
use trasker.Layout.Snapshots.{Window}
use trasker.Layout.Local.{Row, insert_row}

pub record Capturer : Type 0 where
  pub locked : Bool
  pub last_hash : String
  -- The rows of the store.
  pub rows : List Row

-- `NewCapturer`.
unfoldable pub new_capturer : List Row → Capturer
new_capturer rows = record { locked = false; last_hash = ""; rows = rows }

-- What a tick meets: whether its context has ended, the windows or none on an error, whether
-- json.Marshal or the insert fails, and the time.
pub record Tick : Type 0 where
  pub ended : Bool
  pub windows : Option (List Window)
  pub marshal_fails : Bool
  pub insert_fails : Bool
  pub now : ℕ

pub data Event : Type 0 where
  -- An event of the presence channel.
  lock : State → Event
  tick : Tick → Event

abbrev pub is_away : State → Bool
is_away away = true
is_away _ = false

-- The rest of a tick once there are windows.
unfoldable pub store_windows : (List Window → String) → Tick → List Window → Capturer → Capturer
unfolding insert_row
store_windows hash t windows c =
    if str_eq (hash windows) c.last_hash
    then c
    else if t.marshal_fails
    then c
    else if t.insert_fails
    then c
    else record c {
      last_hash = hash windows;
      rows = (insert_row t.now t.now windows (hash windows) c.rows).0;
    }

-- `tick`.
unfoldable pub on_tick : (List Window → String) → Tick → Capturer → Capturer
unfolding store_windows
on_tick hash t c =
    if t.ended
    then c
    else if c.locked
    then c
    else elim t.windows [ none ↦ c | some windows ↦ store_windows hash t windows c ]

-- `runLockSubscriber` and `runTicker`, in the order in which their events come.
unfoldable pub handle : (List Window → String) → Event → Capturer → Capturer
unfolding on_tick
handle hash (lock s) c = record c { locked = is_away s }
handle hash (tick t) c = on_tick hash t c

unfoldable pub run : (List Window → String) → List Event → Capturer → Capturer
run hash [] c = c
run hash (e ∷ es) c = run hash es (handle hash e c)
