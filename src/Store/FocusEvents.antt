-- ===== src/Store/FocusEvents.antt =====
-- internal/client/store/focus_events.go.
use trasker.Prelude.{
  ℕ, Bool, true, false, ◌&&◌, Option, none, some, List, [], ◌∷◌, ◌++◌, String, leb, ◌==◌,
  if◌then◌else◌, filter, find, Result, ok, err,
}
use trasker.Prelude.Int.{ℤ, sub_ℕ}
use trasker.Prelude.Sort.{sort_by}
use trasker.Store.Tables.{FocusEvent, Db, DbError, not_found, next_rowid, update_where}

-- The new row; `now` is the clock's reading.
unfoldable pub open_event : ℕ → String → String → ℕ → ℕ → FocusEvent
open_event id app_name window_title started_at now = record {
  id = id;
  app_name = app_name;
  window_title = window_title;
  started_at = started_at;
  ended_at = none;
  duration_s = none;
  is_idle = false;
  created_at = now;
}

unfoldable pub insert_focus_event : String → String → ℕ → ℕ → Db → Db × ℕ
unfolding open_event
insert_focus_event app_name window_title started_at now db =
    let id = next_rowid (λ e. e.id) db.focus_events in
    (
      record db {
        focus_events = db.focus_events ++ open_event id app_name window_title started_at now ∷ [];
      },
      id,
    )

-- `strftime` counts whole seconds, so the duration is the difference, of either sign.
abbrev pub ended : ℕ → FocusEvent → FocusEvent
ended at e = record e { ended_at = some at; duration_s = some (sub_ℕ at e.started_at) }

unfoldable pub end_focus_event : ℕ → ℕ → Db → Db
end_focus_event id at db = record db {
  focus_events = update_where (λ e. e.id == id) (ended at) db.focus_events;
}

abbrev pub is_open : FocusEvent → Bool
is_open e = elim e.ended_at [ none ↦ true | some _ ↦ false ]

-- `SELECT id … WHERE ended_at IS NULL ORDER BY id DESC LIMIT 1`.
unfoldable pub latest_open : List FocusEvent → Option ℕ
latest_open [] = none
latest_open (e ∷ es) = elim (latest_open es) [
  | none ↦ if is_open e then some e.id else none
  | some i ↦ if is_open e && leb i e.id then some e.id else some i
]

-- `CloseLatestOpenFocusEvent`. `seconds_between` is SQLite's floating-point
-- `CAST((julianday(now) - julianday(started_at)) * 86400 AS INTEGER)`.
unfoldable pub close_latest_open : (ℕ → ℕ → ℤ) → ℕ → Db → Db × ℕ
close_latest_open seconds_between now db = elim (latest_open db.focus_events) [
  | none ↦ (db, 0)
  | some i ↦ (
    record db {
      focus_events =
          update_where (λ e. e.id == i)
            (λ e. record e {
              ended_at = some now;
              duration_s = some (seconds_between now e.started_at);
            })
            db.focus_events;
    },
    1,
  )
]

unfoldable pub get_focus_event : ℕ → Db → Result DbError FocusEvent
get_focus_event id db = elim (find (λ e. e.id == id) db.focus_events) [
  | none ↦ err not_found
  | some e ↦ ok e
]

-- `started_at` within [from, to], in ascending order.
unfoldable pub list_focus_events : ℕ → ℕ → Db → List FocusEvent
list_focus_events from to db =
    sort_by (λ e. e.started_at)
      (filter (λ e. leb from e.started_at && leb e.started_at to) db.focus_events)

unfoldable pub mark_focus_event_idle : ℕ → Db → Db
mark_focus_event_idle id db = record db {
  focus_events = update_where (λ e. e.id == id) (λ e. record e { is_idle = true }) db.focus_events;
}
