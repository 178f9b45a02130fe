-- ===== src/Engine/Faults.antt =====
-- What a failed write does to the engine's record.
use trasker.Prelude.{
  ℕ, ◌<◌, ◌≡◌, refl, true, false, Option, some, List, [], ◌∷◌, ◌++◌, ◌==◌, find, arith,
}
use trasker.Store.Tables.{FocusEvent, next_rowid, update_where}
use trasker.Store.FocusEvents.{insert_focus_event, end_focus_event, open_event, ended}
use trasker.Engine.{Engine, FocusChange, focus, handle, run}

abbrev pub row : ℕ → List FocusEvent → Option FocusEvent
row id = find (λ e. e.id == id)

row-update :
    (id : ℕ) (f : FocusEvent → FocusEvent) (es : List FocusEvent) (e : FocusEvent)
    → ((x : FocusEvent) → (f x).id ≡ x.id)
    → row id es ≡ some e
    → row id (update_where (λ x. x.id == id) f es) ≡ some (f e)
unfolding update_where
row-update id f [] e k h = cc
row-update id f (x ∷ es) e k h = ground (arith, k x, row-update id f es e k)

row-snoc :
    (id : ℕ) (es : List FocusEvent) (x e : FocusEvent)
    → row id es ≡ some e
    → row id (es ++ x ∷ []) ≡ some e
row-snoc id [] x e h = cc
row-snoc id (y ∷ es) x e h = ground (arith, row-snoc id es x e)

failed_insert :
    (e : Engine) (now : ℕ) (fc : FocusChange)
    → e.is_paused ≡ false
    → 0 < e.current_event_id
    → handle (focus true false now fc) e
      ≡ record e { db = end_focus_event e.current_event_id fc.timestamp e.db }
unfolding handle
failed_insert e now fc u h = ground arith

focus_rows :
    (e : Engine) (now : ℕ) (fc : FocusChange)
    → e.is_paused ≡ false
    → 0 < e.current_event_id
    → (handle (focus true true now fc) e).db.focus_events
      ≡ (end_focus_event e.current_event_id fc.timestamp e.db).focus_events
        ++ open_event
            (next_rowid
              (λ x. x.id)
              (end_focus_event e.current_event_id fc.timestamp e.db).focus_events)
            fc.app_name
            fc.window_title
            fc.timestamp
            now
          ∷ []
unfolding handle insert_focus_event
focus_rows e now fc u h = ground arith

-- If an insertion fails, the engine keeps the id of the event that it has just ended: the next
-- focus change ends that event again, at its own time. The application that lost the focus at `t`
-- is charged up to `t'`.
pub failed_insert_extends :
    (e : Engine) (ev : FocusEvent) (now now' : ℕ) (fc fc' : FocusChange)
    → e.is_paused ≡ false
    → 0 < e.current_event_id
    → row e.current_event_id e.db.focus_events ≡ some ev
    → row e.current_event_id
        (run (focus true false now fc ∷ focus true true now' fc' ∷ []) e).db.focus_events
      ≡ some (ended fc'.timestamp ev)
unfolding run end_focus_event
failed_insert_extends e ev now now' fc fc' u h r =
    let id = e.current_event_id in
    let e' = record e { db = end_focus_event id fc.timestamp e.db } in
    let r' = row-update id (ended fc.timestamp) e.db.focus_events ev (λ _. refl) r in
    rw (failed_insert e now fc u h) (
      rw (focus_rows e' now' fc' u h) (
        row-snoc id _ _ _ (
          row-update id (ended fc'.timestamp) e'.db.focus_events (ended fc.timestamp ev) (λ _. refl)
            r')))
