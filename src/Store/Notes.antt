-- ===== src/Store/Notes.antt =====
-- internal/client/store/notes.go.
use trasker.Prelude.{
  ℕ, true, false, ◌||◌, not, List, [], ◌∷◌, ◌++◌, String, ◌==◌, if◌then◌else◌, filter, Result, ok,
  err,
}
use trasker.Prelude.Sort.{sort_by}
use trasker.Store.Tables.{Note, Db, DbError, foreign_key, next_rowid, has_row, update_where}

unfoldable pub create_note : ℕ → String → ℕ → Db → Result DbError (Db × ℕ)
unfolding has_row
create_note anchor_event text now db =
    let id = next_rowid (λ n. n.id) db.notes in
    if has_row (λ e. e.id) anchor_event db.focus_events || not (db.enforces anchor_event)
    then ok (
      record db {
        notes =
            db.notes
            ++ record {
              id = id;
              anchor_event = anchor_event;
              text = text;
              created_at = now;
              cascade_applied = false;
            }
              ∷ [];
      },
      id,
    )
    else err foreign_key

unfoldable pub list_notes_for_event : ℕ → Db → List Note
list_notes_for_event event_id db =
    sort_by (λ n. n.created_at) (filter (λ n. n.anchor_event == event_id) db.notes)

unfoldable pub mark_note_cascade_applied : ℕ → Db → Db
mark_note_cascade_applied id db = record db {
  notes = update_where (λ n. n.id == id) (λ n. record n { cascade_applied = true }) db.notes;
}
