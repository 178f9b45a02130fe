-- ===== src/Sync/Submit.antt =====
-- submit.go: `CreateSubmission`, one transaction over `submissions` and `submission_events`.
-- `handleSubmit` of internal/client/webui/api.go runs the same statements.
pub mod Links
use trasker.Prelude.{ℕ, List, [], ◌∷◌, ◌++◌, Bool, true, false, Result, ok, err}
use trasker.Store.Tables.{Db, DbError, next_rowid}
use trasker.Store.Submissions.{create_submission, link_event_to_submission}

-- The loop over the events; the first error ends it.
unfoldable pub link_all : ℕ → List ℕ → Db → Result DbError Db
link_all submission_id [] db = ok db
link_all submission_id (i ∷ is) db = elim (link_event_to_submission submission_id i db) [
  | err e ↦ err e
  | ok db' ↦ link_all submission_id is db'
]

-- An error rolls the transaction back, so only a success comes with a new store.
unfoldable pub submit_events : List ℕ → ℕ → Db → Result DbError (Db × ℕ)
unfolding link_all
submit_events event_ids now db =
    let (db', id) = create_submission now db in
    elim (link_all id event_ids db') [ err e ↦ err e | ok db'' ↦ ok (db'', id) ]
