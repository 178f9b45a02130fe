-- ===== src/Store/Submissions.antt =====
-- internal/client/store/submissions.go.
use trasker.Prelude.{
  ℕ, Bool, true, false, ◌+◌, none, some, List, [], ◌∷◌, ◌++◌, String, str_eq, ◌==◌, if◌then◌else◌,
  ◌&&◌, ◌||◌, not, filter, find, any, Result, ok, err,
}
use trasker.Prelude.Sort.{sort_by}
use trasker.Store.Tables.{
  Status, pending, Submission, SubmissionEvent, Db, DbError, foreign_key, unique, not_found,
  next_rowid, has_row, update_where,
}

unfoldable pub new_submission : ℕ → ℕ → Submission
new_submission id submitted_at = record {
  id = id;
  server_id = none;
  submitted_at = submitted_at;
  status = pending;
  retry_count = 0;
  last_retry = none;
}

unfoldable pub create_submission : ℕ → Db → Db × ℕ
unfolding new_submission
create_submission submitted_at db =
    let id = next_rowid (λ s. s.id) db.submissions in
    (record db { submissions = db.submissions ++ new_submission id submitted_at ∷ [] }, id)

unfoldable pub is_linked : ℕ → ℕ → List SubmissionEvent → Bool
is_linked submission_id event_id =
    any (λ r. r.submission_id == submission_id && r.event_id == event_id)

-- A plain INSERT: the keys of `submission_events` refuse a repeated link, and one to a row that is
-- not there, where foreign keys are enforced.
unfoldable pub link_event_to_submission : ℕ → ℕ → Db → Result DbError Db
unfolding is_linked has_row
link_event_to_submission submission_id event_id db =
    if is_linked submission_id event_id db.submission_events
    then err unique
    else if has_row (λ s. s.id) submission_id db.submissions
          && has_row (λ e. e.id) event_id db.focus_events
        || not (db.enforces event_id)
    then ok (record db {
      submission_events =
          db.submission_events
          ++ record { submission_id = submission_id; event_id = event_id } ∷ [];
    })
    else err foreign_key

unfoldable pub get_submission : ℕ → Db → Result DbError Submission
get_submission id db = elim (find (λ s. s.id == id) db.submissions) [
  | none ↦ err not_found
  | some s ↦ ok s
]

-- An empty `serverID` is stored as NULL.
unfoldable pub update_submission_status : ℕ → Status → String → Db → Db
update_submission_status id status server_id db =
    let sid = if str_eq server_id "" then none else some server_id in
    record db {
      submissions =
          update_where (λ s. s.id == id) (λ s. record s { status = status; server_id = sid })
            db.submissions;
    }

abbrev pub is_pending : Status → Bool
is_pending pending = true
is_pending _ = false

unfoldable pub list_pending_submissions : Db → List Submission
list_pending_submissions db =
    sort_by (λ s. s.submitted_at) (filter (λ s. is_pending s.status) db.submissions)

unfoldable pub increment_submission_retry : ℕ → ℕ → Db → Db
increment_submission_retry id now db = record db {
  submissions =
      update_where (λ s. s.id == id)
        (λ s. record s { retry_count = s.retry_count + 1; last_retry = some now }) db.submissions;
}
