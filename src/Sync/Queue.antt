-- ===== src/Sync/Queue.antt =====
-- queue.go: the retry queue over the `submissions` table.
pub mod Backoff
pub mod Outcomes
pub mod Delivered
pub mod Double
use trasker.Prelude.{
  ℕ, suc, ◌+◌, ◌*◌, Bool, true, false, not, List, [], ◌∷◌, String, ltb, ◌==◌, if◌then◌else◌, Option,
  none, some, filter, length, get_elem?, Result, ok, err,
}
use trasker.Prelude.Sort.{sort_by}
use trasker.Store.Tables.{Status, confirmed, Submission, Db, update_where}
use trasker.Store.Submissions.{is_pending}
use trasker.Sync.Entries.{TimesheetEntry, load_submission_entries}
use trasker.Sync.Aggregate.{aggregate}
use trasker.Sync.Auth.{SyncError, is_permanent}

-- Seconds: 1, 5 and 15 minutes, 1 hour.
abbrev pub backoff_schedule : List ℕ
backoff_schedule = 60 ∷ (5 * 60) ∷ (15 * 60) ∷ (60 * 60) ∷ []

unfoldable pub backoff_for : ℕ → ℕ
backoff_for retry_count = elim (get_elem? backoff_schedule retry_count) [
  | none ↦ 60 * 60
  | some d ↦ d
]

-- A submission never tried is due, another once its backoff has passed.
unfoldable pub is_due : ℕ → Submission → Bool
is_due now s = elim s.last_retry [
  | none ↦ true
  | some t ↦ not (ltb now (t + backoff_for s.retry_count))
]

unfoldable pub list_due_submissions : ℕ → Db → List Submission
list_due_submissions now db =
    filter (is_due now)
      (sort_by (λ s. s.submitted_at) (filter (λ s. is_pending s.status) db.submissions))

unfoldable pub update_status : ℕ → Status → Option String → Db → Db
update_status id status server_id db = record db {
  submissions =
      update_where (λ s. s.id == id) (λ s. record s { status = status; server_id = server_id })
        db.submissions;
}

unfoldable pub bump_retry : ℕ → ℕ → ℕ → Db → Db
bump_retry id current_count now db = record db {
  submissions =
      update_where (λ s. s.id == id)
        (λ s. record s { retry_count = current_count + 1; last_retry = some now }) db.submissions;
}

-- What happens after the server has answered.
unfoldable pub settle : ℕ → Submission → Result SyncError String → Db → Db
unfolding update_status bump_retry
settle now sub (ok id) db = update_status sub.id confirmed (some id) db
settle now sub (err e) db = if is_permanent e then db else bump_retry sub.id sub.retry_count now db

-- The world of a pass: the order in which Go takes equal things, the server's answer to the entries
-- of a submission, the clock's reading when its retry is noted, and whether the context has ended
-- before it is taken up.
pub record World : Type 0 where
  pub shuffle : List TimesheetEntry → List TimesheetEntry
  pub server : ℕ → List TimesheetEntry → Result SyncError String
  pub clock : ℕ → ℕ
  pub ended : ℕ → Bool

unfoldable pub process_one : World → Submission → Db → Db
unfolding settle update_status
process_one w sub db = elim (load_submission_entries sub.id db) [
  | [] ↦ update_status sub.id confirmed none db
  | e ∷ es ↦ settle (w.clock sub.id) sub (w.server sub.id (aggregate w.shuffle (e ∷ es))) db
]

-- The loop of `ProcessPending` over the submissions that were due when it began.
unfoldable pub process_all : World → List Submission → Db → Db
process_all w [] db = db
process_all w (s ∷ ss) db =
    let rest = process_all w ss (process_one w s db) in if w.ended s.id then db else rest

unfoldable pub process_pending : World → ℕ → Db → Db
unfolding process_all
process_pending w now db = process_all w (list_due_submissions now db) db
