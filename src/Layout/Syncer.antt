-- ===== src/Layout/Syncer.antt =====
-- internal/client/layout/sync.go: the syncer of the client's snapshots.
use trasker.Prelude.{
  ℕ, ◌+◌, ◌*◌, Bool, true, not, ◌&&◌, ◌||◌, Option, none, some, List, [], ◌∷◌, String, ltb, ◌==◌,
  if◌then◌else◌, filter, length, get_elem?, take, Result, ok, err,
}
use trasker.Sync.Auth.{SyncError, transient, classify_auth_error, is_permanent}
use trasker.Layout.Local.{Row, pending_rows, mark_synced, bump_retry}
use trasker.Layout.Snapshots.{Window}

-- Seconds: 1, 5 and 15 minutes, 1 hour.
abbrev pub backoff_schedule : List ℕ
backoff_schedule = 60 ∷ (5 * 60) ∷ (15 * 60) ∷ (60 * 60) ∷ []

unfoldable pub backoff_for : ℕ → ℕ
backoff_for retry_count = elim (get_elem? backoff_schedule retry_count) [
  | none ↦ 60 * 60
  | some d ↦ d
]

unfoldable pub is_due : ℕ → Row → Bool
unfolding backoff_for
is_due now r = elim r.last_retry [
  | none ↦ true
  | some t ↦ not (ltb now (t + backoff_for r.retry_count))
]

unfoldable pub list_due_snapshots : ℕ → List Row → List Row
unfolding pending_rows is_due
list_due_snapshots now rows = filter (is_due now) (pending_rows rows)

-- One element of the body.
pub record SnapshotPayload : Type 0 where
  pub captured_at : ℕ
  pub windows_hash : String
  pub windows : List Window

unfoldable pub payload : Row → SnapshotPayload
payload r = record {
  captured_at = r.captured_at;
  windows_hash = r.windows_hash;
  windows = r.windows;
}

pub record Response : Type 0 where
  pub status_code : ℕ
  -- `strings.Contains` of the lower-cased `error` text of the body.
  pub error_contains : String → Bool

-- What `postBatch` makes of the response, none if the request failed.
unfoldable pub post_result : Option Response → Result SyncError (Unit {0})
unfolding classify_auth_error
post_result none = err transient
post_result (some r) =
    if r.status_code == 200 || r.status_code == 201
    then ok tt
    else if r.status_code == 401 || r.status_code == 403
    then err (classify_auth_error r.error_contains r.status_code)
    else err transient

-- The first `batch_size` rows, all of them if it is 0.
abbrev pub batch_of : ℕ → List Row → List Row
batch_of batch_size due =
    if ltb 0 batch_size && ltb batch_size (length due) then take batch_size due else due

-- The rows that a pass sends.
unfoldable pub batch : ℕ → ℕ → List Row → List Row
unfolding list_due_snapshots
batch batch_size now rows = batch_of batch_size (list_due_snapshots now rows)

-- Where the goroutine of the syncer stands in `ProcessPending`: outside of it, in the request for a
-- batch, or in one of the loops over it, of which the rows are left. A row is what the listing read.
pub data Phase : Type 0 where
  idle : Phase
  posting : List Row → Phase
  marking : ℕ → List Row → Phase
  bumping : List Row → Phase

-- The listing. Nothing is sent if nothing is due.
unfoldable pub start : ℕ → ℕ → List Row → Phase
unfolding batch
start batch_size now rows = elim (batch batch_size now rows) [
  | [] ↦ idle
  | r ∷ due ↦ posting (r ∷ due)
]

-- After the response; `now` is the time that all rows are marked with.
unfoldable pub settle : ℕ → List Row → Result SyncError (Unit {0}) → Phase
settle now due (ok _) = marking now due
settle now due (err e) = if is_permanent e then idle else bumping due

-- The next statement of a loop, which may fail: that is only logged.
unfoldable pub update_next : Bool → ℕ → Phase → List Row → Phase × List Row
unfolding mark_synced bump_retry
update_next fails now (marking t (r ∷ due)) rows =
    (marking t due, if fails then rows else mark_synced r.id t rows)
update_next fails now (bumping (r ∷ due)) rows =
    (bumping due, if fails then rows else bump_retry r.id (r.retry_count + 1) now rows)
update_next fails now (marking t []) rows = (idle, rows)
update_next fails now (bumping []) rows = (idle, rows)
update_next fails now idle rows = (idle, rows)
update_next fails now (posting due) rows = (posting due, rows)
