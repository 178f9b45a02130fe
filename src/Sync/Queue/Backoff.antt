-- ===== src/Sync/Queue/Backoff.antt =====
-- When a submission is tried again.
use mathlib.Core.List.{Memᴰ}
use trasker.Prelude.{
  ℕ, zero, suc, ◌+◌, ◌*◌, ◌≤◌, ◌≡◌, ◌∙◌, sym, subst, true, List, [], ◌∷◌, leb, ◌==◌, some,
  filter-mem, All, err, arith,
}
use trasker.Prelude.Sort.{sort_by-mem}
use trasker.Store.Tables.{pending, Submission, Db, update_where}
use trasker.Store.Submissions.{is_pending}
use trasker.Sync.Entries.{TimesheetEntry, load_submission_entries}
use trasker.Sync.Aggregate.{aggregate}
use trasker.Sync.Auth.{SyncError, transient, is_permanent}
use trasker.Sync.Queue.{
  World, backoff_for, is_due, list_due_submissions, bump_retry, settle, process_one,
}

-- The backoff lies between a minute and an hour, and does not fall as the retries go on.
pub backoff_bounds :
    (n : ℕ)
    → (60 ≤ backoff_for n) × (backoff_for n ≤ 60 * 60) × (backoff_for n ≤ backoff_for (suc n))
unfolding backoff_for
backoff_bounds zero = omega arith
backoff_bounds (suc zero) = omega arith
backoff_bounds (suc (suc zero)) = omega arith
backoff_bounds (suc (suc (suc zero))) = omega arith
backoff_bounds (suc (suc (suc (suc n)))) = omega arith

bumped_rows :
    (id count t now : ℕ) (rows : List Submission)
    → All
        (λ r. r.id ≡ id → is_due now r ≡ leb (t + backoff_for (count + 1)) now)
        (update_where
          (λ s. s.id == id)
          (λ s. record s { retry_count = count + 1; last_retry = some t })
          rows)
unfolding update_where is_due
bumped_rows id count t now [] = tt
bumped_rows id count t now (r ∷ rows) = (ground arith, bumped_rows id count t now rows)

process_one-settle :
    (w : World) (s : Submission) (db : Db) (e : TimesheetEntry) (es : List TimesheetEntry)
    → load_submission_entries s.id db ≡ e ∷ es
    → process_one w s db ≡ settle (w.clock s.id) s (w.server s.id (aggregate w.shuffle (e ∷ es))) db
unfolding process_one
process_one-settle w s db e es h = rw (h, process_one)

-- After a transient error the submission is due again exactly from the moment at which the backoff
-- of its new retry count has passed since the failure.
pub transient_backs_off :
    (w : World) (s : Submission) (db : Db) (e : TimesheetEntry) (es : List TimesheetEntry) (now : ℕ)
    → load_submission_entries s.id db ≡ e ∷ es
    → w.server s.id (aggregate w.shuffle (e ∷ es)) ≡ err transient
    → All
        (λ r. r.id ≡ s.id → is_due now r ≡ leb (w.clock s.id + backoff_for (s.retry_count + 1)) now)
        (process_one w s db).submissions
unfolding settle bump_retry
transient_backs_off w s db e es now h k =
    rw (process_one-settle w s db e es h, k)
      (bumped_rows s.id s.retry_count (w.clock s.id) now db.submissions)

due_later :
    (now now' : ℕ) (s : Submission) → now ≤ now' → is_due now s ≡ true → is_due now' s ≡ true
unfolding is_due
due_later now now' s h d = ground arith

listed :
    (now : ℕ) (s : Submission) (db : Db)
    → Memᴰ s db.submissions
    → is_pending s.status ≡ true
    → is_due now s ≡ true
    → Memᴰ s (list_due_submissions now db)
unfolding list_due_submissions
listed now s db m p d = filter-mem _ _ s (sort_by-mem _ s _ (filter-mem _ _ s m p)) d

-- A permanent error (an expired, revoked or invalid key, or a missing permission) leaves the store
-- as it was. The submission is still pending and no retry is noted, so every later pass takes it
-- up again, with no backoff, although the comment of `processOne` says that it is not retried.
pub permanent_error_retried :
    (w : World) (s : Submission) (db : Db) (e : TimesheetEntry) (es : List TimesheetEntry)
    (x : SyncError) (now now' : ℕ)
    → Memᴰ s db.submissions
    → s.status ≡ pending
    → is_due now s ≡ true
    → load_submission_entries s.id db ≡ e ∷ es
    → w.server s.id (aggregate w.shuffle (e ∷ es)) ≡ err x
    → is_permanent x ≡ true
    → now ≤ now'
    → (process_one w s db ≡ db) × Memᴰ s (list_due_submissions now' (process_one w s db))
unfolding settle
permanent_error_retried w s db e es x now now' m p d h k x' l =
    let same : process_one w s db ≡ db = process_one-settle w s db e es h ∙ rw (k, x') in
    (
      same,
      subst (λ q. Memᴰ s (list_due_submissions now' q)) (sym same)
          (listed now' s db m (rw p) (due_later now now' s l d)),
    )
