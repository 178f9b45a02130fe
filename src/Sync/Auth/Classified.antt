-- ===== src/Sync/Auth/Classified.antt =====
-- Which errors a response gives.
use trasker.Prelude.{◌≡◌, true, false, ◌||◌, some, ◌==◌, err, arith}
use trasker.Sync.Auth.{
  SyncError, key_expired, key_revoked, key_invalid, permission_denied, transient, Response,
  submit_timesheet, is_permanent,
}

-- What an error says of the response that gave it.
abbrev pub Explains : SyncError → Response → Type 0
Explains key_expired r = r.error_contains "expired" ≡ true
Explains key_revoked r = (r.error_contains "revoked" ≡ true) × (r.error_contains "expired" ≡ false)
Explains permission_denied r =
    (r.status_code ≡ 403)
    × (r.error_contains "expired" ≡ false)
    × (r.error_contains "revoked" ≡ false)
Explains key_invalid r =
    (r.status_code ≡ 401)
    × (r.error_contains "expired" ≡ false)
    × (r.error_contains "revoked" ≡ false)
Explains transient r = (r.status_code == 401 || r.status_code == 403) ≡ false

-- An error of `SubmitTimesheet` is one of the four sentinels exactly if the status is 401 or 403, and
-- it is the sentinel of what the server says: an expired key only if the text says so, a revoked key
-- only if the text says so and not that it expired, and without either a missing permission for 403
-- and an invalid key for 401.
pub submit_timesheet-Explains :
    (r : Response) (e : SyncError)
    → submit_timesheet (some r) ≡ err e
    → (is_permanent e ≡ (r.status_code == 401 || r.status_code == 403)) × Explains e r
unfolding submit_timesheet
submit_timesheet-Explains r key_expired h = ground arith
submit_timesheet-Explains r key_revoked h = ground arith
submit_timesheet-Explains r key_invalid h = ground arith
submit_timesheet-Explains r permission_denied h = ground arith
submit_timesheet-Explains r transient h = ground arith
