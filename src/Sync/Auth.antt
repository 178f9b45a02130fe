-- ===== src/Sync/Auth.antt =====
-- client.go: how a response becomes an error.
pub mod Classified
use trasker.Prelude.{
  ℕ, Bool, true, false, String, ◌==◌, if◌then◌else◌, Option, none, some, Result, ok, err, ◌||◌,
}

-- The errors of `SubmitTimesheet`: the four sentinels, and all others.
pub data SyncError : Type 0 where
  key_expired key_revoked key_invalid permission_denied transient : SyncError

-- `ClassifyAuthError`; `contains` is `strings.Contains` of the lower-cased `error` text of the body.
unfoldable pub classify_auth_error : (String → Bool) → ℕ → SyncError
classify_auth_error contains status =
    if contains "expired"
    then key_expired
    else if contains "revoked"
    then key_revoked
    else if status == 403
    then permission_denied
    else key_invalid

-- A response, as `post` sees it: none if the request failed.
pub record Response : Type 0 where
  pub status_code : ℕ
  pub error_contains : String → Bool
  -- The body as `TimesheetResponse`: its id, if the JSON decodes.
  pub decoded_id : Option String

-- `post` and `SubmitTimesheet` on what the transport returns.
unfoldable pub submit_timesheet : Option Response → Result SyncError String
unfolding classify_auth_error
submit_timesheet none = err transient
submit_timesheet (some r) =
    if r.status_code == 200 || r.status_code == 201
    then elim r.decoded_id [ none ↦ err transient | some id ↦ ok id ]
    else if r.status_code == 401 || r.status_code == 403
    then err (classify_auth_error r.error_contains r.status_code)
    else err transient

-- The four errors on which `processOne` does not bump the retry count.
abbrev pub is_permanent : SyncError → Bool
is_permanent transient = false
is_permanent _ = true
