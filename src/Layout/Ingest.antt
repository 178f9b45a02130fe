-- ===== src/Layout/Ingest.antt =====
-- internal/server/api/layout_handlers.go. The table layout_snapshots stands beside the database of
-- the other handlers. A request is given by what its parsers make of it.
pub mod Retried
pub mod Refused
pub mod Served
use trasker.Prelude.{
  ℕ, suc, ◌+◌, ◌-◌, ◌%◌, Bool, true, false, Option, none, some, List, [], ◌∷◌, String,
  if◌then◌else◌, ◌==◌, Result, ok, err,
}
use trasker.Prelude.Int.{ℤ}
use trasker.Server.Tables.{Device, ServerDb, not_found, failed}
use trasker.Server.Http.{
  Failure, Caller, ◌>>=◌, ◌>>◌, check, present, stored, answered, is_set, parse_pagination,
}
use trasker.Server.Devices.{get_device_by_id, get_device_by_client_id}
use trasker.Server.Timesheets.{has_any}
use trasker.Layout.Snapshots.{
  Window, LayoutSnapshot, Given, InsertSnapshotParams, TimelineEntry, insert_snapshot,
  get_snapshot_at, list_timestamps,
}
use trasker.Layout.Downsample.{day}

-- `layoutSnapshotReq`: `captured_at` is none where `time.Parse` fails.
pub record SnapshotReq : Type 0 where
  pub captured_at : Option ℕ
  pub windows_hash : String
  pub windows : List Window

pub record IngestReq : Type 0 where
  pub client_device_id : String
  pub snapshots : List SnapshotReq

-- What `decodeLayoutJSON` makes of the body.
pub data Body : Type 0 where
  too_large invalid : Body
  decoded : IngestReq → Body

-- What the database does: whether the probe of the schema fails, what it says, whether the lookup of
-- the device fails, and the insert of the snapshot with a number.
pub record Faults : Type 0 where
  pub probe : Bool
  pub has_table : Bool
  pub lookup : Bool
  pub insert : ℕ → Bool

abbrev pub decoded_body : Body → Result Failure IngestReq
decoded_body too_large =
    err (record { status = 413; error = "request body exceeds 4MB layout cap" })
decoded_body invalid = err (record { status = 400; error = "invalid request body" })
decoded_body (decoded req) = ok req

-- The probe of the schema that all three handlers make.
unfoldable pub probe_schema : Bool → Bool → Result Failure (Unit {0})
probe_schema fails has_table = do
  check (if fails then false else true) 500 "failed to check schema"
  check has_table 503
      "layout_snapshots table not migrated; apply migrations/004_layout_snapshots.up.sql"

-- `received` and `deduped`.
pub record Counts : Type 0 where
  pub received : ℕ
  pub deduped : ℕ

abbrev pub counted : Option LayoutSnapshot → Counts → Counts
counted none c = record { received = c.received + 1; deduped = c.deduped + 1 }
counted (some _) c = record { received = c.received + 1; deduped = c.deduped }

-- What is stored of a snapshot, if it is well formed.
unfoldable pub snapshot_params : ℕ → SnapshotReq → Result Failure InsertSnapshotParams
snapshot_params device_id snap = do
  captured_at ← present snap.captured_at 400 "invalid captured_at format, use RFC3339"
  check (is_set snap.windows_hash) 400 "windows_hash is required"
  ok (record {
    device_id = device_id;
    captured_at = captured_at;
    windows = snap.windows;
    windows_hash = snap.windows_hash;
  })

-- The loop over the snapshots: it ends at the first that is not well formed or not inserted, and
-- what it has inserted stays.
unfoldable pub ingest_all :
    (ℕ → Bool)
    → Given
    → ℕ
    → List SnapshotReq
    → Counts
    → List LayoutSnapshot
    → List LayoutSnapshot × Result Failure Counts
unfolding snapshot_params insert_snapshot
ingest_all fails g device_id [] c rows = (rows, ok c)
ingest_all fails g device_id (snap ∷ snaps) c rows = elim (snapshot_params device_id snap) [
  | err x ↦ (rows, err x)
  | ok p ↦ elim (fails c.received) [
    | true ↦ (rows, err (record { status = 500; error = "failed to insert snapshot" }))
    | false ↦
        ingest_all fails g device_id snaps (counted (insert_snapshot g p rows).1 c)
          (insert_snapshot g p rows).0
  ]
]

-- The part of `layoutIngestHandler` before the loop: the device and the snapshots.
unfoldable pub ingest_target :
    Faults → Caller → Body → ServerDb → Result Failure (Device × List SnapshotReq)
unfolding probe_schema get_device_by_client_id
ingest_target faults caller body db = do
  _ ← present caller.user_id 401 "not authenticated"
  api_key_id ← present caller.api_key_id 401 "no API key context"
  req ← decoded_body body
  check (is_set req.client_device_id) 400 "client_device_id is required"
  check (has_any req.snapshots) 400 "at least one snapshot is required"
  probe_schema faults.probe faults.has_table
  device ←
      stored (get_device_by_client_id faults.lookup req.client_device_id api_key_id db)
        (record { status = 400; error = "device not registered" })
        (record { status = 500; error = "failed to look up device" })
  ok (device, req.snapshots)

-- `layoutIngestHandler`.
unfoldable pub layout_ingest :
    Faults
    → Given
    → Caller
    → Body
    → ServerDb
    → List LayoutSnapshot
    → List LayoutSnapshot × Result Failure Counts
unfolding ingest_target ingest_all
layout_ingest faults g caller body db rows = elim (ingest_target faults caller body db) [
  | err x ↦ (rows, err x)
  | ok t ↦ ingest_all faults.insert g t.0.id t.1 (record { received = 0; deduped = 0 }) rows
]

unfoldable pub authorize_device_for_user : Bool → ℕ → ℕ → ServerDb → Result Failure Device
unfolding get_device_by_id
authorize_device_for_user fails device_id user_id db = do
  device ←
      stored (get_device_by_id fails device_id db)
        (record { status = 404; error = "device not found" })
        (record { status = 500; error = "failed to look up device" })
  check (device.user_id == user_id) 403 "device does not belong to authenticated user"
  ok device

-- The part that the two dashboard handlers share.
unfoldable pub authorized_device : Faults → Caller → Option ℕ → ServerDb → Result Failure Device
unfolding probe_schema authorize_device_for_user
authorized_device faults caller device_param db = do
  user_id ← present caller.user_id 401 "not authenticated"
  device_id ← present device_param 400 "invalid or missing device_id"
  probe_schema faults.probe faults.has_table
  authorize_device_for_user faults.lookup device_id user_id db

-- `layoutAtHandler`; `read_fails` is for the last statement.
unfoldable pub layout_at :
    Faults
    → Bool
    → Caller
    → Option ℕ
    → Option ℕ
    → ServerDb
    → List LayoutSnapshot
    → Result Failure LayoutSnapshot
unfolding authorized_device get_snapshot_at
layout_at faults read_fails caller device_param t_param db rows = do
  device ← authorized_device faults caller device_param db
  t ← present t_param 400 "invalid or missing t (RFC3339)"
  check (if read_fails then false else true) 500 "failed to fetch snapshot"
  present (get_snapshot_at device.id t rows) 404 "no snapshot at-or-before t"

-- Instants count from midnight of a UTC day.
unfoldable pub today_utc_midnight : ℕ → ℕ
today_utc_midnight t = t - t % day

-- A bound of the query: absent or empty, or what `time.Parse` makes of it.
abbrev pub bound : Option (Option ℕ) → ℕ → String → Result Failure ℕ
bound none default error = ok default
bound (some none) default error = err (record { status = 400; error = error })
bound (some (some t)) default error = ok t

-- `layoutTimelineHandler`.
unfoldable pub layout_timeline :
    Faults
    → Bool
    → ℕ
    → Caller
    → Option ℕ
    → Option (Option ℕ)
    → Option (Option ℕ)
    → Option ℤ
    → Option ℤ
    → ServerDb
    → List LayoutSnapshot
    → Result Failure (List TimelineEntry)
unfolding authorized_device list_timestamps parse_pagination today_utc_midnight
layout_timeline faults read_fails now caller device_param from_param to_param limit offset db rows =
    do
      device ← authorized_device faults caller device_param db
      from ← bound from_param (today_utc_midnight now) "invalid from (RFC3339)"
      to ← bound to_param now "invalid to (RFC3339)"
      check (if read_fails then false else true) 500 "failed to list timeline"
      let p = parse_pagination limit offset
      ok (list_timestamps device.id from to p.0 p.1 rows)
