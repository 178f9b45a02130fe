-- ===== src/Layout/Ingest/Refused.antt =====
-- The answers of the ingest handler that are refusals.
use trasker.Prelude.{ℕ, ◌≤◌, Bool, true, false, List, [], ◌∷◌, Result, ok, err, arith}
use trasker.Server.Tables.{Device, ServerDb}
use trasker.Server.Http.{Failure, Caller}
use trasker.Server.Devices.{get_device_by_client_id}
use trasker.Layout.Snapshots.{LayoutSnapshot, Given, InsertSnapshotParams, insert_snapshot}
use trasker.Layout.Ingest.{
  SnapshotReq, Body, Faults, Counts, counted, probe_schema, snapshot_params, ingest_all,
  ingest_target, layout_ingest,
}

-- A result that is no success has a status of 4xx or 5xx.
abbrev pub Refuses {ℓ} : {A : Type ℓ} → Result Failure A → Type 0
Refuses (ok _) = Unit
Refuses (err f) = 400 ≤ f.status

target-Refuses :
    (faults : Faults) (caller : Caller) (body : Body) (db : ServerDb)
    → Refuses (ingest_target faults caller body db)
unfolding ingest_target probe_schema get_device_by_client_id
target-Refuses faults caller body db = ground arith

params-Refuses : (d : ℕ) (snap : SnapshotReq) → Refuses (snapshot_params d snap)
unfolding snapshot_params
params-Refuses d snap = ground arith

ingest_all-Refuses :
    (fails : ℕ → Bool) (g : Given) (d : ℕ) (snaps : List SnapshotReq) (c : Counts)
    (rows : List LayoutSnapshot)
    → Refuses (ingest_all fails g d snaps c rows).1
unfolding ingest_all
ingest_all-Refuses fails g d [] c rows = tt
ingest_all-Refuses fails g d (snap ∷ snaps) c rows =
    go (ingest_all-Refuses fails g d snaps) (snapshot_params d snap) (params-Refuses d snap)
      (fails c.received)
  where
    go :
        ((c' : Counts) (l : List LayoutSnapshot) → Refuses (ingest_all fails g d snaps c' l).1)
        → (r : Result Failure InsertSnapshotParams) → Refuses r
        → (b : Bool)
        → Refuses
            (elim r as (λ _. List LayoutSnapshot × Result Failure Counts) [
              | err x ↦ (rows, err x)
              | ok p ↦ elim b [
                | true ↦ (rows, err (record { status = 500; error = "failed to insert snapshot" }))
                | false ↦
                    ingest_all fails g d snaps
                      (counted (insert_snapshot g p rows).1 c)
                      (insert_snapshot g p rows).0
              ]
            ]).1
    go rec (err x) h b = h
    go rec (ok p) h true = omega arith
    go rec (ok p) h false = rec _ _

pub layout_ingest-Refuses :
    (faults : Faults) (g : Given) (caller : Caller) (body : Body) (db : ServerDb)
    (rows : List LayoutSnapshot)
    → Refuses (layout_ingest faults g caller body db rows).1
unfolding layout_ingest
layout_ingest-Refuses faults g caller body db rows =
    go (ingest_target faults caller body db) (target-Refuses faults caller body db)
  where
    go :
        (r : Result Failure (Device × List SnapshotReq))
        → Refuses r
        → Refuses
            (elim r as (λ _. List LayoutSnapshot × Result Failure Counts) [
              | err x ↦ (rows, err x)
              | ok t ↦
                  ingest_all faults.insert g t.0.id t.1 (record { received = 0; deduped = 0 }) rows
            ]).1
    go (err x) h = h
    go (ok t) h = ingest_all-Refuses faults.insert g t.0.id t.1 _ rows
