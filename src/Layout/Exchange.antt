-- ===== src/Layout/Exchange.antt =====
-- The client's syncer and the server's handler with a network between them that may lose a request
-- or an answer, and what goes on beside them on either side.
pub mod Batches
pub mod Marks
pub mod Answers
pub mod Once
pub mod Reused
pub mod Examples
use trasker.Prelude.{
  ℕ, ◌*◌, Bool, true, false, Option, none, some, List, [], ◌∷◌, ◌++◌, String, map, if◌then◌else◌,
  Result, ok, err,
}
use trasker.Server.Tables.{ServerDb}
use trasker.Server.Http.{Failure, Caller}
use trasker.Layout.Snapshots.{Window, LayoutSnapshot, Given}
use trasker.Layout.Downsample.{second, sweep}
use trasker.Layout.Ingest.{Faults as IngestFaults}
use trasker.Layout.Ingest.{SnapshotReq, Body, decoded, Counts, layout_ingest}
use trasker.Layout.Local.{Row, insert_row, prune}
use trasker.Layout.Syncer.{
  SnapshotPayload, payload, Response, post_result, Phase, idle, posting, marking, bumping, start,
  settle, update_next,
}

-- What stays the same over the passes: the client's configuration, what the server knows of it, and
-- whether the lower-cased `error` text of a body contains a word.
pub record Setup : Type 0 where
  pub client_device_id : String
  pub batch_size : ℕ
  pub caller : Caller
  pub db : ServerDb
  pub contains : String → String → Bool

-- What one request meets.
pub record Net : Type 0 where
  pub unreachable : Bool
  pub answer_lost : Bool
  pub faults : IngestFaults
  pub given : Given

-- An element of the body as the server decodes it: RFC 3339 keeps whole seconds.
unfoldable pub decoded_payload : SnapshotPayload → SnapshotReq
decoded_payload p = record {
  captured_at = some (p.captured_at * second);
  windows_hash = p.windows_hash;
  windows = p.windows;
}

unfoldable pub batch_body : String → List SnapshotPayload → Body
unfolding decoded_payload
batch_body client_device_id ps =
    decoded (record { client_device_id = client_device_id; snapshots = map decoded_payload ps })

unfoldable pub response : (String → String → Bool) → Result Failure Counts → Response
response contains (ok _) = record { status_code = 201; error_contains = λ word. false }
response contains (err f) = record { status_code = f.status; error_contains = contains f.error }

-- The server's table after a request, and what the client sees of the answer.
unfoldable pub deliver :
    Setup → Net → List LayoutSnapshot → List SnapshotPayload → List LayoutSnapshot × Option Response
unfolding batch_body response layout_ingest
deliver s net snaps ps =
    if net.unreachable
    then (snaps, none)
    else let r =
        layout_ingest net.faults net.given s.caller (batch_body s.client_device_id ps) s.db snaps in
      (r.0, if net.answer_lost then none else some (response s.contains r.1))

-- The two tables with the place of the syncer between them. `history` is not a state of the program:
-- it holds every row that the server's table has had.
pub record Both : Type 0 where
  pub rows : List Row
  pub phase : Phase
  pub snaps : List LayoutSnapshot
  pub history : List LayoutSnapshot

-- What happens, one statement or request at a time. `listed`, `answered` and `updated` are the steps of
-- the goroutine of the syncer; `captured` and `pruned` those of the capturer and of RunPrune beside
-- it; on the server a sweep, and a request of any client, this one's included that comes late.
pub data Event : Type 0 where
  listed : ℕ → Event
  answered : Net → ℕ → Event
  updated : Bool → ℕ → Event
  captured : ℕ → ℕ → List Window → String → Event
  pruned : ℕ → ℕ → Event
  swept : Bool → Bool → ℕ → Event
  requested : IngestFaults → Given → Caller → Body → Event

abbrev pub arrived : List LayoutSnapshot → Both → Both
arrived snaps b = record b { snaps = snaps; history = snaps ++ b.history }

-- The listing of a syncer that is idle.
abbrev pub started : Setup → ℕ → Phase → Both → Both
unfolding start
started s now idle b = record b { phase = start s.batch_size now b.rows }
started s now (posting due) b = b
started s now (marking t due) b = b
started s now (bumping due) b = b

-- The answer to a request that is under way.
abbrev pub replied : Setup → Net → ℕ → Phase → Both → Both
unfolding deliver post_result settle
replied s net now (posting due) b =
    let r = deliver s net b.snaps (map payload due) in
    record (arrived r.0 b) { phase = settle now due (post_result r.1) }
replied s net now idle b = b
replied s net now (marking t due) b = b
replied s net now (bumping due) b = b

unfoldable pub happen : Setup → Event → Both → Both
unfolding started replied update_next sweep insert_row prune layout_ingest
happen s (listed now) b = started s now b.phase b
happen s (answered net now) b = replied s net now b.phase b
happen s (updated fails now) b =
    let r = update_next fails now b.phase b.rows in record b { phase = r.0; rows = r.1 }
happen s (captured now at windows hash) b = record b {
  rows = (insert_row now at windows hash b.rows).0;
}
happen s (pruned now retention) b = record b { rows = (prune now retention b.rows).0 }
happen s (swept first_fails second_fails now) b = record b {
  snaps = sweep first_fails second_fails now b.snaps;
}
happen s (requested faults g caller body) b =
    arrived (layout_ingest faults g caller body s.db b.snaps).0 b

unfoldable pub run : Setup → List Event → Both → Both
unfolding happen
run s [] b = b
run s (e ∷ es) b = run s es (happen s e b)

-- The rows of the batch that the syncer holds.
abbrev pub in_flight : Phase → List Row
in_flight idle = []
in_flight (posting due) = due
in_flight (marking t due) = due
in_flight (bumping due) = due
