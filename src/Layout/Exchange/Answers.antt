-- ===== src/Layout/Exchange/Answers.antt =====
-- What an answer of the server says of its table.
use trasker.Prelude.{
  ℕ, ◌≡◌, refl, ap, ◌∙◌, subst, Bool, true, false, Option, none, some, List, [], ◌∷◌, ◌++◌, map,
  String, any-append, any-append_left, if◌then◌else◌, if_elim, All, Result, ok, err, arith,
}
use trasker.Server.Tables.{Device, ServerDb}
use trasker.Server.Http.{Failure, Caller}
use trasker.Server.Devices.{get_device_by_client_id}
use trasker.Sync.Auth.{classify_auth_error}
use trasker.Layout.Snapshots.{LayoutSnapshot, is_duplicate}
use trasker.Layout.Ingest.{
  SnapshotReq, IngestReq, decoded, Faults, Counts, probe_schema, ingest_target, layout_ingest,
}
use trasker.Layout.Ingest.Refused.{Refuses, layout_ingest-Refuses}
use trasker.Layout.Ingest.Retried.{
  OncePerKey, Stored, layout_ingest-OncePerKey, layout_ingest-Stored,
}
use trasker.Layout.Exchange.Marks.{request, OnServer}
use trasker.Layout.Local.{Row}
use trasker.Layout.Syncer.{SnapshotPayload, payload, Response, post_result}
use trasker.Layout.Exchange.{Setup, Net, decoded_payload, batch_body, response, deliver}

-- The server knows the client's device under the id.
abbrev pub Registered : Setup → ℕ → Type 0
Registered s d =
    (key : ℕ) × (device : Device) × (s.caller.api_key_id ≡ some key)
    × (get_device_by_client_id false s.client_device_id key s.db ≡ ok device)
    × (device.id ≡ d)

target_device :
    (faults : Faults) (caller : Caller) (req : IngestReq) (db : ServerDb)
    (t : Device × List SnapshotReq) (key : ℕ) (device : Device)
    → ingest_target faults caller (decoded req) db ≡ ok t
    → caller.api_key_id ≡ some key
    → get_device_by_client_id false req.client_device_id key db ≡ ok device
    → (t.0 ≡ device) × (t.1 ≡ req.snapshots)
unfolding ingest_target probe_schema get_device_by_client_id
target_device faults caller req db t key device h k e =
    (ground (arith, h, k, e), ground (arith, h, k, e))

requests : (rows : List Row) → map decoded_payload (map payload rows) ≡ map request rows
unfolding payload decoded_payload
requests [] = refl
requests (r ∷ rows) = ap (λ l. request r ∷ l) (requests rows)

All-requests :
    (d : ℕ) (snaps : List LayoutSnapshot) (rows : List Row)
    → All (Stored d snaps) (map request rows)
    → All (OnServer d snaps) rows
All-requests d snaps [] h = tt
All-requests d snaps (r ∷ rows) h = (h.0, All-requests d snaps rows h.1)

answered_well :
    (contains : String → String → Bool) (r : Result Failure Counts)
    → Refuses r
    → post_result (some (response contains r)) ≡ ok tt
    → (c : Counts) × (r ≡ ok c)
unfolding post_result response classify_auth_error
answered_well contains (ok c) k h = (c, refl)
answered_well contains (err f) k h = absurd (ground (arith, h))

-- A batch that was taken is there.
taken :
    (s : Setup) (d : ℕ) (net : Net) (snaps : List LayoutSnapshot) (due : List Row) (c : Counts)
    → Registered s d
    → (layout_ingest net.faults net.given s.caller
        (batch_body s.client_device_id (map payload due))
        s.db
        snaps).1
      ≡ ok c
    → All
        (OnServer d
          (layout_ingest net.faults net.given s.caller
            (batch_body s.client_device_id (map payload due))
            s.db
            snaps).0)
        due
unfolding batch_body
taken s d net snaps due c (key, device, k, e, i) h =
    let body = batch_body s.client_device_id (map payload due) in
    let snaps' = (layout_ingest net.faults net.given s.caller body s.db snaps).0 in
    let (t, et, all) = layout_ingest-Stored net.faults net.given s.caller body s.db snaps c h in
    let (ed, es) = target_device net.faults s.caller _ s.db t key device et k e in
    All-requests d snaps' due (
      subst (λ l. All (Stored d snaps') l) (es ∙ requests due)
        (subst (λ n. All (Stored n snaps') t.1) (ap (λ (x : Device). x.id) ed ∙ i) all))

abbrev pub Answer : Type 0
Answer = List LayoutSnapshot × Option Response

-- An answer of success is only given when the whole batch is there.
pub success :
    (s : Setup) (d : ℕ) (net : Net) (snaps : List LayoutSnapshot) (due : List Row)
    → Registered s d
    → post_result (deliver s net snaps (map payload due)).1 ≡ ok tt
    → All (OnServer d (deliver s net snaps (map payload due)).0) due
unfolding deliver post_result
success s d net snaps due reg = go net.unreachable net.answer_lost
  where
    r : List LayoutSnapshot × Result Failure Counts
    r =
        layout_ingest net.faults net.given s.caller
          (batch_body s.client_device_id (map payload due)) s.db snaps

    go :
        (u l : Bool)
        → post_result
            (if◌then◌else◌ {A = Answer} u
              (snaps, none)
              (r.0, if l then none else some (response s.contains r.1))).1
          ≡ ok tt
        → All
            (OnServer d
              (if◌then◌else◌ {A = Answer} u
                (snaps, none)
                (r.0, if l then none else some (response s.contains r.1))).0)
            due
    go true l h = absurd (cc)
    go false true h = absurd (cc)
    go false false h =
        let (c, e) =
          answered_well s.contains r.1
            (layout_ingest-Refuses net.faults net.given s.caller
              (batch_body s.client_device_id (map payload due)) s.db snaps)
            h in
        taken s d net snaps due c reg e

-- The server never has a snapshot twice.
pub deliver-OncePerKey :
    (s : Setup) (net : Net) (snaps : List LayoutSnapshot) (ps : List SnapshotPayload)
    → OncePerKey snaps
    → OncePerKey (deliver s net snaps ps).0
unfolding deliver
deliver-OncePerKey s net snaps ps h =
    if_elim (λ (r : Answer). OncePerKey r.0) net.unreachable _ _ (λ _. h)
      (λ _.
        layout_ingest-OncePerKey net.faults net.given s.caller (batch_body s.client_device_id ps)
          s.db snaps h)

-- What is in some rows is in more.
pub OnServer-more :
    (d : ℕ) (snaps history : List LayoutSnapshot) (r : Row)
    → OnServer d history r
    → OnServer d (snaps ++ history) r
OnServer-more d snaps history r (p, k, m) =
    (p, k, ground (arith, any-append (is_duplicate p) snaps history, m))

pub OnServer-now :
    (d : ℕ) (snaps history : List LayoutSnapshot) (r : Row)
    → OnServer d snaps r
    → OnServer d (snaps ++ history) r
OnServer-now d snaps history r (p, k, m) = (p, k, any-append_left (is_duplicate p) snaps history m)
