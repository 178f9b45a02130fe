-- ===== src/Layout/Ingest/Retried.antt =====
-- A batch of snapshots that is sent again.
use trasker.Prelude.{
  ℕ, ◌+◌, ◌≡◌, ◌≤◌, refl, ap, ◌∙◌, subst, inl, inr, Bool, true, false, Option, none, some, List, [],
  ◌∷◌, ◌++◌, eq_iff, Bool-cases, any, any-append_left, any-append_last, count-append, count-none,
  any_mono, count, length, All, Result, ok, err, arith,
}
use trasker.Server.Tables.{Device, ServerDb}
use trasker.Server.Http.{Failure, Caller}
use trasker.Server.Devices.{get_device_by_client_id}
use trasker.Layout.Snapshots.{
  LayoutSnapshot, Given, InsertSnapshotParams, is_duplicate, new_snapshot, insert_snapshot,
}
use trasker.Layout.Ingest.{
  SnapshotReq, Body, Faults, Counts, counted, probe_schema, snapshot_params, ingest_all,
  ingest_target, layout_ingest,
}

-- At most one row has the key of `p`.
abbrev pub OncePerKey : List LayoutSnapshot → Type 0
OncePerKey rows = (p : InsertSnapshotParams) → count (is_duplicate p) rows ≤ 1

new_snapshot-is_duplicate :
    (g : Given) (p : InsertSnapshotParams) (rows : List LayoutSnapshot)
    → is_duplicate p (new_snapshot g p rows) ≡ true
unfolding is_duplicate new_snapshot
new_snapshot-is_duplicate g p rows = ground (arith, (eq_iff p.windows_hash p.windows_hash).1 refl)

pub insert-stored :
    (g : Given) (p : InsertSnapshotParams) (rows : List LayoutSnapshot)
    → any (is_duplicate p) (insert_snapshot g p rows).0 ≡ true
unfolding insert_snapshot
insert-stored g p rows = elim (Bool-cases (any (is_duplicate p) rows)) [
  | inl e ↦ rw (e, e)
  | inr e ↦ rw e (any-append_last (is_duplicate p) rows _ (new_snapshot-is_duplicate g p rows))
]

insert-keeps :
    (g : Given) (p q : InsertSnapshotParams) (rows : List LayoutSnapshot)
    → any (is_duplicate q) rows ≡ true
    → any (is_duplicate q) (insert_snapshot g p rows).0 ≡ true
unfolding insert_snapshot
insert-keeps g p q rows h = elim (Bool-cases (any (is_duplicate p) rows)) [
  | inl e ↦ rw e h
  | inr e ↦ rw e (any-append_left (is_duplicate q) rows _ h)
]

-- The snapshot is well formed and has its row.
abbrev pub Stored : ℕ → List LayoutSnapshot → SnapshotReq → Type 0
Stored device_id rows snap =
    (p : InsertSnapshotParams) × (snapshot_params device_id snap ≡ ok p)
    × (any (is_duplicate p) rows ≡ true)

module _ (fails : ℕ → Bool) (g : Given) (device_id : ℕ) where
  -- A loop that ends well has taken its first snapshot.
  ingest_all-first :
      (snap : SnapshotReq) (snaps : List SnapshotReq) (c c' : Counts)
      (rows rows' : List LayoutSnapshot)
      → ingest_all fails g device_id (snap ∷ snaps) c rows ≡ (rows', ok c')
      → (p : InsertSnapshotParams) × (snapshot_params device_id snap ≡ ok p)
        × (ingest_all fails g device_id snaps
              (counted (insert_snapshot g p rows).1 c)
              (insert_snapshot g p rows).0
            ≡ (rows', ok c'))
  unfolding ingest_all
  ingest_all-first snap snaps c c' rows rows' =
      go (snapshot_params device_id snap) (fails c.received)
    where
      go :
          (r : Result Failure InsertSnapshotParams) (b : Bool)
          → elim r as (λ _. List LayoutSnapshot × Result Failure Counts) [
            | err x ↦ (rows, err x)
            | ok p ↦ elim b [
              | true ↦ (rows, err (record { status = 500; error = "failed to insert snapshot" }))
              | false ↦
                  ingest_all fails g device_id snaps
                    (counted (insert_snapshot g p rows).1 c)
                    (insert_snapshot g p rows).0
            ]
          ]
            ≡ (rows', ok c')
          → (p : InsertSnapshotParams) × (r ≡ ok p)
            × (ingest_all fails g device_id snaps
                  (counted (insert_snapshot g p rows).1 c)
                  (insert_snapshot g p rows).0
                ≡ (rows', ok c'))
      go (err x) b h = absurd (cc)
      go (ok p) true h = absurd (cc)
      go (ok p) false h = (p, refl, h)

  ingest_all-keeps :
      (snaps : List SnapshotReq) (c c' : Counts) (rows rows' : List LayoutSnapshot)
      → ingest_all fails g device_id snaps c rows ≡ (rows', ok c')
      → (q : InsertSnapshotParams) → any (is_duplicate q) rows ≡ true
      → any (is_duplicate q) rows' ≡ true
  unfolding ingest_all
  ingest_all-keeps [] c c' rows rows' h q k =
      subst (λ l. any (is_duplicate q) l ≡ true) (ap (λ r. r.0) h) k
  ingest_all-keeps (snap ∷ snaps) c c' rows rows' h q k =
      let (p, e, h') = ingest_all-first snap snaps c c' rows rows' h in
      ingest_all-keeps snaps _ c' _ rows' h' q (insert-keeps g p q rows k)

  ingest_all-Stored :
      (snaps : List SnapshotReq) (c c' : Counts) (rows rows' : List LayoutSnapshot)
      → ingest_all fails g device_id snaps c rows ≡ (rows', ok c')
      → All (Stored device_id rows') snaps
  ingest_all-Stored [] c c' rows rows' h = tt
  ingest_all-Stored (snap ∷ snaps) c c' rows rows' h =
      let (p, e, h') = ingest_all-first snap snaps c c' rows rows' h in
      (
        (p, e, ingest_all-keeps snaps _ c' _ rows' h' p (insert-stored g p rows)),
        ingest_all-Stored snaps _ c' _ rows' h',
      )

  counted-received :
      (o : Option LayoutSnapshot) (c : Counts) → (counted o c).received ≡ c.received + 1
  counted-received none c = refl
  counted-received (some _) c = refl

  ingest_all-received :
      (snaps : List SnapshotReq) (c c' : Counts) (rows rows' : List LayoutSnapshot)
      → ingest_all fails g device_id snaps c rows ≡ (rows', ok c')
      → c'.received ≡ c.received + length snaps
  unfolding ingest_all
  ingest_all-received [] c c' rows rows' h = ground (arith, h)
  ingest_all-received (snap ∷ snaps) c c' rows rows' h =
      let (p, e, h') = ingest_all-first snap snaps c c' rows rows' h in
      omega (
        arith,
        ingest_all-received snaps _ c' _ rows' h',
        counted-received (insert_snapshot g p rows).1 c,
      )

  ingest_all-taken :
      (snap : SnapshotReq) (snaps : List SnapshotReq) (c : Counts) (rows : List LayoutSnapshot)
      → (p : InsertSnapshotParams) → snapshot_params device_id snap ≡ ok p
      → fails c.received ≡ false
      → any (is_duplicate p) rows ≡ true
      → ingest_all fails g device_id (snap ∷ snaps) c rows
        ≡ ingest_all fails g device_id snaps
            (record { received = c.received + 1; deduped = c.deduped + 1 })
            rows
  unfolding ingest_all insert_snapshot
  ingest_all-taken snap snaps c rows p e f k = rw (e, ingest_all) (rw f (rw k))

  -- With a row for each of its snapshots a batch changes nothing.
  ingest_all-again :
      ((i : ℕ) → fails i ≡ false)
      → (snaps : List SnapshotReq) (c : Counts) (rows : List LayoutSnapshot)
      → All (Stored device_id rows) snaps
      → ingest_all fails g device_id snaps c rows ≡ (
        rows,
        ok (record { received = c.received + length snaps; deduped = c.deduped + length snaps }),
      )
  unfolding ingest_all insert_snapshot
  ingest_all-again ff [] c rows h = ground arith
  ingest_all-again ff (snap ∷ snaps) c rows ((p, e, k), h) =
      ingest_all-taken snap snaps c rows p e (ff c.received) k
      ∙ ingest_all-again ff snaps _ rows h
      ∙ ground arith

-- A database that does not fail, with the table there.
abbrev pub no_faults : Faults
no_faults = record { probe = false; has_table = true; lookup = false; insert = λ i. false }

ingest_target-no_faults :
    (faults : Faults) (caller : Caller) (body : Body) (db : ServerDb)
    (t : Device × List SnapshotReq)
    → ingest_target faults caller body db ≡ ok t
    → ingest_target no_faults caller body db ≡ ok t
unfolding ingest_target probe_schema get_device_by_client_id
ingest_target-no_faults faults caller body db t h = ground arith

-- A batch that was taken and is sent again, its answer being lost, is taken again by a database that
-- does not fail: all of it is counted as received before, and the table stays as it is.
pub layout_ingest-again :
    (faults : Faults) (g g' : Given) (caller : Caller) (body : Body) (db : ServerDb)
    (rows rows' : List LayoutSnapshot) (c : Counts)
    → layout_ingest faults g caller body db rows ≡ (rows', ok c)
    → layout_ingest no_faults g' caller body db rows'
      ≡ (rows', ok (record { received = c.received; deduped = c.received }))
unfolding layout_ingest
layout_ingest-again faults g g' caller body db rows rows' c h =
    go (ingest_target faults caller body db) refl h
  where
    go :
        (r : Result Failure (Device × List SnapshotReq))
        → ingest_target faults caller body db ≡ r
        → elim r as (λ _. List LayoutSnapshot × Result Failure Counts) [
          | err x ↦ (rows, err x)
          | ok t ↦ ingest_all faults.insert g t.0.id t.1 (record { received = 0; deduped = 0 }) rows
        ]
          ≡ (rows', ok c)
        → elim (ingest_target no_faults caller body db)
            as (λ _. List LayoutSnapshot × Result Failure Counts) [
              | err x ↦ (rows', err x)
              | ok t ↦
                  ingest_all (λ i. false) g' t.0.id t.1 (record { received = 0; deduped = 0 }) rows'
            ]
          ≡ (rows', ok (record { received = c.received; deduped = c.received }))
    go (err x) e k = absurd (cc)
    go (ok t) e k = rw (ingest_target-no_faults faults caller body db t e) (
        ingest_all-again (λ i. false) g' t.0.id (λ i. refl) t.1 _ rows'
          (ingest_all-Stored faults.insert g t.0.id t.1 _ c rows rows' k)
        ∙ ground (arith, ingest_all-received faults.insert g t.0.id t.1 _ c rows rows' k))

same_key :
    (g : Given) (p q : InsertSnapshotParams) (rows : List LayoutSnapshot) (r : LayoutSnapshot)
    → is_duplicate q (new_snapshot g p rows) ≡ true
    → is_duplicate q r ≡ true
    → is_duplicate p r ≡ true
unfolding is_duplicate new_snapshot
same_key g p q rows r h k = ground (
  arith,
  eq_iff p.windows_hash q.windows_hash,
  eq_iff r.windows_hash q.windows_hash,
  eq_iff r.windows_hash p.windows_hash,
)

one_more :
    (p : LayoutSnapshot → Bool) (rows : List LayoutSnapshot) (r : LayoutSnapshot)
    → count p rows ≤ 1
    → (p r ≡ true → count p rows ≡ 0)
    → count p (rows ++ r ∷ []) ≤ 1
one_more p rows r h f = elim (Bool-cases (p r)) [
  | inl e ↦ ground (arith, count-append p rows (r ∷ []), f e)
  | inr e ↦ ground (arith, count-append p rows (r ∷ []))
]

insert-OncePerKey :
    (g : Given) (p : InsertSnapshotParams) (rows : List LayoutSnapshot)
    → OncePerKey rows
    → OncePerKey (insert_snapshot g p rows).0
unfolding insert_snapshot
insert-OncePerKey g p rows h q = elim (Bool-cases (any (is_duplicate p) rows)) [
  | inl e ↦ rw e (h q)
  | inr e ↦ rw e (
      one_more (is_duplicate q) rows (new_snapshot g p rows) (h q) λ k.
        count-none (is_duplicate q) rows
          (any_mono (is_duplicate p) (is_duplicate q) rows (λ r d. same_key g p q rows r k d) e))
]

-- What an insert keeps, the loop keeps, wherever it ends.
ingest_all-after {κ} :
    (P : List LayoutSnapshot → Type κ) (fails : ℕ → Bool) (g : Given) (device_id : ℕ)
    → ((p : InsertSnapshotParams) (l : List LayoutSnapshot) → P l → P (insert_snapshot g p l).0)
    → (snaps : List SnapshotReq) (c : Counts) (rows : List LayoutSnapshot) → P rows
    → P (ingest_all fails g device_id snaps c rows).0
unfolding ingest_all
ingest_all-after P fails g device_id keep [] c rows h = h
ingest_all-after P fails g device_id keep (snap ∷ snaps) c rows h =
    go (ingest_all-after P fails g device_id keep snaps) (snapshot_params device_id snap)
      (fails c.received)
  where
    go :
        ((c' : Counts) (l : List LayoutSnapshot)
          → P l
          → P (ingest_all fails g device_id snaps c' l).0)
        → (r : Result Failure InsertSnapshotParams) (b : Bool)
        → P
            (elim r as (λ _. List LayoutSnapshot × Result Failure Counts) [
              | err x ↦ (rows, err x)
              | ok p ↦ elim b [
                | true ↦ (rows, err (record { status = 500; error = "failed to insert snapshot" }))
                | false ↦
                    ingest_all fails g device_id snaps
                      (counted (insert_snapshot g p rows).1 c)
                      (insert_snapshot g p rows).0
              ]
            ]).0
    go rec (err x) b = h
    go rec (ok p) true = h
    go rec (ok p) false = rec _ _ (keep p rows h)

-- What an insert keeps, a request keeps.
pub layout_ingest-after {κ} :
    (P : List LayoutSnapshot → Type κ) (faults : Faults) (g : Given) (caller : Caller) (body : Body)
    (db : ServerDb) (rows : List LayoutSnapshot)
    → ((p : InsertSnapshotParams) (l : List LayoutSnapshot) → P l → P (insert_snapshot g p l).0)
    → P rows
    → P (layout_ingest faults g caller body db rows).0
unfolding layout_ingest
layout_ingest-after P faults g caller body db rows keep h = go (ingest_target faults caller body db)
  where
    go :
        (r : Result Failure (Device × List SnapshotReq))
        → P
            (elim r as (λ _. List LayoutSnapshot × Result Failure Counts) [
              | err x ↦ (rows, err x)
              | ok t ↦
                  ingest_all faults.insert g t.0.id t.1 (record { received = 0; deduped = 0 }) rows
            ]).0
    go (err x) = h
    go (ok t) = ingest_all-after P faults.insert g t.0.id keep t.1 _ rows h

-- Whatever a request is and wherever it ends, no two rows come to have the device, the instant and
-- the hash of one snapshot.
pub layout_ingest-OncePerKey :
    (faults : Faults) (g : Given) (caller : Caller) (body : Body) (db : ServerDb)
    (rows : List LayoutSnapshot)
    → OncePerKey rows
    → OncePerKey (layout_ingest faults g caller body db rows).0
layout_ingest-OncePerKey faults g caller body db rows h =
    layout_ingest-after OncePerKey faults g caller body db rows (insert-OncePerKey g) h

pub layout_ingest-keeps :
    (faults : Faults) (g : Given) (caller : Caller) (body : Body) (db : ServerDb)
    (rows : List LayoutSnapshot) (q : InsertSnapshotParams)
    → any (is_duplicate q) rows ≡ true
    → any (is_duplicate q) (layout_ingest faults g caller body db rows).0 ≡ true
layout_ingest-keeps faults g caller body db rows q h =
    layout_ingest-after (λ l. any (is_duplicate q) l ≡ true) faults g caller body db rows
      (λ p l k. insert-keeps g p q l k) h

-- An answer of 201 is about a batch each of whose snapshots has its row.
pub layout_ingest-Stored :
    (faults : Faults) (g : Given) (caller : Caller) (body : Body) (db : ServerDb)
    (rows : List LayoutSnapshot) (c : Counts)
    → (layout_ingest faults g caller body db rows).1 ≡ ok c
    → (t : Device × List SnapshotReq) × (ingest_target faults caller body db ≡ ok t)
      × All (Stored t.0.id (layout_ingest faults g caller body db rows).0) t.1
unfolding layout_ingest
layout_ingest-Stored faults g caller body db rows c = go (ingest_target faults caller body db)
  where
    go :
        (r : Result Failure (Device × List SnapshotReq))
        → (elim r as (λ _. List LayoutSnapshot × Result Failure Counts) [
          | err x ↦ (rows, err x)
          | ok t ↦ ingest_all faults.insert g t.0.id t.1 (record { received = 0; deduped = 0 }) rows
        ]).1
          ≡ ok c
        → (t : Device × List SnapshotReq) × (r ≡ ok t)
          × All
              (Stored t.0.id
                (elim r as (λ _. List LayoutSnapshot × Result Failure Counts) [
                  | err x ↦ (rows, err x)
                  | ok u ↦
                      ingest_all faults.insert g u.0.id u.1
                        (record { received = 0; deduped = 0 })
                        rows
                ]).0)
              t.1
    go (err x) k = absurd (cc)
    go (ok t) k =
        let r = ingest_all faults.insert g t.0.id t.1 (record { received = 0; deduped = 0 }) rows in
        (t, refl, ingest_all-Stored faults.insert g t.0.id t.1 _ c rows r.0 (λ i. (r.0, k i)))
