-- ===== src/Server/Timesheets/Resent.antt =====
-- A timesheet that is sent again because its answer was lost.
use trasker.Prelude.{
  ℕ, suc, ◌≡◌, refl, sym, ap, ◌∙◌, Bool, true, false, String, Option, some, List, [], ◌∷◌, ◌++◌,
  map, ok, arith,
}
use trasker.Server.Tables.{Device, Timesheet, TimesheetEntry, ServerDb, Given}
use trasker.Server.Http.{Caller, is_set}
use trasker.Server.Http.Steps.{bind_ok, check_ok, present_ok, stored_ok, answered_ok}
use trasker.Server.Devices.{get_device_by_client_id}
use trasker.Server.Timesheets.{
  CreateTimesheetEntryParams, CreateTimesheetParams, new_timesheet, new_entry, add_row,
  insert_entries, create_timesheet, TimesheetReq, parse_entries, has_any, Faults, timesheet_submit,
}
use trasker.Server.Timesheets.Stored.{entry_params, create-Created}

-- A database that does not fail.
abbrev pub no_faults : Faults
no_faults = record { lookup = false; create = λ i. false }

insert-no_faults :
    (g : Given) (id : ℕ) (ps : List CreateTimesheetEntryParams) (i : ℕ) (db : ServerDb)
    → (db' : ServerDb) × (es : List TimesheetEntry) × (insert_entries (λ n. false) g id ps i db
        ≡ ok (db', es))
unfolding insert_entries
insert-no_faults g id [] i db = (db, [], refl)
insert-no_faults g id (p ∷ ps) i db =
    let e = new_entry g id p db in
    let (db', es, h) = insert-no_faults g id ps (suc i) (add_row e db) in (db', e ∷ es, rw h)

create-no_faults :
    (g : Given) (p : CreateTimesheetParams) (db : ServerDb)
    → (db' : ServerDb) × (ts : Timesheet) × (es : List TimesheetEntry) × (create_timesheet
          (λ n. false)
          g
          p
          db
        ≡ ok (db', ts, es))
unfolding create_timesheet
create-no_faults g p db =
    let t = new_timesheet g p db in
    let (db', es, h) =
      insert-no_faults g t.id p.entries 2 (record db { timesheets = db.timesheets ++ t ∷ [] }) in
    (db', t, es, rw h)

-- What a request that is taken has passed.
pub record Passed (caller : Caller) (body : Option TimesheetReq) (db : ServerDb) : Type 0 where
  pub user_id : ℕ
  pub api_key_id : ℕ
  pub req : TimesheetReq
  pub device : Device
  pub entries : List CreateTimesheetEntryParams
  pub user : caller.user_id ≡ some user_id
  pub key : caller.api_key_id ≡ some api_key_id
  pub decoded : body ≡ some req
  pub named : is_set req.client_device_id ≡ true
  pub not_empty : has_any req.entries ≡ true
  pub known : get_device_by_client_id false req.client_device_id api_key_id db ≡ ok device
  pub parsed : parse_entries req.entries ≡ ok entries

params :
    (caller : Caller) (body : Option TimesheetReq) (db : ServerDb)
    → Passed caller body db
    → ℕ
    → CreateTimesheetParams
params caller body db p now = record {
  user_id = p.user_id;
  device_id = p.device.id;
  submitted_at = now;
  entries = p.entries;
}

lookup-no_fault :
    (fails : Bool) (cid : String) (key : ℕ) (db : ServerDb) (d : Device)
    → get_device_by_client_id fails cid key db ≡ ok d
    → get_device_by_client_id false cid key db ≡ ok d
unfolding get_device_by_client_id
lookup-no_fault true cid key db d h = absurd (cc)
lookup-no_fault false cid key db d h = h

submit-Passed :
    (faults : Faults) (g : Given) (caller : Caller) (body : Option TimesheetReq) (db : ServerDb)
    (r : ServerDb × Timesheet × List TimesheetEntry)
    → timesheet_submit faults g caller body db ≡ ok r
    → (p : Passed caller body db) × (create_timesheet faults.create g
          (params caller body db p g.now)
          db
        ≡ ok r)
unfolding timesheet_submit params
submit-Passed faults g caller body db r h =
    let (u, e1, h1) = present_ok caller.user_id 401 _ _ r h in
    let (k, e2, h2) = present_ok caller.api_key_id 401 _ _ r h1 in
    let (req, e3, h3) = present_ok body 400 _ _ r h2 in
    let (e4, h4) = check_ok (is_set req.client_device_id) 400 _ _ r h3 in
    let (e5, h5) = check_ok (has_any req.entries) 400 _ _ r h4 in
    let (d, e6, h6) =
      stored_ok (get_device_by_client_id faults.lookup req.client_device_id k db) _ _ _ r h5 in
    let (es, e7, h7) = bind_ok (parse_entries req.entries) _ r h6 in
    (
      record {
        user_id = u;
        api_key_id = k;
        req = req;
        device = d;
        entries = es;
        user = e1;
        key = e2;
        decoded = e3;
        named = e4;
        not_empty = e5;
        known = lookup-no_fault faults.lookup req.client_device_id k db d e6;
        parsed = e7;
      },
      answered_ok _ 500 _ r h7,
    )

-- The same request over a database with the same devices.
submit-no_faults :
    (g : Given) (caller : Caller) (body : Option TimesheetReq) (db db' : ServerDb)
    (p : Passed caller body db)
    → db'.devices ≡ db.devices
    → (r : ServerDb × Timesheet × List TimesheetEntry)
    → create_timesheet (λ n. false) g (params caller body db p g.now) db' ≡ ok r
    → timesheet_submit no_faults g caller body db' ≡ ok r
unfolding timesheet_submit params get_device_by_client_id
submit-no_faults g caller body db db' p e r h =
    ground (arith, p.user, p.key, p.decoded, p.named, p.not_empty, p.known, p.parsed, e, h)

-- Submitting is not idempotent: when a request that was taken is sent again, its answer being lost,
-- a database that does not fail takes it once more. There is a second timesheet then, of the same
-- user and device, and a second copy of each entry.
pub submit-again :
    (faults : Faults) (g g' : Given) (caller : Caller) (body : Option TimesheetReq)
    (db db1 : ServerDb) (ts1 : Timesheet) (es1 : List TimesheetEntry)
    → timesheet_submit faults g caller body db ≡ ok (db1, ts1, es1)
    → (db2 : ServerDb) × (ts2 : Timesheet) × (es2 : List TimesheetEntry) × (timesheet_submit
          no_faults g' caller body db1
        ≡ ok (db2, ts2, es2))
      × (db2.timesheets ≡ (db.timesheets ++ ts1 ∷ []) ++ ts2 ∷ [])
      × (db2.timesheet_entries ≡ (db.timesheet_entries ++ es1) ++ es2)
      × (ts2.user_id ≡ ts1.user_id)
      × (ts2.device_id ≡ ts1.device_id)
      × (map entry_params es2 ≡ map entry_params es1)
unfolding params new_timesheet
submit-again faults g g' caller body db db1 ts1 es1 h =
    let (p, k) = submit-Passed faults g caller body db (db1, ts1, es1) h in
    let c1 = create-Created faults.create g (params caller body db p g.now) db db1 ts1 es1 k in
    let (db2, ts2, es2, k2) = create-no_faults g' (params caller body db p g'.now) db1 in
    let c2 = create-Created (λ n. false) g' (params caller body db p g'.now) db1 db2 ts2 es2 k2 in
    (
      db2,
      ts2,
      es2,
      submit-no_faults g' caller body db db1 p (ap (λ (d : ServerDb). d.devices) c1.db_is)
          (db2, ts2, es2) k2,
      ap (λ (d : ServerDb). d.timesheets) c2.db_is
          ∙ ap (λ (d : ServerDb). d.timesheets ++ ts2 ∷ []) c1.db_is,
      ap (λ (d : ServerDb). d.timesheet_entries) c2.db_is
          ∙ ap (λ (d : ServerDb). d.timesheet_entries ++ es2) c1.db_is,
      ap (λ (t : Timesheet). t.user_id) c2.row ∙ sym (ap (λ (t : Timesheet). t.user_id) c1.row),
      ap (λ (t : Timesheet). t.device_id) c2.row ∙ sym (ap (λ (t : Timesheet). t.device_id) c1.row),
      c2.given ∙ sym c1.given,
    )
