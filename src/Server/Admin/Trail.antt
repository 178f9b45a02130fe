-- ===== src/Server/Admin/Trail.antt =====
-- The trail that an administrator's changes leave.
use mathlib.Core.List.{Memᴰ}
use trasker.Prelude.{
  ℕ, ◌≡◌, refl, sym, ◌∙◌, inl, inr, Bool, true, false, not, none, some, List, [], ◌∷◌, ◌++◌, ◌==◌,
  ==_iff, if◌then◌else◌, Option-cases, find, find-mem, filter, ok, arith,
}
use trasker.Server.Tables.{TimesheetEntry, AuditLogEntry, ServerDb, Given}
use trasker.Server.Http.{Caller}
use trasker.Server.Http.Steps.{present_ok, stored_ok, answered_then}
use trasker.Server.Timesheets.{get_timesheet_entry_by_id, delete_timesheet_entry}
use trasker.Server.Admin.{
  CreateAuditLogParams, new_audit_row, create_audit_log, audited, Faults, admin_delete_entry,
}

-- The row of the audit that a change of an entry leaves, if it can be written.
abbrev pub trail : Bool → Given → CreateAuditLogParams → ServerDb → List AuditLogEntry
unfolding new_audit_row
trail fails g p db = if fails then db.audit_log else db.audit_log ++ new_audit_row g p db ∷ []

audited_lem :
    (fails : Bool) (g : Given) (p : CreateAuditLogParams) (db : ServerDb)
    → audited fails g p db ≡ record db { audit_log = trail fails g p db }
unfolding audited create_audit_log trail
audited_lem true g p db = refl
audited_lem false g p db = refl

-- What a deletion has done.
pub record Deleted (faults : Faults) (g : Given) (caller : Caller) (id : ℕ) (db db' : ServerDb)
    : Type 0 where
  pub admin : ℕ
  pub by_admin : caller.user_id ≡ some admin
  pub entry : TimesheetEntry
  pub was_there : Memᴰ entry db.timesheet_entries
  pub had_id : entry.id ≡ id
  pub after : ServerDb
  pub after_is :
      after ≡ record db { timesheet_entries = filter (λ e. not (e.id == id)) db.timesheet_entries }
  pub logged : db' ≡ record after {
    audit_log =
        trail faults.audit g
          (record {
            admin_id = admin;
            action = "entry.delete";
            target_type = "timesheet_entry";
            target_id = id;
            old_value = some entry;
            new_value = none;
          })
          after;
  }

entry_found :
    (fails : Bool) (id : ℕ) (db : ServerDb) (e : TimesheetEntry)
    → get_timesheet_entry_by_id fails id db ≡ ok e
    → Memᴰ e db.timesheet_entries × (e.id ≡ id)
unfolding get_timesheet_entry_by_id
entry_found true id db e h = absurd (cc)
entry_found false id db e h = elim (Option-cases (find (λ e. e.id == id) db.timesheet_entries)) [
  | inl k ↦ absurd (ground (arith, h, k))
  | inr (x, k) ↦
      let (m, t) =
        find-mem (λ (r : TimesheetEntry). r.id == id) db.timesheet_entries e
          (ground (arith, h, k)) in
      (m, (==_iff e.id id).0 t)
]

deleted_is :
    (fails : Bool) (id : ℕ) (db db' : ServerDb)
    → delete_timesheet_entry fails id db ≡ ok db'
    → db' ≡ record db { timesheet_entries = filter (λ e. not (e.id == id)) db.timesheet_entries }
unfolding delete_timesheet_entry
deleted_is true id db db' h = absurd (cc)
deleted_is false id db db' h = ground (arith, h)

-- A successful request to delete an entry found the entry, takes the rows of its id out and no
-- others, and leaves the audit a row with the administrator and the entry as it was, unless that
-- one insert fails: the deletion then stands without a trace.
pub admin_delete-Deleted :
    (faults : Faults) (g : Given) (caller : Caller) (id : ℕ) (db db' : ServerDb)
    → admin_delete_entry faults g caller (some id) db ≡ ok db'
    → Deleted faults g caller id db db'
unfolding admin_delete_entry
admin_delete-Deleted faults g caller id db db' h =
    let (a, e1, h1) = present_ok caller.user_id 500 _ _ db' h in
    let (x, e2, h2) = stored_ok (get_timesheet_entry_by_id faults.lookup id db) _ _ _ db' h1 in
    let (d, e3, h3) = answered_then (delete_timesheet_entry faults.change id db) 500 _ _ db' h2 in
    let p : CreateAuditLogParams = record {
      admin_id = a;
      action = "entry.delete";
      target_type = "timesheet_entry";
      target_id = id;
      old_value = some x;
      new_value = none;
    } in
    let y : audited faults.audit g p d ≡ db' = ground (arith, h3) in
    let (m, i) = entry_found faults.lookup id db x e2 in
    record {
      admin = a;
      by_admin = e1;
      entry = x;
      was_there = m;
      had_id = i;
      after = d;
      after_is = deleted_is faults.change id db d e3;
      logged = sym y ∙ audited_lem faults.audit g p d;
    }
