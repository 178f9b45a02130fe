-- ===== src/Server/Timesheets/Stored.antt =====
-- What `CreateTimesheet` leaves in the tables, and what is read back.
use mathlib.Core.List.{append_assoc, append-nil}
use trasker.Prelude.{
  ℕ, suc, ◌≡◌, refl, sym, ap, ◌∙◌, subst, Bool, true, false, some, List, [], ◌∷◌, ◌++◌, map, ◌==◌,
  ==_self, ==_iff, if◌then◌else◌, find, filter, any, All, All-mono, Result, ok, err, arith,
}
use trasker.Prelude.Sort.{sort_by}
use trasker.Server.Tables.{Timesheet, TimesheetEntry, ServerDb, Given, StoreError, failed}
use trasker.Server.Timesheets.{
  CreateTimesheetEntryParams, CreateTimesheetParams, new_timesheet, new_entry, add_row,
  insert_entries, create_timesheet, get_timesheet_by_id,
}

-- The parameters that an entry was made of.
abbrev pub entry_params : TimesheetEntry → CreateTimesheetEntryParams
entry_params e = record {
  tag = e.tag;
  started_at = e.started_at;
  ended_at = e.ended_at;
  duration_s = e.duration_s;
  notes = e.notes;
  app_summary = e.app_summary;
}

new_entry-made :
    (g : Given) (id : ℕ) (p : CreateTimesheetEntryParams) (db : ServerDb)
    → (entry_params (new_entry g id p db) ≡ p) × ((new_entry g id p db).timesheet_id ≡ id)
unfolding new_entry
new_entry-made g id p db = (refl, refl)

-- What the loop has inserted.
pub record Inserted (id : ℕ) (ps : List CreateTimesheetEntryParams) (db db' : ServerDb)
    (es : List TimesheetEntry) : Type 0 where
  pub db_is : db' ≡ record db { timesheet_entries = db.timesheet_entries ++ es }
  pub of_timesheet : All (λ e. e.timesheet_id ≡ id) es
  pub given : map entry_params es ≡ ps

abbrev Inserts :
    ℕ
    → List CreateTimesheetEntryParams
    → ServerDb
    → Result StoreError (ServerDb × List TimesheetEntry)
    → Type 0
Inserts id ps db (ok r) = Inserted id ps db r.0 r.1
Inserts id ps db (err _) = Unit

insert-Inserts :
    (fails : ℕ → Bool) (g : Given) (id : ℕ) (ps : List CreateTimesheetEntryParams) (i : ℕ)
    (db : ServerDb)
    → Inserts id ps db (insert_entries fails g id ps i db)
unfolding insert_entries
insert-Inserts fails g id [] i db = record {
  db_is = ap (λ l. record db { timesheet_entries = l }) (sym (append-nil db.timesheet_entries));
  of_timesheet = tt;
  given = refl;
}
insert-Inserts fails g id (p ∷ ps) i db =
    go (fails i) (insert_entries fails g id ps (suc i) (add_row e db))
      (insert-Inserts fails g id ps (suc i) (add_row e db))
  where
    e : TimesheetEntry
    e = new_entry g id p db

    made : (entry_params e ≡ p) × (e.timesheet_id ≡ id)
    made = new_entry-made g id p db

    go :
        (b : Bool) (r : Result StoreError (ServerDb × List TimesheetEntry))
        → Inserts id ps (add_row e db) r
        → Inserts id
            (p ∷ ps)
            db
            (if b then err failed else elim r [ err x ↦ err x | ok (db', es) ↦ ok (db', e ∷ es) ])
    go true r h = tt
    go false (err x) h = tt
    go false (ok (db', es)) h = record {
      db_is =
          h.db_is
          ∙ ap (λ l. record db { timesheet_entries = l })
              (append_assoc db.timesheet_entries (e ∷ []) es);
      of_timesheet = (made.1, h.of_timesheet);
      given = λ k. made.0 k ∷ h.given k;
    }

-- What `CreateTimesheet` gives: the row of the timesheet, its entries in the order given, and
-- nothing else.
pub record Created (g : Given) (p : CreateTimesheetParams) (db db' : ServerDb) (ts : Timesheet)
    (es : List TimesheetEntry) : Type 0 where
  pub row : ts ≡ new_timesheet g p db
  pub db_is : db' ≡ record db {
    timesheets = db.timesheets ++ ts ∷ [];
    timesheet_entries = db.timesheet_entries ++ es;
  }
  pub of_timesheet : All (λ e. e.timesheet_id ≡ ts.id) es
  pub given : map entry_params es ≡ p.entries

abbrev Creates :
    Given
    → CreateTimesheetParams
    → ServerDb
    → Result StoreError (ServerDb × Timesheet × List TimesheetEntry)
    → Type 0
Creates g p db (ok r) = Created g p db r.0 r.1 r.2
Creates g p db (err _) = Unit

create-Creates :
    (fails : ℕ → Bool) (g : Given) (p : CreateTimesheetParams) (db : ServerDb)
    → Creates g p db (create_timesheet fails g p db)
unfolding create_timesheet
create-Creates fails g p db =
    go (fails 1) (fails 0) (insert_entries fails g t.id p.entries 2 begun)
      (insert-Inserts fails g t.id p.entries 2 begun)
  where
    t : Timesheet
    t = new_timesheet g p db

    begun : ServerDb
    begun = record db { timesheets = db.timesheets ++ t ∷ [] }

    go :
        (a b : Bool) (r : Result StoreError (ServerDb × List TimesheetEntry))
        → Inserts t.id p.entries begun r
        → Creates g p db (
            if a
            then err failed
            else elim r as (λ _. Result StoreError (ServerDb × Timesheet × List TimesheetEntry)) [
              | err x ↦ err x
              | ok (d, l) ↦ if b then err failed else ok (d, t, l)
            ])
    go true b r h = tt
    go false b (err x) h = tt
    go false true (ok (d, l)) h = tt
    go false false (ok (d, l)) h = record {
      row = refl;
      db_is = h.db_is;
      of_timesheet = h.of_timesheet;
      given = h.given;
    }

pub create-Created :
    (fails : ℕ → Bool) (g : Given) (p : CreateTimesheetParams) (db db' : ServerDb) (ts : Timesheet)
    (es : List TimesheetEntry)
    → create_timesheet fails g p db ≡ ok (db', ts, es)
    → Created g p db db' ts es
create-Created fails g p db db' ts es h = subst (Creates g p db) h (create-Creates fails g p db)

find-append_fresh {ℓ} :
    {A : Type ℓ} (p : A → Bool) (xs : List A) (y : A)
    → any p xs ≡ false
    → p y ≡ true
    → find p (xs ++ y ∷ []) ≡ some y
find-append_fresh p [] y h k = rw k
find-append_fresh p (x ∷ xs) y h k = ground (arith, find-append_fresh p xs y)

filter-append_fresh {ℓ} :
    {A : Type ℓ} (p : A → Bool) (xs ys : List A)
    → any p xs ≡ false
    → All (λ y. p y ≡ true) ys
    → filter p (xs ++ ys) ≡ ys
filter-append_fresh p [] [] h k = refl
filter-append_fresh p [] (y ∷ ys) h k = rw k.0 (ap (λ l. y ∷ l) (filter-append_fresh p [] ys h k.1))
filter-append_fresh p (x ∷ xs) ys h k = ground (arith, filter-append_fresh p xs ys _ k)

-- A timesheet that was created is read back by its id: the row as it was returned, with the entries
-- returned, in the order of their starts, equal ones as the database reads the rows; and these
-- entries are those given, in the order given. Its id has to be new, to the timesheets and among the
-- entries.
pub get-create :
    (scan : List TimesheetEntry → List TimesheetEntry) (fails : ℕ → Bool) (g : Given)
    (p : CreateTimesheetParams) (db db' : ServerDb) (ts : Timesheet) (es : List TimesheetEntry)
    → any (λ t. t.id == g.fresh_id db) db.timesheets ≡ false
    → any (λ e. e.timesheet_id == g.fresh_id db) db.timesheet_entries ≡ false
    → create_timesheet fails g p db ≡ ok (db', ts, es)
    → (get_timesheet_by_id scan false ts.id db' ≡ ok (ts, sort_by (λ e. e.started_at) (scan es)))
      × (map entry_params es ≡ p.entries)
unfolding get_timesheet_by_id new_timesheet
get-create scan fails g p db db' ts es ft fe h =
    let c = create-Created fails g p db db' ts es h in
    let i : ts.id ≡ g.fresh_id db = ap (λ (t : Timesheet). t.id) c.row in
    let ft' = subst (λ n. any (λ (t : Timesheet). t.id == n) db.timesheets ≡ false) (sym i) ft in
    let fe' =
      subst (λ n. any (λ (e : TimesheetEntry). e.timesheet_id == n) db.timesheet_entries ≡ false)
        (sym i) fe in
    (
      rw
          (
            c.db_is,
            find-append_fresh (λ (t : Timesheet). t.id == ts.id) db.timesheets ts ft'
                (==_self ts.id),
          )
          (rw (c.db_is) (
            rw (
              filter-append_fresh (λ (e : TimesheetEntry). e.timesheet_id == ts.id)
                db.timesheet_entries es fe'
                (All-mono _ _ es (λ e k. (==_iff e.timesheet_id ts.id).1 k) c.of_timesheet)))),
      c.given,
    )
