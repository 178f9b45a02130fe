-- ===== src/Migrations.antt =====
-- migrations/migrate.go: the runner that brings the server's database up to date.
-- PostgreSQL is not part of the program: `exec` is what a migration's SQL makes of the schema inside
-- of its transaction and whether it fails, `has_users` is whether the table `users` is there, and
-- Faults says which of the other calls fail. `discover` reads files and is left out: `migs` is the
-- list that it returns.
pub mod Rerun
pub mod Failed
pub mod Examples
use trasker.Prelude.{
  ℕ, Bool, true, false, ◌&&◌, ◌||◌, Option, none, some, List, [], ◌∷◌, ◌++◌, String, str_eq, any,
  if◌then◌else◌, Result, ok, err,
}

pub record Migration : Type 0 where
  pub version : String
  pub name : String
  pub filename : String
  pub sql : String

pub data Error : Type 0 where
  discover_failed ddl_failed load_failed legacy_failed : Error
  begin_failed sql_failed record_failed commit_failed : Error

-- How a commit ends: `unanswered` is one that takes effect, while the runner sees an error.
pub data Commit : Type 0 where
  landed refused unanswered : Commit

-- What a transaction meets; `insert` is whether the INSERT of a version fails.
pub record TxFaults : Type 0 where
  pub begin : Bool
  pub insert : String → Bool
  pub commit : Commit

-- What a run meets: whether each step before the migrations fails, and its transactions, one for the
-- backfill and one for each version.
pub record Faults : Type 0 where
  pub discover : Bool
  pub ddl : Bool
  pub load : Bool
  pub legacy : Bool
  pub backfill : TxFaults
  pub migration : String → TxFaults

-- The schema with its data, and the rows of `schema_migrations`, oldest first.
pub record Database (S : Type 0) : Type 0 where
  pub schema : S
  pub versions : List String

abbrev pub is_recorded : String → List String → Bool
is_recorded v = any (λ w. str_eq w v)

-- `INSERT … ON CONFLICT DO NOTHING`, for each version.
unfoldable pub backfill_versions : List Migration → List String → List String
backfill_versions [] vs = vs
backfill_versions (m ∷ ms) vs =
    backfill_versions ms (if is_recorded m.version vs then vs else vs ++ m.version ∷ [])

abbrev pub is_empty : List String → Bool
is_empty [] = true
is_empty (_ ∷ _) = false

-- The end of a transaction on `db` that has come to `tx`.
unfoldable pub end_tx : {S : Type 0} → Commit → Database S → Database S → Database S × Option Error
end_tx landed db tx = (tx, none)
end_tx refused db tx = (db, some commit_failed)
end_tx unanswered db tx = (tx, some commit_failed)

-- `defer tx.Rollback(ctx)` after an error.
abbrev pub rolled_back : {S : Type 0} → Database S → Error → Database S × Option Error
rolled_back db e = (db, some e)

-- `backfillVersions`.
unfoldable pub backfill :
    {S : Type 0} → TxFaults → List Migration → Database S → Database S × Option Error
unfolding backfill_versions end_tx
backfill t ms db =
    if t.begin
    then (db, some begin_failed)
    else if any (λ m. t.insert m.version) ms
    then rolled_back db record_failed
    else end_tx t.commit db (record db { versions = backfill_versions ms db.versions })

-- The first error before the migrations; the legacy check is only made if no version is recorded.
unfoldable pub setup_error : Faults → List String → Option Error
setup_error f versions =
    if f.discover
    then some discover_failed
    else if f.ddl
    then some ddl_failed
    else if f.load
    then some load_failed
    else if is_empty versions && f.legacy
    then some legacy_failed
    else none

module _ {S : Type 0} (exec : String → S → S × Bool) where
  -- One transaction: the SQL, then the row, whose key refuses a version that is there.
  unfoldable pub apply_one : TxFaults → Migration → Database S → Database S × Option Error
  unfolding end_tx
  apply_one t m db =
      let r = exec m.sql db.schema in
      if t.begin
      then (db, some begin_failed)
      else if r.1
      then rolled_back db sql_failed
      else if t.insert m.version || is_recorded m.version db.versions
      then rolled_back db record_failed
      else end_tx t.commit db (record { schema = r.0; versions = db.versions ++ m.version ∷ [] })

  -- The loop over the migrations; `applied` was read before it.
  unfoldable pub apply_pending :
      (String → TxFaults)
      → List String
      → List Migration
      → Database S
      → List String
      → Database S × List String × Option Error
  apply_pending t applied [] db newly = (db, newly, none)
  apply_pending t applied (m ∷ ms) db newly = elim (is_recorded m.version applied) [
    | true ↦ apply_pending t applied ms db newly
    | false ↦
        let r = apply_one (t m.version) m db in
        elim r.1 [
          | some e ↦ (r.0, newly, some e)
          | none ↦ apply_pending t applied ms r.0 (newly ++ m.version ∷ [])
        ]
  ]

  -- `ApplyFS`: the database after it, the versions newly applied, and the error if there is one.
  unfoldable pub apply_fs :
      Faults → (S → Bool) → List Migration → Database S → Database S × List String × Option Error
  unfolding apply_pending backfill setup_error
  apply_fs f has_users migs db = elim (setup_error f db.versions) [
    | some e ↦ (db, [], some e)
    | none ↦
        if is_empty db.versions && has_users db.schema
        then ((backfill f.backfill migs db).0, [], (backfill f.backfill migs db).1)
        else apply_pending f.migration db.versions migs db []
  ]
