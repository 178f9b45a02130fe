-- ===== src/Migrations/Examples.antt =====
-- A database whose schema is the list of the statements that went through, and one that fails after
-- its first half.
use trasker.Prelude.{
  ◌≡◌, refl, Bool, true, false, none, List, [], ◌∷◌, ◌++◌, String, str_eq, if◌then◌else◌,
}
use trasker.Migrations.{Migration, Database, sql_failed, apply_one, apply_fs}
use trasker.Migrations.Rerun.{AllRecorded, no_faults, apply_fs-rerun}
use trasker.Migrations.Failed.{Ended, apply_fs-Ended}

abbrev exec : String → List String → List String × Bool
exec sql statements =
    if str_eq sql "broken"
    then (statements ++ "first half" ∷ [], true)
    else (statements ++ sql ∷ [], false)

abbrev no_users : List String → Bool
no_users _ = false

abbrev migration : String → String → Migration
migration version sql = record { version = version; name = "m"; filename = "m.up.sql"; sql = sql }

abbrev empty_database : Database (List String)
empty_database = record { schema = []; versions = [] }

abbrev two : List Migration
two = migration "001" "users" ∷ migration "002" "keys" ∷ []

abbrev up_to_date : Database (List String)
up_to_date = record { schema = "users" ∷ "keys" ∷ []; versions = "001" ∷ "002" ∷ [] }

apply_fs-rerun_example :
    AllRecorded two up_to_date.versions
    × (apply_fs exec no_faults no_users two up_to_date ≡ (up_to_date, [], none))
unfolding apply_fs apply_one
apply_fs-rerun_example = apply_fs-rerun exec no_users no_faults two empty_database refl

abbrev with_broken : List Migration
with_broken = migration "001" "users" ∷ migration "002" "broken" ∷ migration "003" "keys" ∷ []

abbrev after_first : Database (List String)
after_first = record { schema = "users" ∷ []; versions = "001" ∷ [] }

apply_fs-Ended_example :
    Ended exec no_faults no_users with_broken empty_database sql_failed after_first ("001" ∷ [])
unfolding apply_fs apply_one
apply_fs-Ended_example =
    apply_fs-Ended exec no_faults no_users with_broken empty_database after_first ("001" ∷ [])
      sql_failed refl
