-- ===== src/Migrations/Rerun.antt =====
-- A run that succeeds, and the run after it.
use trasker.Prelude.{
  ◌≡◌, refl, ap, Bool, true, false, ◌&&◌, Option, none, some, List, [], ◌∷◌, ◌++◌, String, str_eq,
  eq_iff, any, ◌||◌, any-append_left, any-append_last, if◌then◌else◌, if_elim, All,
}
use trasker.Migrations.{
  Migration, Error, Commit, landed, refused, unanswered, TxFaults, Faults, Database, end_tx,
  backfill, setup_error, is_recorded, backfill_versions, is_empty, apply_one, apply_pending,
  apply_fs,
}

str_eq_self : (s : String) → str_eq s s ≡ true
str_eq_self s = (eq_iff s s).1 refl

-- Every migration is recorded.
abbrev pub AllRecorded : List Migration → List String → Type 0
AllRecorded ms vs = All (λ m. is_recorded m.version vs ≡ true) ms

backfill-Kept :
    (ms : List Migration) (vs : List String) (v : String)
    → is_recorded v vs ≡ true
    → is_recorded v (backfill_versions ms vs) ≡ true
unfolding backfill_versions
backfill-Kept [] vs v h = h
backfill-Kept (m ∷ ms) vs v h = backfill-Kept ms _ v (
    if_elim (λ l. is_recorded v l ≡ true) (is_recorded m.version vs) vs (vs ++ m.version ∷ [])
      (λ _. h) (λ _. any-append_left _ vs _ h))

backfill-AllRecorded :
    (ms : List Migration) (vs : List String) → AllRecorded ms (backfill_versions ms vs)
unfolding backfill_versions
backfill-AllRecorded [] vs = tt
backfill-AllRecorded (m ∷ ms) vs = (
  backfill-Kept ms _ m.version (
      if_elim (λ l. is_recorded m.version l ≡ true) (is_recorded m.version vs) vs
        (vs ++ m.version ∷ []) (λ h. h)
        (λ _. any-append_last _ vs m.version (str_eq_self m.version))),
  backfill-AllRecorded ms _,
)

backfill-same :
    (ms : List Migration) (vs : List String) → AllRecorded ms vs → backfill_versions ms vs ≡ vs
unfolding backfill_versions
backfill-same [] vs h = refl
backfill-same (m ∷ ms) vs h = rw (h.0) (backfill-same ms vs h.1)

-- A run in which nothing fails but a migration's SQL.
abbrev pub no_tx_faults : TxFaults
no_tx_faults = record { begin = false; insert = λ v. false; commit = landed }

abbrev pub no_faults : Faults
no_faults = record {
  discover = false;
  ddl = false;
  load = false;
  legacy = false;
  backfill = no_tx_faults;
  migration = λ v. no_tx_faults;
}

no_setup_error : (vs : List String) → setup_error no_faults vs ≡ none
unfolding setup_error
no_setup_error [] = refl
no_setup_error (v ∷ vs) = refl

none_fails : (ms : List Migration) → any (λ m. false) ms ≡ false
none_fails [] = refl
none_fails (m ∷ ms) = none_fails ms

module _ {S : Type 0} (exec : String → S → S × Bool) (has_users : S → Bool) where
  pending-same :
      (t : String → TxFaults) (vs : List String) (ms : List Migration) (db : Database S)
      (newly : List String)
      → AllRecorded ms vs
      → apply_pending exec t vs ms db newly ≡ (db, newly, none)
  unfolding apply_pending
  pending-same t vs [] db newly h = refl
  pending-same t vs (m ∷ ms) db newly h =
      rw (h.0, apply_pending) (pending-same t vs ms db newly h.1)

  abbrev Grows : Database S → Database S → Type 0
  Grows db db' = (v : String) → is_recorded v db.versions ≡ true → is_recorded v db'.versions ≡ true

  -- What a result says of the migrations if it comes with no error.
  abbrev Recorded : List Migration → Database S → Database S × List String × Option Error → Type 0
  Recorded ms db r = r.2 ≡ none → Grows db r.0 × AllRecorded ms r.0.versions

  -- What one transaction says of its migration.
  One : Migration → Database S → Database S × Option Error → Type 0
  One m db (d, some e) = Unit
  One m db (d, none) = Grows db d × (is_recorded m.version d.versions ≡ true)

  end_tx-One :
      (m : Migration) (c : Commit) (db tx : Database S)
      → Grows db tx
      → is_recorded m.version tx.versions ≡ true
      → One m db (end_tx c db tx)
  unfolding end_tx One
  end_tx-One m landed db tx g r = (g, r)
  end_tx-One m refused db tx g r = tt
  end_tx-One m unanswered db tx g r = tt

  apply_one-One :
      (t : TxFaults) (m : Migration) (db : Database S) → One m db (apply_one exec t m db)
  unfolding apply_one One
  apply_one-One t m db =
      if_elim (One m db) t.begin _ _ (λ _. tt)
        λ _.
          if_elim (One m db) (exec m.sql db.schema).1 _ _ (λ _. tt)
            λ _.
              if_elim (One m db) (t.insert m.version || is_recorded m.version db.versions) _ _
                (λ _. tt)
                λ _.
                  end_tx-One m t.commit db _
                    (λ v h. any-append_left (λ w. str_eq w v) db.versions _ h)
                    (any-append_last (λ w. str_eq w m.version) db.versions m.version
                      (str_eq_self m.version))

  Recorded-next :
      (t : String → TxFaults) (vs : List String) (m : Migration) (ms : List Migration)
      (db : Database S) (newly : List String)
      → ((v : String) → is_recorded v vs ≡ true → is_recorded v db.versions ≡ true)
      → ((d : Database S) (new : List String)
          → ((v : String) → is_recorded v vs ≡ true → is_recorded v d.versions ≡ true)
          → Recorded ms d (apply_pending exec t vs ms d new))
      → (b : Bool) → is_recorded m.version vs ≡ b
      → (r : Database S × Option Error) → One m db r
      → Recorded (m ∷ ms) db (elim b [
        | true ↦ apply_pending exec t vs ms db newly
        | false ↦ elim r.1 [
          | some e ↦ (r.0, newly, some e)
          | none ↦ apply_pending exec t vs ms r.0 (newly ++ m.version ∷ [])
        ]
      ])
  unfolding One
  Recorded-next t vs m ms db newly k ih true p o q n =
      let (g, a) = ih db newly k n in (g, (g m.version (k m.version p), a))
  Recorded-next t vs m ms db newly k ih false p (d, some e) q n = absurd (cc)
  Recorded-next t vs m ms db newly k ih false p (d, none) q n =
      let (g, a) = ih d (newly ++ m.version ∷ []) (λ v h. q.0 v (k v h)) n in
      ((λ v h. g v (q.0 v h)), (g m.version q.1, a))

  pending-Recorded :
      (t : String → TxFaults) (vs : List String) (ms : List Migration) (db : Database S)
      (newly : List String)
      → ((v : String) → is_recorded v vs ≡ true → is_recorded v db.versions ≡ true)
      → Recorded ms db (apply_pending exec t vs ms db newly)
  unfolding apply_pending
  pending-Recorded t vs [] db newly k n = ((λ v h. h), tt)
  pending-Recorded t vs (m ∷ ms) db newly k n =
      Recorded-next t vs m ms db newly k (λ d new g. pending-Recorded t vs ms d new g)
        (is_recorded m.version vs) refl (apply_one exec (t m.version) m db)
        (apply_one-One (t m.version) m db) n

  end_tx-AllRecorded :
      (ms : List Migration) (c : Commit) (db tx : Database S)
      → AllRecorded ms tx.versions
      → (end_tx c db tx).1 ≡ none
      → AllRecorded ms (end_tx c db tx).0.versions
  unfolding end_tx
  end_tx-AllRecorded ms landed db tx a n = a
  end_tx-AllRecorded ms refused db tx a n = absurd (cc)
  end_tx-AllRecorded ms unanswered db tx a n = absurd (cc)

  backfilled :
      (t : TxFaults) (ms : List Migration) (db : Database S)
      → (backfill t ms db).1 ≡ none
      → AllRecorded ms (backfill t ms db).0.versions
  unfolding backfill
  backfilled t ms db =
      if_elim Ok t.begin _ _ (λ _ n. absurd (cc))
        λ _.
          if_elim Ok (any (λ m. t.insert m.version) ms) _ _ (λ _ n. absurd (cc))
            λ _ n. end_tx-AllRecorded ms t.commit db _ (backfill-AllRecorded ms db.versions) n
    where
      Ok : Database S × Option Error → Type 0
      Ok r = r.1 ≡ none → AllRecorded ms r.0.versions

  run-AllRecorded :
      (f : Faults) (ms : List Migration) (db : Database S)
      → (apply_fs exec f has_users ms db).2 ≡ none
      → AllRecorded ms (apply_fs exec f has_users ms db).0.versions
  unfolding apply_fs
  run-AllRecorded f ms db = go (setup_error f db.versions)
    where
      go :
          (o : Option Error)
          → (elim o as (λ _. Database S × List String × Option Error) [
            | some e ↦ (db, [], some e)
            | none ↦
                if is_empty db.versions && has_users db.schema
                then ((backfill f.backfill ms db).0, [], (backfill f.backfill ms db).1)
                else apply_pending exec f.migration db.versions ms db []
          ]).2
            ≡ none
          → AllRecorded ms
              (elim o as (λ _. Database S × List String × Option Error) [
                | some e ↦ (db, [], some e)
                | none ↦
                    if is_empty db.versions && has_users db.schema
                    then ((backfill f.backfill ms db).0, [], (backfill f.backfill ms db).1)
                    else apply_pending exec f.migration db.versions ms db []
              ]).0.versions
      go (some e) = λ n. absurd (cc)
      go none =
          if_elim
            (λ (r : Database S × List String × Option Error).
              r.2 ≡ none → AllRecorded ms r.0.versions)
            (is_empty db.versions && has_users db.schema) _ _ (λ _. backfilled f.backfill ms db)
            (λ _ n. (pending-Recorded f.migration db.versions ms db [] (λ v h. h) n).1)

  backfill_nothing :
      (ms : List Migration) (db : Database S)
      → AllRecorded ms db.versions
      → backfill no_tx_faults ms db ≡ (db, none)
  unfolding backfill end_tx
  backfill_nothing ms db a = rw (none_fails ms) (
      ap (λ (vs : List String). (record db { versions = vs }, none))
        (backfill-same ms db.versions a))

  run-same :
      (ms : List Migration) (db : Database S)
      → AllRecorded ms db.versions
      → apply_fs exec no_faults has_users ms db ≡ (db, [], none)
  unfolding apply_fs
  run-same ms db a =
      rw (no_setup_error db.versions, apply_fs)
        (if_elim (λ r. r ≡ (db, [], none)) (is_empty db.versions && has_users db.schema) _ _
          (λ _. ap (λ (r : Database S × Option Error). (r.0, [], r.1)) (backfill_nothing ms db a))
          (λ _. pending-same (λ v. no_tx_faults) db.versions ms db [] a))

  -- After a run that reports no error, whatever it has met, every migration is recorded, the database
  -- of a bootstrapped schema included; and a second run in which no call fails applies nothing,
  -- changes nothing and reports no error.
  pub apply_fs-rerun :
      (f : Faults) (ms : List Migration) (db : Database S)
      → (apply_fs exec f has_users ms db).2 ≡ none
      → let db' = (apply_fs exec f has_users ms db).0 in
        AllRecorded ms db'.versions × (apply_fs exec no_faults has_users ms db' ≡ (db', [], none))
  apply_fs-rerun f ms db n =
      let a = run-AllRecorded f ms db n in (a, run-same ms (apply_fs exec f has_users ms db).0 a)
