-- ===== src/Migrations/Failed.antt =====
-- A run that fails.
use trasker.Prelude.{
  ◌≡◌, refl, ◌∙◌, sym, ap, subst, Bool, true, false, ◌&&◌, ◌||◌, Option, none, some, List, [], ◌∷◌,
  ◌++◌, String, any, Bool-cases, Option-cases, if_elim, inl, inr, ◌⊎◌,
}
use trasker.Migrations.{
  Migration, Error, Commit, landed, refused, unanswered, TxFaults, Faults, Database, end_tx,
  is_recorded, is_empty, backfill_versions, backfill, setup_error, apply_one, apply_pending,
  apply_fs,
}

-- A transaction on `db` that has failed leaves nothing, unless its commit took effect unanswered:
-- then it leaves `tx`.
abbrev pub Left : {S : Type 0} → TxFaults → Database S → Database S → Database S → Type 0
Left t db tx db' = (db' ≡ db) ⊎ ((t.commit ≡ unanswered) × (db' ≡ tx))

end_tx-Left :
    {S : Type 0} (c : Commit) (db tx : Database S)
    → ((end_tx c db tx).0 ≡ db)
      ⊎ ((c ≡ unanswered) × ((end_tx c db tx).0 ≡ tx))
      ⊎ ((end_tx c db tx).1 ≡ none)
unfolding end_tx
end_tx-Left landed db tx = inr (inr refl)
end_tx-Left refused db tx = inl refl
end_tx-Left unanswered db tx = inr (inl (refl, refl))

-- Of what a transaction returns.
abbrev FailedTx :
    {S : Type 0} → TxFaults → Database S → Database S → Database S × Option Error → Type 0
FailedTx t db tx r = (e : Error) → r.1 ≡ some e → Left t db tx r.0

end_tx-FailedTx :
    {S : Type 0} (t : TxFaults) (db tx : Database S) → FailedTx t db tx (end_tx t.commit db tx)
end_tx-FailedTx t db tx e h = elim (end_tx-Left t.commit db tx) [
  | inl x ↦ inl x
  | inr (inl (x, y)) ↦ inr (x, y)
  | inr (inr n) ↦ absurd (let k = sym n ∙ h in cc)
]

backfill-FailedTx :
    {S : Type 0} (t : TxFaults) (ms : List Migration) (db : Database S)
    → FailedTx t db (record db { versions = backfill_versions ms db.versions }) (backfill t ms db)
unfolding backfill
backfill-FailedTx t ms db =
    if_elim (FailedTx t db _) t.begin _ _ (λ _ e h. inl refl)
      λ _.
        if_elim (FailedTx t db _) (any (λ m. t.insert m.version) ms) _ _ (λ _ e h. inl refl)
          λ _. end_tx-FailedTx t db _

module _ {S : Type 0} (exec : String → S → S × Bool) where
  -- The database in the transaction of a migration, before its commit.
  abbrev pub in_tx : Migration → Database S → Database S
  in_tx m db = record {
    schema = (exec m.sql db.schema).0;
    versions = db.versions ++ m.version ∷ [];
  }

  apply_one-FailedTx :
      (t : TxFaults) (m : Migration) (db : Database S)
      → FailedTx t db (in_tx m db) (apply_one exec t m db)
  unfolding apply_one
  apply_one-FailedTx t m db =
      if_elim (FailedTx t db _) t.begin _ _ (λ _ e h. inl refl)
        λ _.
          if_elim (FailedTx t db _) (exec m.sql db.schema).1 _ _ (λ _ e h. inl refl)
            λ _.
              if_elim (FailedTx t db _) (t.insert m.version || is_recorded m.version db.versions) _
                _ (λ _ e h. inl refl) λ _. end_tx-FailedTx t db _

  -- The migration at which a run stops, and the ones before it, which have all gone through.
  pub record Stopped (t : String → TxFaults)
      (run : List Migration → Database S × List String × Option Error) (ms : List Migration)
      (e : Error) (db' : Database S) (newly : List String) : Type 0 where
    pub before : List Migration
    pub failed : Migration
    pub rest : List Migration
    pub reached : Database S
    pub split : ms ≡ before ++ failed ∷ rest
    pub done : run before ≡ (reached, newly, none)
    pub stop : apply_one exec (t failed.version) failed reached ≡ (db', some e)
    pub left : Left (t failed.version) reached (in_tx failed reached) db'

  module _ (t : String → TxFaults) (vs : List String) where
    skip :
        (m : Migration) (ms : List Migration) (db : Database S) (newly : List String)
        → is_recorded m.version vs ≡ true
        → apply_pending exec t vs (m ∷ ms) db newly ≡ apply_pending exec t vs ms db newly
    unfolding apply_pending
    skip m ms db newly h = rw (h, apply_pending)

    -- The loop after the first migration has been tried.
    abbrev after_first :
        Migration
        → List Migration
        → List String
        → Database S × Option Error
        → Database S × List String × Option Error
    after_first m ms newly r = elim r.1 [
      | some e ↦ (r.0, newly, some e)
      | none ↦ apply_pending exec t vs ms r.0 (newly ++ m.version ∷ [])
    ]

    taken :
        (m : Migration) (ms : List Migration) (db : Database S) (newly : List String)
        → is_recorded m.version vs ≡ false
        → apply_pending exec t vs (m ∷ ms) db newly
          ≡ after_first m ms newly (apply_one exec (t m.version) m db)
    unfolding apply_pending
    taken m ms db newly h = rw (h, apply_pending)

    pending-Stopped :
        (ms : List Migration) (db db' : Database S) (newly newly' : List String) (e : Error)
        → apply_pending exec t vs ms db newly ≡ (db', newly', some e)
        → Stopped t (λ l. apply_pending exec t vs l db newly) ms e db' newly'
    unfolding apply_pending
    pending-Stopped [] db db' newly newly' e h = absurd (let k = ap (λ r. r.2) h in cc)
    pending-Stopped (m ∷ ms) db db' newly newly' e h =
        elim (Bool-cases (is_recorded m.version vs)) [
          | inl p ↦
              let s = pending-Stopped ms db db' newly newly' e (sym (skip m ms db newly p) ∙ h) in
              record {
                before = m ∷ s.before;
                failed = s.failed;
                rest = s.rest;
                reached = s.reached;
                split = ap (λ l. m ∷ l) s.split;
                done = skip m s.before db newly p ∙ s.done;
                stop = s.stop;
                left = s.left;
              }
          | inr p ↦ elim (Option-cases (apply_one exec (t m.version) m db).1) [
            | inr (x, q) ↦
                let r = apply_one exec (t m.version) m db in
                let g = ap (λ o. after_first m ms newly (r.0, o)) q in
                let k = sym g ∙ sym (taken m ms db newly p) ∙ h in
                let a : r.0 ≡ db' = ap (λ z. z.0) k in
                record {
                  before = [];
                  failed = m;
                  rest = ms;
                  reached = db;
                  split = refl;
                  done = ap (λ z. (db, z.1, none)) k;
                  stop = λ i. (a i, (q ∙ ap (λ z. z.2) k) i);
                  left =
                      subst (Left (t m.version) db (in_tx m db)) a
                        (apply_one-FailedTx (t m.version) m db x q);
                }
            | inl q ↦
                let r = apply_one exec (t m.version) m db in
                let g = λ (l : List Migration).
                  taken m l db newly p ∙ ap (λ o. after_first m l newly (r.0, o)) q in
                let s =
                  pending-Stopped ms r.0 db' (newly ++ m.version ∷ []) newly' e (sym (g ms) ∙ h) in
                record {
                  before = m ∷ s.before;
                  failed = s.failed;
                  rest = s.rest;
                  reached = s.reached;
                  split = ap (λ l. m ∷ l) s.split;
                  done = g s.before ∙ s.done;
                  stop = s.stop;
                  left = s.left;
                }
          ]
        ]

  -- How a run ends with an error.
  pub data Ended (f : Faults) (has_users : S → Bool) (ms : List Migration) (db : Database S)
      (e : Error) (db' : Database S) (newly : List String) : Type 0 where
    -- Before anything is written.
    at_setup :
        setup_error f db.versions ≡ some e
        → db' ≡ db
        → newly ≡ []
        → Ended f has_users ms db e db' newly
    -- In the takeover of a database that has the tables and no version.
    at_backfill :
        setup_error f db.versions ≡ none
        → is_empty db.versions && has_users db.schema ≡ true
        → backfill f.backfill ms db ≡ (db', some e)
        → Left f.backfill db (record db { versions = backfill_versions ms db.versions }) db'
        → newly ≡ []
        → Ended f has_users ms db e db' newly
    at_migration :
        Stopped f.migration (λ l. apply_fs exec f has_users l db) ms e db' newly
        → Ended f has_users ms db e db' newly

  after_setup :
      (f : Faults) (has_users : S → Bool) (ms : List Migration) (db : Database S)
      → setup_error f db.versions ≡ none
      → is_empty db.versions && has_users db.schema ≡ false
      → apply_fs exec f has_users ms db ≡ apply_pending exec f.migration db.versions ms db []
  unfolding apply_fs
  after_setup f has_users ms db n p = rw (n, p, apply_fs) refl

  takeover :
      (f : Faults) (has_users : S → Bool) (ms : List Migration) (db : Database S)
      → setup_error f db.versions ≡ none
      → is_empty db.versions && has_users db.schema ≡ true
      → apply_fs exec f has_users ms db
        ≡ ((backfill f.backfill ms db).0, [], (backfill f.backfill ms db).1)
  unfolding apply_fs
  takeover f has_users ms db n p = rw (n, p, apply_fs) refl

  no_setup :
      (f : Faults) (has_users : S → Bool) (ms : List Migration) (db : Database S) (e : Error)
      → setup_error f db.versions ≡ some e
      → apply_fs exec f has_users ms db ≡ (db, [], some e)
  unfolding apply_fs
  no_setup f has_users ms db e n = rw (n, apply_fs) refl

  -- A run that reports an error, whichever call failed, ended in one of three places. Before the
  -- migrations, or in the takeover: no migration was run, and the database is as before, unless the
  -- takeover's commit took effect without an answer. Or at one migration: a run of the migrations
  -- before it reports no error and the same new versions, and the database is the one which that run
  -- leaves, so that nothing of the failed migration is there, unless its commit took effect without
  -- an answer.
  pub apply_fs-Ended :
      (f : Faults) (has_users : S → Bool) (ms : List Migration) (db db' : Database S)
      (newly : List String) (e : Error)
      → apply_fs exec f has_users ms db ≡ (db', newly, some e)
      → Ended f has_users ms db e db' newly
  apply_fs-Ended f has_users ms db db' newly e h = elim (Option-cases (setup_error f db.versions)) [
    | inr (x, n) ↦
        let k = sym (no_setup f has_users ms db x n) ∙ h in
        at_setup (n ∙ ap (λ z. z.2) k) (sym (ap (λ z. z.0) k)) (sym (ap (λ z. z.1) k))
    | inl n ↦ elim (Bool-cases (is_empty db.versions && has_users db.schema)) [
      | inl p ↦
          let k = sym (takeover f has_users ms db n p) ∙ h in
          let a = ap (λ z. z.0) k in
          at_backfill n p (λ i. (a i, ap (λ z. z.2) k i))
            (subst (Left f.backfill db _) a
              (backfill-FailedTx f.backfill ms db e (ap (λ z. z.2) k)))
            (sym (ap (λ z. z.1) k))
      | inr p ↦
          let s =
            pending-Stopped f.migration db.versions ms db db' [] newly e
              (sym (after_setup f has_users ms db n p) ∙ h) in
          at_migration (record {
            before = s.before;
            failed = s.failed;
            rest = s.rest;
            reached = s.reached;
            split = s.split;
            done = after_setup f has_users s.before db n p ∙ s.done;
            stop = s.stop;
            left = s.left;
          })
    ]
  ]
