-- ===== src/AutoSubmit/Runs.antt =====
-- A pass that is due.
use mathlib.Core.List.{append-nil}
use trasker.Prelude.{
  ℕ, ◌≡◌, refl, ◌∙◌, sym, ap, subst, true, false, List, [], ◌∷◌, ◌++◌, some, length, Result, ok,
  err,
}
use trasker.Store.Tables.{Submission, Db, DbError, next_rowid}
use trasker.Store.Submissions.{new_submission}
use trasker.Sync.Submit.Links.{LinksOk, CanLink, links, submitted, submit_events-ok}
use trasker.AutoSubmit.{
  Error, store_error, enabled, load, eligible_events, note_run, perform, is_run_due, run_once,
  with_last_run, is_empty,
}
use trasker.AutoSubmit.Eligible.{UniqueIds, eligible-CanLink, changed, nothing_left}

-- The submissions after a pass that submits `ids`: one more, if there are any.
abbrev pub rows_after : ℕ → Db → List ℕ → List Submission
rows_after now db [] = db.submissions
rows_after now db (i ∷ is) =
    db.submissions ++ new_submission (next_rowid (λ s. s.id) db.submissions) now ∷ []

-- What a pass does whose cutoff is `cutoff`.
pub record Ran (now at cutoff : ℕ) (db : Db) (r : Result Error (Db × ℕ × ℕ)) : Type 0 where
  pub after : Db
  pub submission : ℕ
  pub result : r ≡ ok (after, submission, length (eligible_events cutoff db))
  pub new_submission_row : after.submissions ≡ rows_after at db (eligible_events cutoff db)
  pub new_links :
      after.submission_events
      ≡ db.submission_events
        ++ links (next_rowid (λ s. s.id) db.submissions) (eligible_events cutoff db)
  pub run_noted : after.auto_submit_config ≡ with_last_run now db.auto_submit_config
  pub events_kept : after.focus_events ≡ db.focus_events
  pub none_left : eligible_events cutoff after ≡ []

-- Nothing is eligible: no submission is made.
perform-none :
    (now at cutoff : ℕ) (db : Db)
    → eligible_events cutoff db ≡ []
    → Ran now at cutoff db (perform now at [] db)
unfolding perform note_run
perform-none now at cutoff db e =
    let id = next_rowid (λ (s : Submission). s.id) db.submissions in
    let same : db.submission_events ≡ db.submission_events ++ links id (eligible_events cutoff db) =
      sym (append-nil db.submission_events)
      ∙ ap (λ l. db.submission_events ++ links id l) (sym e) in
    let config = with_last_run now db.auto_submit_config in
    record {
      after = note_run now db;
      submission = 0;
      result = ap (λ (l : List ℕ). ok (note_run now db, 0, length l)) (sym e);
      new_submission_row = ap (rows_after at db) (sym e);
      new_links = same;
      run_noted = refl;
      events_kept = refl;
      none_left =
          subst (λ ls. eligible_events cutoff (changed db db.submissions ls config) ≡ []) (sym same)
            (nothing_left cutoff db db.submissions config id);
    }

perform-some :
    (now at cutoff : ℕ) (db : Db) (i : ℕ) (is : List ℕ)
    → eligible_events cutoff db ≡ i ∷ is
    → LinksOk db
    → CanLink db.focus_events (i ∷ is)
    → Ran now at cutoff db (perform now at (i ∷ is) db)
unfolding perform note_run
perform-some now at cutoff db i is e l c =
    let id = next_rowid (λ (s : Submission). s.id) db.submissions in
    let next = submitted (i ∷ is) at db in
    let config = with_last_run now db.auto_submit_config in
    record {
      after = note_run now next;
      submission = id;
      result =
          ap
            (λ (r : Result DbError (Db × ℕ)). elim r as (λ x. Result Error (Db × ℕ × ℕ)) [
              | err x ↦ err (store_error x)
              | ok (db', sub) ↦ ok (note_run now db', sub, length (i ∷ is))
            ])
            (submit_events-ok (i ∷ is) at db l c)
          ∙ (ap (λ (l : List ℕ). ok (note_run now next, id, length l)) (sym e));
      new_submission_row = ap (rows_after at db) (sym e);
      new_links = ap (λ l. db.submission_events ++ links id l) (sym e);
      run_noted = refl;
      events_kept = refl;
      none_left =
          subst
            (λ l.
              eligible_events cutoff
                (changed db next.submissions (db.submission_events ++ links id l) config)
              ≡ [])
            e (nothing_left cutoff db next.submissions config id);
    }

perform-Ran :
    (now at cutoff : ℕ) (db : Db)
    → LinksOk db
    → UniqueIds db.focus_events
    → (ids : List ℕ) → eligible_events cutoff db ≡ ids
    → Ran now at cutoff db (perform now at ids db)
perform-Ran now at cutoff db l u [] e = perform-none now at cutoff db e
perform-Ran now at cutoff db l u (i ∷ is) e =
    perform-some now at cutoff db i is e l
      (subst (λ ids. CanLink db.focus_events ids) e (eligible-CanLink cutoff db u))

due_run :
    (now at cutoff : ℕ) (db : Db)
    → (load db).enabled_at ≡ some cutoff
    → enabled (load db) ≡ true
    → is_empty (load db).tag_ids ≡ false
    → is_run_due now (load db) ≡ true
    → run_once now at db ≡ perform now at (eligible_events cutoff db) db
unfolding run_once
due_run now at cutoff db a b c d = rw (a, run_once, b, c, d)

-- A pass that is due succeeds, if the ids of the events are different and every link is to a
-- submission that is there: the eligible events, and no others, are linked to one new submission,
-- which is made only if there are any; their number is returned; the run is noted in the settings;
-- and afterwards no event is eligible.
pub run_once-Ran :
    (now at cutoff : ℕ) (db : Db)
    → LinksOk db
    → UniqueIds db.focus_events
    → (load db).enabled_at ≡ some cutoff
    → enabled (load db) ≡ true
    → is_empty (load db).tag_ids ≡ false
    → is_run_due now (load db) ≡ true
    → Ran now at cutoff db (run_once now at db)
run_once-Ran now at cutoff db l u a b c d =
    subst (λ r. Ran now at cutoff db r) (sym (due_run now at cutoff db a b c d))
      (perform-Ran now at cutoff db l u (eligible_events cutoff db) refl)
