-- ===== src/Sync/Submit/Links.antt =====
-- When a submission is created, and what it links.
use mathlib.Core.List.{append_assoc, append-nil}
use trasker.Prelude.{
  ℕ, ◌≡◌, refl, ◌∙◌, sym, ap, true, false, List, [], ◌∷◌, ◌++◌, map, any, any-append_last, All,
  ◌==◌, ==_self, ok, Bool-cases, inl, inr, arith,
}
use trasker.Store.Tables.{
  Submission, SubmissionEvent, FocusEvent, Db, next_rowid, next_rowid-fresh, has_row,
}
use trasker.Store.Submissions.{
  new_submission, create_submission, link_event_to_submission, is_linked,
}
use trasker.Sync.Submit.{link_all, submit_events}

-- What the foreign key of `submission_events` keeps: each link is to a submission that is there.
abbrev pub LinksOk : Db → Type 0
LinksOk db =
    All (λ l. has_row (λ s. s.id) l.submission_id db.submissions ≡ true) db.submission_events

-- The ids are different, and each is the id of an event.
abbrev pub CanLink : List FocusEvent → List ℕ → Type 0
CanLink es [] = Unit
CanLink es (i ∷ is) =
    (has_row (λ e. e.id) i es ≡ true) × (any (λ j. j == i) is ≡ false) × CanLink es is

abbrev pub links : ℕ → List ℕ → List SubmissionEvent
links id = map (λ i. record { submission_id = id; event_id = i })

-- No event of the list is linked to the submission yet.
abbrev Unlinked : ℕ → List ℕ → List SubmissionEvent → Type 0
Unlinked id is ls = All (λ i. is_linked id i ls ≡ false) is

Unlinked-snoc :
    (id j : ℕ) (is : List ℕ) (ls : List SubmissionEvent)
    → any (λ k. k == j) is ≡ false
    → Unlinked id is ls
    → Unlinked id is (ls ++ record { submission_id = id; event_id = j } ∷ [])
unfolding is_linked
Unlinked-snoc id j [] ls n u = tt
Unlinked-snoc id j (i ∷ is) ls n u =
    (last i ls u.0 (ground arith), Unlinked-snoc id j is ls (ground arith) u.1)
  where
    last :
        (i : ℕ) (ls : List SubmissionEvent)
        → is_linked id i ls ≡ false
        → (i == j) ≡ false
        → is_linked id i (ls ++ record { submission_id = id; event_id = j } ∷ []) ≡ false
    last i [] u n = ground arith
    last i (l ∷ ls) u n = ground (arith, last i ls (ground arith) n)

link_one :
    (id i : ℕ) (db : Db)
    → has_row (λ s. s.id) id db.submissions ≡ true
    → has_row (λ e. e.id) i db.focus_events ≡ true
    → is_linked id i db.submission_events ≡ false
    → link_event_to_submission id i db
      ≡ ok (record db {
        submission_events =
            db.submission_events ++ record { submission_id = id; event_id = i } ∷ [];
      })
unfolding link_event_to_submission
link_one id i db s e u = rw (u, s, e)

link_all-ok :
    (id : ℕ) (is : List ℕ) (db : Db)
    → has_row (λ s. s.id) id db.submissions ≡ true
    → CanLink db.focus_events is
    → Unlinked id is db.submission_events
    → link_all id is db ≡ ok (record db { submission_events = db.submission_events ++ links id is })
unfolding link_all
link_all-ok id [] db s c u =
    ap (λ (l : List SubmissionEvent). ok (record db { submission_events = l }))
      (sym (append-nil db.submission_events))
link_all-ok id (i ∷ is) db s c u =
    rw (link_one id i db s c.0 u.0, link_all)
      (link_all-ok id is _ s c.2 (Unlinked-snoc id i is db.submission_events c.1 u.1)
        ∙ ap (λ (l : List SubmissionEvent). ok (record db { submission_events = l }))
            (append_assoc db.submission_events _ (links id is)))

-- A new submission has no links.
Unlinked-fresh :
    (rows : List Submission) (i : ℕ) (ls : List SubmissionEvent)
    → All (λ l. has_row (λ s. s.id) l.submission_id rows ≡ true) ls
    → is_linked (next_rowid (λ s. s.id) rows) i ls ≡ false
unfolding is_linked
Unlinked-fresh rows i [] h = refl
Unlinked-fresh rows i (l ∷ ls) h =
    let n = next_rowid (λ (s : Submission). s.id) rows in
    elim (Bool-cases (l.submission_id == n)) [
      | inl p ↦ absurd (
          let a = next_rowid-fresh (λ (s : Submission). s.id) rows l.submission_id (ground arith) in
          let b : true ≡ false = sym h.0 ∙ a in cc)
      | inr p ↦ rw p (Unlinked-fresh rows i ls h.1)
    ]

All-Unlinked :
    (rows : List Submission) (is : List ℕ) (ls : List SubmissionEvent)
    → All (λ l. has_row (λ s. s.id) l.submission_id rows ≡ true) ls
    → Unlinked (next_rowid (λ s. s.id) rows) is ls
All-Unlinked rows [] ls h = tt
All-Unlinked rows (i ∷ is) ls h = (Unlinked-fresh rows i ls h, All-Unlinked rows is ls h)

new_row :
    (rows : List Submission) (now : ℕ)
    → has_row
        (λ s. s.id)
        (next_rowid (λ s. s.id) rows)
        (rows ++ new_submission (next_rowid (λ s. s.id) rows) now ∷ [])
      ≡ true
unfolding has_row new_submission
new_row rows now = any-append_last _ rows _ (==_self (next_rowid (λ s. s.id) rows))

-- The store after a submission of `is` under a new id.
abbrev pub submitted : List ℕ → ℕ → Db → Db
submitted is now db =
    let id = next_rowid (λ s. s.id) db.submissions in
    record db {
      submissions = db.submissions ++ new_submission id now ∷ [];
      submission_events = db.submission_events ++ links id is;
    }

-- If every link of the store is to a submission that is there, and the ids given are different and
-- each is that of an event, `CreateSubmission` succeeds: there is one more pending submission, under a new id, and it is linked to exactly the events given, in order.
-- Nothing else changes.
pub submit_events-ok :
    (is : List ℕ) (now : ℕ) (db : Db)
    → LinksOk db
    → CanLink db.focus_events is
    → submit_events is now db ≡ ok (submitted is now db, next_rowid (λ s. s.id) db.submissions)
unfolding submit_events create_submission
submit_events-ok is now db l c = rw (
  link_all-ok (next_rowid (λ s. s.id) db.submissions) is (create_submission now db).0
      (new_row db.submissions now) c (All-Unlinked db.submissions is db.submission_events l),
  submit_events,
)
