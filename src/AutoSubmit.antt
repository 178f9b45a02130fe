-- ===== src/AutoSubmit.antt =====
-- internal/client/autosubmit/autosubmit.go: on a cadence, the tagged events are submitted.
-- The one row of `auto_submit_config` and the table `auto_submit_tags` stand in the client's store.
pub mod Saved
pub mod Eligible
pub mod Runs
pub mod Examples
use trasker.Prelude.{
  ℕ, ◌+◌, ◌*◌, Bool, true, false, not, ◌&&◌, ◌||◌, List, [], ◌∷◌, ltb, leb, ◌==◌, if◌then◌else◌,
  Option, none, some, is_some, any, filter, map, length, Result, ok, err,
}
use trasker.Prelude.Sort.{sort_by}
use trasker.Store.Tables.{FocusEvent, AutoSubmitConfig, Db, DbError, unique, has_row}
use trasker.Store.EventTags.{is_event_submitted}
use trasker.Sync.Submit.{submit_events}

pub data Error : Type 0 where
  interval_not_offered : ℕ → Error
  unknown_tag : ℕ → Error
  store_error : DbError → Error

-- The cadences in hours; 0 is off.
abbrev pub intervals : List ℕ
intervals = 0 ∷ 1 ∷ 2 ∷ 4 ∷ 6 ∷ 8 ∷ 12 ∷ 24 ∷ []

unfoldable pub valid_interval : ℕ → Bool
valid_interval hours = any (λ h. h == hours) intervals

pub record Settings : Type 0 where
  pub interval_hours : ℕ
  pub tag_ids : List ℕ
  pub enabled_at : Option ℕ
  pub last_run : Option ℕ

unfoldable pub enabled : Settings → Bool
enabled s = ltb 0 s.interval_hours && is_some s.enabled_at

unfoldable pub next_run : Settings → Option ℕ
unfolding enabled
next_run s =
    if enabled s
    then elim s.last_run [ none ↦ none | some t ↦ some (t + s.interval_hours * 3600) ]
    else none

-- `Load`: a missing row gives the zero settings.
unfoldable pub load : Db → Settings
load db = elim db.auto_submit_config [
  | none ↦ record {
    interval_hours = 0;
    tag_ids = sort_by (λ i. i) db.auto_submit_tags;
    enabled_at = none;
    last_run = none;
  }
  | some c ↦ record {
    interval_hours = c.interval_hours;
    tag_ids = sort_by (λ i. i) db.auto_submit_tags;
    enabled_at = c.enabled_at;
    last_run = c.last_run;
  }
]

-- `CASE WHEN ? > 0 THEN ? END`.
abbrev when_on : ℕ → ℕ → Option ℕ
when_on hours now = if ltb 0 hours then some now else none

abbrev coalesce : Option ℕ → Option ℕ → Option ℕ
coalesce (some a) b = some a
coalesce none b = b

-- The upsert of the row with id 1.
unfoldable pub upsert : ℕ → ℕ → Option AutoSubmitConfig → AutoSubmitConfig
upsert hours now none = record {
  interval_hours = hours;
  enabled_at = when_on hours now;
  last_run = when_on hours now;
}
upsert hours now (some old) = record {
  interval_hours = hours;
  enabled_at = if hours == 0 then none else coalesce old.enabled_at (when_on hours now);
  last_run =
      if hours == 0
      then none
      else if is_some old.enabled_at
      then old.last_run
      else when_on hours now;
}

-- The loop that fills `auto_submit_tags` again; an id twice is refused by the table's key.
unfoldable pub save_tags : List ℕ → Db → List ℕ → Result Error (List ℕ)
unfolding has_row
save_tags [] db saved = ok saved
save_tags (i ∷ is) db saved =
    let rest = save_tags is db (i ∷ saved) in
    if not (has_row (λ t. t.id) i db.tags)
    then err (unknown_tag i)
    else if any (λ j. j == i) saved
    then err (store_error unique)
    else rest

-- `Save`: one transaction, so an error leaves the store as it was.
unfoldable pub save : ℕ → List ℕ → ℕ → Db → Result Error Db
save hours tag_ids now db =
    if valid_interval hours
    then (elim (save_tags tag_ids db []) [
      | err e ↦ err e
      | ok saved ↦ ok (record db {
        auto_submit_config = some (upsert hours now db.auto_submit_config);
        auto_submit_tags = saved;
      })
    ])
    else err (interval_not_offered hours)

-- The WHERE of `eligibleEvents`, the joins over the tags included.
unfoldable pub has_ticked_tag : Db → ℕ → Bool
has_ticked_tag db event_id =
    any (λ et. et.event_id == event_id && any (λ t. t == et.tag_id) db.auto_submit_tags)
      db.event_tags

unfoldable pub is_eligible : Db → ℕ → FocusEvent → Bool
unfolding has_ticked_tag
is_eligible db cutoff fe =
    has_ticked_tag db fe.id
    && not fe.is_idle
    && is_some fe.ended_at
    && leb cutoff fe.started_at
    && not (is_event_submitted fe.id db)

-- DISTINCT is on the key of `focus_events`, so each event stands once.
unfoldable pub eligible_events : ℕ → Db → List ℕ
unfolding is_eligible
eligible_events cutoff db =
    map (λ fe. fe.id) (sort_by (λ fe. fe.id) (filter (is_eligible db cutoff) db.focus_events))

abbrev pub with_last_run : ℕ → Option AutoSubmitConfig → Option AutoSubmitConfig
with_last_run now none = none
with_last_run now (some c) = some (record c { last_run = some now })

-- Nothing is submitted, and the run is noted.
unfoldable pub note_run : ℕ → Db → Db
note_run now db = record db { auto_submit_config = with_last_run now db.auto_submit_config }

-- A pass that is due: the store, the submission's id (0 if there is none) and how many events it has.
unfoldable pub perform : ℕ → ℕ → List ℕ → Db → Result Error (Db × ℕ × ℕ)
unfolding note_run
perform now at [] db = ok (note_run now db, 0, 0)
perform now at (i ∷ is) db = elim (submit_events (i ∷ is) at db) [
  | err e ↦ err (store_error e)
  | ok (db', sub) ↦ ok (note_run now db', sub, length (i ∷ is))
]

unfoldable pub is_run_due : ℕ → Settings → Bool
unfolding next_run
is_run_due now s = elim (next_run s) [ none ↦ true | some t ↦ not (ltb now t) ]

abbrev pub is_empty {ℓ} : {A : Type ℓ} → List A → Bool
is_empty [] = true
is_empty (_ ∷ _) = false

-- `RunOnce`; `at` is the clock that CreateSubmission reads for itself.
unfoldable pub run_once : ℕ → ℕ → Db → Result Error (Db × ℕ × ℕ)
unfolding enabled is_run_due perform eligible_events
run_once now at db =
    let s = load db in
    let idle : Result Error (Db × ℕ × ℕ) = ok (db, 0, 0) in
    elim s.enabled_at [
      | none ↦ idle
      | some cutoff ↦
          if not (enabled s) || is_empty s.tag_ids
          then idle
          else if is_run_due now s
          then perform now at (eligible_events cutoff db) db
          else idle
    ]
