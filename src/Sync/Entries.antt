-- ===== src/Sync/Entries.antt =====
-- client.go (TimesheetEntry) and queue.go (loadSubmissionEntries): the rows of a submission.
use trasker.Prelude.{ℕ, Option, none, some, List, [], ◌∷◌, ◌++◌, String, ◌==◌, filter, find, map}
use trasker.Prelude.Int.{ℤ, pos}
use trasker.Prelude.Sort.{sort_by}
use trasker.Store.Tables.{FocusEvent, EventTag, Note, Tag, Db}

-- The text of an end that is NULL is empty, here `none`.
pub record TimesheetEntry : Type 0 where
  pub tag : String
  pub started_at : ℕ
  pub ended_at : Option ℕ
  pub duration_s : ℤ
  pub notes : String

-- The rows of a LEFT JOIN: one without a partner where there is none.
unfoldable pub left_join {ℓ} : {A : Type ℓ} → List A → List (Option A)
left_join [] = none ∷ []
left_join (x ∷ xs) = map some (x ∷ xs)

-- `COALESCE(t.name, 'Untagged')`.
unfoldable pub tag_name : Option EventTag → List Tag → String
tag_name none tags = "Untagged"
tag_name (some et) tags = elim (find (λ t. t.id == et.tag_id) tags) [
  | none ↦ "Untagged"
  | some t ↦ t.name
]

abbrev pub note_text : Option Note → String
note_text none = ""
note_text (some n) = n.text

-- A NULL duration is 0.
abbrev pub duration_of : FocusEvent → ℤ
duration_of fe = elim fe.duration_s [ none ↦ pos 0 | some d ↦ d ]

abbrev pub flat_map {ℓ κ} : {A : Type ℓ} {B : Type κ} → (A → List B) → List A → List B
flat_map f [] = []
flat_map f (x ∷ xs) = f x ++ flat_map f xs

abbrev pub tags_of : FocusEvent → Db → List (Option EventTag)
tags_of fe db = left_join (filter (λ et. et.event_id == fe.id) db.event_tags)

abbrev pub notes_of : FocusEvent → Db → List (Option Note)
notes_of fe db = left_join (filter (λ n. n.anchor_event == fe.id) db.notes)

abbrev pub entry_of : List Tag → FocusEvent → Option EventTag → Option Note → TimesheetEntry
entry_of tags fe et n = record {
  tag = tag_name et tags;
  started_at = fe.started_at;
  ended_at = fe.ended_at;
  duration_s = duration_of fe;
  notes = note_text n;
}

-- One row for each pair of a tag and a note of the event.
unfoldable pub entries_of : Db → FocusEvent → List TimesheetEntry
entries_of db fe =
    flat_map (λ et. map (λ n. entry_of db.tags fe et n) (notes_of fe db)) (tags_of fe db)

-- The focus events that a submission links, one for each link.
unfoldable pub linked_events : ℕ → Db → List FocusEvent
linked_events submission_id db =
    flat_map (λ se. filter (λ fe. fe.id == se.event_id) db.focus_events)
      (filter (λ se. se.submission_id == submission_id) db.submission_events)

unfoldable pub load_submission_entries : ℕ → Db → List TimesheetEntry
unfolding entries_of linked_events
load_submission_entries submission_id db =
    sort_by (λ e. e.started_at) (flat_map (entries_of db) (linked_events submission_id db))
