-- ===== src/Store/EventTags.antt =====
-- internal/client/store/event_tags.go, with the keys of `event_tags` that the schema declares.
use trasker.Prelude.{
  ℕ, Bool, ◌&&◌, ◌||◌, not, Option, List, [], ◌∷◌, ◌++◌, ◌==◌, if◌then◌else◌, filter, any, map,
  length, ltb, Result, ok, err,
}
use trasker.Prelude.Sort.{sort_by}
use trasker.Store.Tables.{Source, EventTag, Db, DbError, foreign_key, has_row}

unfoldable pub is_tagged : ℕ → ℕ → List EventTag → Bool
is_tagged event_id tag_id = any (λ r. r.event_id == event_id && r.tag_id == tag_id)

-- INSERT OR IGNORE: a row with the same (event_id, tag_id) is kept, a missing event or tag is an
-- error of the foreign key, where that is enforced.
unfoldable pub apply_tag_to_event : ℕ → ℕ → Source → Option ℕ → Db → Result DbError Db
unfolding is_tagged has_row
apply_tag_to_event event_id tag_id source cascade_from db =
    if is_tagged event_id tag_id db.event_tags
    then ok db
    else if has_row (λ e. e.id) event_id db.focus_events && has_row (λ t. t.id) tag_id db.tags
        || not (db.enforces event_id)
    then ok (record db {
      event_tags =
          db.event_tags
          ++ record {
            event_id = event_id;
            tag_id = tag_id;
            source = source;
            cascade_from = cascade_from;
          }
            ∷ [];
    })
    else err foreign_key

unfoldable pub list_tags_for_event : ℕ → Db → List EventTag
list_tags_for_event event_id db = filter (λ r. r.event_id == event_id) db.event_tags

unfoldable pub list_event_ids_for_tag : ℕ → Db → List ℕ
list_event_ids_for_tag tag_id db =
    sort_by (λ i. i) (map (λ r. r.event_id) (filter (λ r. r.tag_id == tag_id) db.event_tags))

-- `COUNT(*) > 0`.
unfoldable pub is_event_submitted : ℕ → Db → Bool
is_event_submitted event_id db =
    ltb 0 (length (filter (λ r. r.event_id == event_id) db.submission_events))
