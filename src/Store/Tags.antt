-- ===== src/Store/Tags.antt =====
-- internal/client/store/tags.go. `ListTags`, which orders by the text of the name, is left out.
use trasker.Prelude.{
  ℕ, Bool, not, ◌&&◌, ◌||◌, none, some, List, [], ◌∷◌, ◌++◌, String, str_eq, ◌==◌, if◌then◌else◌,
  filter, find, any, Result, ok, err,
}
use trasker.Store.Tables.{
  Tag, Db, DbError, foreign_key, unique, not_found, next_rowid, update_where,
}

-- `tags.name` is UNIQUE.
unfoldable pub create_tag : String → String → ℕ → Db → Result DbError (Db × ℕ)
create_tag name color now db =
    let id = next_rowid (λ t. t.id) db.tags in
    if any (λ t. str_eq t.name name) db.tags
    then err unique
    else ok (
      record db {
        tags = db.tags ++ record { id = id; name = name; color = color; created_at = now } ∷ [];
      },
      id,
    )

unfoldable pub get_tag : ℕ → Db → Result DbError Tag
get_tag id db = elim (find (λ t. t.id == id) db.tags) [ none ↦ err not_found | some t ↦ ok t ]

-- A name that another tag has is refused; with no row of the id nothing is checked or changed.
unfoldable pub update_tag : ℕ → String → String → Db → Result DbError Db
update_tag id name color db =
    if any (λ t. t.id == id) db.tags && any (λ t. str_eq t.name name && not (t.id == id)) db.tags
    then err unique
    else ok (record db {
      tags = update_where (λ t. t.id == id) (λ t. record t { name = name; color = color }) db.tags;
    })

-- Where foreign keys are `enforced` on the connection, a tag that a row refers to is kept. `elsewhere` are the tags that the tables `tag_rules` and
-- `pomodoro_sessions` refer to.
unfoldable pub delete_tag : Bool → List ℕ → ℕ → Db → Result DbError Db
delete_tag enforced elsewhere id db =
    if enforced
      && any (λ t. t.id == id) db.tags
      && (any (λ r. r.tag_id == id) db.event_tags
          || any (λ t. t == id) db.auto_submit_tags
          || any (λ t. t == id) elsewhere)
    then err foreign_key
    else ok (record db { tags = filter (λ t. not (t.id == id)) db.tags })
