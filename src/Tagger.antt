-- ===== src/Tagger.antt =====
-- internal/client/tagger: engine.go, store.go and tagger.go. The table `tag_rules` of the client's
-- database with the tags that it refers to.
pub mod Best
pub mod Learner
pub mod Examples
use trasker.Prelude.{
  ℕ, suc, ◌+◌, Bool, true, false, not, ◌&&◌, ◌||◌, Option, none, some, List, [], ◌∷◌, ◌++◌, String,
  ltb, ◌==◌, if◌then◌else◌, filter, find, any, is_some, Result, ok, err,
}
use trasker.Prelude.Int.{ℤ, le_ℤ}
use trasker.Store.Tables.{Tag, DbError, foreign_key, not_found, next_rowid, update_where}

-- A row of `tag_rules`.
pub record RuleRow : Type 0 where
  pub id : ℕ
  pub tag_id : ℕ
  pub app_pattern : String
  pub title_pattern : Option String
  pub priority : ℤ
  pub suggested : Bool
  pub hit_count : ℕ
  pub created_at : ℕ

pub record RuleDb : Type 0 where
  pub tags : List Tag
  pub tag_rules : List RuleRow
  -- Whether the connection enforces foreign keys.
  pub enforces : Bool

pub record Rule : Type 0 where
  pub id : ℕ
  pub tag_id : ℕ
  pub tag_name : String
  pub app_pattern : String
  pub title_pattern : Option String
  pub priority : ℤ
  pub suggested : Bool
  pub hit_count : ℕ

pub record FocusContext : Type 0 where
  pub app_name : String
  pub window_title : String

-- The functions of Go's packages on texts: `strings.ToLower`, and `filepath.Match` of a pattern and a
-- name, none for a bad pattern.
pub record Texts : Type 0 where
  pub to_lower : String → String
  pub glob : String → String → Option Bool

abbrev pub is_match : Option Bool → Bool
is_match none = false
is_match (some b) = b

unfoldable pub matches_title : Texts → String → Option String → Bool
matches_title t title none = true
matches_title t title (some p) = is_match (t.glob (t.to_lower p) (t.to_lower title))

unfoldable pub matches_rule : Texts → FocusContext → Rule → Bool
unfolding matches_title
matches_rule t ctx r =
    is_match (t.glob (t.to_lower r.app_pattern) (t.to_lower ctx.app_name))
    && matches_title t ctx.window_title r.title_pattern

unfoldable pub evaluate_tier : Texts → FocusContext → List Rule → Option Rule
unfolding matches_rule
evaluate_tier t ctx rules = find (matches_rule t ctx) rules

-- The four slices that `Evaluate` makes.
abbrev pub is_title : Rule → Bool
is_title r = not r.suggested && is_some r.title_pattern

abbrev pub is_app : Rule → Bool
is_app r = not r.suggested && not (is_some r.title_pattern)

abbrev pub is_suggested_title : Rule → Bool
is_suggested_title r = r.suggested && is_some r.title_pattern

abbrev pub is_suggested_app : Rule → Bool
is_suggested_app r = r.suggested && not (is_some r.title_pattern)

abbrev pub or_else : Option Rule → Option Rule → Option Rule
or_else none o = o
or_else (some r) o = some r

-- `Evaluate`: the rule of the result.
unfoldable pub evaluate : Texts → FocusContext → List Rule → Option Rule
unfolding evaluate_tier
evaluate t ctx rules = or_else (evaluate_tier t ctx (filter is_title rules)) (
    or_else (evaluate_tier t ctx (filter is_app rules)) (
      or_else (evaluate_tier t ctx (filter is_suggested_title rules))
        (evaluate_tier t ctx (filter is_suggested_app rules))))

abbrev pub new_rule : ℕ → ℕ → String → Option String → ℤ → Bool → List RuleRow → RuleRow
new_rule now tag_id app title priority suggested rows = record {
  id = next_rowid (λ r. r.id) rows;
  tag_id = tag_id;
  app_pattern = app;
  title_pattern = title;
  priority = priority;
  suggested = suggested;
  hit_count = 0;
  created_at = now;
}

unfoldable pub create_rule :
    ℕ → ℕ → String → Option String → ℤ → Bool → RuleDb → Result DbError (RuleDb × ℕ)
create_rule now tag_id app title priority suggested db =
    let r = new_rule now tag_id app title priority suggested db.tag_rules in
    if any (λ t. t.id == tag_id) db.tags || not db.enforces
    then ok (record db { tag_rules = db.tag_rules ++ r ∷ [] }, r.id)
    else err foreign_key

-- `JOIN tags t ON t.id = r.tag_id`.
abbrev pub rule_of : Tag → RuleRow → Rule
rule_of t r = record {
  id = r.id;
  tag_id = r.tag_id;
  tag_name = t.name;
  app_pattern = r.app_pattern;
  title_pattern = r.title_pattern;
  priority = r.priority;
  suggested = r.suggested;
  hit_count = r.hit_count;
}

abbrev pub join_tag : Option Tag → RuleRow → List Rule → List Rule
join_tag none r rules = rules
join_tag (some t) r rules = rule_of t r ∷ rules

unfoldable pub join_tags : List Tag → List RuleRow → List Rule
join_tags tags [] = []
join_tags tags (r ∷ rows) = join_tag (find (λ t. t.id == r.tag_id) tags) r (join_tags tags rows)

unfoldable pub get_rule : ℕ → RuleDb → Result DbError Rule
unfolding join_tags
get_rule id db = elim (find (λ r. r.id == id) (join_tags db.tags db.tag_rules)) [
  | none ↦ err not_found
  | some r ↦ ok r
]

-- The place of `suggested` and of the CASE on `title_pattern` in the order.
abbrev pub tier : Rule → ℕ
tier r = (if r.suggested then 2 else 0) + (if is_some r.title_pattern then 0 else 1)

-- Whether the ORDER BY lets the first rule stand before the second.
unfoldable pub is_before : Rule → Rule → Bool
is_before a b = ltb (tier a) (tier b) || ((tier a == tier b) && le_ℤ b.priority a.priority)

unfoldable pub insert_rule : Rule → List Rule → List Rule
unfolding is_before
insert_rule r [] = r ∷ []
insert_rule r (s ∷ rules) =
    let rest = insert_rule r rules in if is_before r s then r ∷ s ∷ rules else s ∷ rest

unfoldable pub order_rules : List Rule → List Rule
unfolding insert_rule
order_rules [] = []
order_rules (r ∷ rules) = insert_rule r (order_rules rules)

-- `ListAll`; rules that tie stand in the table's order.
unfoldable pub list_all : RuleDb → List Rule
unfolding join_tags order_rules
list_all db = order_rules (join_tags db.tags db.tag_rules)

-- `RowsAffected` of an update or a delete of an id; 0 is an error.
abbrev pub if_any : (RuleRow → Bool) → List RuleRow → RuleDb → Result DbError RuleDb
if_any p rows db = if any p db.tag_rules then ok (record db { tag_rules = rows }) else err not_found

unfoldable pub update_rule : ℕ → String → Option String → ℤ → RuleDb → Result DbError RuleDb
unfolding update_where
update_rule id app title priority db =
    if_any (λ r. r.id == id)
      (update_where (λ r. r.id == id)
        (λ r. record r { app_pattern = app; title_pattern = title; priority = priority })
        db.tag_rules)
      db

unfoldable pub delete_rule : ℕ → RuleDb → Result DbError RuleDb
delete_rule id db = if_any (λ r. r.id == id) (filter (λ r. not (r.id == id)) db.tag_rules) db

unfoldable pub increment_hit_count : ℕ → RuleDb → RuleDb
unfolding update_where
increment_hit_count id db = record db {
  tag_rules =
      update_where (λ r. r.id == id) (λ r. record r { hit_count = suc r.hit_count }) db.tag_rules;
}

unfoldable pub accept_suggested : ℕ → RuleDb → Result DbError RuleDb
unfolding update_where
accept_suggested id db =
    if_any (λ r. (r.id == id) && r.suggested)
      (update_where (λ r. (r.id == id) && r.suggested) (λ r. record r { suggested = false })
        db.tag_rules)
      db

-- What `ProcessFocusEvent` does with its rules: the tag that it gives the applier, and the rules' table.
-- `applied` is whether the applier succeeds on a tag and a rule.
unfoldable pub process_focus_event :
    Texts → (ℕ → ℕ → Bool) → FocusContext → List Rule → RuleDb → Option (ℕ × ℕ) × RuleDb
unfolding evaluate increment_hit_count
process_focus_event t applied ctx rules db = elim (evaluate t ctx rules) [
  | none ↦ (none, db)
  | some r ↦
      (some (r.tag_id, r.id), if applied r.tag_id r.id then increment_hit_count r.id db else db)
]
