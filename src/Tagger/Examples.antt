-- ===== src/Tagger/Examples.antt =====
-- A rule of a user, and one that is suggested beside it.
use trasker.Prelude.{◌||◌, ◌≡◌, refl, true, false, none, some, [], ◌∷◌, str_eq}
use trasker.Prelude.Int.{pos}
use trasker.Store.Tables.{Tag, next_rowid}
use trasker.Tagger.{
  RuleRow, RuleDb, Rule, FocusContext, Texts, rule_of, join_tags, evaluate, list_all,
}
use trasker.Tagger.Best.{IsBest, evaluate-IsBest}
use trasker.Tagger.Learner.{Words, Learner, Faults, observe_manual_tag}
use trasker.Tagger.Learner.Suggested.{Kept, observe_manual_tag-Kept}

-- A pattern matches the same text, "*" every one.
abbrev texts : Texts
texts = record { to_lower = λ s. s; glob = λ p n. some (str_eq p "*" || str_eq p n) }

abbrev dev : Tag
dev = record { id = 1; name = "dev"; color = "blue"; created_at = 1 }

abbrev mail : Tag
mail = record { id = 2; name = "mail"; color = "red"; created_at = 1 }

abbrev any_app : RuleRow
any_app = record {
  id = 1;
  tag_id = 1;
  app_pattern = "*";
  title_pattern = none;
  priority = pos 5;
  suggested = false;
  hit_count = 0;
  created_at = 1;
}

abbrev editor_title : RuleRow
editor_title = record {
  id = 2;
  tag_id = 2;
  app_pattern = "editor";
  title_pattern = some "inbox";
  priority = pos 0;
  suggested = false;
  hit_count = 0;
  created_at = 1;
}

abbrev rules : RuleDb
rules = record { tags = dev ∷ mail ∷ []; tag_rules = any_app ∷ editor_title ∷ []; enforces = true }

abbrev inbox : FocusContext
inbox = record { app_name = "editor"; window_title = "inbox" }

-- The title is matched first, in spite of the higher priority of the other rule.
evaluate-IsBest_example :
    IsBest texts inbox
      (rule_of dev any_app ∷ rule_of mail editor_title ∷ [])
      (some (rule_of mail editor_title))
unfolding list_all evaluate
evaluate-IsBest_example = evaluate-IsBest texts inbox rules

abbrev words : Words
words = record {
  fields = λ s. s ∷ [];
  to_lower = λ s. s;
  equal_fold = str_eq;
  contains = str_eq;
  starred = λ s. s;
  byte_length = λ s. 5;
}

-- One more tag of this kind makes a rule.
abbrev learner : Learner
learner = record {
  counts = (record { app_name = "browser"; title_substring = "inbox"; tag_id = 1 }, 4) ∷ [];
  threshold = 5;
  suggestions = [];
  db = rules;
}

abbrev no_faults : Faults
no_faults = record { list_fails = false; create_fails = false; now = 9 }

abbrev after : Learner
unfolding observe_manual_tag
after = observe_manual_tag words no_faults "browser" "inbox" 1 "dev" learner

abbrev inbox_rule : Rule
inbox_rule = record {
  id = 3;
  tag_id = 1;
  tag_name = "dev";
  app_pattern = "browser";
  title_pattern = some "inbox";
  priority = pos 0;
  suggested = true;
  hit_count = 0;
}

suggests :
    join_tags after.db.tags after.db.tag_rules
    ≡ rule_of dev any_app ∷ rule_of mail editor_title ∷ inbox_rule ∷ []
unfolding observe_manual_tag after next_rowid
suggests = refl

-- A window of the browser keeps its rule.
abbrev browser : FocusContext
browser = record { app_name = "browser"; window_title = "inbox" }

observe_manual_tag-Kept_example :
    Kept (rule_of dev any_app) (rule_of dev any_app ∷ rule_of mail editor_title ∷ []) (
      evaluate texts browser
        (list_all (observe_manual_tag words no_faults "browser" "inbox" 1 "dev" learner).db))
unfolding list_all evaluate
observe_manual_tag-Kept_example =
    observe_manual_tag-Kept texts browser words no_faults "browser" "inbox" 1 "dev" learner
      (rule_of dev any_app) refl refl
