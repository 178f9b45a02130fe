-- ===== src/Tagger/Learner.antt =====
-- internal/client/tagger/learner.go: the counts of manual tags, and the rules it suggests.
pub mod Suggested
use trasker.Prelude.{
  ℕ, suc, Bool, true, false, not, ◌&&◌, ◌||◌, Option, none, some, List, [], ◌∷◌, ◌++◌, String,
  str_eq, ltb, ◌==◌, if◌then◌else◌, any, length, Result, ok, err,
}
use trasker.Prelude.Int.{pos}
use trasker.Store.Tables.{DbError}
use trasker.Tagger.{RuleDb, Rule, create_rule, list_all}

pub record PatternKey : Type 0 where
  pub app_name : String
  pub title_substring : String
  pub tag_id : ℕ

pub record Suggestion : Type 0 where
  pub tag_id : ℕ
  pub tag_name : String
  pub app_pattern : String
  pub title_pattern : Option String
  pub observed : ℕ

-- The functions of Go's packages on texts: `strings.Fields` of what the replacer makes of a title,
-- `strings.ToLower`, which is also of a trimmed text, `strings.EqualFold`, `strings.Contains`, a text
-- between two asterisks, and the number of bytes.
pub record Words : Type 0 where
  pub fields : String → List String
  pub to_lower : String → String
  pub equal_fold : String → String → Bool
  pub contains : String → String → Bool
  pub starred : String → String
  pub byte_length : String → ℕ

pub record Learner : Type 0 where
  pub counts : List (PatternKey × ℕ)
  pub threshold : ℕ
  -- What stands in the channel.
  pub suggestions : List Suggestion
  pub db : RuleDb

-- The database and the clock during an observation.
pub record Faults : Type 0 where
  pub list_fails : Bool
  pub create_fails : Bool
  pub now : ℕ

abbrev pub same_key : PatternKey → PatternKey → Bool
same_key a b =
    str_eq a.app_name b.app_name
    && str_eq a.title_substring b.title_substring
    && (a.tag_id == b.tag_id)

abbrev pub count_of : PatternKey → List (PatternKey × ℕ) → ℕ
count_of k [] = 0
count_of k ((j, n) ∷ counts) = if same_key j k then n else count_of k counts

-- `counts[key]++`.
unfoldable pub bump : PatternKey → List (PatternKey × ℕ) → List (PatternKey × ℕ)
bump k [] = (k, 1) ∷ []
bump k ((j, n) ∷ counts) =
    let rest = bump k counts in if same_key j k then (j, suc n) ∷ counts else (j, n) ∷ rest

-- Whether a rule is a duplicate of the pattern.
unfoldable pub is_similar : Words → PatternKey → Rule → Bool
is_similar w k r =
    w.equal_fold r.app_pattern k.app_name && (r.tag_id == k.tag_id) && elim r.title_pattern [
      | none ↦ str_eq k.title_substring ""
      | some p ↦ w.contains (w.to_lower p) k.title_substring
    ]

abbrev pub title_of : Words → String → Option String
title_of w s = if str_eq s "" then none else some (w.starred s)

-- The channel holds 16; a suggestion more is dropped.
abbrev pub send : Suggestion → List Suggestion → List Suggestion
send s queue = if ltb (length queue) 16 then queue ++ s ∷ [] else queue

abbrev pub suggestion : Words → PatternKey → String → ℕ → Suggestion
suggestion w k tag_name threshold = record {
  tag_id = k.tag_id;
  tag_name = tag_name;
  app_pattern = k.app_name;
  title_pattern = title_of w k.title_substring;
  observed = threshold;
}

abbrev pub announced : Suggestion → Learner → Result DbError (RuleDb × ℕ) → Learner
announced s l (err _) = l
announced s l (ok (db, id)) = record l { db = db; suggestions = send s l.suggestions }

-- `Create`, which the database may refuse, and the message.
unfoldable pub suggest_rule : Words → Faults → PatternKey → String → Learner → Learner
unfolding create_rule
suggest_rule w f k tag_name l =
    announced (suggestion w k tag_name l.threshold) l
      (create_rule f.now k.tag_id k.app_name (title_of w k.title_substring) (pos 0) true l.db)

-- `proposeSuggestion`.
unfoldable pub propose_suggestion : Words → Faults → PatternKey → String → Learner → Learner
unfolding is_similar suggest_rule list_all
propose_suggestion w f k tag_name l =
    if f.list_fails || any (is_similar w k) (list_all l.db) || f.create_fails
    then l
    else suggest_rule w f k tag_name l

-- After a count has changed.
unfoldable pub check_count : Words → Faults → PatternKey → String → Learner → Learner
unfolding propose_suggestion
check_count w f k tag_name l =
    if count_of k l.counts == l.threshold then propose_suggestion w f k tag_name l else l

unfoldable pub counted : PatternKey → Learner → Learner
unfolding bump
counted k l = record l { counts = bump k l.counts }

-- The loop of `extractSignificantWords`: `seen` are the words that it has.
unfoldable pub significant : Words → List String → List String → List String
significant w seen [] = []
significant w seen (p ∷ parts) =
    let word = w.to_lower p in
    let rest = significant w seen parts in
    let more = significant w (word ∷ seen) parts in
    if ltb 3 (w.byte_length word) && not (any (λ s. str_eq s word) seen) then word ∷ more else rest

unfoldable pub extract_significant_words : Words → String → List String
unfolding significant
extract_significant_words w title = significant w [] (w.fields title)

-- The loop over the words.
unfoldable pub observe_words :
    Words → Faults → String → ℕ → String → List String → Learner → Learner
unfolding check_count counted
observe_words w f app tag_id tag_name [] l = l
observe_words w f app tag_id tag_name (word ∷ words) l =
    let k : PatternKey = record { app_name = app; title_substring = word; tag_id = tag_id } in
    observe_words w f app tag_id tag_name words (check_count w f k tag_name (counted k l))

-- `ObserveManualTag`.
unfoldable pub observe_manual_tag :
    Words → Faults → String → String → ℕ → String → Learner → Learner
unfolding observe_words extract_significant_words check_count counted
observe_manual_tag w f app title tag_id tag_name l =
    let k : PatternKey = record {
      app_name = w.to_lower app;
      title_substring = "";
      tag_id = tag_id;
    } in
    check_count w f k tag_name (
      observe_words w f (w.to_lower app) tag_id tag_name (extract_significant_words w title)
        (counted k l))
