-- ===== src/Tagger/Learner/Suggested.antt =====
-- What suggested rules change of the choice of a rule.
use mathlib.Core.List.{Memᴰ}
use mathlib.Core.List.{append-nil, append_assoc}
use mathlib.Core.List.Memᴰ.{append_left, append_cases}
use trasker.Prelude.{
  not, ℕ, ◌≡◌, refl, sym, ap, ◌∙◌, subst, inl, inr, ◌⊎◌, true, false, ◌||◌, Option, none, some,
  List, [], ◌∷◌, ◌++◌, String, ◌==◌, if_elim, Bool-cases, find, any, All, All-append, All-get,
  Result, ok, err, arith,
}
use trasker.Prelude.Int.{pos, eq_of_parts}
use trasker.Store.Tables.{Tag, DbError}
use trasker.Tagger.{
  RuleRow, RuleDb, Rule, FocusContext, Texts, evaluate, new_rule, create_rule, join_tag, join_tags,
  tier, is_before, list_all,
}
use trasker.Tagger.Best.{IsBest, evaluate-IsBest}
use trasker.Tagger.Learner.{
  PatternKey, Words, Learner, Faults, suggestion, announced, suggest_rule, is_similar,
  propose_suggestion, count_of, check_count, counted, title_of, observe_words,
  extract_significant_words, observe_manual_tag,
}

-- Rules that are only suggested were added.
abbrev Grown : RuleDb → RuleDb → Type 0
Grown db db' =
    (added : List RuleRow) × (db'.tags ≡ db.tags)
    × (db'.tag_rules ≡ db.tag_rules ++ added)
    × All (λ r. r.suggested ≡ true) added

Grown_self : (db : RuleDb) → Grown db db
Grown_self db = ([], refl, sym (append-nil db.tag_rules), tt)

Grown_trans : (a b c : RuleDb) → Grown a b → Grown b c → Grown a c
Grown_trans a b c (xs, t, r, s) (ys, t', r', s') = (
  xs ++ ys,
  t' ∙ t,
  r' ∙ ap (λ l. l ++ ys) r ∙ append_assoc a.tag_rules xs ys,
  All-append _ xs ys s s',
)

created :
    (now tag_id : ℕ) (app : String) (title : Option String) (db db' : RuleDb) (id : ℕ)
    → create_rule now tag_id app title (pos 0) true db ≡ ok (db', id)
    → Grown db db'
unfolding create_rule
created now tag_id app title db db' id h =
    elim (Bool-cases (any (λ t. t.id == tag_id) db.tags || not db.enforces)) [
      | inr e ↦ absurd (ground (arith, h, e))
      | inl e ↦
          let k : record db {
            tag_rules =
                db.tag_rules ++ new_rule now tag_id app title (pos 0) true db.tag_rules ∷ [];
          }
              ≡ db' =
            ground (arith, h, e) in
          (
            new_rule now tag_id app title (pos 0) true db.tag_rules ∷ [],
            ap (λ (d : RuleDb). d.tags) (sym k),
            ap (λ (d : RuleDb). d.tag_rules) (sym k),
            (refl, tt),
          )
    ]

suggested :
    (w : Words) (f : Faults) (k : PatternKey) (tag_name : String) (l : Learner)
    → Grown l.db (suggest_rule w f k tag_name l).db
unfolding suggest_rule
suggested w f k tag_name l =
    go (create_rule f.now k.tag_id k.app_name (title_of w k.title_substring) (pos 0) true l.db) refl
  where
    go :
        (r : Result DbError (RuleDb × ℕ))
        → create_rule f.now k.tag_id k.app_name (title_of w k.title_substring) (pos 0) true l.db ≡ r
        → Grown l.db (announced (suggestion w k tag_name l.threshold) l r).db
    go (err x) e = Grown_self l.db
    go (ok (d, i)) e = created f.now k.tag_id k.app_name (title_of w k.title_substring) l.db d i e

proposed :
    (w : Words) (f : Faults) (k : PatternKey) (tag_name : String) (l : Learner)
    → Grown l.db (check_count w f k tag_name l).db
unfolding check_count propose_suggestion
proposed w f k tag_name l =
    if_elim (λ (m : Learner). Grown l.db m.db) (count_of k l.counts == l.threshold) _ _
      (λ _.
        if_elim (λ (m : Learner). Grown l.db m.db)
          (f.list_fails || any (is_similar w k) (list_all l.db) || f.create_fails) _ _
          (λ _. Grown_self l.db) (λ _. suggested w f k tag_name l))
      (λ _. Grown_self l.db)

observed :
    (w : Words) (f : Faults) (app : String) (tag_id : ℕ) (tag_name : String) (words : List String)
    (l : Learner)
    → Grown l.db (observe_words w f app tag_id tag_name words l).db
unfolding observe_words counted
observed w f app tag_id tag_name [] l = Grown_self l.db
observed w f app tag_id tag_name (word ∷ words) l =
    let k : PatternKey = record { app_name = app; title_substring = word; tag_id = tag_id } in
    Grown_trans l.db (check_count w f k tag_name (counted k l)).db
      (observe_words w f app tag_id tag_name words (check_count w f k tag_name (counted k l))).db
      (proposed w f k tag_name (counted k l))
      (observed w f app tag_id tag_name words (check_count w f k tag_name (counted k l)))

learned :
    (w : Words) (f : Faults) (app title : String) (tag_id : ℕ) (tag_name : String) (l : Learner)
    → Grown l.db (observe_manual_tag w f app title tag_id tag_name l).db
unfolding observe_manual_tag counted
learned w f app title tag_id tag_name l =
    let k : PatternKey = record {
      app_name = w.to_lower app;
      title_substring = "";
      tag_id = tag_id;
    } in
    let words = extract_significant_words w title in
    Grown_trans l.db (observe_words w f (w.to_lower app) tag_id tag_name words (counted k l)).db
      (check_count w f k tag_name
        (observe_words w f (w.to_lower app) tag_id tag_name words (counted k l))).db
      (observed w f (w.to_lower app) tag_id tag_name words (counted k l))
      (proposed w f k tag_name
        (observe_words w f (w.to_lower app) tag_id tag_name words (counted k l)))

join_append :
    (tags : List Tag) (xs ys : List RuleRow)
    → join_tags tags (xs ++ ys) ≡ join_tags tags xs ++ join_tags tags ys
unfolding join_tags
join_append tags [] ys = refl
join_append tags (x ∷ xs) ys =
    ap (join_tag (find (λ t. t.id == x.tag_id) tags) x) (join_append tags xs ys)
    ∙ out (find (λ t. t.id == x.tag_id) tags)
  where
    out :
        (o : Option Tag)
        → join_tag o x (join_tags tags xs ++ join_tags tags ys)
          ≡ join_tag o x (join_tags tags xs) ++ join_tags tags ys
    out none = refl
    out (some t) = refl

join_suggested :
    (tags : List Tag) (rows : List RuleRow)
    → All (λ r. r.suggested ≡ true) rows
    → All (λ r. r.suggested ≡ true) (join_tags tags rows)
unfolding join_tags
join_suggested tags [] h = tt
join_suggested tags (r ∷ rows) h =
    out (find (λ t. t.id == r.tag_id) tags) h.0 (join_suggested tags rows h.1)
  where
    out :
        (o : Option Tag)
        → r.suggested ≡ true
        → All (λ r. r.suggested ≡ true) (join_tags tags rows)
        → All (λ r. r.suggested ≡ true) (join_tag o r (join_tags tags rows))
    out none h k = k
    out (some t) h k = (h, k)

-- A rule that a user confirmed is not ahead of one that is only suggested.
confirmed_first : (r s : Rule) → r.suggested ≡ false → is_before s r ≡ true → s.suggested ≡ false
unfolding is_before
confirmed_first r s h k = ground (arith, h, k)

before_antisym :
    (r s : Rule)
    → is_before r s ≡ true
    → is_before s r ≡ true
    → (tier s ≡ tier r) × (s.priority ≡ r.priority)
unfolding is_before
before_antisym r s h k =
    (ground (arith, h, k), eq_of_parts s.priority r.priority (ground (arith, h, k)))

-- A confirmed rule that is best stays so, up to one of its tier and priority.
abbrev pub Kept : Rule → List Rule → Option Rule → Type 0
Kept r rules none = ⊥
Kept r rules (some s) =
    Memᴰ s rules × (s.suggested ≡ false) × (tier s ≡ tier r) × (s.priority ≡ r.priority)

kept :
    (t : Texts) (ctx : FocusContext) (rules extra : List Rule) (r : Rule) (o : Option Rule)
    → r.suggested ≡ false
    → All (λ s. s.suggested ≡ true) extra
    → IsBest t ctx rules (some r)
    → IsBest t ctx (rules ++ extra) o
    → Kept r rules o
kept t ctx rules extra r none c x (m, k, l) h =
    absurd (ground (arith, k, h r (append_left extra m)))
kept t ctx rules extra r (some s) c x (m, k, l) (m', k', l') = old (append_cases rules m')
  where
    after : is_before s r ≡ true
    after = (l' r (append_left extra m) k).0

    old : (Memᴰ s rules) ⊎ (Memᴰ s extra) → Kept r rules (some s)
    old (inr n) =
        absurd (
          ground
            (arith, confirmed_first r s c after, All-get (λ s. s.suggested ≡ true) extra s x n))
    old (inl n) =
        let e = before_antisym r s (l s n k').0 after in (n, confirmed_first r s c after, e.0, e.1)

-- A manual tag, with the rules that it makes the learner suggest, does not take an event from a rule
-- that the user confirmed: the rule chosen afterwards, when the rules are listed again, is again a confirmed one of before, of the same
-- tier and priority.
pub observe_manual_tag-Kept :
    (t : Texts) (ctx : FocusContext) (w : Words) (f : Faults) (app title : String) (tag_id : ℕ)
    (tag_name : String) (l : Learner) (r : Rule)
    → evaluate t ctx (list_all l.db) ≡ some r
    → r.suggested ≡ false
    → Kept r
        (join_tags l.db.tags l.db.tag_rules)
        (evaluate t ctx (list_all (observe_manual_tag w f app title tag_id tag_name l).db))
observe_manual_tag-Kept t ctx w f app title tag_id tag_name l r e c =
    let (added, same_tags, grown, s) = learned w f app title tag_id tag_name l in
    let db' = (observe_manual_tag w f app title tag_id tag_name l).db in
    let joined : join_tags db'.tags db'.tag_rules
        ≡ join_tags l.db.tags l.db.tag_rules ++ join_tags l.db.tags added =
      ap (λ x. join_tags x db'.tag_rules) same_tags
      ∙ ap (join_tags l.db.tags) grown
      ∙ join_append l.db.tags l.db.tag_rules added in
    kept t ctx (join_tags l.db.tags l.db.tag_rules) (join_tags l.db.tags added) r
      (evaluate t ctx (list_all db')) c (join_suggested l.db.tags added s)
      (subst (IsBest t ctx (join_tags l.db.tags l.db.tag_rules)) e (evaluate-IsBest t ctx l.db))
      (subst (λ x. IsBest t ctx x (evaluate t ctx (list_all db'))) joined
        (evaluate-IsBest t ctx db'))
