-- ===== src/Tagger/Best.antt =====
-- Which rule an event gets its tag from.
use mathlib.Core.List.{Memᴰ}
use trasker.Prelude.{
  ◌≡◌, ◌≤◌, ◌+◌, is_some, refl, sym, ap, subst, inl, inr, Bool, true, false, ◌&&◌, Option, none,
  some, List, [], ◌∷◌, if◌then◌else◌, if_elim, Bool-cases, filter, find, All, All-mem, All-mono,
  All-get, arith,
}
use trasker.Prelude.Int.{pos_part, neg_part}
use trasker.Tagger.{
  RuleDb, Rule, FocusContext, Texts, matches_rule, evaluate_tier, is_title, is_app,
  is_suggested_title, is_suggested_app, or_else, evaluate, join_tags, is_before, insert_rule,
  order_rules, list_all,
}

before_trans : (a b c : Rule) → is_before a b ≡ true → is_before b c ≡ true → is_before a c ≡ true
unfolding is_before
before_trans a b c h k = ground (arith, h, k)

before_total : (a b : Rule) → is_before a b ≡ false → is_before b a ≡ true
unfolding is_before
before_total a b h = ground (arith, h)

before_self : (a : Rule) → is_before a a ≡ true
unfolding is_before
before_self a = ground arith

abbrev IsOrdered : List Rule → Type 0
IsOrdered [] = Unit
IsOrdered (r ∷ rules) = All (λ s. is_before r s ≡ true) rules × IsOrdered rules

insert_rule-All :
    (P : Rule → Type 0) (r : Rule) (rules : List Rule)
    → P r
    → All P rules
    → All P (insert_rule r rules)
unfolding insert_rule
insert_rule-All P r [] p h = (p, tt)
insert_rule-All P r (s ∷ rules) p h =
    if_elim (All P) (is_before r s) _ _ (λ _. (p, h)) (λ _. (h.0, insert_rule-All P r rules p h.1))

insert_rule-IsOrdered :
    (r : Rule) (rules : List Rule) → IsOrdered rules → IsOrdered (insert_rule r rules)
unfolding insert_rule
insert_rule-IsOrdered r [] h = (tt, tt)
insert_rule-IsOrdered r (s ∷ rules) h =
    if_elim IsOrdered (is_before r s) _ _
      (λ e. ((e, All-mono _ _ rules (λ x k. before_trans r s x e k) h.0), h))
      (λ e. (insert_rule-All _ r rules (before_total r s e) h.0, insert_rule-IsOrdered r rules h.1))

order_rules-IsOrdered : (rules : List Rule) → IsOrdered (order_rules rules)
unfolding order_rules
order_rules-IsOrdered [] = tt
order_rules-IsOrdered (r ∷ rules) =
    insert_rule-IsOrdered r (order_rules rules) (order_rules-IsOrdered rules)

order_rules-All : (P : Rule → Type 0) (rules : List Rule) → All P rules → All P (order_rules rules)
unfolding order_rules
order_rules-All P [] h = tt
order_rules-All P (r ∷ rules) h =
    insert_rule-All P r (order_rules rules) h.0 (order_rules-All P rules h.1)

inserted :
    (P : Rule → Type 0) (r : Rule) (rules : List Rule)
    → All P (insert_rule r rules)
    → P r × All P rules
unfolding insert_rule
inserted P r [] h = h
inserted P r (s ∷ rules) h = elim (Bool-cases (is_before r s)) [
  | inl e ↦ subst (All P) (ap (λ b. if b then r ∷ s ∷ rules else s ∷ insert_rule r rules) e) h
  | inr e ↦
      let k = subst (All P) (ap (λ b. if b then r ∷ s ∷ rules else s ∷ insert_rule r rules) e) h in
      let l = inserted P r rules k.1 in (l.0, (k.0, l.1))
]

ordered : (P : Rule → Type 0) (rules : List Rule) → All P (order_rules rules) → All P rules
unfolding order_rules
ordered P [] h = tt
ordered P (r ∷ rules) h = let k = inserted P r (order_rules rules) h in (k.0, ordered P rules k.1)

-- Of the first rule of a class that matches.
module _ (p q : Rule → Bool) where
  first_before :
      (rules : List Rule) (r s : Rule)
      → IsOrdered rules
      → find p (filter q rules) ≡ some r
      → Memᴰ s rules
      → q s ≡ true
      → p s ≡ true
      → is_before r s ≡ true
  first_before [] r s h f m k l = elim m [ ]
  first_before (x ∷ rules) r s h f (Memᴰ.head y) k l =
      let d : x ≡ r = ground (arith, f, ap p y, ap q y, k, l) in
      subst (λ z. is_before z s ≡ true) d
        (subst (λ z. is_before x z ≡ true) (sym y) (before_self x))
  first_before (x ∷ rules) r s h f (Memᴰ.tail n) k l = elim (Bool-cases (q x && p x)) [
    | inl e ↦
        let d : x ≡ r = ground (arith, f, e) in
        subst (λ z. is_before z s ≡ true) d (All-get _ rules s h.0 n)
    | inr e ↦ first_before rules r s h.1 (ground (arith, f, e)) n k l
  ]

  none_matches :
      (rules : List Rule) (s : Rule)
      → find p (filter q rules) ≡ none
      → Memᴰ s rules
      → p s ≡ true
      → q s ≡ false
  none_matches [] s f m k = elim m [ ]
  none_matches (x ∷ rules) s f (Memᴰ.head y) k = ground (arith, f, ap p y, ap q y, k)
  none_matches (x ∷ rules) s f (Memᴰ.tail n) k = none_matches rules s (ground (arith, f)) n k

  first_is :
      (rules : List Rule) (r : Rule)
      → find p (filter q rules) ≡ some r
      → Memᴰ r rules × (p r ≡ true) × (q r ≡ true)
  first_is [] r f = absurd (cc)
  first_is (x ∷ rules) r f = elim (Bool-cases (q x)) [
    | inl e ↦ elim (Bool-cases (p x)) [
      | inl d ↦
          let y : x ≡ r = ground (arith, f, e, d) in
          (Memᴰ.head (sym y), ground (arith, ap p y, d), ground (arith, ap q y, e))
      | inr d ↦ rest (first_is rules r (ground (arith, f, e, d)))
    ]
    | inr e ↦ rest (first_is rules r (ground (arith, f, e)))
  ]
    where
      rest :
          Memᴰ r rules × (p r ≡ true) × (q r ≡ true)
          → Memᴰ r (x ∷ rules) × (p r ≡ true) × (q r ≡ true)
      rest (m, k, l) = (Memᴰ.tail m, k, l)

-- A confirmed rule goes before a suggested one; of two that are alike in this one with a title goes
-- before one without; of two that are alike in both the higher priority goes first.
abbrev pub NoWorse : Rule → Rule → Type 0
NoWorse r s =
    (r.suggested ≡ true → s.suggested ≡ true)
    × (r.suggested ≡ s.suggested
        → is_some r.title_pattern ≡ false
        → is_some s.title_pattern ≡ false)
    × (r.suggested ≡ s.suggested
        → is_some r.title_pattern ≡ is_some s.title_pattern
        → pos_part s.priority + neg_part r.priority ≤ pos_part r.priority + neg_part s.priority)

before-NoWorse : (r s : Rule) → is_before r s ≡ true → NoWorse r s
unfolding is_before
before-NoWorse r s h = (
  (λ e. ground (arith, h, e)),
  (λ e f. ground (arith, h, e, f)),
  (λ e f. ground (arith, h, e, f)),
)

-- What the rule of an event is among all rules: none only if no rule matches, and otherwise a rule
-- that matches and stands before every other that does.
abbrev pub IsBest : Texts → FocusContext → List Rule → Option Rule → Type 0
IsBest t ctx rules none = (s : Rule) → Memᴰ s rules → matches_rule t ctx s ≡ false
IsBest t ctx rules (some r) =
    Memᴰ r rules
    × (matches_rule t ctx r ≡ true)
    × ((s : Rule) → Memᴰ s rules → matches_rule t ctx s ≡ true → is_before r s ≡ true × NoWorse r s)

module _ (t : Texts) (ctx : FocusContext) (rules : List Rule) (o : IsOrdered rules) where
  abbrev p : Rule → Bool
  p = matches_rule t ctx

  -- The first match of a class is the best one if no match outside of the class stands before it.
  first-IsBest :
      (q : Rule → Bool) (r : Rule)
      → find p (filter q rules) ≡ some r
      → ((s : Rule) → Memᴰ s rules → p s ≡ true → q r ≡ true → q s ≡ false → is_before r s ≡ true)
      → IsBest t ctx rules (some r)
  first-IsBest q r e k =
      let (m, l, c) = first_is p q rules r e in
      (
        m,
        l,
        (λ s n h.
            let b : is_before r s ≡ true = elim (Bool-cases (q s)) [
              | inl y ↦ first_before p q rules r s o e n y h
              | inr y ↦ k s n h c y
            ] in
            (b, before-NoWorse r s b)),
      )

  choice-IsBest :
      (a b c d : Option Rule)
      → find p (filter is_title rules) ≡ a
      → find p (filter is_app rules) ≡ b
      → find p (filter is_suggested_title rules) ≡ c
      → find p (filter is_suggested_app rules) ≡ d
      → IsBest t ctx rules (or_else a (or_else b (or_else c d)))
  unfolding is_before
  choice-IsBest (some r) b c d e1 e2 e3 e4 =
      first-IsBest is_title r e1 (λ s n h y z. ground (arith, y, z))
  choice-IsBest none (some r) c d e1 e2 e3 e4 =
      first-IsBest is_app r e2
        (λ s n h y z. ground (arith, y, z, none_matches p is_title rules s e1 n h))
  choice-IsBest none none (some r) d e1 e2 e3 e4 =
      first-IsBest is_suggested_title r e3 (λ s n h y z.
        ground (
          arith,
          y,
          z,
          none_matches p is_title rules s e1 n h,
          none_matches p is_app rules s e2 n h,
        ))
  choice-IsBest none none none (some r) e1 e2 e3 e4 =
      first-IsBest is_suggested_app r e4 (λ s n h y z. ground (
        arith,
        y,
        z,
        none_matches p is_title rules s e1 n h,
        none_matches p is_app rules s e2 n h,
        none_matches p is_suggested_title rules s e3 n h,
      ))
  choice-IsBest none none none none e1 e2 e3 e4 = λ s n. elim (Bool-cases (p s)) [
    | inr y ↦ y
    | inl h ↦ absurd (
        ground (
          arith,
          none_matches p is_title rules s e1 n h,
          none_matches p is_app rules s e2 n h,
          none_matches p is_suggested_title rules s e3 n h,
          none_matches p is_suggested_app rules s e4 n h,
        ))
  ]

  evaluated : IsBest t ctx rules (evaluate t ctx rules)
  unfolding evaluate evaluate_tier
  evaluated = choice-IsBest _ _ _ _ refl refl refl refl

-- The same of the rules before they are ordered.
unordered :
    (t : Texts) (ctx : FocusContext) (rules : List Rule) (o : Option Rule)
    → IsBest t ctx (order_rules rules) o
    → IsBest t ctx rules o
unordered t ctx rules none h =
    λ s m. h s (All-get _ rules s (ordered _ rules (All-mem (order_rules rules))) m)
unordered t ctx rules (some r) (m, k, l) = (
  All-get _ (order_rules rules) r (order_rules-All _ rules (All-mem rules)) m,
  k,
  λ s n h. l s (All-get _ rules s (ordered _ rules (All-mem (order_rules rules))) n) h,
)

-- `Evaluate` on what `ListAll` returns chooses the best of the rules whose tag exists: a rule that
-- matches, such that every other that does is of a later tier, or of the same one with no higher
-- priority; the tiers are the confirmed rules with a title, those without, and the suggested ones
-- with and without. It returns none only if no rule matches.
pub evaluate-IsBest :
    (t : Texts) (ctx : FocusContext) (db : RuleDb)
    → IsBest t ctx (join_tags db.tags db.tag_rules) (evaluate t ctx (list_all db))
unfolding list_all
evaluate-IsBest t ctx db =
    unordered t ctx (join_tags db.tags db.tag_rules) (evaluate t ctx (list_all db)) (
      evaluated t ctx (order_rules (join_tags db.tags db.tag_rules))
        (order_rules-IsOrdered (join_tags db.tags db.tag_rules)))
