-- ===== src/AutoSubmit/Eligible.antt =====
-- The events that a pass submits, before it and after it.
use mathlib.Core.List.{Memᴰ}
use mathlib.Core.Path.{ap₂}
use trasker.Prelude.{
  ℕ, ◌≤◌, ◌≡◌, refl, ◌∙◌, sym, ap, Bool, true, false, not, ◌&&◌, ◌||◌, List, [], ◌∷◌, ◌++◌, map,
  Option, is_some, any, any-append, any-mem, count, count-any, count-filter-le, filter, filter-mem,
  All, All-mono, All-mem, All-filter, leb, ◌==◌, ==_self, arith,
}
use trasker.Prelude.Sort.{sort_by, sort_by-All, sort_by-mem, count-sort_by}
use trasker.Store.Tables.{FocusEvent, Submission, SubmissionEvent, AutoSubmitConfig, Db, has_row}
use trasker.Store.EventTags.{is_event_submitted}
use trasker.Sync.Submit.Links.{CanLink, links}
use trasker.AutoSubmit.{has_ticked_tag, is_eligible, eligible_events}

-- What the primary key of `focus_events` keeps: no id twice.
abbrev pub UniqueIds : List FocusEvent → Type 0
UniqueIds es = (i : ℕ) → count (λ e. e.id == i) es ≤ 1

any-ids :
    (i : ℕ) (xs : List FocusEvent)
    → any (λ j. j == i) (map (λ e. e.id) xs) ≡ any (λ e. e.id == i) xs
any-ids i [] = refl
any-ids i (x ∷ xs) = ground (arith, any-ids i xs)

has_row-mem :
    (es : List FocusEvent) (e : FocusEvent) → Memᴰ e es → has_row (λ x. x.id) e.id es ≡ true
unfolding has_row
has_row-mem es e m = any-mem (λ x. x.id == e.id) es e m (==_self e.id)

ids-CanLink :
    (es xs : List FocusEvent)
    → All (λ x. has_row (λ e. e.id) x.id es ≡ true) xs
    → UniqueIds xs
    → CanLink es (map (λ e. e.id) xs)
ids-CanLink es [] h u = tt
ids-CanLink es (x ∷ xs) h u = (
  h.0,
  any-ids x.id xs
      ∙ sym (count-any (λ (e : FocusEvent). e.id == x.id) xs)
      ∙ (let k = u x.id in ground arith),
  ids-CanLink es xs h.1 (λ i. let k = u i in ground arith),
)

pub eligible-CanLink :
    (cutoff : ℕ) (db : Db)
    → UniqueIds db.focus_events
    → CanLink db.focus_events (eligible_events cutoff db)
unfolding eligible_events
eligible-CanLink cutoff db u =
    ids-CanLink db.focus_events _
      (sort_by-All _ _ _ (
        All-mono _ _ _ (λ x k. has_row-mem db.focus_events x k.1)
          (All-filter _ _ db.focus_events (All-mem db.focus_events))))
      (λ i.
        let a =
          count-sort_by (λ (e : FocusEvent). e.id) (λ e. e.id == i)
            (filter (is_eligible db cutoff) db.focus_events) in
        let b =
          count-filter-le (λ (e : FocusEvent). e.id == i) (is_eligible db cutoff) db.focus_events in
        let k = u i in omega (arith, a, b, k))

filter-none {ℓ} :
    {A : Type ℓ} (p : A → Bool) (xs : List A) → All (λ x. p x ≡ false) xs → filter p xs ≡ []
filter-none p [] h = refl
filter-none p (x ∷ xs) h = ground (arith, filter-none p xs h.1)

any-links :
    (id i : ℕ) (is : List ℕ) → any (λ r. r.event_id == i) (links id is) ≡ any (λ j. j == i) is
any-links id i [] = refl
any-links id i (j ∷ is) = ground (arith, any-links id i is)

is_event_submitted-any :
    (i : ℕ) (db : Db) → is_event_submitted i db ≡ any (λ r. r.event_id == i) db.submission_events
unfolding is_event_submitted
is_event_submitted-any i db = count-any (λ r. r.event_id == i) db.submission_events

eligible-mem :
    (cutoff : ℕ) (db : Db) (fe : FocusEvent)
    → Memᴰ fe db.focus_events
    → is_eligible db cutoff fe ≡ true
    → any (λ j. j == fe.id) (eligible_events cutoff db) ≡ true
unfolding eligible_events
eligible-mem cutoff db fe m h =
    any-ids fe.id _
    ∙ any-mem (λ e. e.id == fe.id) _ fe (sort_by-mem _ fe _ (filter-mem _ _ fe m h)) (==_self fe.id)

-- The store with other submissions, links and settings.
abbrev pub changed : Db → List Submission → List SubmissionEvent → Option AutoSubmitConfig → Db
changed db subs ls config = record db {
  submissions = subs;
  submission_events = ls;
  auto_submit_config = config;
}

tests-false :
    (h n e l s x s' : Bool)
    → s' ≡ (s || x)
    → (h && n && e && l && not s ≡ true → x ≡ true)
    → (h && n && e && l && not s') ≡ false
tests-false h n e l s x s' p q = ground arith

-- An event that was eligible is among those that the pass links, so it is not eligible any more.
not_eligible :
    (cutoff : ℕ) (db : Db) (subs : List Submission) (config : Option AutoSubmitConfig) (id : ℕ)
    (fe : FocusEvent)
    → Memᴰ fe db.focus_events
    → is_eligible
        (changed db subs (db.submission_events ++ links id (eligible_events cutoff db)) config)
        cutoff
        fe
      ≡ false
unfolding is_eligible has_ticked_tag
not_eligible cutoff db subs config id fe m =
    let ids = eligible_events cutoff db in
    let linked = db.submission_events ++ links id ids in
    let s : is_event_submitted fe.id (changed db subs linked config)
        ≡ (is_event_submitted fe.id db || any (λ j. j == fe.id) ids) =
      is_event_submitted-any fe.id (changed db subs linked config)
      ∙ any-append (λ r. r.event_id == fe.id) db.submission_events (links id ids)
      ∙ ap₂ ◌||◌ (sym (is_event_submitted-any fe.id db)) (any-links id fe.id ids) in
    tests-false (has_ticked_tag db fe.id) (not fe.is_idle) (is_some fe.ended_at)
      (leb cutoff fe.started_at) (is_event_submitted fe.id db) _ _ s (eligible-mem cutoff db fe m)

pub nothing_left :
    (cutoff : ℕ) (db : Db) (subs : List Submission) (config : Option AutoSubmitConfig) (id : ℕ)
    → eligible_events cutoff
        (changed db subs (db.submission_events ++ links id (eligible_events cutoff db)) config)
      ≡ []
unfolding eligible_events sort_by
nothing_left cutoff db subs config id =
    ap (λ l. map (λ e. e.id) (sort_by (λ (e : FocusEvent). e.id) l))
      (filter-none _ db.focus_events (
        All-mono _ _ db.focus_events (λ fe m. not_eligible cutoff db subs config id fe m)
          (All-mem db.focus_events)))
