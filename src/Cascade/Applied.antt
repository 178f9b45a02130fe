-- ===== src/Cascade/Applied.antt =====
-- `Cascader.Apply` as a whole.
use mathlib.Core.List.{Memᴰ}
use trasker.Prelude.{
  ℕ, ◌+◌, ◌-◌, ◌*◌, ◌≤◌, ◌≡◌, refl, ◌∙◌, subst, sym, true, inl, inr, none, some, List, [], ◌∷◌,
  ◌++◌, ◌==◌, find, sum, All, All-mono, All-get, filter-mem, le→leb, Bool-cases, Result, ok, arith,
}
use trasker.Prelude.Sort.{sort_by-mem}
use trasker.Store.Tables.{FocusEvent, EventTag, Db, manual, has_row}
use trasker.Store.FocusEvents.{get_focus_event, list_focus_events}
use trasker.Store.EventTags.{apply_tag_to_event, is_tagged}
use trasker.Cascade.{
  Walk, Failure, contains, spread, spread_all, apply, frontier_bounds, cascade_steps,
}
use trasker.Cascade.Walks.{
  IsNodup, Reached, Added, Inv, Settled, has_row-mem, apply_tag-ok, contains_self,
}
use trasker.Cascade.Rounds.{Went}
use trasker.Cascade.Reach.{round-Went, spread-cons, spread_all-Went}

find-id :
    (i : ℕ) (es : List FocusEvent) (ev : FocusEvent)
    → find (λ e. e.id == i) es ≡ some ev
    → Memᴰ ev es × (ev.id ≡ i)
find-id i [] ev h = cc
find-id i (e ∷ es) ev h = elim (Bool-cases (e.id == i)) [
  | inl p ↦ (Memᴰ.head (ground arith), ground arith)
  | inr p ↦ let (m, q) = find-id i es ev (ground arith) in (Memᴰ.tail m, q)
]

get-mem :
    (i : ℕ) (db : Db) (ev : FocusEvent)
    → get_focus_event i db ≡ ok ev
    → Memᴰ ev db.focus_events × (ev.id ≡ i)
unfolding get_focus_event
get-mem i db ev h = find-id i db.focus_events ev (ground arith)

-- What `Apply` has done, with the start of the anchor event.
pub record Applied (db : Db) (tag anchor from : ℕ) (r : Result Failure (Db × List ℕ)) : Type 0 where
  pub after : Db
  pub ids : List ℕ
  pub result : r ≡ ok (after, ids)
  pub added : List EventTag
  pub store : after ≡ record db { event_tags = db.event_tags ++ added }
  pub added_rows : All (Added tag anchor ids) added
  pub nodup : IsNodup ids
  pub tags_there : All (λ i. is_tagged i tag after.event_tags ≡ true) ids
  pub in_reach : All (Reached db anchor from (sum cascade_steps)) ids
  pub near_settled :
      (ev : FocusEvent)
      → Memᴰ ev db.focus_events
      → from ≤ ev.started_at + 60 * 60
      → ev.started_at ≤ from + 60 * 60
      → Settled db ids ev

-- The walk with which the rounds begin.
abbrev first_walk : Db → ℕ → FocusEvent → List EventTag → Walk
first_walk db anchor ev rows = record {
  db = record db { event_tags = db.event_tags ++ rows };
  tagged = anchor ∷ [];
  frontier = ev ∷ [];
}

first_walk-Inv :
    (db : Db) (tag anchor : ℕ) (ev : FocusEvent) (rows : List EventTag)
    → Memᴰ ev db.focus_events
    → is_tagged anchor tag (db.event_tags ++ rows) ≡ true
    → All
        (λ r.
          (r.tag_id ≡ tag) × (r.event_id ≡ anchor) × (r.source ≡ manual) × (r.cascade_from ≡ none))
        rows
    → Inv db tag anchor ev.started_at 0 (first_walk db anchor ev rows)
unfolding contains
first_walk-Inv db tag anchor ev rows m t rs = record {
  added = rows;
  store = refl;
  added_rows =
      All-mono _ _ rows
        (λ r h. (
          h.0,
          subst (λ i. contains i (anchor ∷ []) ≡ true) (sym h.1) (contains_self anchor []),
          inl (h.2, h.1),
        ))
        rs;
  nodup = (refl, tt);
  tags_there = (t, tt);
  in_reach = (inl refl, tt);
  frontier_in_reach = ((m, omega arith), tt);
}

listed :
    (db : Db) (lo hi from : ℕ) (ev : FocusEvent)
    → Memᴰ ev db.focus_events
    → lo ≤ ev.started_at
    → ev.started_at ≤ hi
    → Memᴰ ev (list_focus_events lo hi db)
unfolding list_focus_events
listed db lo hi from ev m h k =
    sort_by-mem _ ev _ (filter-mem _ db.focus_events ev m (rw (le→leb _ _ h, le→leb _ _ k)))

-- The first round covers the hour on both sides of the anchor's start.
first_round :
    (db : Db) (tag anchor : ℕ) (ev : FocusEvent) (rows : List EventTag)
    → has_row (λ t. t.id) tag db.tags ≡ true
    → Inv db tag anchor ev.started_at 0 (first_walk db anchor ev rows)
    → (g : Went db tag anchor ev.started_at
        (60 * 60)
        (first_walk db anchor ev rows)
        (spread tag anchor (60 * 60) (first_walk db anchor ev rows)))
      × ((x : FocusEvent)
          → Memᴰ x db.focus_events
          → ev.started_at ≤ x.started_at + 60 * 60
          → x.started_at ≤ ev.started_at + 60 * 60
          → Settled db g.next.tagged x)
unfolding frontier_bounds
first_round db tag anchor ev rows there v =
    let w = first_walk db anchor ev rows in
    let hi = (frontier_bounds (ev ∷ [])).1 + 60 * 60 in
    let (g, s) =
      round-Went db tag anchor ev.started_at there 0 (60 * 60) hi ev.started_at w v (omega arith) in
    (
      record {
        next = g.next;
        result = spread-cons db tag anchor ev.started_at there (60 * 60) w ev [] refl ∙ g.result;
        inv = g.inv;
        grows = g.grows;
      },
      λ x m h k.
          All-get _ _ x s
            (listed db (ev.started_at - 60 * 60) hi ev.started_at x m (omega arith) (ground arith)),
    )

settle :
    (db : Db) (w w' : Walk) (x : FocusEvent)
    → ((i : ℕ) → contains i w.tagged ≡ true → contains i w'.tagged ≡ true)
    → Settled db w.tagged x
    → Settled db w'.tagged x
settle db w w' x g (inl p) = inl (g x.id p)
settle db w w' x g (inr q) = inr q

steps_result :
    (anchor tag : ℕ) (db : Db) (ev : FocusEvent) (rows : List EventTag) (w w' : Walk)
    → spread tag anchor (60 * 60) (first_walk db anchor ev rows) ≡ ok w
    → spread_all tag anchor ((30 * 60) ∷ (15 * 60) ∷ 450 ∷ []) w ≡ ok w'
    → spread_all tag anchor cascade_steps (first_walk db anchor ev rows) ≡ ok w'
unfolding spread_all
steps_result anchor tag db ev rows w w' c d = rw (c, spread_all) d

apply_result :
    (anchor tag : ℕ) (db : Db) (ev : FocusEvent) (rows : List EventTag) (w w' : Walk)
    → get_focus_event anchor db ≡ ok ev
    → apply_tag_to_event anchor tag manual none db
      ≡ ok (record db { event_tags = db.event_tags ++ rows })
    → spread tag anchor (60 * 60) (first_walk db anchor ev rows) ≡ ok w
    → spread_all tag anchor ((30 * 60) ∷ (15 * 60) ∷ 450 ∷ []) w ≡ ok w'
    → apply anchor tag db ≡ ok (w'.db, w'.tagged)
unfolding apply
apply_result anchor tag db ev rows w w' a b c d =
    rw (a, apply) (rw (b, apply) (rw (steps_result anchor tag db ev rows w w' c d, apply)))

-- If the anchor event and the tag exist, `Apply` succeeds, and then: the store has changed by added
-- `event_tags` rows alone, each of the tag and for an id of the result, by hand for the anchor or
-- as a cascade from it; the result holds no id twice and each of its events carries the tag; an id
-- of it other than the anchor's is that of an event which no submission holds and which starts at
-- most 60 + 30 + 15 + 7.5 minutes before the anchor; and every event that starts within an hour of
-- the anchor's start, on either side, is in the result or held by a submission.
pub apply-Applied :
    (anchor tag : ℕ) (db : Db) (ev : FocusEvent)
    → get_focus_event anchor db ≡ ok ev
    → has_row (λ t. t.id) tag db.tags ≡ true
    → Applied db tag anchor ev.started_at (apply anchor tag db)
apply-Applied anchor tag db ev found there =
    let (m, e) = get-mem anchor db ev found in
    let here =
      subst (λ i. has_row (λ x. x.id) i db.focus_events ≡ true) e
        (has_row-mem db.focus_events ev m) in
    let (rows, a, t, rs) = apply_tag-ok anchor tag manual none db here there in
    let (g, near) =
      first_round db tag anchor ev rows there (first_walk-Inv db tag anchor ev rows m t rs) in
    let k =
      spread_all-Went db tag anchor ev.started_at there ((30 * 60) ∷ (15 * 60) ∷ 450 ∷ []) (60 * 60)
        g.next g.inv in
    record {
      after = k.next.db;
      ids = k.next.tagged;
      result = apply_result anchor tag db ev rows g.next k.next found a g.result k.result;
      added = k.inv.added;
      store = k.inv.store;
      added_rows = k.inv.added_rows;
      nodup = k.inv.nodup;
      tags_there = k.inv.tags_there;
      in_reach = k.inv.in_reach;
      near_settled = λ x mx h l. settle db g.next k.next x k.grows (near x mx h l);
    }
