-- ===== src/Cascade/Rounds.antt =====
-- One visit, one round and all rounds of the cascade keep the invariant, and cannot fail.
use mathlib.Core.List.{append_assoc}
use trasker.Prelude.{
  ℕ, ◌≡◌, refl, ap, ◌∙◌, subst, sym, true, false, ◌||◌, inl, inr, some, List, [], ◌∷◌, ◌++◌,
  any-append_left, All, All-append, All-mono, Result, ok, Bool-cases, arith,
}
use trasker.Store.Tables.{FocusEvent, EventTag, Tag, Db, cascade, has_row}
use trasker.Store.EventTags.{apply_tag_to_event, is_event_submitted, is_tagged}
use trasker.Cascade.{Walk, Failure, contains, visit}
use trasker.Cascade.Walks.{
  Within, Inv, Settled, Grows, has_row-mem, apply_tag-ok, contains-cons, contains_self,
}

module _ (db : Db) (tag anchor from reach : ℕ) where
  -- The result of a visit or a round that went well.
  pub record Went (w : Walk) (r : Result Failure Walk) : Type 0 where
    pub next : Walk
    pub result : r ≡ ok next
    pub inv : Inv db tag anchor from reach next
    pub grows : Grows w next

module _ (db : Db) (tag anchor from reach : ℕ)
    (there : has_row (λ t. t.id) tag db.tags ≡ true) where
  submitted-store :
      (w : Walk) (i : ℕ)
      → Inv db tag anchor from reach w
      → is_event_submitted i w.db ≡ is_event_submitted i db
  unfolding is_event_submitted
  submitted-store w i v = ap (is_event_submitted i) v.store

  -- The walk after a visit that tags.
  abbrev tagged_walk : FocusEvent → Walk → List EventTag → Walk
  tagged_walk ev w rows = record {
    db = record (w.db) { event_tags = w.db.event_tags ++ rows };
    tagged = ev.id ∷ w.tagged;
    frontier = w.frontier ++ ev ∷ [];
  }

  tagged_walk-store :
      (ev : FocusEvent) (w : Walk) (rows : List EventTag) (v : Inv db tag anchor from reach w)
      → (tagged_walk ev w rows).db ≡ record db { event_tags = db.event_tags ++ (v.added ++ rows) }
  tagged_walk-store ev w rows v =
      ap (λ (d : Db). record d { event_tags = d.event_tags ++ rows }) v.store
      ∙ ap (λ (l : List EventTag). record db { event_tags = l })
          (append_assoc db.event_tags v.added rows)

  tagged_walk-Inv :
      (ev : FocusEvent) (w : Walk) (rows : List EventTag)
      → Inv db tag anchor from reach w
      → Within db from reach ev
      → contains ev.id w.tagged ≡ false
      → is_event_submitted ev.id db ≡ false
      → is_tagged ev.id tag (w.db.event_tags ++ rows) ≡ true
      → All
          (λ r.
            (r.tag_id ≡ tag)
            × (r.event_id ≡ ev.id)
            × (r.source ≡ cascade)
            × (r.cascade_from ≡ some anchor))
          rows
      → Inv db tag anchor from reach (tagged_walk ev w rows)
  unfolding is_tagged
  tagged_walk-Inv ev w rows v near fresh unsub t rs = record {
    added = v.added ++ rows;
    store = tagged_walk-store ev w rows v;
    added_rows =
        All-append _ v.added rows
          (All-mono _ _ v.added (λ r h. (h.0, contains-cons r.event_id ev.id w.tagged h.1, h.2))
            v.added_rows)
          (All-mono _ _ rows
            (λ r h. (
              h.0,
              subst (λ i. contains i (ev.id ∷ w.tagged) ≡ true) (sym h.1)
                  (contains_self ev.id w.tagged),
              inr (h.2, h.3),
            ))
            rs);
    nodup = (fresh, v.nodup);
    tags_there =
        (t, All-mono _ _ w.tagged (λ i h. any-append_left _ w.db.event_tags rows h) v.tags_there);
    in_reach = (inr (unsub, (ev, refl, near)), v.in_reach);
    frontier_in_reach = All-append _ w.frontier _ v.frontier_in_reach (near, tt);
  }

  visit_tags :
      (ev : FocusEvent) (w : Walk) (d : Db)
      → contains ev.id w.tagged ≡ false
      → is_event_submitted ev.id w.db ≡ false
      → apply_tag_to_event ev.id tag cascade (some anchor) w.db ≡ ok d
      → visit tag anchor ev w
        ≡ ok (record { db = d; tagged = ev.id ∷ w.tagged; frontier = w.frontier ++ ev ∷ [] })
  unfolding visit
  visit_tags ev w d p q e = rw (p, q, e)

  visit_skips :
      (ev : FocusEvent) (w : Walk)
      → (contains ev.id w.tagged || is_event_submitted ev.id w.db) ≡ true
      → visit tag anchor ev w ≡ ok w
  unfolding visit
  visit_skips ev w p = rw p

  -- A visit of an event within reach: it goes well, and settles the event.
  pub visit-Went :
      (ev : FocusEvent) (w : Walk)
      → Inv db tag anchor from reach w
      → Within db from reach ev
      → (g : Went db tag anchor from reach w (visit tag anchor ev w)) × Settled db g.next.tagged ev
  visit-Went ev w v near = elim (Bool-cases (contains ev.id w.tagged)) [
    | inl p ↦
        (record { next = w; result = visit_skips ev w (rw p); inv = v; grows = λ i h. h }, inl p)
    | inr p ↦ elim (Bool-cases (is_event_submitted ev.id w.db)) [
      | inl q ↦ (
        record { next = w; result = visit_skips ev w (ground arith); inv = v; grows = λ i h. h },
        inr (sym (submitted-store w ev.id v) ∙ q),
      )
      | inr q ↦
          let rows_there =
            apply_tag-ok ev.id tag cascade (some anchor) w.db
              (subst (λ (l : List FocusEvent). has_row (λ e. e.id) ev.id l ≡ true)
                (sym (ap (λ (d : Db). d.focus_events) v.store))
                (has_row-mem db.focus_events ev near.0))
              (subst (λ (l : List Tag). has_row (λ t. t.id) tag l ≡ true)
                (sym (ap (λ (d : Db). d.tags) v.store)) there) in
          let (rows, e, t, rs) = rows_there in
          (
            record {
              next = tagged_walk ev w rows;
              result = visit_tags ev w _ p q e;
              inv = tagged_walk-Inv ev w rows v near p (sym (submitted-store w ev.id v) ∙ q) t rs;
              grows = λ i h. contains-cons i ev.id w.tagged h;
            },
            inl (contains_self ev.id w.tagged),
          )
    ]
  ]

  pub Settled-mono :
      (w w' : Walk) (evs : List FocusEvent)
      → Grows w w'
      → All (Settled db w.tagged) evs
      → All (Settled db w'.tagged) evs
  Settled-mono w w' evs g =
      All-mono _ _ evs (λ ev h. elim h [ inl p ↦ inl (g ev.id p) | inr q ↦ inr q ])
