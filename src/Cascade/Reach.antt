-- ===== src/Cascade/Reach.antt =====
-- What the whole cascade does.
use trasker.Prelude.{
  ℕ, ◌+◌, ◌-◌, ◌≤◌, ◌≡◌, refl, ap, ◌∙◌, subst, true, inl, inr, List, [], ◌∷◌, sum, All, All-mono,
  All-mem, All-filter, arith,
}
use trasker.Prelude.Sort.{sort_by-All}
use trasker.Store.Tables.{FocusEvent, Db, has_row}
use trasker.Store.FocusEvents.{list_focus_events}
use trasker.Cascade.{Walk, visit_all, spread, spread_all, frontier_bounds, widen}
use trasker.Cascade.Walks.{Within, Inv, Settled}
use trasker.Cascade.Rounds.{Went, visit-Went, Settled-mono}

module _ (db : Db) (tag anchor from reach : ℕ)
    (there : has_row (λ t. t.id) tag db.tags ≡ true) where
  pub visit_all-Went :
      (evs : List FocusEvent) (w : Walk)
      → Inv db tag anchor from reach w
      → All (Within db from reach) evs
      → (g : Went db tag anchor from reach w (visit_all tag anchor evs w)) × All
          (Settled db g.next.tagged)
          evs
  unfolding visit_all
  visit_all-Went [] w v near = (record { next = w; result = refl; inv = v; grows = λ i h. h }, tt)
  visit_all-Went (ev ∷ evs) w v near =
      let (g, s) = visit-Went db tag anchor from reach there ev w v near.0 in
      let (k, ss) = visit_all-Went evs g.next g.inv near.1 in
      (
        record {
          next = k.next;
          result = rw (g.result, visit_all) k.result;
          inv = k.inv;
          grows = λ i h. k.grows i (g.grows i h);
        },
        (
          (Settled-mono db tag anchor from reach there g.next k.next (ev ∷ []) k.grows (s, tt)).0,
          ss,
        ),
      )

-- The frontier starts no earlier than its events do.
widen-reach :
    (from reach : ℕ) (evs : List FocusEvent) (min_t max_t : ℕ)
    → All (λ ev. from ≤ ev.started_at + reach) evs
    → from ≤ min_t + reach
    → from ≤ (widen evs min_t max_t).0 + reach
unfolding widen
widen-reach from reach [] a b h k = k
widen-reach from reach (ev ∷ evs) a b h k = widen-reach from reach evs _ _ h.1 (ground arith)

list-Within :
    (db : Db) (from reach radius lo hi : ℕ)
    → from ≤ lo + reach
    → All (Within db from (reach + radius)) (list_focus_events (lo - radius) hi db)
unfolding list_focus_events
list-Within db from reach radius lo hi h = sort_by-All _ _ _ (
    All-mono _ _ _ (λ ev k. (k.1, ground arith))
      (All-filter _ _ db.focus_events (All-mem db.focus_events)))

widen_radius :
    (db : Db) (from reach radius : ℕ) (ev : FocusEvent)
    → Within db from reach ev
    → Within db from (reach + radius) ev
widen_radius db from reach radius ev w = (w.0, omega arith)

-- A walk whose reach grows.
widen-Inv :
    (db : Db) (tag anchor from reach radius : ℕ) (w : Walk)
    → Inv db tag anchor from reach w
    → Inv db tag anchor from (reach + radius) w
widen-Inv db tag anchor from reach radius w v = record {
  added = v.added;
  store = v.store;
  added_rows = v.added_rows;
  nodup = v.nodup;
  tags_there = v.tags_there;
  in_reach =
      All-mono _ _ w.tagged
        (λ i h. elim h [
          | inl p ↦ inl p
          | inr (u, (ev, e, k)) ↦ inr (u, (ev, e, widen_radius db from reach radius ev k))
        ])
        v.in_reach;
  frontier_in_reach =
      All-mono _ _ w.frontier (widen_radius db from reach radius) v.frontier_in_reach;
}

-- The walk at the start of a round has no new frontier.
round-Inv :
    (db : Db) (tag anchor from reach : ℕ) (w : Walk)
    → Inv db tag anchor from reach w
    → Inv db tag anchor from reach (record w { frontier = [] })
round-Inv db tag anchor from reach w v = record {
  added = v.added;
  store = v.store;
  added_rows = v.added_rows;
  nodup = v.nodup;
  tags_there = v.tags_there;
  in_reach = v.in_reach;
  frontier_in_reach = tt;
}

module _ (db : Db) (tag anchor from : ℕ) (there : has_row (λ t. t.id) tag db.tags ≡ true) where
  -- A round with a frontier, and what it settles.
  pub round-Went :
      (reach radius hi lo : ℕ) (w : Walk)
      → Inv db tag anchor from reach w
      → from ≤ lo + reach
      → (g : Went db tag anchor from (reach + radius) w (
          visit_all tag anchor
            (list_focus_events (lo - radius) hi w.db)
            (record w { frontier = [] })))
        × All (Settled db g.next.tagged) (list_focus_events (lo - radius) hi db)
  unfolding list_focus_events
  round-Went reach radius hi lo w v h =
      let e : list_focus_events (lo - radius) hi w.db ≡ list_focus_events (lo - radius) hi db =
        ap (list_focus_events (lo - radius) hi) v.store in
      let v' =
        round-Inv db tag anchor from (reach + radius) w
          (widen-Inv db tag anchor from reach radius w v) in
      let (g, s) =
        visit_all-Went db tag anchor from (reach + radius) there
          (list_focus_events (lo - radius) hi db) (record w { frontier = [] }) v'
          (list-Within db from reach radius lo hi h) in
      (
        record {
          next = g.next;
          result = ap (λ l. visit_all tag anchor l (record w { frontier = [] })) e ∙ g.result;
          inv = g.inv;
          grows = g.grows;
        },
        s,
      )

  pub spread-cons :
      (radius : ℕ) (w : Walk) (ev : FocusEvent) (evs : List FocusEvent)
      → w.frontier ≡ ev ∷ evs
      → spread tag anchor radius w
        ≡ visit_all tag anchor
            (list_focus_events
              ((frontier_bounds (ev ∷ evs)).0 - radius)
              ((frontier_bounds (ev ∷ evs)).1 + radius)
              w.db)
            (record w { frontier = [] })
  unfolding spread
  spread-cons radius w ev evs e = simp (e, spread)

  spread-Went :
      (reach radius : ℕ) (w : Walk)
      → Inv db tag anchor from reach w
      → Went db tag anchor from (reach + radius) w (spread tag anchor radius w)
  unfolding spread frontier_bounds
  spread-Went reach radius w v = go w.frontier refl
    where
      go :
          (f : List FocusEvent)
          → w.frontier ≡ f
          → Went db tag anchor from (reach + radius) w (spread tag anchor radius w)
      go [] e = record {
        next = w;
        result = simp (e, spread);
        inv = widen-Inv db tag anchor from reach radius w v;
        grows = λ i h. h;
      }
      go (ev ∷ evs) e =
          let h = subst (All (Within db from reach)) e v.frontier_in_reach in
          let b = frontier_bounds (ev ∷ evs) in
          let g =
            (round-Went reach radius (b.1 + radius) b.0 w v (
              widen-reach from reach evs ev.started_at ev.started_at
                (All-mono _ _ evs (λ x k. k.1) h.1) h.0.1)).0 in
          record {
            next = g.next;
            result = spread-cons radius w ev evs e ∙ g.result;
            inv = g.inv;
            grows = g.grows;
          }

  pub spread_all-Went :
      (rs : List ℕ) (reach : ℕ) (w : Walk)
      → Inv db tag anchor from reach w
      → Went db tag anchor from (reach + sum rs) w (spread_all tag anchor rs w)
  unfolding spread_all
  spread_all-Went [] reach w v = record {
    next = w;
    result = refl;
    inv = subst (λ n. Inv db tag anchor from n w) (omega arith) v;
    grows = λ i h. h;
  }
  spread_all-Went (r ∷ rs) reach w v =
      let g = spread-Went reach r w v in
      let k = spread_all-Went rs (reach + r) g.next g.inv in
      record {
        next = k.next;
        result = rw (g.result, spread_all) k.result;
        inv = subst (λ n. Inv db tag anchor from n k.next) (omega arith) k.inv;
        grows = λ i h. k.grows i (g.grows i h);
      }
