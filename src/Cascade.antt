-- ===== src/Cascade.antt =====
-- internal/client/session/cascade.go: a tag spreads from an anchor event to the events near it.
-- The map `tagged` is the list of its keys, newest first; the slice that Apply returns has them in
-- an order that Go leaves open. A failure comes with the store as the writes before it left it.
pub mod Walks
pub mod Rounds
pub mod Reach
pub mod Applied
pub mod Examples
use trasker.Prelude.{
  ℕ, ◌+◌, ◌-◌, ◌*◌, Bool, true, false, ◌||◌, Option, none, some, List, [], ◌∷◌, ◌++◌, ltb, ◌==◌,
  if◌then◌else◌, any, Result, ok, err,
}
use trasker.Store.Tables.{FocusEvent, Db, DbError, Source, manual, cascade}
use trasker.Store.FocusEvents.{get_focus_event, list_focus_events}
use trasker.Store.EventTags.{apply_tag_to_event, is_event_submitted}

-- The radii in seconds: 60, 30, 15 and 7.5 minutes.
abbrev pub cascade_steps : List ℕ
cascade_steps = (60 * 60) ∷ (30 * 60) ∷ (15 * 60) ∷ 450 ∷ []

-- The start of an event, or its end once it has one.
abbrev pub end_of : FocusEvent → ℕ
end_of ev = elim ev.ended_at [ none ↦ ev.started_at | some t ↦ t ]

abbrev before : ℕ → ℕ → ℕ
before a b = if ltb a b then a else b

abbrev after : ℕ → ℕ → ℕ
after a b = if ltb b a then a else b

-- The loop over `events[1:]`.
unfoldable pub widen : List FocusEvent → ℕ → ℕ → ℕ × ℕ
widen [] min_t max_t = (min_t, max_t)
widen (ev ∷ evs) min_t max_t = widen evs (before ev.started_at min_t) (after (end_of ev) max_t)

-- The end of the first event is looked at last. The times of no event are the zero time.
unfoldable pub frontier_bounds : List FocusEvent → ℕ × ℕ
unfolding widen
frontier_bounds [] = (0, 0)
frontier_bounds (ev ∷ evs) =
    let (min_t, max_t) = widen evs ev.started_at ev.started_at in
    (min_t, elim ev.ended_at [ none ↦ max_t | some t ↦ after t max_t ])

unfoldable pub contains : ℕ → List ℕ → Bool
contains i = any (λ j. j == i)

pub record Walk : Type 0 where
  pub db : Db
  pub tagged : List ℕ
  pub frontier : List FocusEvent

pub record Failure : Type 0 where
  pub db : Db
  pub error : DbError

-- One candidate of the inner loop; `frontier` collects `newFrontier`.
unfoldable pub visit : ℕ → ℕ → FocusEvent → Walk → Result Failure Walk
visit tag anchor ev w =
    if contains ev.id w.tagged || is_event_submitted ev.id w.db
    then ok w
    else elim (apply_tag_to_event ev.id tag cascade (some anchor) w.db) [
      | err e ↦ err (record { db = w.db; error = e })
      | ok db ↦ ok (record { db = db; tagged = ev.id ∷ w.tagged; frontier = w.frontier ++ ev ∷ [] })
    ]

unfoldable pub visit_all : ℕ → ℕ → List FocusEvent → Walk → Result Failure Walk
visit_all tag anchor [] w = ok w
visit_all tag anchor (ev ∷ evs) w = elim (visit tag anchor ev w) [
  | err f ↦ err f
  | ok w' ↦ visit_all tag anchor evs w'
]

-- One round of the outer loop; with an empty frontier the loop breaks.
unfoldable pub spread : ℕ → ℕ → ℕ → Walk → Result Failure Walk
spread tag anchor radius w = elim w.frontier [
  | [] ↦ ok w
  | ev ∷ evs ↦
      let (min_t, max_t) = frontier_bounds (ev ∷ evs) in
      visit_all tag anchor (list_focus_events (min_t - radius) (max_t + radius) w.db)
        (record w { frontier = [] })
]

unfoldable pub spread_all : ℕ → ℕ → List ℕ → Walk → Result Failure Walk
spread_all tag anchor [] w = ok w
spread_all tag anchor (r ∷ rs) w = elim (spread tag anchor r w) [
  | err f ↦ err f
  | ok w' ↦ spread_all tag anchor rs w'
]

-- `Apply`: the store after it, and the tagged ids.
unfoldable pub apply : ℕ → ℕ → Db → Result Failure (Db × List ℕ)
apply anchor tag db = elim (get_focus_event anchor db) [
  | err e ↦ err (record { db = db; error = e })
  | ok ev ↦ elim (apply_tag_to_event anchor tag manual none db) [
    | err e ↦ err (record { db = db; error = e })
    | ok db' ↦
        elim (spread_all tag anchor cascade_steps
          (record { db = db'; tagged = anchor ∷ []; frontier = ev ∷ [] })) [
            | err f ↦ err f
            | ok w ↦ ok (w.db, w.tagged)
          ]
  ]
]
