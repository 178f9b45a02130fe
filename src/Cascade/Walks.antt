-- ===== src/Cascade/Walks.antt =====
-- What one visit of the cascade does, and what holds of a walk under way.
use mathlib.Core.List.{Memᴰ, append-nil}
use trasker.Prelude.{
  ℕ, ◌+◌, ◌≤◌, ◌≡◌, refl, true, false, ◌⊎◌, inl, inr, ap, any-append_last, Option, some, List, [],
  ◌∷◌, ◌++◌, All, ok, Bool-cases, arith,
}
use trasker.Store.Tables.{FocusEvent, EventTag, Db, Source, manual, cascade, has_row}
use trasker.Store.EventTags.{apply_tag_to_event, is_event_submitted, is_tagged}
use trasker.Cascade.{Walk, contains}

-- No id stands twice.
abbrev pub IsNodup : List ℕ → Type 0
IsNodup [] = Unit
IsNodup (i ∷ is) = (contains i is ≡ false) × IsNodup is

-- An event of the store that starts at most `reach` seconds before `from`.
abbrev pub Within : Db → ℕ → ℕ → FocusEvent → Type 0
Within db from reach ev = Memᴰ ev db.focus_events × (from ≤ ev.started_at + reach)

-- An id that the cascade may tag: the anchor's, or that of an event within reach which no
-- submission holds.
abbrev pub Reached : Db → ℕ → ℕ → ℕ → ℕ → Type 0
Reached db anchor from reach i =
    (i ≡ anchor)
    ⊎ ((is_event_submitted i db ≡ false)
        × ((ev : FocusEvent) × (ev.id ≡ i) × Within db from reach ev))

-- A row that the cascade has added: of the tag, for a tagged event, by hand for the anchor and
-- else as a cascade from it.
abbrev pub Added : ℕ → ℕ → List ℕ → EventTag → Type 0
Added tag anchor tagged r =
    (r.tag_id ≡ tag)
    × (contains r.event_id tagged ≡ true)
    × (((r.source ≡ manual) × (r.event_id ≡ anchor))
        ⊎ ((r.source ≡ cascade) × (r.cascade_from ≡ some anchor)))

-- The store has changed by added rows alone.
pub record Inv (db : Db) (tag anchor from reach : ℕ) (w : Walk) : Type 0 where
  pub added : List EventTag
  pub store : w.db ≡ record db { event_tags = db.event_tags ++ added }
  pub added_rows : All (Added tag anchor w.tagged) added
  pub nodup : IsNodup w.tagged
  pub tags_there : All (λ i. is_tagged i tag w.db.event_tags ≡ true) w.tagged
  pub in_reach : All (Reached db anchor from reach) w.tagged
  pub frontier_in_reach : All (Within db from reach) w.frontier

pub has_row-mem :
    (es : List FocusEvent) (ev : FocusEvent) → Memᴰ ev es → has_row (λ e. e.id) ev.id es ≡ true
unfolding has_row
has_row-mem [] ev m = elim m [ ]
has_row-mem (e ∷ es) ev (Memᴰ.head p) = ground (arith, ap (λ (x : FocusEvent). x.id) p)
has_row-mem (e ∷ es) ev (Memᴰ.tail m) = ground (arith, has_row-mem es ev m)

-- Where the keys hold, applying a tag adds one row at most, and the pair is then there.
pub apply_tag-ok :
    (i tag : ℕ) (s : Source) (from : Option ℕ) (db : Db)
    → has_row (λ e. e.id) i db.focus_events ≡ true
    → has_row (λ t. t.id) tag db.tags ≡ true
    → (rows : List EventTag) × (apply_tag_to_event i tag s from db
        ≡ ok (record db { event_tags = db.event_tags ++ rows }))
      × (is_tagged i tag (db.event_tags ++ rows) ≡ true)
      × All
          (λ r. (r.tag_id ≡ tag) × (r.event_id ≡ i) × (r.source ≡ s) × (r.cascade_from ≡ from))
          rows
unfolding apply_tag_to_event
apply_tag-ok i tag s from db he ht = elim (Bool-cases (is_tagged i tag db.event_tags)) [
  | inl p ↦ ([], rw append-nil (rw p), rw append-nil p, tt)
  | inr p ↦ (
    record { event_id = i; tag_id = tag; source = s; cascade_from = from } ∷ [],
    rw (p, he, ht),
    any-append_last _ db.event_tags _ (ground arith),
    ((refl, refl, refl, refl), tt),
  )
]

-- What a visit may leave of its event: it is tagged, or a submission holds it.
abbrev pub Settled : Db → List ℕ → FocusEvent → Type 0
Settled db tagged ev = (contains ev.id tagged ≡ true) ⊎ (is_event_submitted ev.id db ≡ true)

-- Tagged ids stay tagged.
abbrev pub Grows : Walk → Walk → Type 0
Grows w w' = (i : ℕ) → contains i w.tagged ≡ true → contains i w'.tagged ≡ true

pub contains-cons : (i j : ℕ) (is : List ℕ) → contains i is ≡ true → contains i (j ∷ is) ≡ true
unfolding contains
contains-cons i j is h = ground arith

pub contains_self : (i : ℕ) (is : List ℕ) → contains i (i ∷ is) ≡ true
unfolding contains
contains_self i is = ground arith

is_submitted-frame :
    (db : Db) (rows : List EventTag) (i : ℕ)
    → is_event_submitted i (record db { event_tags = rows }) ≡ is_event_submitted i db
unfolding is_event_submitted
is_submitted-frame db rows i = refl
