-- ===== src/Layout/Capture/Changes.antt =====
-- The rows of a capturer are the changes of what it sees.
use mathlib.Core.List.{append_assoc, append-nil}
use trasker.Prelude.{
  ◌≡◌, refl, sym, ap, ◌∙◌, inl, inr, Bool, true, false, ◌||◌, Option, none, some, List, [], ◌∷◌,
  ◌++◌, map, String, str_eq, if◌then◌else◌, Bool-cases,
}
use trasker.Layout.Snapshots.{Window}
use trasker.Layout.Local.{Row, insert_row}
use trasker.Layout.Capture.{
  Capturer, Tick, Event, lock, tick, is_away, store_windows, on_tick, handle, run,
}

-- The windows that a tick could store.
abbrev pub usable : Bool → Tick → Option (List Window)
usable locked t = if t.ended || locked || t.marshal_fails || t.insert_fails then none else t.windows

-- The hashes of what the ticks see while the screen is not locked and nothing fails.
abbrev pub observed : (List Window → String) → Bool → List Event → List String
observed hash locked [] = []
observed hash locked (lock s ∷ es) = observed hash (is_away s) es
observed hash locked (tick t ∷ es) =
    let rest = observed hash locked es in
    elim (usable locked t) [ none ↦ rest | some ws ↦ hash ws ∷ rest ]

-- Each text that is not the one before.
abbrev pub changes : String → List String → List String
changes last [] = []
changes last (h ∷ hs) =
    let same = changes last hs in
    let other = h ∷ changes h hs in if str_eq h last then same else other

hashes : List Row → List String
hashes rows = map (λ r. r.windows_hash) rows

hashes-append :
    (rows : List Row) (r : Row) → hashes (rows ++ r ∷ []) ≡ hashes rows ++ r.windows_hash ∷ []
unfolding hashes
hashes-append [] r = refl
hashes-append (x ∷ rows) r = ap (λ l. x.windows_hash ∷ l) (hashes-append rows r)

abbrev after : (List Window → String) → List Event → Capturer → List String
unfolding hashes
after hash es c = hashes c.rows ++ changes c.last_hash (observed hash c.locked es)

store-after :
    (hash : List Window → String) (t : Tick) (ws : List Window) (es : List Event) (c : Capturer)
    → after hash es (store_windows hash t ws c) ≡ (
        if t.marshal_fails || t.insert_fails
        then after hash es c
        else hashes c.rows ++ changes c.last_hash (hash ws ∷ observed hash c.locked es))
unfolding store_windows insert_row hashes
store-after hash t ws es c = elim (Bool-cases (str_eq (hash ws) c.last_hash)) [
  | inl e ↦ elim (Bool-cases (t.marshal_fails || t.insert_fails)) [
    | inl f ↦ rw (e, f)
    | inr f ↦ rw (e, f)
  ]
  | inr e ↦ elim (Bool-cases t.marshal_fails) [
    | inl m ↦ rw (e, m)
    | inr m ↦ elim (Bool-cases t.insert_fails) [
      | inl i ↦ rw (e, m, i)
      | inr i ↦
          rw (e, m, i)
            (ap (λ l. l ++ changes (hash ws) (observed hash c.locked es)) (hashes-append c.rows _)
              ∙ append_assoc (hashes c.rows) (hash ws ∷ []) _)
    ]
  ]
]

tick-after :
    (hash : List Window → String) (t : Tick) (es : List Event) (c : Capturer)
    → after hash es (on_tick hash t c) ≡ after hash (tick t ∷ es) c
unfolding on_tick hashes
tick-after hash t es c =
    go t.ended c.locked t.marshal_fails t.insert_fails t.windows (λ ws. store-after hash t ws es c)
  where
    go :
        (ended locked m i : Bool) (windows : Option (List Window))
        → ((ws : List Window)
            → after hash es (store_windows hash t ws c) ≡ (
                if m || i
                then after hash es c
                else hashes c.rows ++ changes c.last_hash (hash ws ∷ observed hash c.locked es)))
        → after hash es (
            if ended
            then c
            else if locked
            then c
            else elim windows [ none ↦ c | some ws ↦ store_windows hash t ws c ])
          ≡ hashes c.rows
            ++ changes c.last_hash
                (elim (if ended || locked || m || i then none else windows) as (λ _. List String) [
                  | none ↦ observed hash c.locked es
                  | some ws ↦ hash ws ∷ observed hash c.locked es
                ])
    go true locked m i windows f = refl
    go false true m i windows f = refl
    go false false true i none f = refl
    go false false true i (some ws) f = f ws
    go false false false true none f = refl
    go false false false true (some ws) f = f ws
    go false false false false none f = refl
    go false false false false (some ws) f = f ws

-- The hashes of a capturer's rows are those that were there before and then, for the windows that
-- the ticks see while the screen is not locked and nothing fails, each hash that is not the one
-- before it.
pub run-changes :
    (hash : List Window → String) (es : List Event) (c : Capturer)
    → map (λ r. r.windows_hash) (run hash es c).rows
      ≡ map (λ r. r.windows_hash) c.rows ++ changes c.last_hash (observed hash c.locked es)
unfolding run handle hashes
run-changes hash [] c = sym (append-nil (hashes c.rows))
run-changes hash (lock s ∷ es) c = run-changes hash es (handle hash (lock s) c)
run-changes hash (tick t ∷ es) c = run-changes hash es (on_tick hash t c) ∙ tick-after hash t es c
