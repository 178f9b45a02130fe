-- ===== src/Sync/Queue/Double.antt =====
-- How much time the queue submits for an event.
use Prim.Native.Nat.{max}
use native.Mathlib.Nat.{zero-add, suc-add}
use trasker.Prelude.{
  length-map, ℕ, zero, suc, ◌+◌, ◌*◌, ◌≡◌, refl, ◌∙◌, sym, ap, List, [], ◌∷◌, map, some, length,
  filter, ◌==◌, arith,
}
use mathlib.Core.Path.{ap₂}
use trasker.Prelude.Int.{ℤ, pos, sum_ℤ, ◌+ℤ◌, +ℤ_assoc, zero-+ℤ}
use trasker.Prelude.Sort.{sort_by-perm}
use trasker.Prelude.Perm.{total, total-perm}
use trasker.Store.Tables.{FocusEvent, Db}
use trasker.Sync.Entries.{
  TimesheetEntry, left_join, flat_map, tags_of, notes_of, duration_of, entry_of, entries_of,
  linked_events, load_submission_entries,
}
use trasker.Sync.Aggregate.Totals.{total-append}

-- `n` times a time.
unfoldable pub times : ℕ → ℤ → ℤ
times zero d = pos 0
times (suc n) d = d +ℤ times n d

times-add : (m n : ℕ) (d : ℤ) → times (m + n) d ≡ times m d +ℤ times n d
unfolding times
times-add zero n d = rw zero-add (sym (zero-+ℤ (times n d)))
times-add (suc m) n d =
    rw suc-add (ap (λ x. d +ℤ x) (times-add m n d) ∙ sym (+ℤ_assoc d (times m d) (times n d)))

abbrev pub duration : TimesheetEntry → ℤ
duration e = e.duration_s

same_total {ℓ} :
    {A : Type ℓ} (f : A → TimesheetEntry) (d : ℤ) (xs : List A)
    → ((x : A) → duration (f x) ≡ d)
    → total duration (map f xs) ≡ times (length xs) d
unfolding sum_ℤ times
same_total f d [] h = refl
same_total f d (x ∷ xs) h = ap₂ ◌+ℤ◌ (h x) (same_total f d xs h)

grid_total {ℓ} :
    {A : Type ℓ} (f : A → List TimesheetEntry) (n : ℕ) (d : ℤ) (xs : List A)
    → ((x : A) → total duration (f x) ≡ times n d)
    → total duration (flat_map f xs) ≡ times (length xs * n) d
unfolding sum_ℤ times
grid_total f n d [] h = let e : 0 * n ≡ 0 = omega arith in rw e
grid_total f n d (x ∷ xs) h =
    total-append duration (f x) (flat_map f xs)
    ∙ ap₂ ◌+ℤ◌ (h x) (grid_total f n d xs h)
    ∙ sym (times-add n (length xs * n) d)
    ∙ ap (λ k. times k d) (let e : n + length xs * n ≡ suc (length xs) * n = omega arith in e)

length-left_join {ℓ} : {A : Type ℓ} (xs : List A) → length (left_join xs) ≡ max 1 (length xs)
unfolding left_join
length-left_join [] = omega arith
length-left_join {A} (x ∷ xs) = omega (arith, length-map (λ (y : A). some y) xs)

-- How often the query of `loadSubmissionEntries` returns an event: once for each pair of one of its
-- tags and one of its notes.
abbrev pub copies : Db → FocusEvent → ℕ
copies db fe =
    max 1 (length (filter (λ et. et.event_id == fe.id) db.event_tags))
    * max 1 (length (filter (λ n. n.anchor_event == fe.id) db.notes))

entries_of-total :
    (db : Db) (fe : FocusEvent)
    → total duration (entries_of db fe) ≡ times (copies db fe) (duration_of fe)
unfolding entries_of
entries_of-total db fe =
    grid_total _ _ (duration_of fe) (tags_of fe db)
      (λ et. same_total (entry_of db.tags fe et) (duration_of fe) (notes_of fe db) (λ n. refl))
    ∙ ap (λ k. times k (duration_of fe)) (ap₂ ◌*◌ (length-left_join _) (length-left_join _))

all_total :
    (db : Db) (fes : List FocusEvent)
    → total duration (flat_map (entries_of db) fes)
      ≡ total (λ fe. times (copies db fe) (duration_of fe)) fes
unfolding sum_ℤ
all_total db [] = refl
all_total db (fe ∷ fes) =
    total-append duration (entries_of db fe) (flat_map (entries_of db) fes)
    ∙ ap₂ ◌+ℤ◌ (entries_of-total db fe) (all_total db fes)

-- The time that the queue loads for a submission is the sum over its linked events of the event's
-- duration, times the number of the event's tags (at least one), times the number of its notes (at
-- least one). So an event with two tags, or with two notes, is submitted with twice its time.
pub load_submission_entries-total :
    (submission_id : ℕ) (db : Db)
    → total duration (load_submission_entries submission_id db)
      ≡ total (λ fe. times (copies db fe) (duration_of fe)) (linked_events submission_id db)
unfolding load_submission_entries
load_submission_entries-total id db =
    total-perm duration (sort_by-perm _ (flat_map (entries_of db) (linked_events id db)))
    ∙ all_total db (linked_events id db)
