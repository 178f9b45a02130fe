-- ===== src/Sync/Aggregate/Groups.antt =====
-- Aggregation returns one entry for each tag, in the order of their starts.
use mathlib.Core.List.{Perm, Permᴰ}
use mathlib.Core.Logic.{∥∥₁_elim}
use native.Mathlib.Nat.{ℕ_set}
use trasker.Prelude.{
  ℕ, ◌+◌, ◌≤◌, ◌≡◌, refl, ◌∙◌, ap, Bool, ◌||◌, List, [], ◌∷◌, String, str_eq, eq_iff, if◌then◌else◌,
  map, any, ltb, arith,
}
use trasker.Prelude.Sort.{sort_by-IsSortedBy, IsSortedBy}
use trasker.Sync.Entries.{TimesheetEntry}
use trasker.Sync.Aggregate.{
  Group, add_entry, group_by_tag, by_start, merge_timesheet_entries, aggregate,
}
use trasker.Sync.Aggregate.Totals.{by_start-perm}

-- How many elements have a text.
module _ {ℓ} {A : Type ℓ} (text : A → String) where
  unfoldable pub occurrences : String → List A → ℕ
  occurrences t [] = 0
  occurrences t (x ∷ xs) = (if str_eq (text x) t then 1 else 0) + occurrences t xs

  occurrences-permᴰ :
      (t : String) (xs ys : List A) → Permᴰ xs ys → occurrences t xs ≡ occurrences t ys
  unfolding occurrences
  occurrences-permᴰ t _ _ Permᴰ.nil = refl
  occurrences-permᴰ t _ _ (Permᴰ.cons e p) =
      λ i. (if str_eq (text (e i)) t then 1 else 0) + occurrences-permᴰ t _ _ p i
  occurrences-permᴰ t _ _ (Permᴰ.swap {a = a} {b = b} {l = l} e e') =
      (let x : ℕ = if str_eq (text a) t then 1 else 0 in
        let y : ℕ = if str_eq (text b) t then 1 else 0 in
        let swapped : x + (y + occurrences t l) ≡ y + (x + occurrences t l) = omega arith in
        swapped)
      ∙ (λ i.
          (if str_eq (text (e' i)) t then 1 else 0)
          + ((if str_eq (text (e i)) t then 1 else 0) + occurrences t l))
  occurrences-permᴰ t _ _ (Permᴰ.trans p q) = occurrences-permᴰ t _ _ p ∙ occurrences-permᴰ t _ _ q

  pub occurrences-perm :
      (t : String) {xs ys : List A} → Perm xs ys → occurrences t xs ≡ occurrences t ys
  occurrences-perm t {xs} {ys} p = ∥∥₁_elim p (ℕ_set _ _) (occurrences-permᴰ t xs ys)

abbrev keys : String → List Group → ℕ
keys = occurrences (λ g. g.key)

abbrev at_most_once : ℕ → Bool → ℕ
at_most_once n hit = if hit then (if ltb 0 n then n else 1) else n

-- An entry adds its tag's group if it is the first of the tag.
add_entry-keys :
    (t : String) (e : TimesheetEntry) (gs : List Group)
    → keys t (add_entry e gs) ≡ at_most_once (keys t gs) (str_eq e.tag t)
unfolding add_entry occurrences
add_entry-keys t e [] = ground arith
add_entry-keys t e (g ∷ gs) =
    ground (arith, add_entry-keys t e gs, eq_iff g.key e.tag, eq_iff g.key t, eq_iff e.tag t)

abbrev pub is_of : String → List TimesheetEntry → Bool
is_of t = any (λ e. str_eq e.tag t)

group_by_tag-keys :
    (t : String) (es : List TimesheetEntry) (gs : List Group)
    → keys t gs ≤ 1
    → keys t (group_by_tag es gs) ≡ (if ltb 0 (keys t gs) || is_of t es then 1 else 0)
unfolding group_by_tag
group_by_tag-keys t [] gs h = ground arith
group_by_tag-keys t (e ∷ es) gs h =
    ground (arith, add_entry-keys t e gs, group_by_tag-keys t es (add_entry e gs))

module _ (shuffle : List TimesheetEntry → List TimesheetEntry)
    (reorders : (es : List TimesheetEntry) → Perm (shuffle es) es) where
  merged-keys :
      (t : String) (gs : List Group)
      → occurrences (λ e. e.tag) t (map (merge_timesheet_entries shuffle) gs) ≡ keys t gs
  unfolding occurrences merge_timesheet_entries
  merged-keys t [] = refl
  merged-keys t (g ∷ gs) = ap (λ n. (if str_eq g.key t then 1 else 0) + n) (merged-keys t gs)

  -- In whatever order Go takes the groups and the entries of equal start: `Aggregate` returns
  -- exactly one entry for each tag of the entries, none for any other, in the order of their starts.
  pub aggregate-one_per_tag :
      (es : List TimesheetEntry)
      → ((t : String)
          → occurrences (λ e. e.tag) t (aggregate shuffle es) ≡ (if is_of t es then 1 else 0))
        × IsSortedBy (λ e. e.started_at) (aggregate shuffle es)
  unfolding aggregate by_start occurrences
  aggregate-one_per_tag es = (
    λ t.
        occurrences-perm (λ e. e.tag) t
          (by_start-perm shuffle reorders
            (map (merge_timesheet_entries shuffle) (group_by_tag es [])))
        ∙ merged-keys t (group_by_tag es [])
        ∙ group_by_tag-keys t es [] (omega arith),
    sort_by-IsSortedBy _ _,
  )
