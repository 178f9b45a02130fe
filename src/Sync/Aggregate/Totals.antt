-- ===== src/Sync/Aggregate/Totals.antt =====
-- Aggregation keeps the time of every tag.
use mathlib.Core.List.{Perm}
use mathlib.Core.List.Perm
use mathlib.Core.Path.{ap₂}
use trasker.Prelude.{
  ◌≡◌, refl, ◌∙◌, ap, sym, List, [], ◌∷◌, ◌++◌, String, str_eq, eq_iff, if◌then◌else◌, map,
  Bool-cases, inl, inr,
}
use trasker.Prelude.Int.{ℤ, pos, sum_ℤ, ◌+ℤ◌, +ℤ_assoc, +ℤ_right_comm, zero-+ℤ, int_laws}
use trasker.Prelude.Sort.{sort_by-perm}
use trasker.Prelude.Perm.{total, total-perm}
use trasker.Sync.Entries.{TimesheetEntry}
use trasker.Sync.Aggregate.{
  Group, add_entry, group_by_tag, by_start, merge_timesheet_entries, aggregate,
}

-- The time that an entry counts for a tag.
abbrev pub counted : String → TimesheetEntry → ℤ
counted t e = if str_eq e.tag t then e.duration_s else pos 0

abbrev pub tag_total : String → List TimesheetEntry → ℤ
tag_total t = total (counted t)

abbrev duration : TimesheetEntry → ℤ
duration e = e.duration_s

abbrev group_total : String → Group → ℤ
group_total t g = if str_eq g.key t then total duration g.members else pos 0

pub total-append {ℓ} :
    {A : Type ℓ} (f : A → ℤ) (xs ys : List A) → total f (xs ++ ys) ≡ total f xs +ℤ total f ys
unfolding sum_ℤ
total-append f [] ys = sym (zero-+ℤ (total f ys))
total-append f (x ∷ xs) ys =
    rw (total-append f xs ys) (sym (+ℤ_assoc (f x) (total f xs) (total f ys)))

single : (a : ℤ) → sum_ℤ (a ∷ []) ≡ a
unfolding sum_ℤ
single a = omega int_laws

-- The group that an entry joins grows by what the entry counts.
grow_group :
    (t : String) (e : TimesheetEntry) (g : Group)
    → g.key ≡ e.tag
    → group_total t (record g { members = g.members ++ e ∷ [] }) ≡ group_total t g +ℤ counted t e
grow_group t e g k = elim (Bool-cases (str_eq e.tag t)) [
  | inl p ↦
      rw (k, p)
        (total-append duration g.members (e ∷ [])
          ∙ ap (λ x. total duration g.members +ℤ x) (single e.duration_s))
  | inr p ↦ rw (k, p) (omega int_laws)
]

new_group :
    (t : String) (e : TimesheetEntry)
    → group_total t (record { key = e.tag; members = e ∷ [] }) ≡ counted t e
new_group t e = elim (Bool-cases (str_eq e.tag t)) [
  | inl p ↦ rw p (single e.duration_s)
  | inr p ↦ rw p
]

add_entry-total :
    (t : String) (e : TimesheetEntry) (gs : List Group)
    → total (group_total t) (add_entry e gs) ≡ total (group_total t) gs +ℤ counted t e
unfolding add_entry sum_ℤ
add_entry-total t e [] = rw (new_group t e) (omega int_laws)
add_entry-total t e (g ∷ gs) = elim (Bool-cases (str_eq g.key e.tag)) [
  | inl p ↦
      rw (p, grow_group t e g ((eq_iff g.key e.tag).0 p))
        (+ℤ_right_comm (group_total t g) (counted t e) (total (group_total t) gs))
  | inr p ↦
      rw (p, add_entry-total t e gs)
        (sym (+ℤ_assoc (group_total t g) (total (group_total t) gs) (counted t e)))
]

group_by_tag-total :
    (t : String) (es : List TimesheetEntry) (gs : List Group)
    → total (group_total t) (group_by_tag es gs) ≡ total (group_total t) gs +ℤ tag_total t es
unfolding group_by_tag sum_ℤ
group_by_tag-total t [] gs = omega int_laws
group_by_tag-total t (e ∷ es) gs =
    group_by_tag-total t es (add_entry e gs)
    ∙ ap (λ s. s +ℤ tag_total t es) (add_entry-total t e gs)
    ∙ +ℤ_assoc (total (group_total t) gs) (counted t e) (tag_total t es)

module _ (shuffle : List TimesheetEntry → List TimesheetEntry)
    (reorders : (es : List TimesheetEntry) → Perm (shuffle es) es) where
  pub by_start-perm : (es : List TimesheetEntry) → Perm (by_start shuffle es) es
  unfolding by_start
  by_start-perm es = Perm.trans (sort_by-perm _ (shuffle es)) (reorders es)

  merge-total :
      (t : String) (g : Group) → counted t (merge_timesheet_entries shuffle g) ≡ group_total t g
  unfolding merge_timesheet_entries
  merge-total t g = elim (Bool-cases (str_eq g.key t)) [
    | inl p ↦ rw p (total-perm duration (by_start-perm g.members))
    | inr p ↦ rw p
  ]

  merge_all-total :
      (t : String) (gs : List Group)
      → tag_total t (map (merge_timesheet_entries shuffle) gs) ≡ total (group_total t) gs
  unfolding sum_ℤ
  merge_all-total t [] = refl
  merge_all-total t (g ∷ gs) = ap₂ ◌+ℤ◌ (merge-total t g) (merge_all-total t gs)

  -- In whatever order Go takes the groups and the entries of equal start: for every tag, the
  -- entries of `Aggregate` carry the time that the entries before it carry.
  pub aggregate-tag_total :
      (t : String) (es : List TimesheetEntry) → tag_total t (aggregate shuffle es) ≡ tag_total t es
  unfolding aggregate sum_ℤ
  aggregate-tag_total t es =
      total-perm (counted t)
        (by_start-perm (map (merge_timesheet_entries shuffle) (group_by_tag es [])))
      ∙ merge_all-total t (group_by_tag es [])
      ∙ group_by_tag-total t es []
      ∙ zero-+ℤ (tag_total t es)
