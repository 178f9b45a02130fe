-- ===== src/Server/Reports/Agree.antt =====
-- The summary of a report and its export.
use trasker.Prelude.{
  ℕ, suc, ◌≡◌, refl, sym, ap, ◌∙◌, subst, inl, inr, true, false, List, [], ◌∷◌, String, str_eq,
  eq_iff, ◌==◌, if◌then◌else◌, Bool-cases, Option-cases, find, find-mem, filter, is_some, All,
  All-get, All-filter, All-mono, ok, arith,
}
use trasker.Prelude.Int.{ℤ, pos, ◌+ℤ◌, sum_ℤ, le_ℤ, +ℤ_assoc, +ℤ_right_comm, zero-+ℤ, int_laws}
use trasker.Prelude.Sort.{sort_by, sort_by-perm}
use trasker.Prelude.Perm.{total, total-perm}
use trasker.Server.Tables.{User, Timesheet, TimesheetEntry, ServerDb}
use trasker.Server.Reports.{
  ReportSummaryRow, ReportFilters, Reported, join_sheets, matches_report, report_rows,
  add_to_summary, summarize, insert_summary, longest_first, get_report_summary, ReportExportRow,
  export_row, with_user, join_users, get_report_export,
}
use trasker.Server.Reports.Tags.{DistinctTags, summary-DistinctTags}

-- What counts for a tag.
abbrev pub of_tag : String → String → ℤ → ℤ
of_tag t tag n = if str_eq tag t then n else pos 0

-- A sum that groups keep: `g` of a group, to which an entry adds `h`.
module _ (t : String) (g : ReportSummaryRow → ℤ) (h : TimesheetEntry → ℤ) where
  abbrev grouped : ReportSummaryRow → ℤ
  grouped r = of_tag t r.tag (g r)

  abbrev single : TimesheetEntry → ℤ
  single e = of_tag t e.tag (h e)

  abbrev Adds : Type 0
  Adds =
      (e : TimesheetEntry)
      → (g (record { tag = e.tag; total_duration_s = e.duration_s; entry_count = 1 }) ≡ h e)
        × ((r : ReportSummaryRow)
            → g (record r {
              total_duration_s = r.total_duration_s +ℤ e.duration_s;
              entry_count = suc r.entry_count;
            })
              ≡ g r +ℤ h e)

  total-add :
      Adds
      → (e : TimesheetEntry) (rows : List ReportSummaryRow)
      → total grouped (add_to_summary e rows) ≡ total grouped rows +ℤ single e
  unfolding add_to_summary sum_ℤ
  total-add a e [] = rw ((a e).0) (omega int_laws)
  total-add a e (r ∷ rows) = elim (Bool-cases (str_eq r.tag e.tag)) [
    | inl p ↦ rw p (
        ap (λ x. x +ℤ total grouped rows) (joined ((eq_iff r.tag e.tag).0 p))
        ∙ +ℤ_right_comm (grouped r) (single e) (total grouped rows))
    | inr p ↦
        rw (p, total-add a e rows) (sym (+ℤ_assoc (grouped r) (total grouped rows) (single e)))
  ]
    where
      joined :
          r.tag ≡ e.tag
          → of_tag t r.tag (
              g (record r {
                total_duration_s = r.total_duration_s +ℤ e.duration_s;
                entry_count = suc r.entry_count;
              }))
            ≡ grouped r +ℤ single e
      joined k = elim (Bool-cases (str_eq e.tag t)) [
        | inl q ↦ rw (subst (λ x. str_eq x t ≡ true) (sym k) q, q) ((a e).1 r)
        | inr q ↦ rw (subst (λ x. str_eq x t ≡ false) (sym k) q, q) (omega int_laws)
      ]

  total-summarize :
      Adds
      → (xs : List Reported) (rows : List ReportSummaryRow)
      → total grouped (summarize xs rows) ≡ total grouped rows +ℤ total (λ x. single x.entry) xs
  unfolding summarize sum_ℤ
  total-summarize a [] rows = omega int_laws
  total-summarize a (x ∷ xs) rows =
      total-summarize a xs (add_to_summary x.entry rows)
      ∙ ap (λ n. n +ℤ total (λ x. single x.entry) xs) (total-add a x.entry rows)
      ∙ +ℤ_assoc (total grouped rows) (single x.entry) (total (λ x. single x.entry) xs)

module _ (f : ReportSummaryRow → ℤ) where
  total-insert :
      (r : ReportSummaryRow) (rows : List ReportSummaryRow)
      → total f (insert_summary r rows) ≡ f r +ℤ total f rows
  unfolding insert_summary sum_ℤ
  total-insert r [] = refl
  total-insert r (s ∷ rows) = elim (Bool-cases (le_ℤ s.total_duration_s r.total_duration_s)) [
    | inl e ↦ rw e
    | inr e ↦ rw (e, total-insert r rows) (omega int_laws)
  ]

  total-longest_first : (rows : List ReportSummaryRow) → total f (longest_first rows) ≡ total f rows
  unfolding longest_first sum_ℤ
  total-longest_first [] = refl
  total-longest_first (r ∷ rows) =
      total-insert r (longest_first rows) ∙ ap (λ n. f r +ℤ n) (total-longest_first rows)

abbrev pub HasUser : List User → Timesheet → Type 0
HasUser users t = is_some (find (λ u. u.id == t.user_id) users) ≡ true

joined_users :
    (users : List User) (sheets : List Timesheet) (entries : List TimesheetEntry)
    → All (HasUser users) sheets
    → All (λ x. HasUser users x.sheet) (join_sheets sheets entries)
unfolding join_sheets
joined_users users sheets [] h = tt
joined_users users sheets (e ∷ entries) h =
    elim (Option-cases (find (λ t. t.id == e.timesheet_id) sheets)) [
      | inl k ↦ rw k (joined_users users sheets entries h)
      | inr (t, k) ↦
          rw k (All-get _ sheets t h (find-mem _ sheets t k).0, joined_users users sheets entries h)
    ]

total-join_users :
    (g : ReportExportRow → ℤ) (h : Reported → ℤ) (users : List User) (xs : List Reported)
    → ((u : User) (x : Reported) → g (export_row u x) ≡ h x)
    → All (λ x. HasUser users x.sheet) xs
    → total g (join_users users xs) ≡ total h xs
unfolding join_users with_user sum_ℤ
total-join_users g h users [] k a = refl
total-join_users g h users (x ∷ xs) k a =
    elim (Option-cases (find (λ u. u.id == x.sheet.user_id) users)) [
      | inl e ↦ absurd (ground (arith, e, a.0))
      | inr (u, e) ↦ rw (e, k u x, total-join_users g h users xs k a.1)
    ]

filtered {κ} :
    (P : Reported → Type κ) (f : ReportFilters) (xs : List Reported)
    → All P xs
    → All P (filter (matches_report f) xs)
filtered P f xs h =
    All-mono _ _ (filter (matches_report f) xs) (λ x k. k.1) (All-filter P (matches_report f) xs h)

rows_of :
    (f : ReportFilters) (db : ServerDb)
    → All (HasUser db.users) db.timesheets
    → All (λ x. HasUser db.users x.sheet) (report_rows f db)
unfolding report_rows
rows_of f db h = filtered _ f _ (joined_users db.users db.timesheets db.timesheet_entries h)

-- What both reports count, `g` in the summary, `h` of an entry and `k` in the export.
agreed :
    (t : String) (g : ReportSummaryRow → ℤ) (h : TimesheetEntry → ℤ) (k : ReportExportRow → ℤ)
    (f : ReportFilters) (db : ServerDb) (s : List ReportSummaryRow) (x : List ReportExportRow)
    → Adds t g h
    → ((u : User) (r : Reported)
        → of_tag t (export_row u r).tag (k (export_row u r)) ≡ of_tag t r.entry.tag (h r.entry))
    → All (HasUser db.users) db.timesheets
    → get_report_summary false f db ≡ ok s
    → get_report_export false f db ≡ ok x
    → total (λ r. of_tag t r.tag (g r)) s ≡ total (λ r. of_tag t r.tag (k r)) x
unfolding get_report_summary get_report_export sum_ℤ
agreed t g h k f db s x a c u e d =
    let y : longest_first (summarize (report_rows f db) []) ≡ s = ground (arith, e) in
    let z : sort_by (λ r. r.started_at) (join_users db.users (report_rows f db)) ≡ x =
      ground (arith, d) in
    ap (total (grouped t g h)) (sym y)
    ∙ total-longest_first (grouped t g h) (summarize (report_rows f db) [])
    ∙ total-summarize t g h a (report_rows f db) []
    ∙ zero-+ℤ _
    ∙ sym (
        total-join_users (λ r. of_tag t r.tag (k r)) (λ r. single t g h r.entry) db.users
          (report_rows f db) c (rows_of f db u))
    ∙ sym (
        total-perm (λ (r : ReportExportRow). of_tag t r.tag (k r))
          (sort_by-perm (λ (r : ReportExportRow). r.started_at)
            (join_users db.users (report_rows f db))))
    ∙ ap (total (λ r. of_tag t r.tag (k r))) z

-- The summary and the export with the same filters, where no statement fails, agree if every
-- timesheet has its user: for each
-- tag, the summary holds the time and the number of the export's rows, and no two of its rows have
-- one tag.
pub summary-export :
    (f : ReportFilters) (db : ServerDb) (s : List ReportSummaryRow) (x : List ReportExportRow)
    (t : String)
    → All (HasUser db.users) db.timesheets
    → get_report_summary false f db ≡ ok s
    → get_report_export false f db ≡ ok x
    → (total (λ r. of_tag t r.tag r.total_duration_s) s
        ≡ total (λ r. of_tag t r.tag r.duration_s) x)
      × (total (λ r. of_tag t r.tag (pos r.entry_count)) s ≡ total (λ r. of_tag t r.tag (pos 1)) x)
      × DistinctTags s
unfolding export_row
summary-export f db s x t u e d = (
  agreed t (λ r. r.total_duration_s) (λ e. e.duration_s) (λ r. r.duration_s) f db s x
      (λ e. (refl, λ r. refl)) (λ u r. refl) u e d,
  agreed t (λ r. pos r.entry_count) (λ e. pos 1) (λ r. pos 1) f db s x
      (λ e. (refl, λ r. one_more r.entry_count)) (λ u r. refl) u e d,
  summary-DistinctTags f db s e,
)
  where
    one_more : (n : ℕ) → pos (suc n) ≡ pos n +ℤ pos 1
    one_more n = omega int_laws
