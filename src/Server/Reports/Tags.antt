-- ===== src/Server/Reports/Tags.antt =====
-- A summary has one row for a tag.
use trasker.Prelude.{
  ◌≡◌, ◌≢◌, sym, subst, false, List, [], ◌∷◌, String, str_eq, eq_iff, if_elim, All, ok, arith,
}
use trasker.Prelude.Int.{le_ℤ}
use trasker.Server.Tables.{TimesheetEntry, ServerDb}
use trasker.Server.Reports.{
  ReportSummaryRow, ReportFilters, Reported, report_rows, add_to_summary, summarize, insert_summary,
  longest_first, get_report_summary,
}

-- No two rows have one tag.
abbrev pub DistinctTags : List ReportSummaryRow → Type 0
DistinctTags [] = Unit
DistinctTags (r ∷ rows) = All (λ s. s.tag ≢ r.tag) rows × DistinctTags rows

add_to_summary-All :
    (tag : String) (e : TimesheetEntry) (rows : List ReportSummaryRow)
    → e.tag ≢ tag
    → All (λ s. s.tag ≢ tag) rows
    → All (λ s. s.tag ≢ tag) (add_to_summary e rows)
unfolding add_to_summary
add_to_summary-All tag e [] n h = (n, tt)
add_to_summary-All tag e (r ∷ rows) n h =
    if_elim (All (λ s. s.tag ≢ tag)) (str_eq r.tag e.tag) _ _ (λ _. h)
      (λ _. (h.0, add_to_summary-All tag e rows n h.1))

add_to_summary-DistinctTags :
    (e : TimesheetEntry) (rows : List ReportSummaryRow)
    → DistinctTags rows
    → DistinctTags (add_to_summary e rows)
unfolding add_to_summary
add_to_summary-DistinctTags e [] h = (tt, tt)
add_to_summary-DistinctTags e (r ∷ rows) h =
    if_elim DistinctTags (str_eq r.tag e.tag) _ _ (λ _. h)
      (λ p. (
        add_to_summary-All r.tag e rows
            (λ q. absurd (ground (arith, p, (eq_iff r.tag e.tag).1 (sym q)))) h.0,
        add_to_summary-DistinctTags e rows h.1,
      ))

summarize-DistinctTags :
    (xs : List Reported) (rows : List ReportSummaryRow)
    → DistinctTags rows
    → DistinctTags (summarize xs rows)
unfolding summarize
summarize-DistinctTags [] rows h = h
summarize-DistinctTags (x ∷ xs) rows h =
    summarize-DistinctTags xs (add_to_summary x.entry rows)
      (add_to_summary-DistinctTags x.entry rows h)

insert_summary-All {κ} :
    (P : ReportSummaryRow → Type κ) (r : ReportSummaryRow) (rows : List ReportSummaryRow)
    → P r
    → All P rows
    → All P (insert_summary r rows)
unfolding insert_summary
insert_summary-All P r [] p h = (p, tt)
insert_summary-All P r (s ∷ rows) p h =
    if_elim (All P) (le_ℤ s.total_duration_s r.total_duration_s) _ _ (λ _. (p, h))
      (λ _. (h.0, insert_summary-All P r rows p h.1))

longest_first-All {κ} :
    (P : ReportSummaryRow → Type κ) (rows : List ReportSummaryRow)
    → All P rows
    → All P (longest_first rows)
unfolding longest_first
longest_first-All P [] h = tt
longest_first-All P (r ∷ rows) h =
    insert_summary-All P r (longest_first rows) h.0 (longest_first-All P rows h.1)

insert_summary-DistinctTags :
    (r : ReportSummaryRow) (rows : List ReportSummaryRow)
    → DistinctTags (r ∷ rows)
    → DistinctTags (insert_summary r rows)
unfolding insert_summary
insert_summary-DistinctTags r [] h = h
insert_summary-DistinctTags r (s ∷ rows) h =
    if_elim DistinctTags (le_ℤ s.total_duration_s r.total_duration_s) _ _ (λ _. h)
      (λ _. (
        insert_summary-All _ r rows (λ q. h.0.0 (sym q)) h.1.0,
        insert_summary-DistinctTags r rows (h.0.1, h.1.1),
      ))

longest_first-DistinctTags :
    (rows : List ReportSummaryRow) → DistinctTags rows → DistinctTags (longest_first rows)
unfolding longest_first
longest_first-DistinctTags [] h = tt
longest_first-DistinctTags (r ∷ rows) h =
    insert_summary-DistinctTags r (longest_first rows)
      (longest_first-All _ rows h.0, longest_first-DistinctTags rows h.1)

pub summary-DistinctTags :
    (f : ReportFilters) (db : ServerDb) (s : List ReportSummaryRow)
    → get_report_summary false f db ≡ ok s
    → DistinctTags s
unfolding get_report_summary
summary-DistinctTags f db s e =
    let y : longest_first (summarize (report_rows f db) []) ≡ s = ground (arith, e) in
    subst DistinctTags y (
      longest_first-DistinctTags (summarize (report_rows f db) [])
        (summarize-DistinctTags (report_rows f db) [] tt))
