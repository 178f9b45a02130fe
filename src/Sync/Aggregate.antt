-- ===== src/Sync/Aggregate.antt =====
-- submit.go: `Aggregate` and `mergeTimesheetEntries`, which the queue calls before it submits.
-- Go ranges over a map in no fixed order, and `sort.Slice` leaves entries of equal start in no
-- fixed order: `shuffle` is the order in which a run takes them, before a stable sort.
pub mod Totals
pub mod Groups
use Prim.Native.String.{◌++◌ as append}
use trasker.Prelude.{
  ℕ, Bool, true, false, Option, none, some, List, [], ◌∷◌, ◌++◌, String, str_eq, if◌then◌else◌, map,
  filter, not,
}
use trasker.Prelude.Int.{ℤ, pos, sum_ℤ}
use trasker.Prelude.Sort.{sort_by}
use trasker.Sync.Entries.{TimesheetEntry}

pub record Group : Type 0 where
  pub key : String
  pub members : List TimesheetEntry

-- `groups[e.Tag] = append(groups[e.Tag], e)`.
unfoldable pub add_entry : TimesheetEntry → List Group → List Group
add_entry e [] = record { key = e.tag; members = e ∷ [] } ∷ []
add_entry e (g ∷ gs) =
    if str_eq g.key e.tag
    then record g { members = g.members ++ e ∷ [] } ∷ gs
    else g ∷ add_entry e gs

unfoldable pub group_by_tag : List TimesheetEntry → List Group → List Group
group_by_tag [] gs = gs
group_by_tag (e ∷ es) gs = group_by_tag es (add_entry e gs)

-- `strings.Join`.
unfoldable pub join : String → List String → String
join sep [] = ""
join sep (s ∷ []) = s
join sep (s ∷ t ∷ ts) = append s (append sep (join sep (t ∷ ts)))

abbrev pub first_start : List TimesheetEntry → ℕ
first_start [] = 0
first_start (e ∷ _) = e.started_at

abbrev pub last_end : List TimesheetEntry → Option ℕ
last_end [] = none
last_end (e ∷ []) = e.ended_at
last_end (_ ∷ e ∷ es) = last_end (e ∷ es)

module _ (shuffle : List TimesheetEntry → List TimesheetEntry) where
  unfoldable pub by_start : List TimesheetEntry → List TimesheetEntry
  by_start es = sort_by (λ e. e.started_at) (shuffle es)

  -- A group is never empty, so the first and the last entry are there.
  unfoldable pub merge_timesheet_entries : Group → TimesheetEntry
  unfolding by_start join
  merge_timesheet_entries g =
      let es = by_start g.members in
      record {
        tag = g.key;
        started_at = first_start es;
        ended_at = last_end es;
        duration_s = sum_ℤ (map (λ e. e.duration_s) es);
        notes = join "\n" (filter (λ s. not (str_eq s "")) (map (λ e. e.notes) es));
      }

  -- The empty slice is returned as it is, which the general case gives too.
  unfoldable pub aggregate : List TimesheetEntry → List TimesheetEntry
  unfolding merge_timesheet_entries group_by_tag by_start
  aggregate es = by_start (map merge_timesheet_entries (group_by_tag es []))
