-- ===== src/Layout/Downsample.antt =====
-- `downsampleSQL` with its two users, and the sweep of cmd/trasker-server/layout_downsampler.go.
-- `date_trunc` is taken in a session whose zone is whole hours from UTC. An id is the primary key,
-- so that `id IN (SELECT id …)` is about the row itself; UUIDs have the order of their numbers.
pub mod First
pub mod Kept
pub mod Boundary
pub mod Keys
use trasker.Prelude.{
  ℕ, suc, ◌+◌, ◌*◌, ◌/◌, ◌%◌, Bool, true, false, List, [], ◌∷◌, ltb, ◌==◌, if◌then◌else◌, ◌&&◌,
  ◌||◌, filter, count, map,
}
use trasker.Layout.Snapshots.{LayoutSnapshot, Tier, raw, ten_min, one_hr}

abbrev pub second : ℕ
second = 1000000

abbrev pub minute : ℕ
minute = 60 * second

abbrev pub hour : ℕ
hour = 60 * minute

abbrev pub day : ℕ
day = 24 * hour

abbrev pub is_tier : Tier → Tier → Bool
is_tier raw raw = true
is_tier ten_min ten_min = true
is_tier one_hr one_hr = true
is_tier _ _ = false

-- `date_trunc('hour', captured_at)`.
unfoldable pub hour_bucket : ℕ → ℕ
hour_bucket t = t / hour * hour

-- The start of the hour, and ten minutes for each ten that its minute has.
unfoldable pub ten_min_bucket : ℕ → ℕ
unfolding hour_bucket
ten_min_bucket t = hour_bucket t + t % hour / minute / 10 * (10 * minute)

-- The parameters of one statement.
pub record Rule : Type 0 where
  pub from : Tier
  pub to : Tier
  pub age : ℕ
  pub bucket : ℕ → ℕ

-- `tier = $2 AND captured_at < $1 - $3`.
unfoldable pub is_bucketed : Rule → ℕ → LayoutSnapshot → Bool
is_bucketed q now r = is_tier r.tier q.from && ltb (r.captured_at + q.age) now

-- `PARTITION BY device_id, bucket`.
unfoldable pub same_partition : Rule → LayoutSnapshot → LayoutSnapshot → Bool
same_partition q a b =
    (a.device_id == b.device_id) && (q.bucket a.captured_at == q.bucket b.captured_at)

-- `ORDER BY captured_at ASC, id ASC`.
unfoldable pub precedes : LayoutSnapshot → LayoutSnapshot → Bool
precedes a b =
    ltb a.captured_at b.captured_at || ((a.captured_at == b.captured_at) && ltb a.id b.id)

unfoldable pub is_ahead : Rule → ℕ → LayoutSnapshot → LayoutSnapshot → Bool
unfolding is_bucketed same_partition precedes
is_ahead q now r a = is_bucketed q now a && same_partition q a r && precedes a r

unfoldable pub row_number : Rule → ℕ → List LayoutSnapshot → LayoutSnapshot → ℕ
unfolding is_ahead
row_number q now rows r = suc (count (is_ahead q now r) rows)

unfoldable pub is_survivor : Rule → ℕ → List LayoutSnapshot → LayoutSnapshot → Bool
unfolding is_bucketed row_number
is_survivor q now rows r = is_bucketed q now r && (row_number q now rows r == 1)

unfoldable pub is_loser : Rule → ℕ → List LayoutSnapshot → LayoutSnapshot → Bool
unfolding is_bucketed row_number
is_loser q now rows r = is_bucketed q now r && ltb 1 (row_number q now rows r)

unfoldable pub promoted : Rule → LayoutSnapshot → LayoutSnapshot
promoted q r = record r { tier = q.to }

-- What the statement makes of some rows of the table `rows`: it is one statement, and its parts all
-- see the table as it was.
unfoldable pub rewrite : Rule → ℕ → List LayoutSnapshot → List LayoutSnapshot → List LayoutSnapshot
unfolding is_survivor is_loser promoted
rewrite q now rows [] = []
rewrite q now rows (r ∷ rs) =
    let rest = rewrite q now rows rs in
    if is_loser q now rows r
    then rest
    else (if is_survivor q now rows r then promoted q r else r) ∷ rest

-- The new table, and the count of the deleted rows.
unfoldable pub downsample : Rule → ℕ → List LayoutSnapshot → List LayoutSnapshot × ℕ
unfolding rewrite is_loser
downsample q now rows = (rewrite q now rows rows, count (is_loser q now rows) rows)

unfoldable pub to_ten_min : Rule
unfolding ten_min_bucket
to_ten_min = record { from = raw; to = ten_min; age = 7 * day; bucket = ten_min_bucket }

unfoldable pub to_one_hr : Rule
unfolding hour_bucket
to_one_hr = record { from = ten_min; to = one_hr; age = 37 * day; bucket = hour_bucket }

unfoldable pub downsample_to_ten_min : ℕ → List LayoutSnapshot → List LayoutSnapshot × ℕ
unfolding downsample
downsample_to_ten_min now rows = downsample to_ten_min now rows

unfoldable pub downsample_to_one_hr : ℕ → List LayoutSnapshot → List LayoutSnapshot × ℕ
unfolding downsample
downsample_to_one_hr now rows = downsample to_one_hr now rows

-- `run` of `runLayoutDownsampler`, each of the two statements failing or not: a failure leaves the
-- table and is only logged.
unfoldable pub sweep : Bool → Bool → ℕ → List LayoutSnapshot → List LayoutSnapshot
unfolding downsample_to_ten_min downsample_to_one_hr
sweep first_fails second_fails now rows =
    let rows' = if first_fails then rows else (downsample_to_ten_min now rows).0 in
    if second_fails then rows' else (downsample_to_one_hr now rows').0
