-- ===== src/Layout/Snapshots.antt =====
-- internal/server/store/layout_snapshots.go and migrations/004_layout_snapshots.up.sql: the rows.
-- An instant is a number of microseconds, as TIMESTAMPTZ keeps it. The table is the list of its
-- rows; an id stands for its UUID.
use trasker.Prelude.{
  ℕ, Bool, Option, none, some, List, [], ◌∷◌, ◌++◌, String, str_eq, ltb, leb, ◌==◌, if◌then◌else◌,
  ◌&&◌, any, filter, map, length,
}
use trasker.Prelude.Int.{ℤ}
use trasker.Prelude.Sort.{sort_by}
use trasker.Server.Http.{page}

pub record Window : Type 0 where
  pub app_name : String
  pub window_title : String
  pub x : ℤ
  pub y : ℤ
  pub w : ℤ
  pub h : ℤ

-- The values that `chk_layout_tier` admits.
pub data Tier : Type 0 where
  raw ten_min one_hr : Tier

pub record LayoutSnapshot : Type 0 where
  pub id : ℕ
  pub device_id : ℕ
  pub captured_at : ℕ
  pub windows : List Window
  pub windows_hash : String
  pub tier : Tier
  pub created_at : ℕ

pub record InsertSnapshotParams : Type 0 where
  pub device_id : ℕ
  pub captured_at : ℕ
  pub windows : List Window
  pub windows_hash : String

pub record TimelineEntry : Type 0 where
  pub id : ℕ
  pub captured_at : ℕ
  pub windows_count : ℕ

-- The key of `idx_layout_snapshots_dedup`.
unfoldable pub is_duplicate : InsertSnapshotParams → LayoutSnapshot → Bool
is_duplicate p r =
    (r.device_id == p.device_id)
    && (r.captured_at == p.captured_at)
    && str_eq r.windows_hash p.windows_hash

-- What the database gives a new row: `gen_random_uuid()` and `now()`.
pub record Given : Type 0 where
  pub fresh_id : List LayoutSnapshot → ℕ
  pub now : ℕ

unfoldable pub new_snapshot : Given → InsertSnapshotParams → List LayoutSnapshot → LayoutSnapshot
new_snapshot g p rows = record {
  id = g.fresh_id rows;
  device_id = p.device_id;
  captured_at = p.captured_at;
  windows = p.windows;
  windows_hash = p.windows_hash;
  tier = raw;
  created_at = g.now;
}

-- none is the `(nil, nil)` of a conflict.
unfoldable pub insert_snapshot :
    Given → InsertSnapshotParams → List LayoutSnapshot → List LayoutSnapshot × Option LayoutSnapshot
unfolding is_duplicate new_snapshot
insert_snapshot g p rows =
    if any (is_duplicate p) rows
    then (rows, none)
    else (rows ++ new_snapshot g p rows ∷ [], some (new_snapshot g p rows))

-- `ORDER BY captured_at DESC LIMIT 1` over the rows that pass the test.
unfoldable pub latest : (LayoutSnapshot → Bool) → List LayoutSnapshot → Option LayoutSnapshot
latest p [] = none
latest p (r ∷ rows) =
    let best = latest p rows in
    if p r
    then elim best [
      | none ↦ some r
      | some q ↦ if ltb r.captured_at q.captured_at then some q else some r
    ]
    else best

unfoldable pub is_at_or_before : ℕ → ℕ → LayoutSnapshot → Bool
is_at_or_before device_id t r = (r.device_id == device_id) && leb r.captured_at t

-- none is `ErrNotFound`.
unfoldable pub get_snapshot_at : ℕ → ℕ → List LayoutSnapshot → Option LayoutSnapshot
unfolding latest is_at_or_before
get_snapshot_at device_id t rows = latest (is_at_or_before device_id t) rows

unfoldable pub is_in_range : ℕ → ℕ → ℕ → LayoutSnapshot → Bool
is_in_range device_id from to r =
    (r.device_id == device_id) && leb from r.captured_at && leb r.captured_at to

unfoldable pub timeline_entry : LayoutSnapshot → TimelineEntry
timeline_entry r = record {
  id = r.id;
  captured_at = r.captured_at;
  windows_count = length r.windows;
}

unfoldable pub list_timestamps : ℕ → ℕ → ℕ → ℕ → ℕ → List LayoutSnapshot → List TimelineEntry
unfolding is_in_range timeline_entry page
list_timestamps device_id from to limit offset rows =
    map timeline_entry (
      page limit offset
        (sort_by (λ r. r.captured_at) (filter (is_in_range device_id from to) rows)))
