-- ===== src/Layout/Examples.antt =====
-- Two snapshots of one device, and a client of the small server.
use mathlib.Core.List.{Memᴰ}
use trasker.Prelude.{
  ℕ, ◌+◌, ◌*◌, ◌<◌, ◌≡◌, refl, false, some, List, [], ◌∷◌, ◌++◌, map, String, All, ok,
}
use trasker.Prelude.Int.{pos}
use trasker.Presence.Deadman.{away, tracking}
use trasker.Server.Examples.{small_server, anna_calls}
use trasker.Layout.Snapshots.{Window, Tier, raw, ten_min, LayoutSnapshot, Given}
use trasker.Layout.Downsample.{
  minute, day, is_bucketed, hour_bucket, to_ten_min, to_one_hr, downsample, sweep,
}
use trasker.Layout.Downsample.Kept.{Downsampled, downsample-Downsampled}
use trasker.Layout.Downsample.Boundary.{
  MayStay, sweep-MayStay, PromotedFrom, boundary_bucket_splits,
}
use trasker.Layout.Ingest.{Body, decoded, layout_ingest, layout_at}
use trasker.Layout.Ingest.Retried.{no_faults, layout_ingest-again}
use trasker.Layout.Ingest.Served.{Served, layout_at-Served}
use trasker.Layout.Capture.{Event, Tick, lock, tick, new_capturer, run}
use trasker.Layout.Capture.Changes.{changes, observed, run-changes}

abbrev pub editor : Window
editor = record {
  app_name = "editor";
  window_title = "main.go";
  x = pos 0;
  y = pos 0;
  w = pos 800;
  h = pos 600;
}

abbrev snapshot : ℕ → ℕ → Tier → LayoutSnapshot
snapshot id captured_at tier = record {
  id = id;
  device_id = 9;
  captured_at = captured_at;
  windows = editor ∷ [];
  windows_hash = "h1";
  tier = tier;
  created_at = captured_at;
}

abbrev two_raw : List LayoutSnapshot
two_raw = snapshot 1 minute raw ∷ snapshot 2 (2 * minute) raw ∷ []

downsample-Downsampled_example :
    Downsampled to_ten_min
      (8 * day)
      two_raw
      (downsample to_ten_min (8 * day) two_raw).0
      (downsample to_ten_min (8 * day) two_raw).1
downsample-Downsampled_example = downsample-Downsampled to_ten_min (8 * day) two_raw

sweep-MayStay_example : All (MayStay (8 * day)) (sweep false false (8 * day) two_raw)
sweep-MayStay_example = sweep-MayStay (8 * day) two_raw

abbrev early : LayoutSnapshot
early = snapshot 1 (10 * minute) ten_min

abbrev late : LayoutSnapshot
late = snapshot 2 (50 * minute) ten_min

abbrev hour_of_two : List LayoutSnapshot
hour_of_two = early ∷ late ∷ []

abbrev half_past : ℕ
half_past = 37 * day + 30 * minute

abbrev next_sweep : ℕ
next_sweep = 37 * day + 90 * minute

boundary_bucket_splits_example :
    (s t : LayoutSnapshot) × PromotedFrom to_one_hr half_past early hour_of_two s
    × PromotedFrom to_one_hr next_sweep late (downsample to_one_hr half_past hour_of_two).0 t
    × Memᴰ t hour_of_two
    × Memᴰ
        (record s { tier = to_one_hr.to })
        (downsample to_one_hr next_sweep (downsample to_one_hr half_past hour_of_two).0).0
    × Memᴰ
        (record t { tier = to_one_hr.to })
        (downsample to_one_hr next_sweep (downsample to_one_hr half_past hour_of_two).0).0
    × (s.captured_at < t.captured_at)
unfolding is_bucketed to_one_hr hour_bucket
boundary_bucket_splits_example =
    boundary_bucket_splits to_one_hr half_past next_sweep hour_of_two early late refl refl
      (Memᴰ.head refl) (Memᴰ.tail (Memᴰ.head refl)) refl refl refl refl refl

abbrev pub given : Given
given = record { fresh_id = λ rows. 77; now = 5 * day }

abbrev one_snapshot : Body
one_snapshot = decoded (record {
  client_device_id = "laptop";
  snapshots = record { captured_at = some day; windows_hash = "h1"; windows = editor ∷ [] } ∷ [];
})

abbrev stored_one : List LayoutSnapshot
stored_one = record (snapshot 77 day raw) { created_at = 5 * day } ∷ []

layout_ingest-again_example :
    layout_ingest no_faults given anna_calls one_snapshot small_server stored_one
    ≡ (stored_one, ok (record { received = 1; deduped = 1 }))
unfolding layout_ingest
layout_ingest-again_example =
    layout_ingest-again no_faults given given anna_calls one_snapshot small_server [] stored_one
      (record { received = 1; deduped = 0 }) refl

layout_at-Served_example :
    Served anna_calls
      (some (2 * day))
      small_server
      stored_one
      (record (snapshot 77 day raw) { created_at = 5 * day })
unfolding layout_at
layout_at-Served_example =
    layout_at-Served no_faults false anna_calls (some 9) (some (2 * day)) small_server stored_one
      (record (snapshot 77 day raw) { created_at = 5 * day }) refl

abbrev seen : ℕ → Tick
seen now = record {
  ended = false;
  windows = some (editor ∷ []);
  marshal_fails = false;
  insert_fails = false;
  now = now;
}

abbrev hash : List Window → String
hash [] = "empty"
hash (_ ∷ _) = "h1"

abbrev lunch : List Event
lunch = tick (seen 1) ∷ lock away ∷ tick (seen 2) ∷ lock tracking ∷ tick (seen 3) ∷ []

run-changes_example :
    map (λ r. r.windows_hash) (run hash lunch (new_capturer [])).rows
    ≡ map (λ r. r.windows_hash) (new_capturer []).rows
      ++ changes (new_capturer []).last_hash (observed hash (new_capturer []).locked lunch)
run-changes_example = run-changes hash lunch (new_capturer [])
