-- ===== src/AutoSubmit/Saved.antt =====
-- What saving the settings does to the cycle.
use trasker.Prelude.{ℕ, ◌+◌, ◌*◌, ◌<◌, ◌≡◌, true, false, List, none, some, ok, arith}
use trasker.Store.Tables.{Db}
use trasker.AutoSubmit.{Settings, valid_interval, enabled, next_run, load, upsert, save}

-- How the settings `s'` follow from `s` when `hours` is saved at `now`.
pub record Cycle (hours now : ℕ) (s s' : Settings) : Type 0 where
  pub cadence : s'.interval_hours ≡ hours
  pub turned_off : hours ≡ 0 → (enabled s' ≡ false) × (next_run s' ≡ none)
  pub turned_on :
      0 < hours
      → s.enabled_at ≡ none
      → (enabled s' ≡ true) × (s'.enabled_at ≡ some now) × (next_run s' ≡ some (now + hours * 3600))
  pub kept :
      (c : ℕ)
      → 0 < hours
      → s.enabled_at ≡ some c
      → (enabled s' ≡ true) × (s'.enabled_at ≡ some c) × (s'.last_run ≡ s.last_run)

upsert-Cycle :
    (hours now : ℕ) (db db' : Db)
    → db'.auto_submit_config ≡ some (upsert hours now db.auto_submit_config)
    → Cycle hours now (load db) (load db')
unfolding upsert load enabled next_run
upsert-Cycle hours now db db' e = record {
  cadence = ground arith;
  turned_off = λ h. ground arith;
  turned_on = λ h k. ground arith;
  kept = λ c h k. ground arith;
}

-- A `Save` that succeeds passed its guard and wrote the upserted row.
pub save-ok :
    (hours now : ℕ) (tag_ids : List ℕ) (db db' : Db)
    → save hours tag_ids now db ≡ ok db'
    → (valid_interval hours ≡ true)
      × (db'.auto_submit_config ≡ some (upsert hours now db.auto_submit_config))
unfolding save
save-ok hours now tag_ids db db' h = ground arith

-- A `Save` that succeeds was of an offered cadence. Off, nothing is ever due; turned on, the cutoff
-- is the time of the call and the first run is one interval later; changed while on, the cutoff and
-- the last run stay.
pub save-Cycle :
    (hours now : ℕ) (tag_ids : List ℕ) (db db' : Db)
    → save hours tag_ids now db ≡ ok db'
    → (valid_interval hours ≡ true) × Cycle hours now (load db) (load db')
save-Cycle hours now tag_ids db db' h =
    let (valid, row) = save-ok hours now tag_ids db db' h in
    (valid, upsert-Cycle hours now db db' row)
