-- ===== src/Layout/Exchange/Reused.antt =====
-- The id of a pruned row of a batch that is under way goes to a new snapshot.
use trasker.Prelude.{ℕ, false, none, some, List, [], ◌∷◌, String}
use trasker.Layout.Snapshots.{Window}
use trasker.Layout.Local.{Row}
use trasker.Layout.Exchange.{Net, Event, answered, updated, captured, pruned}

-- The row that a capture has made and that was marked.
abbrev pub marked_row : ℕ → ℕ → List Window → String → ℕ → Row
marked_row now at windows hash t = record {
  id = 1;
  captured_at = at;
  windows = windows;
  windows_hash = hash;
  synced_at = some t;
  retry_count = 0;
  last_retry = none;
  created_at = now;
}

-- The steps: a prune, a capture, the answer, and the first update.
abbrev pub reuse : ℕ → ℕ → ℕ → ℕ → List Window → String → Net → ℕ → ℕ → List Event
reuse cut retention now at windows hash net t t' =
    pruned cut retention ∷ captured now at windows hash ∷ answered net t ∷ updated false t' ∷ []
