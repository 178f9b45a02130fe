-- ===== src/Layout/Exchange/Marks.antt =====
-- What the client's updates of its rows keep.
use trasker.Prelude.{
  ℕ, ◌*◌, ◌≡◌, refl, sym, subst, true, some, List, [], ◌∷◌, ◌==◌, is_some, All, All-mono,
}
use trasker.Layout.Snapshots.{LayoutSnapshot}
use trasker.Layout.Downsample.{second}
use trasker.Layout.Ingest.{SnapshotReq}
use trasker.Layout.Ingest.Retried.{Stored}
use trasker.Layout.Local.{Row, mark_synced, bump_retry}
use trasker.Layout.Exchange.Batches.{DistinctIds, update-DistinctIds, mark-All, bump-All}

-- The snapshot as the server decodes it.
abbrev pub request : Row → SnapshotReq
request r = record {
  captured_at = some (r.captured_at * second);
  windows_hash = r.windows_hash;
  windows = r.windows;
}

-- The rows hold one of the snapshot.
abbrev pub OnServer : ℕ → List LayoutSnapshot → Row → Type 0
OnServer device_id snaps r = Stored device_id snaps (request r)

-- If a row is held for synced, the rows of the server hold its snapshot.
abbrev pub SyncedStored : ℕ → List LayoutSnapshot → Row → Type 0
SyncedStored device_id snaps r = is_some r.synced_at ≡ true → OnServer device_id snaps r

-- A row of the table with the id of one that was listed is that one, with the same snapshot.
abbrev pub Tied : List Row → Row → Type 0
Tied rows f = All (λ r. r.id ≡ f.id → request r ≡ request f) rows

module _ (d : ℕ) (history : List LayoutSnapshot) where
  both :
      (rows : List Row) (f : Row)
      → Tied rows f
      → OnServer d history f
      → All (SyncedStored d history) rows
      → All (λ r. SyncedStored d history r × (r.id ≡ f.id → OnServer d history r)) rows
  both [] f t o h = tt
  both (r ∷ rows) f t o h =
      ((h.0, (λ e. subst (Stored d history) (sym (t.0 e)) o)), both rows f t.1 o h.1)

  -- Marking the row with the id of one that the server has had.
  pub mark-SyncedStored :
      (t : ℕ) (rows : List Row) (f : Row)
      → Tied rows f
      → OnServer d history f
      → All (SyncedStored d history) rows
      → All (SyncedStored d history) (mark_synced f.id t rows)
  mark-SyncedStored t rows f n o h =
      All-mono _ _ _ (λ r k. k.0)
        (mark-All (λ r. SyncedStored d history r × (r.id ≡ f.id → OnServer d history r)) f.id rows t
          (λ r e k. ((λ _. k.1 e), k.1)) (both rows f n o h))

-- What was listed stays tied through the updates by id.
pub mark-Tied : (i t : ℕ) (rows : List Row) (f : Row) → Tied rows f → Tied (mark_synced i t rows) f
mark-Tied i t rows f h = mark-All (λ r. r.id ≡ f.id → request r ≡ request f) i rows t (λ r _ k. k) h

pub bump-Tied :
    (i n t : ℕ) (rows : List Row) (f : Row) → Tied rows f → Tied (bump_retry i n t rows) f
bump-Tied i n t rows f h =
    bump-All (λ r. r.id ≡ f.id → request r ≡ request f) i rows n t (λ r k. k) h

pub mark-DistinctIds :
    (i t : ℕ) (rows : List Row) → DistinctIds rows → DistinctIds (mark_synced i t rows)
unfolding mark_synced
mark-DistinctIds i t rows h = update-DistinctIds (λ r. r.id == i) _ rows (λ r. refl) h

pub bump-DistinctIds :
    (i n t : ℕ) (rows : List Row) → DistinctIds rows → DistinctIds (bump_retry i n t rows)
unfolding bump_retry
bump-DistinctIds i n t rows h = update-DistinctIds (λ r. r.id == i) _ rows (λ r. refl) h
