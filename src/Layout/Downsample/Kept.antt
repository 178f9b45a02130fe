-- ===== src/Layout/Downsample/Kept.antt =====
-- What one run of a downsampling statement leaves.
use mathlib.Core.List.{Memᴰ}
use trasker.Prelude.{
  ℕ, ◌+◌, ◌≡◌, ◌≤◌, refl, ◌⊎◌, inl, inr, true, false, List, [], ◌∷◌, count, length, All, All-mono,
  All-mem, All-get, if_elim, subst, arith, ap,
}
use trasker.Layout.Snapshots.{LayoutSnapshot}
use trasker.Layout.Downsample.{
  Rule, is_bucketed, same_partition, row_number, is_survivor, is_loser, promoted, rewrite,
  downsample,
}
use trasker.Layout.Downsample.First.{
  FirstOf, first_exists, partition_of, survivor_iff_first, first-is_survivor, not_after,
}

-- The first row of its partition among those that the statement is about.
abbrev pub IsFirst : Rule → ℕ → List LayoutSnapshot → LayoutSnapshot → Type 0
IsFirst q now rows r =
    Memᴰ r rows × (is_bucketed q now r ≡ true) × FirstOf (partition_of q now r) rows r

-- Where a row of the new table comes from.
abbrev pub Comes : Rule → ℕ → List LayoutSnapshot → LayoutSnapshot → Type 0
Comes q now rows r' =
    (r : LayoutSnapshot) × Memᴰ r rows
    × (((is_bucketed q now r ≡ false) × (r' ≡ r))
        ⊎ (IsFirst q now rows r × (r' ≡ record r { tier = q.to })))

-- The row that stands for another in the new table.
abbrev pub Stands : Rule → ℕ → List LayoutSnapshot → LayoutSnapshot → LayoutSnapshot → Type 0
Stands q now rows' r s =
    Memᴰ (record s { tier = q.to }) rows'
    × (s.device_id ≡ r.device_id)
    × (q.bucket s.captured_at ≡ q.bucket r.captured_at)
    × (s.captured_at ≤ r.captured_at)

pub record Downsampled (q : Rule) (now : ℕ) (rows rows' : List LayoutSnapshot) (n : ℕ)
    : Type 0 where
  -- Rows of another tier, and young ones, stay as they are.
  pub kept : All (λ r. is_bucketed q now r ≡ false → Memᴰ r rows') rows
  -- Each other row is stood for by one of its bucket that is not later.
  pub represented :
      All
        (λ r.
          is_bucketed q now r ≡ true
          → (s : LayoutSnapshot) × IsFirst q now rows s × Stands q now rows' r s)
        rows
  -- There is nothing else: what is promoted is the first row of its bucket.
  pub origin : All (Comes q now rows) rows'
  pub counted : n + length rows' ≡ length rows

module _ (q : Rule) (now : ℕ) (rows : List LayoutSnapshot) where
  rewrite-kept :
      (rs : List LayoutSnapshot) (r : LayoutSnapshot)
      → Memᴰ r rs
      → is_bucketed q now r ≡ false
      → Memᴰ r (rewrite q now rows rs)
  unfolding rewrite is_loser is_survivor
  rewrite-kept [] r m h = elim m [ ]
  rewrite-kept (x ∷ rs) r (Memᴰ.head e) h =
      let h' : is_bucketed q now x ≡ false = subst (λ y. is_bucketed q now y ≡ false) e h in
      rw h' (Memᴰ.head e)
  rewrite-kept (x ∷ rs) r (Memᴰ.tail m) h =
      if_elim (Memᴰ r) (is_loser q now rows x) _ _ (λ _. rewrite-kept rs r m h)
        (λ _. Memᴰ.tail (rewrite-kept rs r m h))

  survivor-not_loser :
      (r : LayoutSnapshot) → is_survivor q now rows r ≡ true → is_loser q now rows r ≡ false
  unfolding is_loser is_survivor
  survivor-not_loser r h = ground arith

  rewrite-promoted :
      (rs : List LayoutSnapshot) (r : LayoutSnapshot)
      → Memᴰ r rs
      → is_survivor q now rows r ≡ true
      → Memᴰ (record r { tier = q.to }) (rewrite q now rows rs)
  unfolding rewrite promoted
  rewrite-promoted [] r m h = elim m [ ]
  rewrite-promoted (x ∷ rs) r (Memᴰ.head e) h =
      let h' : is_survivor q now rows x ≡ true = subst (λ y. is_survivor q now rows y ≡ true) e h in
      rw (survivor-not_loser x h', h')
        (Memᴰ.head (ap (λ (y : LayoutSnapshot). record y { tier = q.to }) e))
  rewrite-promoted (x ∷ rs) r (Memᴰ.tail m) h =
      if_elim (Memᴰ (record r { tier = q.to })) (is_loser q now rows x) _ _
        (λ _. rewrite-promoted rs r m h) (λ _. Memᴰ.tail (rewrite-promoted rs r m h))

  survivor-bucketed :
      (r : LayoutSnapshot) → is_survivor q now rows r ≡ true → is_bucketed q now r ≡ true
  unfolding is_survivor
  survivor-bucketed r h = ground arith

  rest-bucketed :
      (r : LayoutSnapshot)
      → is_loser q now rows r ≡ false
      → is_survivor q now rows r ≡ false
      → is_bucketed q now r ≡ false
  unfolding is_survivor is_loser row_number
  rest-bucketed r h k = ground arith

  rewrite-origin :
      (rs : List LayoutSnapshot)
      → All (λ r. Memᴰ r rows) rs
      → All (Comes q now rows) (rewrite q now rows rs)
  unfolding rewrite promoted
  rewrite-origin [] h = tt
  rewrite-origin (r ∷ rs) h =
      if_elim (All (Comes q now rows)) (is_loser q now rows r) _ _ (λ _. rewrite-origin rs h.1)
        (λ e. (
          if_elim (Comes q now rows) (is_survivor q now rows r) _ _
              (λ k. (
                r,
                h.0,
                inr ((h.0, survivor-bucketed r k, survivor_iff_first q now rows r k), refl),
              ))
              (λ k. (r, h.0, inl (rest-bucketed r e k, refl))),
          rewrite-origin rs h.1,
        ))

  rewrite-counted :
      (rs : List LayoutSnapshot)
      → count (is_loser q now rows) rs + length (rewrite q now rows rs) ≡ length rs
  unfolding rewrite
  rewrite-counted [] = refl
  rewrite-counted (r ∷ rs) = ground (arith, rewrite-counted rs)

  -- The row of a bucket that survives.
  pub survivor_of :
      (r : LayoutSnapshot)
      → Memᴰ r rows
      → is_bucketed q now r ≡ true
      → (s : LayoutSnapshot) × IsFirst q now rows s × Stands q now (rewrite q now rows rows) r s
  unfolding is_bucketed same_partition
  survivor_of r m h =
      let (s, m', k, f) = first_exists (partition_of q now r) rows r m (ground (arith, h)) in
      let v = first-is_survivor q now rows r s k f in
      (
        s,
        (m', survivor-bucketed s v, survivor_iff_first q now rows s v),
        (
          rewrite-promoted rows s m' v,
          ground (arith, k),
          ground (arith, k),
          not_after r s (All-get _ rows r f m (ground (arith, h))),
        ),
      )

-- What a downsampling statement does to any table: rows of another tier and young ones stay; each
-- other row keeps a representative of its device and bucket, captured no later; a row of the new
-- table is an old one untouched or the promoted first row of its bucket; and the number returned is
-- that of the rows gone.
pub downsample-Downsampled :
    (q : Rule) (now : ℕ) (rows : List LayoutSnapshot)
    → Downsampled q now rows (downsample q now rows).0 (downsample q now rows).1
unfolding downsample
downsample-Downsampled q now rows = record {
  kept = All-mono _ _ rows (λ r m h. rewrite-kept q now rows rows r m h) (All-mem rows);
  represented = All-mono _ _ rows (λ r m h. survivor_of q now rows r m h) (All-mem rows);
  origin = rewrite-origin q now rows rows (All-mem rows);
  counted = rewrite-counted q now rows rows;
}
