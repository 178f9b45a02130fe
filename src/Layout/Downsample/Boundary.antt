-- ===== src/Layout/Downsample/Boundary.antt =====
-- Runs one after another: the second at the same time does nothing, and a bucket that the age
-- limit cuts is thinned in two parts.
use mathlib.Core.List.{Memᴰ}
use trasker.Prelude.{
  ℕ, ◌+◌, ◌*◌, ◌≡◌, ◌≤◌, ◌<◌, refl, inl, inr, true, false, List, [], ◌∷◌, ◌&&◌, ltb, count, All,
  All-mono, All-get, subst, sym, arith, ap,
}
use trasker.Layout.Snapshots.{LayoutSnapshot, Tier, raw, ten_min}
use trasker.Layout.Downsample.{
  Rule, is_tier, is_bucketed, is_survivor, is_loser, rewrite, downsample, sweep,
  downsample_to_ten_min, downsample_to_one_hr, to_ten_min, to_one_hr, day,
}
use trasker.Layout.Downsample.Kept.{Comes, downsample-Downsampled}

-- A promoted row is not for the same statement again.
Comes-done :
    (q : Rule) (now now' : ℕ) (rows : List LayoutSnapshot) (r' : LayoutSnapshot)
    → is_tier q.to q.from ≡ false
    → now' ≤ now
    → Comes q now rows r'
    → is_bucketed q now' r' ≡ false
unfolding is_bucketed
Comes-done q now now' rows r' t l (r, m, inl (h, e)) = rw e (ground arith)
Comes-done q now now' rows r' t l (r, m, inr (h, e)) = rw (e, t)

-- After a run no row is left for it.
pub run_done :
    (q : Rule) (now now' : ℕ) (rows : List LayoutSnapshot)
    → is_tier q.to q.from ≡ false
    → now' ≤ now
    → All (λ r. is_bucketed q now' r ≡ false) (downsample q now rows).0
run_done q now now' rows t l =
    All-mono _ _ _ (λ r h. Comes-done q now now' rows r t l h)
      (downsample-Downsampled q now rows).origin

untouched :
    (q : Rule) (now : ℕ) (all rows : List LayoutSnapshot)
    → All (λ r. is_bucketed q now r ≡ false) rows
    → (rewrite q now all rows ≡ rows) × (count (is_loser q now all) rows ≡ 0)
unfolding rewrite is_loser is_survivor
untouched q now all [] h = (refl, refl)
untouched q now all (r ∷ rows) h =
    let (e, k) = untouched q now all rows h.1 in (rw h.0 (ap (λ l. r ∷ l) e), rw h.0 k)

-- A second run of a statement that promotes out of its own tier, at the same time or an earlier one,
-- finds nothing: it changes no row and reports none deleted.
pub downsample-again :
    (q : Rule) (now now' : ℕ) (rows : List LayoutSnapshot)
    → is_tier q.to q.from ≡ false
    → now' ≤ now
    → downsample q now' (downsample q now rows).0 ≡ ((downsample q now rows).0, 0)
unfolding downsample
downsample-again q now now' rows t l =
    let (e, k) =
      untouched q now' (rewrite q now rows rows) (rewrite q now rows rows)
        (run_done q now now' rows t l) in
    λ i. (e i, k i)

-- How old a row of a tier may be.
abbrev pub MayStay : ℕ → LayoutSnapshot → Type 0
MayStay now r =
    (r.tier ≡ raw → now ≤ r.captured_at + 7 * day)
    × (r.tier ≡ ten_min → now ≤ r.captured_at + 37 * day)

young :
    (q : Rule) (now : ℕ) (r : LayoutSnapshot)
    → is_tier q.from q.from ≡ true
    → is_bucketed q now r ≡ false
    → r.tier ≡ q.from
    → now ≤ r.captured_at + q.age
unfolding is_bucketed
young q now r t h e =
    let h' : (is_tier q.from q.from && ltb (r.captured_at + q.age) now) ≡ false =
      subst (λ x. (is_tier x q.from && ltb (r.captured_at + q.age) now) ≡ false) e h in
    ground arith

-- After a sweep in which neither statement fails no raw row is older than seven days, and no
-- ten-minute row older than thirty-seven.
pub sweep-MayStay :
    (now : ℕ) (rows : List LayoutSnapshot) → All (MayStay now) (sweep false false now rows)
unfolding sweep downsample_to_ten_min downsample_to_one_hr to_ten_min to_one_hr
sweep-MayStay now rows =
    All-mono _ _ _ (λ r c. stays r c) (downsample-Downsampled to_one_hr now rows').origin
  where
    rows' : List LayoutSnapshot
    rows' = (downsample to_ten_min now rows).0

    raw_young : All (λ r. is_bucketed to_ten_min now r ≡ false) rows'
    raw_young = run_done to_ten_min now now rows refl (omega arith)

    stays : (r' : LayoutSnapshot) → Comes to_one_hr now rows' r' → MayStay now r'
    stays r' (r, m, inl (h, e)) =
        rw e (
          young to_ten_min now r refl (All-get _ rows' r raw_young m),
          young to_one_hr now r refl h,
        )
    stays r' (r, m, inr (h, e)) = rw e ((λ t. cc), (λ t. cc))

-- A run on the table takes a row of the device and bucket of another, and its table has the row with
-- the new tier.
abbrev pub PromotedFrom : Rule → ℕ → LayoutSnapshot → List LayoutSnapshot → LayoutSnapshot → Type 0
PromotedFrom q now a rows s =
    Memᴰ s rows
    × (is_bucketed q now s ≡ true)
    × Memᴰ (record s { tier = q.to }) (downsample q now rows).0
    × (s.device_id ≡ a.device_id)
    × (q.bucket s.captured_at ≡ q.bucket a.captured_at)

-- The age limit is not one of the bucket's ends. Of two rows of one device and bucket, let a run
-- take the first while the second is too young, and a later run take the second. Then each run
-- promotes a row of that device and bucket, the first run one that it takes itself and the second
-- one that is later and that it has left alone; after the second run both stand in the table with
-- the new tier.
pub boundary_bucket_splits :
    (q : Rule) (now now' : ℕ) (rows : List LayoutSnapshot) (a b : LayoutSnapshot)
    → is_tier q.to q.from ≡ false
    → is_tier q.from q.from ≡ true
    → Memᴰ a rows
    → Memᴰ b rows
    → a.device_id ≡ b.device_id
    → q.bucket a.captured_at ≡ q.bucket b.captured_at
    → is_bucketed q now a ≡ true
    → is_bucketed q now b ≡ false
    → is_bucketed q now' b ≡ true
    → let one = (downsample q now rows).0 in
      let two = (downsample q now' one).0 in
      (s t : LayoutSnapshot) × PromotedFrom q now a rows s
      × PromotedFrom q now' b one t
      × Memᴰ t rows
      × Memᴰ (record s { tier = q.to }) two
      × Memᴰ (record t { tier = q.to }) two
      × (s.captured_at < t.captured_at)
unfolding is_bucketed
boundary_bucket_splits q now now' rows a b t f ma mb d k ha hb hb' =
    let one = downsample-Downsampled q now rows in
    let two = downsample-Downsampled q now' (downsample q now rows).0 in
    let (x, first_x, at_x) = All-get _ rows a one.represented ma ha in
    let (y, first_y, at_y) = All-get _ _ b two.represented (All-get _ rows b one.kept mb hb) hb' in
    let old = later x y first_x.1 first_y.1 (All-get _ _ y one.origin first_y.0) in
    (
      x,
      y,
      (first_x.0, first_x.1, at_x.0, at_x.1, at_x.2),
      (first_y.0, first_y.1, at_y.0, at_y.1, at_y.2),
      old.0,
      All-get _ _ _ two.kept at_x.0 (ground (arith, t)),
      at_y.0,
      old.1,
    )
  where
    later :
        (x y : LayoutSnapshot)
        → is_bucketed q now x ≡ true
        → is_bucketed q now' y ≡ true
        → Comes q now rows y
        → Memᴰ y rows × (x.captured_at < y.captured_at)
    later x y hx hy (r, m, inl (h, e)) =
        let h' = subst (λ z. is_bucketed q now z ≡ false) (sym e) h in
        (subst (λ z. Memᴰ z rows) (sym e) m, ground (arith, h', hx, hy))
    later x y hx hy (r, m, inr (h, e)) =
        absurd (clash y.tier (ap (λ (z : LayoutSnapshot). z.tier) e) (ground (arith, hy)))
      where
        clash : (u : Tier) → u ≡ q.to → is_tier u q.from ≡ true → ⊥
        clash u e' g =
            let g' : is_tier q.to q.from ≡ true = subst (λ z. is_tier z q.from ≡ true) e' g in cc
