-- ===== src/Layout/Downsample/Keys.antt =====
-- A sweep makes no key twice.
use trasker.Prelude.{
  ℕ, ◌≤◌, inl, inr, Bool, List, [], ◌∷◌, count, if◌then◌else◌, if_elim, Bool-cases, arith,
}
use trasker.Layout.Snapshots.{LayoutSnapshot, InsertSnapshotParams, is_duplicate}
use trasker.Layout.Downsample.{
  Rule, is_loser, is_survivor, promoted, rewrite, downsample, downsample_to_ten_min,
  downsample_to_one_hr, sweep, to_ten_min, to_one_hr,
}
use trasker.Layout.Ingest.Retried.{OncePerKey}

rewrite-count :
    (q : Rule) (now : ℕ) (all rows : List LayoutSnapshot) (p : InsertSnapshotParams)
    → count (is_duplicate p) (rewrite q now all rows) ≤ count (is_duplicate p) rows
unfolding rewrite promoted is_duplicate
rewrite-count q now all [] p = omega arith
rewrite-count q now all (r ∷ rows) p = elim (Bool-cases (is_loser q now all r)) [
  | inl e ↦ rw e (ground (arith, rewrite-count q now all rows p))
  | inr e ↦ elim (Bool-cases (is_survivor q now all r)) [
    | inl k ↦ rw (e, k) (ground (arith, rewrite-count q now all rows p))
    | inr k ↦ rw (e, k) (ground (arith, rewrite-count q now all rows p))
  ]
]

downsample-OncePerKey :
    (q : Rule) (now : ℕ) (snaps : List LayoutSnapshot)
    → OncePerKey snaps
    → OncePerKey (downsample q now snaps).0
unfolding downsample
downsample-OncePerKey q now snaps h p = omega (arith, rewrite-count q now snaps snaps p, h p)

pub sweep-OncePerKey :
    (f g : Bool) (now : ℕ) (snaps : List LayoutSnapshot)
    → OncePerKey snaps
    → OncePerKey (sweep f g now snaps)
unfolding sweep downsample_to_ten_min downsample_to_one_hr
sweep-OncePerKey f g now snaps h =
    if_elim OncePerKey g _ _ (λ _. first) (λ _. downsample-OncePerKey to_one_hr now _ first)
  where
    first : OncePerKey (if f then snaps else (downsample to_ten_min now snaps).0)
    first = if_elim OncePerKey f _ _ (λ _. h) (λ _. downsample-OncePerKey to_ten_min now snaps h)
