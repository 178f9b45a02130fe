-- ===== src/Layout/Downsample/First.antt =====
-- The order of a partition has a first row, and it alone has row number 1.
use mathlib.Core.List.{Memᴰ}
use trasker.Prelude.{
  ℕ, ◌≡◌, ◌≤◌, refl, ◌⊎◌, inl, inr, Bool, true, false, List, [], ◌∷◌, ◌&&◌, count, All, All-mono,
  All-get, Bool-cases, arith,
}
use trasker.Layout.Snapshots.{LayoutSnapshot}
use trasker.Layout.Downsample.{
  Rule, is_bucketed, same_partition, precedes, is_ahead, row_number, is_survivor,
}

precedes_self : (a : LayoutSnapshot) → precedes a a ≡ false
unfolding precedes
precedes_self a = ground arith

precedes-later :
    (a s x : LayoutSnapshot) → precedes a s ≡ false → precedes x s ≡ true → precedes a x ≡ false
unfolding precedes
precedes-later a s x h k = ground arith

precedes-neither :
    (a s x : LayoutSnapshot) → precedes a s ≡ false → precedes s x ≡ false → precedes a x ≡ false
unfolding precedes
precedes-neither a s x h k = ground arith

-- No row that passes the test comes before `s`.
abbrev pub FirstOf : (LayoutSnapshot → Bool) → List LayoutSnapshot → LayoutSnapshot → Type 0
FirstOf p rows s = All (λ a. p a ≡ true → precedes a s ≡ false) rows

first_of :
    (p : LayoutSnapshot → Bool) (rows : List LayoutSnapshot)
    → All (λ a. p a ≡ false) rows
      ⊎ ((s : LayoutSnapshot) × Memᴰ s rows × (p s ≡ true) × FirstOf p rows s)
first_of p [] = inl tt
first_of p (x ∷ xs) = elim (Bool-cases (p x)) [
  | inl e ↦ elim (first_of p xs) [
    | inl none_passes ↦ inr (
      x,
      Memᴰ.head refl,
      e,
      (
        (λ _. precedes_self x),
        All-mono _ _ xs (λ a h k. absurd (ground (arith, h, k))) none_passes,
      ),
    )
    | inr (s, m, k, f) ↦ elim (Bool-cases (precedes x s)) [
      | inl b ↦ inr (
        x,
        Memᴰ.head refl,
        e,
        ((λ _. precedes_self x), All-mono _ _ xs (λ a h t. precedes-later a s x (h t) b) f),
      )
      | inr b ↦ inr (s, Memᴰ.tail m, k, ((λ _. b), f))
    ]
  ]
  | inr e ↦ elim (first_of p xs) [
    | inl none_passes ↦ inl (e, none_passes)
    | inr (s, m, k, f) ↦ inr (s, Memᴰ.tail m, k, ((λ t. absurd (ground arith)), f))
  ]
]

pub first_exists :
    (p : LayoutSnapshot → Bool) (rows : List LayoutSnapshot) (r : LayoutSnapshot)
    → Memᴰ r rows
    → p r ≡ true
    → (s : LayoutSnapshot) × Memᴰ s rows × (p s ≡ true) × FirstOf p rows s
first_exists p rows r m h = elim (first_of p rows) [
  | inl none_passes ↦ absurd (ground (arith, All-get _ rows r none_passes m))
  | inr found ↦ found
]

pub count-none {ℓ} :
    {A : Type ℓ} (p : A → Bool) (xs : List A) → All (λ a. p a ≡ false) xs → count p xs ≡ 0
count-none p [] h = refl
count-none p (x ∷ xs) h = ground (arith, count-none p xs h.1)

none-count {ℓ} :
    {A : Type ℓ} (p : A → Bool) (xs : List A) → count p xs ≡ 0 → All (λ a. p a ≡ false) xs
none-count p [] h = tt
none-count p (x ∷ xs) h = elim (Bool-cases (p x)) [
  | inl e ↦ absurd (ground arith)
  | inr e ↦ (e, none-count p xs (ground arith))
]

-- The rows of the partition of `r`.
abbrev pub partition_of : Rule → ℕ → LayoutSnapshot → LayoutSnapshot → Bool
unfolding is_bucketed same_partition
partition_of q now r a = is_bucketed q now a && same_partition q a r

pub survivor_iff_first :
    (q : Rule) (now : ℕ) (rows : List LayoutSnapshot) (r : LayoutSnapshot)
    → is_survivor q now rows r ≡ true
    → FirstOf (partition_of q now r) rows r
unfolding is_survivor row_number is_ahead
survivor_iff_first q now rows r h =
    All-mono _ _ rows (λ a e k. ground (arith, e, k))
      (none-count (is_ahead q now r) rows (ground arith))

pub first-is_survivor :
    (q : Rule) (now : ℕ) (rows : List LayoutSnapshot) (r s : LayoutSnapshot)
    → partition_of q now r s ≡ true
    → FirstOf (partition_of q now r) rows s
    → is_survivor q now rows s ≡ true
unfolding is_survivor row_number is_ahead
first-is_survivor q now rows r s k f =
    ground (arith, count-none (is_ahead q now s) rows (All-mono _ _ rows (λ a e. not_ahead a e) f))
  where
    not_ahead :
        (a : LayoutSnapshot)
        → (partition_of q now r a ≡ true → precedes a s ≡ false)
        → is_ahead q now s a ≡ false
    not_ahead a e = elim (Bool-cases (partition_of q now r a)) [
      | inl t ↦ ground (arith, e t)
      | inr t ↦ ground (arith, k, t)
    ]

pub not_after : (r s : LayoutSnapshot) → precedes r s ≡ false → s.captured_at ≤ r.captured_at
unfolding precedes
not_after r s h = ground arith
