-- ===== src/Prelude/Sort.antt =====
-- Stable sorting by a key: what `sort.Slice` and SQL's ORDER BY return, up to the order of equal keys.
use mathlib.Core.List.Perm
use mathlib.Core.List.{Perm}
use Prim.Native.Nat.{ℕ, ◌≤◌}
use mathlib.Core.Path.{◌≡◌, refl}
use mathlib.Core.Logic.{inl, inr, ◌⊎◌}
use mathlib.Core.Path.{◌≡◌, refl}
use mathlib.Core.Bool.{Bool}
use mathlib.Core.List.{List, [], ◌∷◌, Memᴰ}
use native.Mathlib.Omega.{arith}
use trasker.Prelude.Tests.{leb, if◌then◌else◌, Bool-cases, if_elim}
use trasker.Prelude.Lists.{All, count}

module _ {ℓ} {A : Type ℓ} (key : A → ℕ) where
  unfoldable pub insert_by : A → List A → List A
  insert_by x [] = x ∷ []
  insert_by x (y ∷ ys) = if leb (key x) (key y) then x ∷ y ∷ ys else y ∷ insert_by x ys

  unfoldable pub sort_by : List A → List A
  unfolding insert_by
  sort_by [] = []
  sort_by (x ∷ xs) = insert_by x (sort_by xs)

  -- Every key is at most the next.
  abbrev pub IsSortedBy : List A → Type 0
  IsSortedBy [] = Unit
  IsSortedBy (x ∷ []) = Unit
  IsSortedBy (x ∷ y ∷ ys) = (key x ≤ key y) × IsSortedBy (y ∷ ys)

  pub insert_by-perm : (x : A) (ys : List A) → Perm (insert_by x ys) (x ∷ ys)
  unfolding insert_by
  insert_by-perm x [] = Perm.refl _
  insert_by-perm x (y ∷ ys) = elim (Bool-cases (leb (key x) (key y))) [
    | inl e ↦ rw e (Perm.refl _)
    | inr e ↦ rw e (Perm.trans (Perm.cons y (insert_by-perm x ys)) (Perm.swap x y ys))
  ]

  pub sort_by-perm : (xs : List A) → Perm (sort_by xs) xs
  unfolding sort_by
  sort_by-perm [] = Perm.refl _
  sort_by-perm (x ∷ xs) = Perm.trans (insert_by-perm x (sort_by xs)) (Perm.cons x (sort_by-perm xs))

  insert_by-IsSortedBy : (x : A) (ys : List A) → IsSortedBy ys → IsSortedBy (insert_by x ys)
  unfolding insert_by
  insert_by-IsSortedBy x [] h = tt
  insert_by-IsSortedBy x (y ∷ []) h = ground arith
  insert_by-IsSortedBy x (y ∷ z ∷ zs) h = ground (arith, insert_by-IsSortedBy x (z ∷ zs) h.1)

  insert_by-All {κ} :
      (P : A → Type κ) (x : A) (ys : List A) → P x → All P ys → All P (insert_by x ys)
  unfolding insert_by
  insert_by-All P x [] p h = (p, tt)
  insert_by-All P x (y ∷ ys) p h =
      if_elim (All P) (leb (key x) (key y)) _ _ (λ _. (p, h))
        (λ _. (h.0, insert_by-All P x ys p h.1))

  pub sort_by-IsSortedBy : (xs : List A) → IsSortedBy (sort_by xs)
  unfolding sort_by
  sort_by-IsSortedBy [] = tt
  sort_by-IsSortedBy (x ∷ xs) = insert_by-IsSortedBy x (sort_by xs) (sort_by-IsSortedBy xs)

  -- What holds of every element holds of every element of the sorted list.
  pub sort_by-All {κ} : (P : A → Type κ) (xs : List A) → All P xs → All P (sort_by xs)
  unfolding sort_by
  sort_by-All P [] h = tt
  sort_by-All P (x ∷ xs) h = insert_by-All P x (sort_by xs) h.0 (sort_by-All P xs h.1)

  insert_by-mem : (x z : A) (ys : List A) → (z ≡ x) ⊎ Memᴰ z ys → Memᴰ z (insert_by x ys)
  unfolding insert_by
  insert_by-mem x z [] (inl e) = Memᴰ.head e
  insert_by-mem x z [] (inr m) = elim m [ ]
  insert_by-mem x z (y ∷ ys) (inl e) =
      if_elim (Memᴰ z) (leb (key x) (key y)) _ _ (λ _. Memᴰ.head e)
        (λ _. Memᴰ.tail (insert_by-mem x z ys (inl e)))
  insert_by-mem x z (y ∷ ys) (inr (Memᴰ.head e)) =
      if_elim (Memᴰ z) (leb (key x) (key y)) _ _ (λ _. Memᴰ.tail (Memᴰ.head e)) (λ _. Memᴰ.head e)
  insert_by-mem x z (y ∷ ys) (inr (Memᴰ.tail m)) =
      if_elim (Memᴰ z) (leb (key x) (key y)) _ _ (λ _. Memᴰ.tail (Memᴰ.tail m))
        (λ _. Memᴰ.tail (insert_by-mem x z ys (inr m)))

  pub sort_by-mem : (z : A) (xs : List A) → Memᴰ z xs → Memᴰ z (sort_by xs)
  unfolding sort_by
  sort_by-mem z [] m = elim m [ ]
  sort_by-mem z (x ∷ xs) (Memᴰ.head e) = insert_by-mem x z (sort_by xs) (inl e)
  sort_by-mem z (x ∷ xs) (Memᴰ.tail m) = insert_by-mem x z (sort_by xs) (inr (sort_by-mem z xs m))

  count-insert_by :
      (p : A → Bool) (x : A) (ys : List A) → count p (insert_by x ys) ≡ count p (x ∷ ys)
  unfolding insert_by
  count-insert_by p x [] = refl
  count-insert_by p x (y ∷ ys) = ground (arith, count-insert_by p x ys)

  pub count-sort_by : (p : A → Bool) (xs : List A) → count p (sort_by xs) ≡ count p xs
  unfolding sort_by
  count-sort_by p [] = refl
  count-sort_by p (x ∷ xs) = ground (arith, count-insert_by p x (sort_by xs), count-sort_by p xs)
