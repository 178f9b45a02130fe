-- ===== src/Prelude/Perm.antt =====
-- Sums, counts and tests do not depend on the order of a list.
use mathlib.Core.List.{Perm, Permᴰ}
use mathlib.Core.Logic.{∥∥₁_elim}
use mathlib.Core.Path.{◌≡◌, refl, ap, ◌∙◌, sym}
use mathlib.Core.List.{List, map}
use trasker.Prelude.Int.{ℤ, ◌+ℤ◌, sum_ℤ, +ℤ_assoc, +ℤ_comm}

pub ℤ-set : IsSet ℤ
ℤ-set = hlevel

module _ {ℓ} {A : Type ℓ} (f : A → ℤ) where
  abbrev pub total : List A → ℤ
  total xs = sum_ℤ (map f xs)

  total-permᴰ : (xs ys : List A) → Permᴰ xs ys → total xs ≡ total ys
  unfolding sum_ℤ
  total-permᴰ _ _ Permᴰ.nil = refl
  total-permᴰ _ _ (Permᴰ.cons e p) = λ i. f (e i) +ℤ total-permᴰ _ _ p i
  total-permᴰ _ _ (Permᴰ.swap {a = a} {b = b} {l = l} e e') =
      sym (+ℤ_assoc (f a) (f b) (total l))
      ∙ ap (λ s. s +ℤ total l) (+ℤ_comm (f a) (f b))
      ∙ +ℤ_assoc (f b) (f a) (total l)
      ∙ (λ i. f (e' i) +ℤ (f (e i) +ℤ total l))
  total-permᴰ _ _ (Permᴰ.trans p q) = total-permᴰ _ _ p ∙ total-permᴰ _ _ q

  pub total-perm : {xs ys : List A} → Perm xs ys → total xs ≡ total ys
  total-perm {xs} {ys} p = ∥∥₁_elim p (ℤ-set _ _) (total-permᴰ xs ys)
