-- ===== src/Prelude/Lists.antt =====
-- Lists measured and indexed by native numbers, under the library's names; Boolean filters.
use Prim.Native.Nat.{ℕ, zero, suc, ◌+◌, ◌≤◌, ◌<◌}
use mathlib.Core.Path.{◌≡◌, refl, ap, subst, sym}
use mathlib.Core.Bool.{Bool, true, false, ◌||◌}
use mathlib.Core.List.{List, [], ◌∷◌, ◌++◌, map, Memᴰ}
use mathlib.Core.Option.{Option, none, some}
use native.Mathlib.Omega.{arith}
use mathlib.Core.Logic.{inl, inr}
use trasker.Prelude.Tests.{if◌then◌else◌, if_elim, ltb, Bool-cases}

module _ {ℓ} {A : Type ℓ} where
  abbrev pub length : List A → ℕ
  length [] = 0
  length (_ ∷ xs) = suc (length xs)

  abbrev pub get_elem? : List A → ℕ → Option A
  get_elem? [] i = none
  get_elem? (x ∷ xs) zero = some x
  get_elem? (x ∷ xs) (suc i) = get_elem? xs i

  abbrev pub take : ℕ → List A → List A
  take zero xs = []
  take (suc n) [] = []
  take (suc n) (x ∷ xs) = x ∷ take n xs

  abbrev pub any : (A → Bool) → List A → Bool
  any p [] = false
  any p (x ∷ xs) = p x || any p xs

  abbrev pub filter : (A → Bool) → List A → List A
  filter p [] = []
  filter p (x ∷ xs) = if p x then x ∷ filter p xs else filter p xs

  -- The first element that passes the test.
  abbrev pub find : (A → Bool) → List A → Option A
  find p [] = none
  find p (x ∷ xs) = if p x then some x else find p xs

  -- What holds of every element.
  abbrev pub All {κ} : (A → Type κ) → List A → Type κ
  All P [] = Unit
  All P (x ∷ xs) = P x × All P xs

module _ {ℓ} {A : Type ℓ} where
  pub length-append : (xs ys : List A) → length (xs ++ ys) ≡ length xs + length ys
  length-append [] ys = omega arith
  length-append (x ∷ xs) ys = omega (arith, length-append xs ys)

  pub get_elem?-lt : (xs : List A) (i : ℕ) → i < length xs → (a : A) × (get_elem? xs i ≡ some a)
  get_elem?-lt [] i h = elim h [ ]
  get_elem?-lt (x ∷ xs) zero h = (x, refl)
  get_elem?-lt (x ∷ xs) (suc i) h = get_elem?-lt xs i (omega arith)

  pub All-append {κ} : (P : A → Type κ) (xs ys : List A) → All P xs → All P ys → All P (xs ++ ys)
  All-append P [] ys hx hy = hy
  All-append P (x ∷ xs) ys hx hy = (hx.0, All-append P xs ys hx.1 hy)

  pub All-mono {κ κ'} :
      (P : A → Type κ) (Q : A → Type κ') (xs : List A) → ((x : A) → P x → Q x) → All P xs → All Q xs
  All-mono P Q [] f h = tt
  All-mono P Q (x ∷ xs) f h = (f x h.0, All-mono P Q xs f h.1)

  -- What passes a test, and had `P` before, has both.
  pub All-filter {κ} :
      (P : A → Type κ) (p : A → Bool) (xs : List A)
      → All P xs
      → All (λ x. (p x ≡ true) × P x) (filter p xs)
  All-filter P p [] h = tt
  All-filter P p (x ∷ xs) h = ground (arith, All-filter P p xs h.1)

abbrev pub sum : List ℕ → ℕ
sum [] = 0
sum (x ∷ xs) = x + sum xs

pub sum-append : (xs ys : List ℕ) → sum (xs ++ ys) ≡ sum xs + sum ys
sum-append [] ys = omega arith
sum-append (x ∷ xs) ys = omega (arith, sum-append xs ys)

module _ {ℓ} {A : Type ℓ} (p : A → Bool) where
  pub any-append_left : (xs ys : List A) → any p xs ≡ true → any p (xs ++ ys) ≡ true
  any-append_left [] ys h = absurd (ground arith)
  any-append_left (x ∷ xs) ys h = ground (arith, any-append_left xs ys)

  pub any-append_last : (xs : List A) (y : A) → p y ≡ true → any p (xs ++ y ∷ []) ≡ true
  any-append_last [] y h = ground arith
  any-append_last (x ∷ xs) y h = ground (arith, any-append_last xs y)

module _ {ℓ} {A : Type ℓ} where
  -- Every element is a member.
  pub All-mem : (xs : List A) → All (λ x. Memᴰ x xs) xs
  All-mem [] = tt
  All-mem (x ∷ xs) = (Memᴰ.head refl, All-mono _ _ xs (λ y m. Memᴰ.tail m) (All-mem xs))

  pub All-get {κ} : (P : A → Type κ) (xs : List A) (x : A) → All P xs → Memᴰ x xs → P x
  All-get P [] x h m = elim m [ ]
  All-get P (y ∷ ys) x h (Memᴰ.head e) = subst P (sym e) h.0
  All-get P (y ∷ ys) x h (Memᴰ.tail m) = All-get P ys x h.1 m

  pub filter-mem :
      (p : A → Bool) (xs : List A) (x : A) → Memᴰ x xs → p x ≡ true → Memᴰ x (filter p xs)
  filter-mem p [] x m h = elim m [ ]
  filter-mem p (y ∷ ys) x (Memᴰ.head e) h = rw (subst (λ z. p z ≡ true) e h) (Memᴰ.head e)
  filter-mem p (y ∷ ys) x (Memᴰ.tail m) h =
      if_elim (Memᴰ x) (p y) _ _ (λ _. Memᴰ.tail (filter-mem p ys x m h))
        (λ _. filter-mem p ys x m h)

pub length-map {ℓ κ} :
    {A : Type ℓ} {B : Type κ} (f : A → B) (xs : List A) → length (map f xs) ≡ length xs
length-map f [] = refl
length-map f (x ∷ xs) = ap suc (length-map f xs)

module _ {ℓ} {A : Type ℓ} (p : A → Bool) where
  -- How many elements pass a test.
  abbrev pub count : List A → ℕ
  count xs = length (filter p xs)

  pub count-any : (xs : List A) → ltb 0 (count xs) ≡ any p xs
  count-any [] = refl
  count-any (x ∷ xs) = ground (arith, count-any xs)

  pub any-append : (xs ys : List A) → any p (xs ++ ys) ≡ any p xs || any p ys
  any-append [] ys = refl
  any-append (x ∷ xs) ys = ground (arith, any-append xs ys)

  pub any-mem : (xs : List A) (x : A) → Memᴰ x xs → p x ≡ true → any p xs ≡ true
  any-mem [] x m h = elim m [ ]
  any-mem (y ∷ ys) x (Memᴰ.head e) h = rw (subst (λ z. p z ≡ true) e h)
  any-mem (y ∷ ys) x (Memᴰ.tail m) h = ground (arith, any-mem ys x m h)

  pub count-filter-le : (q : A → Bool) (xs : List A) → count (filter q xs) ≤ count xs
  count-filter-le q [] = omega arith
  count-filter-le q (x ∷ xs) = ground (arith, count-filter-le q xs)

pub find-mem {ℓ} :
    {A : Type ℓ} (p : A → Bool) (xs : List A) (a : A)
    → find p xs ≡ some a
    → Memᴰ a xs × (p a ≡ true)
find-mem p [] a h = absurd (cc)
find-mem p (x ∷ xs) a h = elim (Bool-cases (p x)) [
  | inl e ↦ let e' : x ≡ a = ground (arith, h) in (Memᴰ.head (sym e'), subst (λ z. p z ≡ true) e' e)
  | inr e ↦ let r = find-mem p xs a (ground (arith, h)) in (Memᴰ.tail r.0, r.1)
]

module _ {ℓ} {A : Type ℓ} (p : A → Bool) where
  pub count-append : (xs ys : List A) → count p (xs ++ ys) ≡ count p xs + count p ys
  count-append [] ys = omega arith
  count-append (x ∷ xs) ys = ground (arith, count-append xs ys)

  pub count-none : (xs : List A) → any p xs ≡ false → count p xs ≡ 0
  count-none [] h = refl
  count-none (x ∷ xs) h = ground (arith, count-none xs)

  pub any_mono :
      (q : A → Bool) (xs : List A)
      → ((x : A) → q x ≡ true → p x ≡ true)
      → any p xs ≡ false
      → any q xs ≡ false
  any_mono q [] f h = refl
  any_mono q (x ∷ xs) f h = ground (arith, f x, any_mono q xs f)
