-- ===== src/Builder/Patched.antt =====
-- What patching does to a binary, and what the client reads there.
use trasker.Prelude.{
  ℕ, zero, suc, ◌+◌, ◌-◌, ◌≡◌, ◌≢◌, refl, sym, ap, ◌∙◌, subst, inl, inr, true, false, Option, none,
  some, [], ◌∷◌, ◌++◌, ltb, ◌==◌, ==_self, if◌then◌else◌, if_elim, Bool-cases, length,
  length-append, take, All, Result, ok, err, arith,
}
use trasker.Builder.{
  Bytes, Cache, cached, sentinel_len, zeros, pad_to_len, starts_with, skip, replace_first,
  Sentinels, PatchRequest, PatchError, not_cached, too_long, patch_all, patch, trim_right,
}

length-zeros : (n : ℕ) → length (zeros n) ≡ n
length-zeros zero = refl
length-zeros (suc n) = ap suc (length-zeros n)

length-pad : (s p : Bytes) (n : ℕ) → pad_to_len s n ≡ some p → length p ≡ n
unfolding pad_to_len
length-pad s p n h = elim (Bool-cases (ltb n (length s))) [
  | inl e ↦ absurd (ground (arith, h, e))
  | inr e ↦
      let k : s ++ zeros (n - length s) ≡ p = ground (arith, h, e) in
      sym (ap length k)
      ∙ length-append s (zeros (n - length s))
      ∙ ground (arith, length-zeros (n - length s), e)
]

pad-text : (s p : Bytes) (n : ℕ) → pad_to_len s n ≡ some p → s ++ zeros (n - length s) ≡ p
unfolding pad_to_len
pad-text s p n h = elim (Bool-cases (ltb n (length s))) [
  | inl e ↦ absurd (ground (arith, h, e))
  | inr e ↦ ground (arith, h, e)
]

length-skip :
    (old s : Bytes)
    → starts_with old s ≡ true
    → length old + length (skip (length old) s) ≡ length s
length-skip [] s h = omega arith
length-skip (x ∷ old) [] h = absurd (cc)
length-skip (x ∷ old) (y ∷ s) h = ground (arith, length-skip old s)

length-replace :
    (old new s : Bytes) → length new ≡ length old → length (replace_first old new s) ≡ length s
unfolding replace_first
length-replace old new [] h = refl
length-replace old new (b ∷ s) h = elim (Bool-cases (starts_with old (b ∷ s))) [
  | inl e ↦
      rw e (
        length-append new (skip (length old) (b ∷ s)) ∙ omega (arith, h, length-skip old (b ∷ s) e))
  | inr e ↦ rw e (ap suc (length-replace old new s h))
]

trim-zeros : (n : ℕ) → trim_right (zeros n) ≡ []
unfolding trim_right
trim-zeros zero = refl
trim-zeros (suc n) = rw (trim-zeros n)

abbrev put : ℕ → Bytes → Bytes
put b r = elim r [ [] ↦ if b == 0 then [] else b ∷ [] | x ∷ xs ↦ b ∷ x ∷ xs ]

trim_cons : (b : ℕ) (s r : Bytes) → trim_right s ≡ r → trim_right (b ∷ s) ≡ put b r
unfolding trim_right
trim_cons b s r h = ap (put b) h

-- A text with no NUL byte is read back from its padding.
trim_text : (s : Bytes) (n : ℕ) → All (λ b. b ≢ 0) s → trim_right (s ++ zeros n) ≡ s
trim_text [] n h = trim-zeros n
trim_text (b ∷ []) n h =
    trim_cons b (zeros n) [] (trim-zeros n)
    ∙ if_elim (λ l. l ≡ b ∷ []) (b == 0) [] (b ∷ []) (λ e. absurd (h.0 (ground (arith, e))))
        (λ _. refl)
trim_text (b ∷ c ∷ s) n h = trim_cons b ((c ∷ s) ++ zeros n) (c ∷ s) (trim_text (c ∷ s) n h.1)

skip-append : (xs ys : Bytes) → skip (length xs) (xs ++ ys) ≡ ys
skip-append [] ys = refl
skip-append (x ∷ xs) ys = skip-append xs ys

take-append : (xs ys : Bytes) → take (length xs) (xs ++ ys) ≡ xs
take-append [] ys = refl
take-append (x ∷ xs) ys = ap (λ l. x ∷ l) (take-append xs ys)

starts_self : (old post : Bytes) → starts_with old (old ++ post) ≡ true
starts_self [] post = refl
starts_self (x ∷ old) post = rw (==_self x) (starts_self old post)

-- The text stands nowhere before the end of `pre`.
abbrev pub NotBefore : Bytes → Bytes → Bytes → Type 0
NotBefore old [] rest = Unit
NotBefore old (b ∷ pre) rest =
    (starts_with old (b ∷ (pre ++ rest)) ≡ false) × NotBefore old pre rest

replace-here :
    (old new pre post : Bytes)
    → old ≢ []
    → NotBefore old pre (old ++ post)
    → replace_first old new (pre ++ (old ++ post)) ≡ pre ++ (new ++ post)
unfolding replace_first
replace-here [] new [] post n h = absurd (n refl)
replace-here (x ∷ old) new [] post n h =
    rw (starts_self (x ∷ old) post) (ap (λ l. new ++ l) (skip-append (x ∷ old) post))
replace-here old new (b ∷ pre) post n h =
    rw h.0 (ap (λ l. b ∷ l) (replace-here old new pre post n h.1))

-- What the program that starts from a binary reads: the bytes where the sentinel was compiled in,
-- without the padding.
abbrev pub read_at : ℕ → Bytes → Bytes
unfolding trim_right
read_at offset binary = trim_right (take sentinel_len (skip offset binary))

-- A value of at most 128 bytes, none of them NUL, that was padded and put in the place of a sentinel
-- of 128 bytes, where this first stands, is read back from there.
pub read-replace :
    (sentinel s p pre post : Bytes)
    → length sentinel ≡ sentinel_len
    → All (λ b. b ≢ 0) s
    → pad_to_len s sentinel_len ≡ some p
    → NotBefore sentinel pre (sentinel ++ post)
    → read_at (length pre) (replace_first sentinel p (pre ++ (sentinel ++ post))) ≡ s
unfolding read_at
read-replace sentinel s p pre post l z h n =
    ap (λ x. trim_right (take sentinel_len (skip (length pre) x)))
      (replace-here sentinel p pre post (λ e. absurd (ground (arith, l, e))) n)
    ∙ ap (λ x. trim_right (take sentinel_len x)) (skip-append pre (p ++ post))
    ∙ ap trim_right
        (subst (λ m. take m (p ++ post) ≡ p) (length-pad s p sentinel_len h) (take-append p post))
    ∙ ap trim_right (sym (pad-text s p sentinel_len h))
    ∙ trim_text s (sentinel_len - length s) z

length-patch_all :
    (k : Sentinels) (url key ver generic : Bytes)
    → length url ≡ length k.server_url
    → length key ≡ length k.api_key
    → length ver ≡ length k.version
    → length (patch_all k url key ver generic) ≡ length generic
unfolding patch_all
length-patch_all k url key ver generic lu lk lv =
    length-replace k.version ver _ lv
    ∙ length-replace k.api_key key _ lk
    ∙ length-replace k.server_url url generic lu

-- `Patch` keeps the length of the binary, so that nothing in it moves.
pub length-patch :
    (k : Sentinels) (c : Cache) (req : PatchRequest) (generic patched : Bytes)
    → length k.server_url ≡ sentinel_len
    → length k.api_key ≡ sentinel_len
    → length k.version ≡ sentinel_len
    → cached req.target c ≡ some generic
    → patch k c req ≡ ok patched
    → length patched ≡ length generic
unfolding patch
length-patch k c req generic patched lu lk lv e h =
    go (cached req.target c) (pad_to_len req.server_url sentinel_len)
      (pad_to_len req.api_key sentinel_len) (pad_to_len req.version sentinel_len) refl refl refl e h
  where
    go :
        (o u a v : Option Bytes)
        → pad_to_len req.server_url sentinel_len ≡ u
        → pad_to_len req.api_key sentinel_len ≡ a
        → pad_to_len req.version sentinel_len ≡ v
        → o ≡ some generic
        → elim o as (λ _. Result PatchError Bytes) [
          | none ↦ err not_cached
          | some g ↦ elim u [
            | none ↦ err too_long
            | some url ↦ elim a [
              | none ↦ err too_long
              | some key ↦ elim v [
                | none ↦ err too_long
                | some ver ↦ ok (patch_all k url key ver g)
              ]
            ]
          ]
        ]
          ≡ ok patched
        → length patched ≡ length generic
    go none u a v p q r f g = absurd (cc)
    go (some x) none a v p q r f g = absurd (cc)
    go (some x) (some url) none v p q r f g = absurd (cc)
    go (some x) (some url) (some key) none p q r f g = absurd (cc)
    go (some x) (some url) (some key) (some ver) p q r f g =
        let y : patch_all k url key ver x ≡ patched = ground (arith, g) in
        let z : x ≡ generic = ground (arith, f) in
        sym (ap length y)
        ∙ length-patch_all k url key ver x (length-pad _ url sentinel_len p ∙ sym lu)
            (length-pad _ key sentinel_len q ∙ sym lk) (length-pad _ ver sentinel_len r ∙ sym lv)
        ∙ ap length z
