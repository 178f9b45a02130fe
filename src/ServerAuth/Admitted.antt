-- ===== src/ServerAuth/Admitted.antt =====
-- Which requests get through the API key middleware.
use mathlib.Core.Option.{some-injective}
use trasker.Prelude.{
  ℕ, ◌≤◌, ◌≡◌, refl, ◌∙◌, sym, ap, subst, Bool, true, false, Option, none, some, [], ◌∷◌, ◌++◌,
  ◌==◌, ==_self, if◌then◌else◌, any, Result, ok, err, Bool-cases, Option-cases, inl, inr, arith,
}
use trasker.ServerAuth.{
  Bytes, KeyRecord, Refusal, invalid_key, invalid_format, invalid_key_format, Identity, space,
  split_header, same_folded, bearer, is_nil, prefix, identity, check_record, check_key,
  authenticate,
}

-- What a header is that carries a key.
pub record Carries (header scheme key : Bytes) : Type 0 where
  pub text : header ≡ scheme ++ space ∷ key
  pub first_space : any (λ b. b == space) scheme ≡ false
  pub is_bearer : same_folded scheme bearer ≡ true

-- How the bytes `h` are cut.
abbrev Cut : Bytes → Bytes × Bytes → Type 0
Cut h p = (h ≡ p.0 ++ space ∷ p.1) × (any (λ b. b == space) p.0 ≡ false)

split-here : (b : ℕ) (bs : Bytes) → (b == space) ≡ true → split_header (b ∷ bs) ≡ some ([], bs)
unfolding split_header
split-here b bs h = rw h refl

split-later :
    (b : ℕ) (bs : Bytes) (o : Option (Bytes × Bytes))
    → (b == space) ≡ false
    → split_header bs ≡ o
    → split_header (b ∷ bs)
      ≡ elim o as (λ x. Option (Bytes × Bytes)) [ none ↦ none | some p ↦ some (b ∷ p.0, p.1) ]
unfolding split_header
split-later b bs o h k = rw (h, k) refl

split-Cut : (h : Bytes) (p : Bytes × Bytes) → split_header h ≡ some p → Cut h p
unfolding split_header
split-Cut [] p e = cc
split-Cut (b ∷ bs) p e = elim (Bool-cases (b == space)) [
  | inl h ↦
      let x : b ≡ space = ground arith in
      subst (λ q. Cut (b ∷ bs) q) (some-injective _ _ (sym (split-here b bs h) ∙ e))
        (ap (λ c. c ∷ bs) x, refl)
  | inr h ↦ elim (Option-cases (split_header bs)) [
    | inl k ↦ absurd (let z = sym (split-later b bs none h k) ∙ e in cc)
    | inr (q, k) ↦
        let c = split-Cut bs q k in
        subst (λ r. Cut (b ∷ bs) r) (some-injective _ _ (sym (split-later b bs (some q) h k) ∙ e))
          (ap (λ l. b ∷ l) c.0, rw (h, c.1) refl)
  ]
]

split-parts :
    (s k : Bytes) → any (λ b. b == space) s ≡ false → split_header (s ++ space ∷ k) ≡ some (s, k)
split-parts [] k h = split-here space k (==_self space)
split-parts (b ∷ s) k h =
    split-later b (s ++ space ∷ k) (some (s, k)) (ground arith) (split-parts s k (ground arith))

module _ (lookup : Bytes → Option KeyRecord) (matches : Bytes → Bytes → Bool) where
  -- What the record of the key must be.
  pub record Valid (now : ℕ) (key : Bytes) (r : KeyRecord) : Type 0 where
    pub found : lookup (prefix key) ≡ some r
    pub not_empty : is_nil (prefix key) ≡ false
    pub hash_matches : matches r.key_hash key ≡ true
    pub not_revoked : r.revoked ≡ false
    pub not_expired : now ≤ r.expires_at

  record-Valid :
      (now : ℕ) (key : Bytes) (r : KeyRecord) (i : Identity)
      → check_record matches now key r ≡ ok i
      → (matches r.key_hash key ≡ true)
        × (r.revoked ≡ false)
        × (now ≤ r.expires_at)
        × (i ≡ identity r)
  unfolding check_record
  record-Valid now key r i e = ground arith

  found_key :
      (now : ℕ) (key : Bytes) (o : Option KeyRecord)
      → is_nil (prefix key) ≡ false
      → lookup (prefix key) ≡ o
      → check_key lookup matches now key ≡ elim o as (λ x. Result Refusal Identity) [
        | none ↦ err invalid_key
        | some r ↦ check_record matches now key r
      ]
  unfolding check_key
  found_key now key o h k = rw (h, k) refl

  nil_key :
      (now : ℕ) (key : Bytes)
      → is_nil (prefix key) ≡ true
      → check_key lookup matches now key ≡ err invalid_key_format
  unfolding check_key
  nil_key now key h = rw h refl

  key-Valid :
      (now : ℕ) (key : Bytes) (i : Identity)
      → check_key lookup matches now key ≡ ok i
      → (r : KeyRecord) × Valid now key r × (i ≡ identity r)
  key-Valid now key i e = elim (Bool-cases (is_nil (prefix key))) [
    | inl n ↦ absurd (let z = sym (nil_key now key n) ∙ e in cc)
    | inr n ↦ elim (Option-cases (lookup (prefix key))) [
      | inl k ↦ absurd (let z = sym (found_key now key none n k) ∙ e in cc)
      | inr (r, k) ↦
          let v = record-Valid now key r i (sym (found_key now key (some r) n k) ∙ e) in
          (
            r,
            record {
              found = k;
              not_empty = n;
              hash_matches = v.0;
              not_revoked = v.1;
              not_expired = v.2;
            },
            v.3,
          )
    ]
  ]

  -- What is done with the two parts of a header.
  abbrev with_parts : ℕ → Bytes × Bytes → Result Refusal Identity
  with_parts now p =
      if same_folded p.0 bearer then check_key lookup matches now p.1 else err invalid_format

  cut_header :
      (now b : ℕ) (bs : Bytes) (o : Option (Bytes × Bytes))
      → split_header (b ∷ bs) ≡ o
      → authenticate lookup matches now (b ∷ bs) ≡ elim o as (λ x. Result Refusal Identity) [
        | none ↦ err invalid_format
        | some p ↦ with_parts now p
      ]
  unfolding authenticate
  cut_header now b bs o k =
      ap
        (λ (x : Option (Bytes × Bytes)). elim x as (λ y. Result Refusal Identity) [
          | none ↦ err invalid_format
          | some p ↦ with_parts now p
        ])
        k

  is_bearer_key :
      (now : ℕ) (s k : Bytes)
      → same_folded s bearer ≡ true
      → with_parts now (s, k) ≡ check_key lookup matches now k
  is_bearer_key now s k f = rw f refl

  not_bearer :
      (now : ℕ) (s k : Bytes)
      → same_folded s bearer ≡ false
      → with_parts now (s, k) ≡ err invalid_format
  not_bearer now s k f = rw f refl

  -- The middleware lets a request through only with a header of the form "Bearer <key>", in any
  -- case of the letters, whose key has a record under its prefix, matches the record's hash, and is
  -- neither revoked nor past its expiry; and the identity of the request is that of the record.
  pub authenticate-Valid :
      (now : ℕ) (header : Bytes) (i : Identity)
      → authenticate lookup matches now header ≡ ok i
      → (scheme key : Bytes) × (r : KeyRecord) × Carries header scheme key
        × Valid now key r
        × (i ≡ identity r)
  unfolding authenticate
  authenticate-Valid now [] i e = cc
  authenticate-Valid now (b ∷ bs) i e = elim (Option-cases (split_header (b ∷ bs))) [
    | inl k ↦ absurd (let z = sym (cut_header now b bs none k) ∙ e in cc)
    | inr (p, k) ↦
        let z = sym (cut_header now b bs (some p) k) ∙ e in
        elim (Bool-cases (same_folded p.0 bearer)) [
          | inl f ↦
              let c = split-Cut (b ∷ bs) p k in
              let (r, v, w) = key-Valid now p.1 i (sym (is_bearer_key now p.0 p.1 f) ∙ z) in
              (p.0, p.1, r, record { text = c.0; first_space = c.1; is_bearer = f }, v, w)
          | inr f ↦ absurd (let y = sym (not_bearer now p.0 p.1 f) ∙ z in cc)
        ]
  ]

  record-ok :
      (now : ℕ) (key : Bytes) (r : KeyRecord)
      → Valid now key r
      → check_record matches now key r ≡ ok (identity r)
  unfolding check_record
  record-ok now key r v = ground (arith, v.hash_matches, v.not_revoked, v.not_expired)

  parts-ok :
      (now : ℕ) (scheme key : Bytes) (r : KeyRecord)
      → same_folded scheme bearer ≡ true
      → split_header (scheme ++ space ∷ key) ≡ some (scheme, key)
      → Valid now key r
      → authenticate lookup matches now (scheme ++ space ∷ key) ≡ ok (identity r)
  parts-ok now [] key r f p v = absurd (cc)
  parts-ok now (b ∷ bs) key r f p v =
      cut_header now b (bs ++ space ∷ key) (some (b ∷ bs, key)) p
      ∙ is_bearer_key now (b ∷ bs) key f
      ∙ found_key now key (some r) v.not_empty v.found
      ∙ record-ok now key r v

  -- A request with a header "Bearer <key>", in any case of the letters, whose key has a record under
  -- its prefix, matches the record's hash, and is neither revoked nor past its expiry, is let through
  -- with the identity of the record.
  pub authenticate-ok :
      (now : ℕ) (header scheme key : Bytes) (r : KeyRecord)
      → Carries header scheme key
      → Valid now key r
      → authenticate lookup matches now header ≡ ok (identity r)
  authenticate-ok now header scheme key r c v =
      ap (λ h. authenticate lookup matches now h) c.text
      ∙ parts-ok now scheme key r c.is_bearer (split-parts scheme key c.first_space) v
