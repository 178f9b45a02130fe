-- ===== src/ServerAuth/Examples.antt =====
-- A key of ten bytes whose stored hash is the key itself.
use trasker.Prelude.{
  ◌≡◌, refl, Bool, true, false, ◌&&◌, Option, none, some, [], ◌∷◌, ◌==◌, if◌then◌else◌, ok, arith,
}
use trasker.ServerAuth.{Bytes, KeyRecord, admin, authenticate, prefix, identity}
use trasker.ServerAuth.Admitted.{Carries, Valid, authenticate-Valid, authenticate-ok}

abbrev same_bytes : Bytes → Bytes → Bool
same_bytes [] [] = true
same_bytes (x ∷ xs) (y ∷ ys) = (x == y) && same_bytes xs ys
same_bytes _ _ = false

abbrev a_key : Bytes
a_key = 116 ∷ 115 ∷ 107 ∷ 95 ∷ 49 ∷ 50 ∷ 51 ∷ 52 ∷ 53 ∷ 54 ∷ []

abbrev stored : KeyRecord
stored = record {
  id = 7;
  user_id = 3;
  key_hash = a_key;
  role = admin;
  expires_at = 5000;
  revoked = false;
}

abbrev lookup : Bytes → Option KeyRecord
lookup p = if same_bytes p (prefix a_key) then some stored else none

-- "bearer" with small letters, a space and the key.
abbrev header : Bytes
header = 98 ∷ 101 ∷ 97 ∷ 114 ∷ 101 ∷ 114 ∷ 32 ∷ a_key

authenticate-Valid_example :
    (scheme key : Bytes) × (r : KeyRecord) × Carries header scheme key
    × Valid lookup same_bytes 4000 key r
    × (identity stored ≡ identity r)
unfolding authenticate
authenticate-Valid_example = authenticate-Valid lookup same_bytes 4000 header (identity stored) refl

-- "bearer".
abbrev scheme : Bytes
scheme = 98 ∷ 101 ∷ 97 ∷ 114 ∷ 101 ∷ 114 ∷ []

authenticate-ok_example : authenticate lookup same_bytes 4000 header ≡ ok (identity stored)
authenticate-ok_example =
    authenticate-ok lookup same_bytes 4000 header scheme a_key stored
      (record { text = refl; first_space = refl; is_bearer = refl })
      (record {
        found = refl;
        not_empty = refl;
        hash_matches = refl;
        not_revoked = refl;
        not_expired = omega arith;
      })
