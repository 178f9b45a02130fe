-- ===== src/ServerAuth.antt =====
-- internal/server/auth/apikey.go and roles.go: who a request of a client comes from, and what it may
-- do. A text is the list of its bytes. bcrypt and the database are not part of the program: `matches`
-- is CompareHashAndPassword, and `lookup` GetActiveAPIKeyByPrefix, none if it fails.
pub mod Admitted
pub mod Examples
use trasker.Prelude.{
  ℕ, ◌+◌, Bool, true, false, not, ◌&&◌, Option, none, some, List, [], ◌∷◌, ltb, leb, ◌==◌,
  if◌then◌else◌, any, take, Result, ok, err,
}

abbrev pub Bytes : Type 0
Bytes = List ℕ

-- models.Role.
pub data Role : Type 0 where
  member manager admin : Role

-- APIKeyRecord.
pub record KeyRecord : Type 0 where
  pub id : ℕ
  pub user_id : ℕ
  pub key_hash : Bytes
  pub role : Role
  pub expires_at : ℕ
  pub revoked : Bool

-- The errors of the answer, each with status 401 but the last, with 403.
pub data Refusal : Type 0 where
  missing_header invalid_format invalid_key_format invalid_key key_revoked key_expired : Refusal
  no_authentication insufficient_permissions : Refusal

-- The values set in the request's context.
pub record Identity : Type 0 where
  pub user_id : ℕ
  pub role : Role
  pub key_id : ℕ

abbrev pub space : ℕ
space = 32

-- `strings.SplitN(header, " ", 2)`, none unless it has two parts.
unfoldable pub split_header : Bytes → Option (Bytes × Bytes)
split_header [] = none
split_header (b ∷ bs) =
    let rest = split_header bs in
    if b == space then some ([], bs) else elim rest [ none ↦ none | some p ↦ some (b ∷ p.0, p.1) ]

-- A capital letter of ASCII as a small one.
abbrev pub lower : ℕ → ℕ
lower b = if leb 65 b && leb b 90 then b + 32 else b

abbrev pub same_folded : Bytes → Bytes → Bool
same_folded [] [] = true
same_folded (x ∷ xs) (y ∷ ys) = (lower x == lower y) && same_folded xs ys
same_folded _ _ = false

-- "Bearer"; no letter of it has a folding outside ASCII.
abbrev pub bearer : Bytes
bearer = 66 ∷ 101 ∷ 97 ∷ 114 ∷ 101 ∷ 114 ∷ []

abbrev pub is_nil : Bytes → Bool
is_nil [] = true
is_nil (_ ∷ _) = false

-- `apikey.Prefix`: at most the first 8 bytes.
abbrev pub prefix : Bytes → Bytes
prefix key = take 8 key

abbrev pub identity : KeyRecord → Identity
identity r = record { user_id = r.user_id; role = r.role; key_id = r.id }

-- The checks of the record that was found.
unfoldable pub check_record :
    (Bytes → Bytes → Bool) → ℕ → Bytes → KeyRecord → Result Refusal Identity
check_record matches now key r =
    if matches r.key_hash key
    then if r.revoked
      then err key_revoked
      else if ltb r.expires_at now
      then err key_expired
      else ok (identity r)
    else err invalid_key

unfoldable pub check_key :
    (Bytes → Option KeyRecord) → (Bytes → Bytes → Bool) → ℕ → Bytes → Result Refusal Identity
unfolding check_record
check_key lookup matches now key =
    if is_nil (prefix key) then err invalid_key_format else elim (lookup (prefix key)) [
      | none ↦ err invalid_key
      | some r ↦ check_record matches now key r
    ]

-- `APIKeyMiddleware`: who the next handler is called for, or the refusal.
unfoldable pub authenticate :
    (Bytes → Option KeyRecord) → (Bytes → Bytes → Bool) → ℕ → Bytes → Result Refusal Identity
unfolding split_header check_key
authenticate lookup matches now [] = err missing_header
authenticate lookup matches now (b ∷ bs) = elim (split_header (b ∷ bs)) [
  | none ↦ err invalid_format
  | some p ↦ if same_folded p.0 bearer then check_key lookup matches now p.1 else err invalid_format
]

abbrev pub same_role : Role → Role → Bool
same_role admin admin = true
same_role manager manager = true
same_role member member = true
same_role _ _ = false

-- `RequireRole`, on the role of the context if there is one.
unfoldable pub require_role : List Role → Option Role → Result Refusal (Unit {0})
require_role allowed none = err no_authentication
require_role allowed (some r) =
    if any (same_role r) allowed then ok tt else err insufficient_permissions
