-- ===== src/Server/Http.antt =====
-- internal/server/api/respond.go, and the answers of the handlers.
pub mod Steps
use trasker.Prelude.{
  ℕ, ◌≤◌, Bool, true, false, ◌&&◌, Option, none, some, List, [], ◌∷◌, String, str_eq, ltb, leb,
  if◌then◌else◌, Result, ok, err, length, take, suc, zero, ◌≡◌, arith,
}
use trasker.Prelude.Int.{ℤ, pos, negsuc}
use trasker.Server.Tables.{StoreError, not_found, failed}

-- `respondError`.
pub record Failure : Type 0 where
  pub status : ℕ
  pub error : String

-- The values that the middleware sets in the context of a request.
pub record Caller : Type 0 where
  pub user_id : Option ℕ
  pub api_key_id : Option ℕ

-- A step that answers with an error ends the handler.
infixl 5 ◌>>=◌ ◌>>◌
abbrev pub ◌>>=◌ : {E A B : Type 0} → Result E A → (A → Result E B) → Result E B
err x >>= step = err x
ok a >>= step = step a

abbrev pub ◌>>◌ : {E B : Type 0} → Result E (Unit {0}) → Result E B → Result E B
err x >> rest = err x
ok _ >> rest = rest

abbrev pub check : Bool → ℕ → String → Result Failure (Unit {0})
check true status error = ok tt
check false status error = err (record { status = status; error = error })

abbrev pub present : {A : Type 0} → Option A → ℕ → String → Result Failure A
present none status error = err (record { status = status; error = error })
present (some a) status error = ok a

-- How a handler answers an error of the store: with one pair if there is no such row, with another
-- for anything else.
abbrev pub stored : {A : Type 0} → Result StoreError A → Failure → Failure → Result Failure A
stored (ok a) missing broken = ok a
stored (err not_found) missing broken = err missing
stored (err failed) missing broken = err broken

-- The same where the handler does not tell the two apart.
abbrev pub answered : {A : Type 0} → Result StoreError A → ℕ → String → Result Failure A
answered (ok a) status error = ok a
answered (err _) status error = err (record { status = status; error = error })

abbrev pub is_set : String → Bool
is_set s = if str_eq s "" then false else true

-- `v != ""`, `strconv.Atoi` and the bounds; none is a parameter that is absent or no number.
abbrev pub limit_of : Option ℤ → ℕ
limit_of (some (pos n)) = if ltb 0 n && leb n 1000 then n else 100
limit_of _ = 100

abbrev pub offset_of : Option ℤ → ℕ
offset_of (some (pos n)) = n
offset_of _ = 0

unfoldable pub parse_pagination : Option ℤ → Option ℤ → ℕ × ℕ
parse_pagination limit offset = (limit_of limit, offset_of offset)

abbrev pub drop {ℓ} : {A : Type ℓ} → ℕ → List A → List A
drop zero xs = xs
drop (suc n) [] = []
drop (suc n) (x ∷ xs) = drop n xs

-- `LIMIT … OFFSET …`.
unfoldable pub page {ℓ} : {A : Type ℓ} → ℕ → ℕ → List A → List A
page limit offset rows = take limit (drop offset rows)

-- `opts[0].Limit` if it is positive, 100 otherwise.
abbrev pub limit_or_default : ℕ → ℕ
limit_or_default limit = if ltb 0 limit then limit else 100
