-- ===== src/Server/Login.antt =====
-- internal/server/api/local_auth_handlers.go, and auth_handlers.go after the OIDC exchange.
pub mod Changed
pub mod Examples
use trasker.Prelude.{
  ℕ, Bool, true, false, not, ◌&&◌, ◌||◌, Option, none, some, String, str_eq, ltb, if◌then◌else◌,
  Result, ok, err,
}
use trasker.Server.Tables.{User, OrgSettings, ServerDb, Given, StoreError, not_found, failed}
use trasker.Server.Http.{Failure, Caller, ◌>>=◌, ◌>>◌, check, present, stored, answered, is_set}
use trasker.Server.Settings.{get_org_settings}
use trasker.Server.Users.{
  CreateUserParams, create_user, get_user_by_entra_oid, get_user_by_id, get_user_by_email,
  update_user_password,
}

-- bcrypt and the issuer of tokens: whether a password has a hash, the hash of a password if there is
-- one, the token of an id, an email and a role; and the number of bytes of a text.
pub record Crypto : Type 0 where
  pub matches : String → String → Bool
  pub hash : String → Option String
  pub issue : ℕ → String → String → Option String
  pub byte_length : String → ℕ

pub record LoginReq : Type 0 where
  pub email : String
  pub password : String

pub record ChangeReq : Type 0 where
  pub current_password : String
  pub new_password : String

-- `authConfigHandler`: `oidc_enabled`.
unfoldable pub auth_config : Bool → Bool → ServerDb → Bool
unfolding get_org_settings
auth_config oidc_ready fails db = oidc_ready || elim (get_org_settings fails db) [
  | err _ ↦ false
  | ok o ↦ is_set o.entra_tenant && is_set o.entra_client
]

-- `localLoginHandler`: the token and the user.
unfoldable pub local_login :
    Crypto → Bool → Option LoginReq → ServerDb → Result Failure (String × User)
unfolding get_user_by_email
local_login c fails body db = do
  req ← present body 400 "invalid request body"
  check (is_set req.email && is_set req.password) 400 "email and password are required"
  user ←
      stored (get_user_by_email fails req.email db)
        (record { status = 401; error = "invalid email or password" })
        (record { status = 500; error = "internal error" })
  hash ← present user.password_hash 401 "invalid email or password"
  check (c.matches hash req.password) 401 "invalid email or password"
  token ← present (c.issue user.id user.email user.role) 500 "failed to issue token"
  ok (token, user)

-- `changePasswordHandler`.
unfoldable pub change_password :
    Crypto
    → Bool
    → Bool
    → ℕ
    → Caller
    → Option ChangeReq
    → ServerDb
    → Result Failure (ServerDb × User)
unfolding get_user_by_id update_user_password
change_password c get_fails update_fails now caller body db = do
  user_id ← present caller.user_id 401 "not authenticated"
  req ← present body 400 "invalid request body"
  check (is_set req.new_password && not (ltb (c.byte_length req.new_password) 8)) 400
      "new password must be at least 8 characters"
  user ← answered (get_user_by_id get_fails user_id db) 500 "internal error"
  old_hash ← present user.password_hash 400 "account does not use password authentication"
  check (c.matches old_hash req.current_password) 401 "current password is incorrect"
  new_hash ← present (c.hash req.new_password) 500 "internal error"
  answered (update_user_password update_fails now user_id new_hash db) 500
      "failed to update password"

-- What the OIDC packages make of a login, step by step; none where one fails.
pub record Exchange : Type 0 where
  pub available : Bool
  pub code : Option String
  pub token : Option (Unit {0})
  pub id_token : Option (Unit {0})
  pub verified : Option (Unit {0})
  pub claims : Option (Unit {0})
  pub user_info : Option CreateUserParams

-- The user with the object id, made if there is none.
unfoldable pub oidc_user :
    Bool → Bool → Given → CreateUserParams → ServerDb → Result Failure (ServerDb × User)
unfolding get_user_by_entra_oid create_user
oidc_user get_fails create_fails g info db =
    elim (get_user_by_entra_oid get_fails info.entra_oid db) [
      | ok u ↦ ok (db, u)
      | err e ↦ elim e [
        | failed ↦ err (record { status = 500; error = "internal error" })
        | not_found ↦ answered (create_user create_fails g info db) 500 "failed to create user"
      ]
    ]

-- The steps of `authLoginHandler` before it turns to the database.
unfoldable pub exchanged : Exchange → Result Failure CreateUserParams
exchanged x = do
  check x.available 503 "OIDC not configured — set tenant, client, and secret in admin settings"
  code ← present x.code 400 "invalid request body"
  check (is_set code) 400 "authorization code is required"
  _ ← present x.token 401 "failed to exchange authorization code"
  _ ← present x.id_token 500 "no id_token in response"
  _ ← present x.verified 401 "failed to verify ID token"
  _ ← present x.claims 500 "failed to extract claims"
  present x.user_info 500 "failed to extract user info"

-- `authLoginHandler`: a user that it has made stays also if no token is issued.
unfoldable pub auth_login :
    Crypto → Bool → Bool → Given → Exchange → ServerDb → ServerDb × Result Failure (String × User)
unfolding exchanged oidc_user
auth_login c get_fails create_fails g x db =
    elim (exchanged x >>= λ info. oidc_user get_fails create_fails g info db) [
      | err f ↦ (db, err f)
      | ok (db', u) ↦ (
        db',
        present (c.issue u.id u.email u.role) 500 "failed to issue token" >>= λ t. ok (t, u),
      )
    ]

-- `authRefreshHandler`, with the store there.
unfoldable pub auth_refresh : Crypto → Bool → Caller → ServerDb → Result Failure String
unfolding get_user_by_id
auth_refresh c fails caller db = do
  user_id ← present caller.user_id 401 "not authenticated"
  user ← answered (get_user_by_id fails user_id db) 500 "failed to look up user"
  present (c.issue user_id user.email user.role) 500 "failed to issue token"
