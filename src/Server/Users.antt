-- ===== src/Server/Users.antt =====
-- internal/server/store/users.go, and the handlers of internal/server/api/user_handlers.go,
-- local_auth_handlers.go and auth_handlers.go.
use trasker.Prelude.{
  ℕ, Bool, false, not, ◌&&◌, ◌||◌, Option, none, some, List, [], ◌∷◌, ◌++◌, String, str_eq, ◌==◌,
  if◌then◌else◌, find, any, length, Result, ok, err,
}
use trasker.Prelude.Int.{ℤ}
use trasker.Prelude.Sort.{sort_by}
use trasker.Store.Tables.{update_where}
use trasker.Server.Tables.{User, ServerDb, Given, StoreError, not_found, failed, query}
use trasker.Server.Http.{
  Failure, ◌>>=◌, ◌>>◌, check, present, stored, answered, page, parse_pagination, limit_or_default,
}
use trasker.Server.Devices.{found}

pub record CreateUserParams : Type 0 where
  pub entra_oid : String
  pub email : String
  pub display_name : String

pub record CreateLocalUserParams : Type 0 where
  pub email : String
  pub display_name : String
  pub password_hash : String
  pub role : String
  pub force_password_change : Bool

-- `users_email_key` and `idx_users_entra_oid`.
abbrev pub has_email : String → List User → Bool
has_email email = any (λ u. str_eq u.email email)

abbrev pub is_oid : String → User → Bool
is_oid oid u = elim u.entra_oid [ none ↦ false | some o ↦ str_eq o oid ]

-- models.ValidRoles, and the constraint `chk_user_role`.
unfoldable pub is_valid_role : String → Bool
is_valid_role role = str_eq role "member" || str_eq role "manager" || str_eq role "admin"

abbrev pub add_user : User → ServerDb → ServerDb
add_user u db = record db { users = db.users ++ u ∷ [] }

unfoldable pub new_user : Given → CreateUserParams → ServerDb → User
new_user g p db = record {
  id = g.fresh_id db;
  entra_oid = some p.entra_oid;
  email = p.email;
  display_name = p.display_name;
  role = "member";
  password_hash = none;
  force_password_change = false;
  created_at = g.now;
  updated_at = g.now;
}

unfoldable pub create_user :
    Bool → Given → CreateUserParams → ServerDb → Result StoreError (ServerDb × User)
unfolding new_user
create_user fails g p db = query fails (
    if has_email p.email db.users || any (is_oid p.entra_oid) db.users
    then err failed
    else ok (add_user (new_user g p db) db, new_user g p db))

unfoldable pub new_local_user : Given → CreateLocalUserParams → ServerDb → User
new_local_user g p db = record {
  id = g.fresh_id db;
  entra_oid = none;
  email = p.email;
  display_name = p.display_name;
  role = p.role;
  password_hash = some p.password_hash;
  force_password_change = p.force_password_change;
  created_at = g.now;
  updated_at = g.now;
}

unfoldable pub create_local_user :
    Bool → Given → CreateLocalUserParams → ServerDb → Result StoreError (ServerDb × User)
unfolding new_local_user is_valid_role
create_local_user fails g p db = query fails (
    if has_email p.email db.users || not (is_valid_role p.role)
    then err failed
    else ok (add_user (new_local_user g p db) db, new_local_user g p db))

unfoldable pub get_user_by_entra_oid : Bool → String → ServerDb → Result StoreError User
get_user_by_entra_oid fails oid db = query fails (found (find (is_oid oid) db.users))

unfoldable pub get_user_by_id : Bool → ℕ → ServerDb → Result StoreError User
get_user_by_id fails id db = query fails (found (find (λ u. u.id == id) db.users))

unfoldable pub get_user_by_email : Bool → String → ServerDb → Result StoreError User
get_user_by_email fails email db = query fails (found (find (λ u. str_eq u.email email) db.users))

unfoldable pub count_users : Bool → ServerDb → Result StoreError ℕ
count_users fails db = query fails (ok (length db.users))

-- An update of the user with an id, and the row as it is then.
unfoldable pub update_user :
    Bool → ℕ → (User → User) → ServerDb → Result StoreError (ServerDb × User)
update_user fails id f db = query fails (elim (find (λ u. u.id == id) db.users) [
  | none ↦ err not_found
  | some u ↦ ok (record db { users = update_where (λ r. r.id == id) f db.users }, f u)
])

unfoldable pub with_password : ℕ → String → User → User
with_password now hash u = record u {
  password_hash = some hash;
  force_password_change = false;
  updated_at = now;
}

unfoldable pub update_user_password :
    Bool → ℕ → ℕ → String → ServerDb → Result StoreError (ServerDb × User)
unfolding update_user with_password
update_user_password fails now id hash db = update_user fails id (with_password now hash) db

-- The constraint on the role refuses others.
unfoldable pub update_user_role :
    Bool → ℕ → ℕ → String → ServerDb → Result StoreError (ServerDb × User)
unfolding update_user is_valid_role
update_user_role fails now id role db =
    if any (λ u. u.id == id) db.users && not (is_valid_role role)
    then err failed
    else update_user fails id (λ u. record u { role = role; updated_at = now }) db

-- `rank` is the place of a name in the collation of the database.
unfoldable pub list_users : (String → ℕ) → Bool → ℕ → ℕ → ServerDb → Result StoreError (List User)
list_users rank fails limit offset db =
    query fails
      (ok (page (limit_or_default limit) offset (sort_by (λ u. rank u.display_name) db.users)))

-- `userListHandler`.
unfoldable pub user_list :
    (String → ℕ) → Bool → Option ℤ → Option ℤ → ServerDb → Result Failure (List User)
unfolding parse_pagination list_users
user_list rank fails limit offset db =
    let p = parse_pagination limit offset in
    answered (list_users rank fails p.0 p.1 db) 500 "failed to list users"

-- `userUpdateRoleHandler`.
unfoldable pub user_update_role :
    Bool → ℕ → Option ℕ → Option String → ServerDb → Result Failure (ServerDb × User)
unfolding update_user_role is_valid_role
user_update_role fails now path_id body db = do
  user_id ← present path_id 400 "invalid user ID"
  role ← present body 400 "invalid request body"
  check (is_valid_role role) 400 "role must be one of: member, manager, admin"
  stored (update_user_role fails now user_id role db)
      (record { status = 404; error = "user not found" })
      (record { status = 500; error = "failed to update user role" })
