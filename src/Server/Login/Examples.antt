-- ===== src/Server/Login/Examples.antt =====
-- A change of a password.
use trasker.Prelude.{
  ◌≡◌, refl, sym, inl, inr, true, false, Bool-cases, if◌then◌else◌, none, some, [], ◌∷◌, ok, String,
  str_eq, arith,
}
use trasker.Store.Tables.{update_where}
use trasker.Server.Tables.{User, ServerDb}
use trasker.Server.Users.{with_password, get_user_by_email}
use trasker.Server.Login.{Crypto, local_login, change_password}
use trasker.Server.Login.Changed.{login-change_password}
use trasker.Server.Examples.{anna, anna_calls, small_server}

-- A crypto that knows two passwords.
abbrev crypto : Crypto
crypto = record {
  matches = λ h p. if str_eq p "new password" then str_eq h "hash 2" else str_eq h "hash 1";
  hash = λ p. if str_eq p "new password" then some "hash 2" else none;
  issue = λ i e r. some "token";
  byte_length = λ p. 12;
}

crypto_matches :
    (password hash : String)
    → crypto.hash password ≡ some hash
    → crypto.matches hash password ≡ true
crypto_matches password hash h = elim (Bool-cases (str_eq password "new password")) [
  | inl e ↦ let k : "hash 2" ≡ hash = ground (arith, h, e) in rw (e, sym k) refl
  | inr e ↦ absurd (ground (arith, h, e))
]

-- Anna with the default password of an administrator.
abbrev locally : User
locally = record anna { password_hash = some "hash 1"; force_password_change = true }

abbrev local_server : ServerDb
local_server = record small_server { users = locally ∷ [] }

abbrev changed_user : User
unfolding with_password
changed_user = with_password 1000 "hash 2" locally

abbrev changed_server : ServerDb
changed_server = record small_server { users = changed_user ∷ [] }

login-change_password_example :
    (changed_user.force_password_change ≡ false)
    × (local_login crypto false
          (some (record { email = "anna@example.org"; password = "new password" }))
          changed_server
        ≡ ok ("token", changed_user))
unfolding change_password update_where get_user_by_email
login-change_password_example =
    login-change_password crypto false false 1000 1 anna_calls
      (record { current_password = "old password"; new_password = "new password" }) local_server
      changed_server locally changed_user "token" crypto_matches refl refl refl refl refl refl
