-- ===== src/Server/Keys.antt =====
-- internal/server/api/store_adapter.go: the database behind the API key middleware.
pub mod Revoked
use trasker.Prelude.{ℕ, Bool, Option, none, some, String, Result, ok, err}
use trasker.Server.Tables.{ApiKey, ServerDb, StoreError}
use trasker.Server.Admin.{get_active_api_key_by_prefix}
use trasker.ServerAuth.{Bytes, Role, KeyRecord}

-- How the texts of the database are read: their bytes, the text of some bytes, the role of a name.
pub record Reading : Type 0 where
  pub bytes : String → Bytes
  pub text : Bytes → String
  pub role : String → Role

unfoldable pub key_record : Reading → ApiKey × String → KeyRecord
key_record read (k, role) = record {
  id = k.id;
  user_id = k.user_id;
  key_hash = read.bytes k.key_hash;
  role = read.role role;
  expires_at = k.expires_at;
  revoked = k.revoked;
}

-- What the middleware finds under a prefix.
unfoldable pub store_lookup : Reading → Bool → ℕ → ServerDb → Bytes → Option KeyRecord
unfolding key_record get_active_api_key_by_prefix
store_lookup read fails now db prefix =
    elim (get_active_api_key_by_prefix fails now (read.text prefix) db) [
      | err _ ↦ none
      | ok r ↦ some (key_record read r)
    ]
