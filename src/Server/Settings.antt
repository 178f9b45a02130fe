-- ===== src/Server/Settings.antt =====
-- internal/server/store/settings.go and the settings handlers of
-- internal/server/api/admin_handlers.go.
pub mod Masked
use trasker.Prelude.{
  ℕ, Bool, true, false, ◌||◌, Option, none, some, String, str_eq, if◌then◌else◌, Result, ok, err,
  is_some,
}
use trasker.Prelude.Int.{ℤ, pos}
use trasker.Server.Tables.{OrgSettings, ServerDb, Given, StoreError, not_found, failed, query}
use trasker.Server.Http.{Failure, ◌>>=◌, ◌>>◌, present, stored, answered}
use trasker.Server.Devices.{found}
use trasker.Server.Timesheets.{given_or}

unfoldable pub get_org_settings : Bool → ServerDb → Result StoreError OrgSettings
get_org_settings fails db = query fails (found db.org_settings)

pub record UpdateOrgSettingsParams : Type 0 where
  pub org_name : Option String
  pub entra_tenant : Option String
  pub entra_client : Option String
  pub entra_secret : Option String
  pub key_expiry_days : Option ℤ

abbrev pub default_settings : OrgSettings
default_settings = record {
  org_name = "My Organization";
  entra_tenant = "";
  entra_client = "";
  entra_secret = "";
  key_expiry_days = pos 60;
  updated_at = 0;
}

-- The values that are written: those given, over the current ones or the defaults.
unfoldable pub merged : ℕ → UpdateOrgSettingsParams → OrgSettings → OrgSettings
merged now p o = record {
  org_name = given_or p.org_name o.org_name;
  entra_tenant = given_or p.entra_tenant o.entra_tenant;
  entra_client = given_or p.entra_client o.entra_client;
  entra_secret = given_or p.entra_secret o.entra_secret;
  key_expiry_days = given_or p.key_expiry_days o.key_expiry_days;
  updated_at = now;
}

-- The row or, if there is none, the defaults.
abbrev pub current_or_default : Result StoreError OrgSettings → Result StoreError OrgSettings
current_or_default (ok o) = ok o
current_or_default (err not_found) = ok default_settings
current_or_default (err failed) = err failed

unfoldable pub upsert_org_settings :
    Bool
    → Bool
    → ℕ
    → UpdateOrgSettingsParams
    → ServerDb
    → Result StoreError (ServerDb × OrgSettings)
unfolding get_org_settings merged
upsert_org_settings get_fails write_fails now p db =
    elim (current_or_default (get_org_settings get_fails db)) [
      | err x ↦ err x
      | ok o ↦
          query write_fails
            (ok (record db { org_settings = some (merged now p o) }, merged now p o))
    ]

-- What the two handlers answer with: `entra_secret` is the masked one.
pub record SettingsView : Type 0 where
  pub org_name : String
  pub entra_tenant : String
  pub entra_client : String
  pub entra_secret : String
  pub key_expiry_days : ℤ
  pub updated_at : ℕ

abbrev pub mask : String
mask = "********"

unfoldable pub masked : OrgSettings → SettingsView
masked o = record {
  org_name = o.org_name;
  entra_tenant = o.entra_tenant;
  entra_client = o.entra_client;
  entra_secret = if str_eq o.entra_secret "" then "" else mask;
  key_expiry_days = o.key_expiry_days;
  updated_at = o.updated_at;
}

-- `adminGetSettingsHandler`.
unfoldable pub admin_get_settings : Bool → ServerDb → Result Failure SettingsView
unfolding get_org_settings masked
admin_get_settings fails db = do
  o ←
      stored (get_org_settings fails db)
        (record { status = 404; error = "org settings not configured" })
        (record { status = 500; error = "failed to get settings" })
  ok (masked o)

-- The placeholder is no secret to write.
unfoldable pub without_mask : UpdateOrgSettingsParams → UpdateOrgSettingsParams
without_mask p = record p {
  entra_secret = elim p.entra_secret [
    | none ↦ none
    | some s ↦ if str_eq s mask then none else some s
  ];
}

-- `adminUpdateSettingsHandler`, and whether it clears the cached OIDC configuration.
unfoldable pub admin_update_settings :
    Bool
    → Bool
    → ℕ
    → Option UpdateOrgSettingsParams
    → ServerDb
    → Result Failure (ServerDb × SettingsView × Bool)
unfolding upsert_org_settings without_mask masked
admin_update_settings get_fails write_fails now body db = do
  req ← present body 400 "invalid request body"
  let p = without_mask req
  r ← answered (upsert_org_settings get_fails write_fails now p db) 500 "failed to update settings"
  ok (r.0, masked r.1, is_some p.entra_tenant || is_some p.entra_client || is_some p.entra_secret)
