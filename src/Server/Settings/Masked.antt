-- ===== src/Server/Settings/Masked.antt =====
-- The settings as the dashboard reads them and sends them back.
use trasker.Prelude.{
  ℕ, ◌≡◌, sym, ap, subst, inl, inr, Bool, true, false, Option, none, some, String, str_eq, eq_iff,
  Bool-cases, Result, ok, arith,
}
use trasker.Server.Tables.{OrgSettings, ServerDb}
use trasker.Server.Http.{Failure}
use trasker.Server.Http.Steps.{stored_ok}
use trasker.Server.Devices.{found}
use trasker.Server.Settings.{
  get_org_settings, UpdateOrgSettingsParams, merged, upsert_org_settings, SettingsView, masked,
  admin_get_settings, without_mask, admin_update_settings,
}

-- A form whose fields are all sent back as they were shown.
abbrev pub as_shown : SettingsView → UpdateOrgSettingsParams
as_shown v = record {
  org_name = some v.org_name;
  entra_tenant = some v.entra_tenant;
  entra_client = some v.entra_client;
  entra_secret = some v.entra_secret;
  key_expiry_days = some v.key_expiry_days;
}

found_some : {A : Type 0} (x : Option A) (a : A) → found x ≡ ok a → x ≡ some a
found_some none a h = absurd (cc)
found_some (some b) a h = ground (arith, h)

update_shown :
    (now : ℕ) (db : ServerDb) (o : OrgSettings)
    → db.org_settings ≡ some o
    → admin_update_settings false false now (some (as_shown (masked o))) db
      ≡ ok (
        record db { org_settings = some (record o { updated_at = now }) },
        record (masked o) { updated_at = now },
        true,
      )
unfolding admin_update_settings upsert_org_settings get_org_settings merged without_mask masked
update_shown now db o h = elim (Bool-cases (str_eq o.entra_secret "")) [
  | inl e ↦
      let k : o.entra_secret ≡ "" = (eq_iff o.entra_secret "").0 e in
      let shown : SettingsView = record {
        org_name = o.org_name;
        entra_tenant = o.entra_tenant;
        entra_client = o.entra_client;
        entra_secret = "";
        key_expiry_days = o.key_expiry_days;
        updated_at = now;
      } in
      let answer : String → Result Failure (ServerDb × SettingsView × Bool) = λ s. ok (
        record db { org_settings = some (record o { entra_secret = s; updated_at = now }) },
        shown,
        true,
      ) in
      rw (h, e) (ap answer (sym k))
  | inr e ↦ rw (h, e) (rw e)
]

-- Sending the settings back as they were shown changes none of them, the secret included, which is
-- shown masked: only the time of the update is new. It does clear the cached configuration.
pub update-get :
    (now : ℕ) (db : ServerDb) (v : SettingsView)
    → admin_get_settings false db ≡ ok v
    → (o : OrgSettings) × (db.org_settings ≡ some o)
      × (admin_update_settings false false now (some (as_shown v)) db
          ≡ ok (
            record db { org_settings = some (record o { updated_at = now }) },
            record v { updated_at = now },
            true,
          ))
unfolding admin_get_settings get_org_settings
update-get now db v h =
    let (o, e, k) = stored_ok (found db.org_settings) _ _ _ v h in
    let x = found_some db.org_settings o e in
    let y : masked o ≡ v = ground (arith, k) in
    (
      o,
      x,
      subst
          (λ (u : SettingsView).
            admin_update_settings false false now (some (as_shown u)) db
            ≡ ok (
              record db { org_settings = some (record o { updated_at = now }) },
              record u { updated_at = now },
              true,
            ))
          y (update_shown now db o x),
    )
