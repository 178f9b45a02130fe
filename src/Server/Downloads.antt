-- ===== src/Server/Downloads.antt =====
-- internal/server/api/build_handlers.go: a client binary with a new API key in it.
pub mod Expiry
pub mod Examples
use trasker.Prelude.{
  ℕ, suc, ◌+◌, ◌-◌, ◌*◌, ◌/◌, ◌%◌, ◌^◌, Bool, true, false, Option, none, some, List, [], ◌∷◌, ◌++◌,
  String, ltb, if◌then◌else◌, Result, ok, err,
}
use trasker.Prelude.Int.{ℤ, pos, negsuc}
use trasker.Server.Tables.{ServerDb, Given, OrgSettings}
use trasker.Server.Http.{Failure, Caller, ◌>>=◌, ◌>>◌, check, present, answered}
use trasker.Server.Admin.{CreateApiKeyParams, create_api_key}
use trasker.Server.Settings.{get_org_settings}
use trasker.Builder.{Bytes, Target, Cache, Sentinels, PatchError, validate_target, is_cached, patch}

-- The int64 that a product stands for.
unfoldable pub wrap_64 : ℕ → ℤ
wrap_64 n = let m = n % 2 ^ 64 in if ltb m (2 ^ 63) then pos m else negsuc (2 ^ 64 - m - 1)

-- `time.Duration(expiryDays) * 24 * time.Hour`, in nanoseconds.
unfoldable pub key_duration : ℕ → ℤ
unfolding wrap_64
key_duration days = wrap_64 (days * (24 * 3600 * 1000000000))

-- `Add`, to the microsecond; an instant before 1970 is taken for 0.
unfoldable pub add_duration : ℕ → ℤ → ℕ
add_duration t (pos n) = t + n / 1000
add_duration t (negsuc n) = t - suc n / 1000

-- The days of the settings if they are there and more than 0, 90 otherwise.
abbrev pub days_or_default : ℤ → ℕ
days_or_default (pos n) = if ltb 0 n then n else 90
days_or_default (negsuc n) = 90

unfoldable pub expiry_days : Bool → ServerDb → ℕ
unfolding get_org_settings
expiry_days fails db = elim (get_org_settings fails db) [
  | err _ ↦ 90
  | ok o ↦ days_or_default o.key_expiry_days
]

-- What apikey.Generate returns.
pub record Generated : Type 0 where
  pub plain_key : Bytes
  pub key_hash : String
  pub key_prefix : String

-- The part of the request that the server's address is taken from.
pub record Origin : Type 0 where
  pub tls : Bool
  pub forwarded_proto : Bytes
  pub host : Bytes

-- "http", "https" and "://".
abbrev http : Bytes
http = 104 ∷ 116 ∷ 116 ∷ 112 ∷ []

abbrev https : Bytes
https = 104 ∷ 116 ∷ 116 ∷ 112 ∷ 115 ∷ []

abbrev colon_slashes : Bytes
colon_slashes = 58 ∷ 47 ∷ 47 ∷ []

abbrev pub text_or : Bytes → Bytes → Bytes
text_or [] t = t
text_or (b ∷ s) t = b ∷ s

unfoldable pub server_url : Bytes → Origin → Bytes
server_url (b ∷ fqdn) o = https ++ (colon_slashes ++ (b ∷ fqdn))
server_url [] o =
    (if o.tls then https else text_or o.forwarded_proto http) ++ (colon_slashes ++ o.host)

-- What the request does not carry: the builder, none if there is none, with its sentinels and the
-- version, the FQDN, and whether the two statements fail.
pub record Deps : Type 0 where
  pub builder : Option Cache
  pub sentinels : Sentinels
  pub version : Bytes
  pub fqdn : Bytes
  pub settings_fail : Bool
  pub create_fails : Bool

pub record DownloadReq : Type 0 where
  pub target_os : Bytes
  pub target_arch : Bytes

abbrev pub patched : Result PatchError Bytes → Result Failure Bytes
patched (ok b) = ok b
patched (err _) = err (record { status = 500; error = "patch failed" })

-- The steps before the key is made: the user, the cache and the target.
unfoldable pub download_target :
    Deps → Caller → Option DownloadReq → Result Failure (ℕ × Cache × Target)
unfolding validate_target is_cached
download_target deps caller body = do
  cache ←
      present deps.builder 503 "build service not available (Go toolchain not installed on server)"
  user_id ← present caller.user_id 500 "internal error"
  req ← present body 400 "invalid request body"
  target ← present (validate_target req.target_os req.target_arch) 400 "unsupported target"
  check (is_cached cache target) 503 "client binaries are still being built — try again in a minute"
  ok (user_id, cache, target)

unfoldable pub new_key_params : Deps → ℕ → ℕ → Generated → ServerDb → CreateApiKeyParams
unfolding key_duration add_duration expiry_days
new_key_params deps now user_id k db = record {
  user_id = user_id;
  key_hash = k.key_hash;
  key_prefix = k.key_prefix;
  expires_at = add_duration now (key_duration (expiry_days deps.settings_fail db));
}

-- The key is stored before the binary is patched, and stays if that fails.
unfoldable pub build_download :
    Deps
    → Given
    → Caller
    → Option DownloadReq
    → Option Generated
    → Origin
    → ServerDb
    → ServerDb × Result Failure Bytes
unfolding download_target new_key_params create_api_key patch server_url
build_download deps g caller body generated origin db = elim (download_target deps caller body) [
  | err f ↦ (db, err f)
  | ok t ↦ elim generated [
    | none ↦ (db, err (record { status = 500; error = "failed to generate API key" }))
    | some k ↦ elim (create_api_key deps.create_fails g (new_key_params deps g.now t.0 k db) db) [
      | err _ ↦ (db, err (record { status = 500; error = "failed to create API key" }))
      | ok r ↦ (
        r.0,
        patched (
            patch deps.sentinels t.1 (record {
              target = t.2;
              api_key = k.plain_key;
              server_url = server_url deps.fqdn origin;
              version = deps.version;
            })),
      )
    ]
  ]
]
