-- ===== src/Server/Downloads/Expiry.antt =====
-- How long the key of a downloaded client lasts.
use trasker.Prelude.{
  ℕ, ◌+◌, ◌*◌, ◌≡◌, ◌≤◌, refl, sym, ap, ◌∙◌, subst, Bool, true, false, Option, none, some, [], ◌∷◌,
  ◌++◌, Result, ok, err, arith,
}
use trasker.Server.Tables.{ApiKey, ServerDb, Given, StoreError}
use trasker.Server.Http.{Failure, Caller}
use trasker.Server.Admin.{new_api_key, create_api_key, is_active}
use trasker.Builder.{Bytes, Cache, Target, patch}
use trasker.Server.Downloads.{
  wrap_64, key_duration, add_duration, expiry_days, Generated, Origin, Deps, DownloadReq, patched,
  download_target, new_key_params, server_url, build_download,
}

-- Microseconds.
abbrev pub day : ℕ
day = 24 * 3600 * 1000000

short : (now days : ℕ) → days ≤ 106751 → add_duration now (key_duration days) ≡ now + days * day
unfolding add_duration key_duration wrap_64
short now days h = ground arith

long : (now days : ℕ) → 106752 ≤ days → days ≤ 213503 → add_duration now (key_duration days) ≤ now
unfolding add_duration key_duration wrap_64
long now days h k = ground arith

-- What is known of a key that a request has made.
pub record NewKey (now days : ℕ) (db db' : ServerDb) (key : ApiKey) : Type 0 where
  pub added : db'.api_keys ≡ db.api_keys ++ key ∷ []
  pub not_revoked : key.revoked ≡ false
  pub lasts : days ≤ 106751 → key.expires_at ≡ now + days * day
  pub overflows : 106752 ≤ days → days ≤ 213503 → (t : ℕ) → now ≤ t → is_active t key ≡ false

made :
    (deps : Deps) (g : Given) (k : Generated) (user_id days : ℕ) (db db' : ServerDb) (key : ApiKey)
    → expiry_days deps.settings_fail db ≡ days
    → create_api_key deps.create_fails g (new_key_params deps g.now user_id k db) db ≡ ok (db', key)
    → NewKey g.now days db db' key
unfolding create_api_key new_api_key new_key_params is_active
made deps g k user_id days db db' key e h = go deps.create_fails h
  where
    go :
        (b : Bool)
        → create_api_key b g (new_key_params deps g.now user_id k db) db ≡ ok (db', key)
        → NewKey g.now days db db' key
    go true h = absurd (cc)
    go false h =
        let p = new_key_params deps g.now user_id k db in
        let x : new_api_key g p db ≡ key = ground (arith, h) in
        let y : record db { api_keys = db.api_keys ++ new_api_key g p db ∷ [] } ≡ db' =
          ground (arith, h) in
        let z : key.expires_at ≡ add_duration g.now (key_duration days) =
          sym (ap (λ (r : ApiKey). r.expires_at) x)
          ∙ ap (λ d. add_duration g.now (key_duration d)) e in
        record {
          added = sym (ap (λ (d : ServerDb). d.api_keys) y) ∙ ap (λ r. db.api_keys ++ r ∷ []) x;
          not_revoked = sym (ap (λ (r : ApiKey). r.revoked) x);
          lasts = λ l. z ∙ short g.now days l;
          overflows = λ l m t n. ground (arith, z, long g.now days l m);
        }

-- A request that answers with a binary has stored one more key, which is not revoked. If the days of
-- the settings, 90 without them, are up to 106,751, it expires after just as many. For 106,752 to
-- 213,503 days the product overflows Go's int64 and is negative: the key has expired when it is
-- made, and is not active then or later.
pub download-NewKey :
    (deps : Deps) (g : Given) (caller : Caller) (body : Option DownloadReq)
    (generated : Option Generated) (origin : Origin) (db db' : ServerDb) (binary : Bytes) (days : ℕ)
    → expiry_days deps.settings_fail db ≡ days
    → build_download deps g caller body generated origin db ≡ (db', ok binary)
    → (key : ApiKey) × NewKey g.now days db db' key
unfolding build_download
download-NewKey deps g caller body generated origin db db' binary days e =
    go (download_target deps caller body) generated
  where
    go :
        (t : Result Failure (ℕ × Cache × Target)) (o : Option Generated)
        → elim t as (λ _. ServerDb × Result Failure Bytes) [
          | err f ↦ (db, err f)
          | ok t ↦ elim o [
            | none ↦ (db, err (record { status = 500; error = "failed to generate API key" }))
            | some k ↦
                elim (create_api_key deps.create_fails g (new_key_params deps g.now t.0 k db) db) [
                  | err _ ↦ (db, err (record { status = 500; error = "failed to create API key" }))
                  | ok r ↦ (
                    r.0,
                    patched (
                        patch deps.sentinels t.1 (record {
                          target = t.2;
                          api_key = k.plain_key;
                          server_url = server_url deps.fqdn origin;
                          version = deps.version;
                        })),
                  )
                ]
          ]
        ]
          ≡ (db', ok binary)
        → (key : ApiKey) × NewKey g.now days db db' key
    go (err f) o h = absurd (cc)
    go (ok t) none h = absurd (cc)
    go (ok t) (some k) h =
        stored_key (create_api_key deps.create_fails g (new_key_params deps g.now t.0 k db) db) refl
          h
      where
        stored_key :
            (r : Result StoreError (ServerDb × ApiKey))
            → create_api_key deps.create_fails g (new_key_params deps g.now t.0 k db) db ≡ r
            → elim r as (λ _. ServerDb × Result Failure Bytes) [
              | err _ ↦ (db, err (record { status = 500; error = "failed to create API key" }))
              | ok r ↦ (
                r.0,
                patched (
                    patch deps.sentinels t.1 (record {
                      target = t.2;
                      api_key = k.plain_key;
                      server_url = server_url deps.fqdn origin;
                      version = deps.version;
                    })),
              )
            ]
              ≡ (db', ok binary)
            → (key : ApiKey) × NewKey g.now days db db' key
        stored_key (err x) q h = absurd (cc)
        stored_key (ok (d, key)) q h =
            let y : d ≡ db' = ap (λ r. r.0) h in
            (key, subst (λ x. NewKey g.now days db x key) y (made deps g k t.0 days db d key e q))
