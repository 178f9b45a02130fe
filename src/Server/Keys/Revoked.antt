-- ===== src/Server/Keys/Revoked.antt =====
-- A key that an administrator has revoked.
use mathlib.Core.List.{Memᴰ}
use trasker.Prelude.{
  ℕ, ◌≡◌, ◌≢◌, refl, sym, ap, ◌∙◌, subst, inl, inr, Bool, true, false, not, ◌&&◌, Option, none,
  some, List, [], ◌∷◌, String, str_eq, ◌==◌, ltb, if_elim, Bool-cases, Option-cases, find, any, All,
  All-get, ok, arith,
}
use trasker.Store.Tables.{update_where}
use trasker.Server.Tables.{ApiKey, ServerDb, Given}
use trasker.Server.Http.{Caller}
use trasker.Server.Http.Steps.{present_ok, stored_ok}
use trasker.Server.Admin.{
  Faults, CreateAuditLogParams, create_audit_log, audited, with_role, first_some, is_active,
  active_by_prefix, get_active_api_key_by_prefix, revoked_row, revoke_api_key, admin_revoke_key,
}
use trasker.Server.Keys.{Reading, key_record, store_lookup}
use trasker.ServerAuth.{Bytes, KeyRecord, Identity, prefix, authenticate}
use trasker.ServerAuth.Admitted.{authenticate-Valid}

-- Every row with the id is revoked.
abbrev pub RevokedId : ℕ → List ApiKey → Type 0
RevokedId id keys = All (λ k. k.id ≡ id → k.revoked ≡ true) keys

revoke-RevokedId :
    (now id : ℕ) (keys : List ApiKey)
    → RevokedId id (update_where (λ k. k.id == id) (revoked_row now) keys)
unfolding update_where revoked_row
revoke-RevokedId now id [] = tt
revoke-RevokedId now id (k ∷ keys) = (
  if_elim (λ (r : ApiKey). r.id ≡ id → r.revoked ≡ true) (k.id == id) _ _ (λ _ _. refl)
      (λ n e. absurd (ground (arith, e))),
  revoke-RevokedId now id keys,
)

audited-keys :
    (fails : Bool) (g : Given) (p : CreateAuditLogParams) (db : ServerDb)
    → (audited fails g p db).api_keys ≡ db.api_keys
unfolding audited create_audit_log
audited-keys true g p db = refl
audited-keys false g p db = refl

revoke-keys :
    (fails : Bool) (now id : ℕ) (db db' : ServerDb)
    → revoke_api_key fails now id db ≡ ok db'
    → RevokedId id db'.api_keys
unfolding revoke_api_key
revoke-keys true now id db db' h = absurd (cc)
revoke-keys false now id db db' h = elim (Bool-cases (any (λ k. k.id == id) db.api_keys)) [
  | inl e ↦
      let keys = update_where (λ (k : ApiKey). k.id == id) (revoked_row now) db.api_keys in
      let x : record db { api_keys = keys } ≡ db' = ground (arith, h, e) in
      subst (λ (d : ServerDb). RevokedId id d.api_keys) x (revoke-RevokedId now id db.api_keys)
  | inr e ↦ absurd (ground (arith, h, e))
]

admin_revoke-RevokedId :
    (faults : Faults) (g : Given) (caller : Caller) (id : ℕ) (db db' : ServerDb)
    → admin_revoke_key faults g caller (some id) db ≡ ok db'
    → RevokedId id db'.api_keys
unfolding admin_revoke_key
admin_revoke-RevokedId faults g caller id db db' h =
    let (a, e, k) = present_ok caller.user_id 500 "internal error" _ db' h in
    let (d, e', k') = stored_ok (revoke_api_key faults.change g.now id db) _ _ _ db' k in
    let p : CreateAuditLogParams = record {
      admin_id = a;
      action = "key.revoke";
      target_type = "api_key";
      target_id = id;
      old_value = none;
      new_value = none;
    } in
    let x : audited faults.audit g p d ≡ db' = ground (arith, k') in
    subst (RevokedId id)
      (sym (audited-keys faults.audit g p d) ∙ ap (λ (z : ServerDb). z.api_keys) x)
      (revoke-keys faults.change g.now id db d e')

first_some-mem :
    {A B : Type 0} (f : A → Option B) (xs : List A) (b : B)
    → first_some f xs ≡ some b
    → (x : A) × Memᴰ x xs × (f x ≡ some b)
first_some-mem f [] b h = absurd (cc)
first_some-mem f (x ∷ xs) b h = elim (Option-cases (f x)) [
  | inl e ↦ let (y, m, k) = first_some-mem f xs b (ground (arith, h, e)) in (y, Memᴰ.tail m, k)
  | inr (c, e) ↦ (x, Memᴰ.head refl, e ∙ ground (arith, h, e))
]

with_role-key :
    (db : ServerDb) (x : ApiKey) (r : ApiKey × String) → with_role db x ≡ some r → r.0 ≡ x
with_role-key db x r h = elim (Option-cases (find (λ u. u.id == x.user_id) db.users)) [
  | inl e ↦ absurd (ground (arith, h, e))
  | inr (u, e) ↦ ground (arith, h, e)
]

active_row :
    (now : ℕ) (text : String) (db : ServerDb) (x : ApiKey) (r : ApiKey × String)
    → active_by_prefix now text db x ≡ some r
    → (r.0 ≡ x) × (x.revoked ≡ false)
unfolding active_by_prefix is_active
active_row now text db x r h =
    elim (Bool-cases (str_eq x.key_prefix text && (not x.revoked && ltb now x.expires_at))) [
      | inl e ↦ (with_role-key db x r (ground (arith, h, e)), ground (arith, e))
      | inr e ↦ absurd (ground (arith, h, e))
    ]

found-not_revoked :
    (read : Reading) (fails : Bool) (now id : ℕ) (db : ServerDb) (b : Bytes) (r : KeyRecord)
    → RevokedId id db.api_keys
    → store_lookup read fails now db b ≡ some r
    → r.id ≢ id
unfolding store_lookup get_active_api_key_by_prefix key_record
found-not_revoked read true now id db b r v h = absurd (cc)
found-not_revoked read false now id db b r v h =
    elim (Option-cases (first_some (active_by_prefix now (read.text b) db) db.api_keys)) [
      | inl e ↦ absurd (ground (arith, h, e))
      | inr (p, e) ↦
          let (x, m, k) = first_some-mem (active_by_prefix now (read.text b) db) db.api_keys p e in
          let (y, z) = active_row now (read.text b) db x p k in
          λ w. absurd (ground (arith, h, e, y, z, w, All-get _ db.api_keys x v m))
    ]

-- Once an administrator's request to revoke a key has succeeded, whatever its audit row's fate, the
-- middleware lets no request of a client through under that key, whatever its header is.
pub revoked_key_refused :
    (faults : Faults) (g : Given) (caller : Caller) (id : ℕ) (db db' : ServerDb) (read : Reading)
    (fails : Bool) (matches : Bytes → Bytes → Bool) (now : ℕ) (header : Bytes) (i : Identity)
    → admin_revoke_key faults g caller (some id) db ≡ ok db'
    → authenticate (store_lookup read fails now db') matches now header ≡ ok i
    → i.key_id ≢ id
revoked_key_refused faults g caller id db db' read fails matches now header i h k =
    let (_, key, r, _, v, e) =
      authenticate-Valid (store_lookup read fails now db') matches now header i k in
    λ w.
      found-not_revoked read fails now id db' (prefix key) r
        (admin_revoke-RevokedId faults g caller id db db' h) v.found
        (sym (ap (λ (j : Identity). j.key_id) e) ∙ w)
