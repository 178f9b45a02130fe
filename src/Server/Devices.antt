-- ===== src/Server/Devices.antt =====
-- internal/server/store/devices.go and internal/server/api/device_handlers.go.
use trasker.Prelude.{
  ℕ, Bool, ◌&&◌, Option, none, some, List, [], ◌∷◌, ◌++◌, String, str_eq, ◌==◌, if◌then◌else◌, find,
  filter, Result, ok, err,
}
use trasker.Prelude.Sort.{sort_by}
use trasker.Store.Tables.{update_where}
use trasker.Server.Tables.{Device, ServerDb, Given, StoreError, not_found, query}
use trasker.Server.Http.{Failure, Caller, ◌>>=◌, ◌>>◌, check, present, stored, answered, is_set}

pub record UpsertDeviceParams : Type 0 where
  pub user_id : ℕ
  pub api_key_id : ℕ
  pub client_device_id : String
  pub os : String
  pub hostname : String

-- The key of `idx_devices_client_api`.
unfoldable pub is_client : String → ℕ → Device → Bool
is_client client_device_id api_key_id d =
    str_eq d.client_device_id client_device_id && (d.api_key_id == api_key_id)

unfoldable pub new_device : Given → UpsertDeviceParams → ServerDb → Device
new_device g p db = record {
  id = g.fresh_id db;
  user_id = p.user_id;
  api_key_id = p.api_key_id;
  client_device_id = p.client_device_id;
  device_name = if str_eq p.hostname "" then none else some p.hostname;
  os = p.os;
  last_seen_at = g.now;
  created_at = g.now;
}

abbrev pub found {ℓ} : {A : Type ℓ} → Option A → Result StoreError A
found none = err not_found
found (some a) = ok a

unfoldable pub seen : Given → Device → Device
seen g d = record d { last_seen_at = g.now }

-- The row that is there is only seen again; what else is given is not stored.
unfoldable pub upsert_device :
    Bool → Given → UpsertDeviceParams → ServerDb → Result StoreError (ServerDb × Device)
unfolding is_client new_device seen
upsert_device fails g p db =
    query fails (elim (find (is_client p.client_device_id p.api_key_id) db.devices) [
      | none ↦ ok (record db { devices = db.devices ++ new_device g p db ∷ [] }, new_device g p db)
      | some d ↦ ok (
        record db {
          devices = update_where (is_client p.client_device_id p.api_key_id) (seen g) db.devices;
        },
        seen g d,
      )
    ])

-- `ORDER BY last_seen_at DESC`: the ascending order from its end.
abbrev pub reverse_onto {ℓ} : {A : Type ℓ} → List A → List A → List A
reverse_onto [] ys = ys
reverse_onto (x ∷ xs) ys = reverse_onto xs (x ∷ ys)

abbrev pub newest_first {ℓ} : {A : Type ℓ} → (A → ℕ) → List A → List A
newest_first key xs = reverse_onto (sort_by key xs) []

unfoldable pub list_devices_by_user : Bool → ℕ → ServerDb → Result StoreError (List Device)
list_devices_by_user fails user_id db =
    query fails
      (ok (newest_first (λ d. d.last_seen_at) (filter (λ d. d.user_id == user_id) db.devices)))

unfoldable pub get_device_by_id : Bool → ℕ → ServerDb → Result StoreError Device
get_device_by_id fails id db = query fails (found (find (λ d. d.id == id) db.devices))

unfoldable pub get_device_by_client_id : Bool → String → ℕ → ServerDb → Result StoreError Device
unfolding is_client
get_device_by_client_id fails client_device_id api_key_id db =
    query fails (found (find (is_client client_device_id api_key_id) db.devices))

unfoldable pub update_device_name :
    Bool → ℕ → String → ServerDb → Result StoreError (ServerDb × Device)
update_device_name fails id name db = query fails (elim (find (λ d. d.id == id) db.devices) [
  | none ↦ err not_found
  | some d ↦ ok (
    record db {
      devices =
          update_where (λ d. d.id == id) (λ d. record d { device_name = some name }) db.devices;
    },
    record d { device_name = some name },
  )
])

pub record RegisterReq : Type 0 where
  pub client_device_id : String
  pub os : String
  pub hostname : String

-- `deviceRegisterHandler`; none is a body that does not decode.
unfoldable pub device_register :
    Bool → Given → Caller → Option RegisterReq → ServerDb → Result Failure (ServerDb × Device)
unfolding upsert_device
device_register fails g caller body db = do
  user_id ← present caller.user_id 401 "not authenticated"
  api_key_id ← present caller.api_key_id 401 "no API key context"
  req ← present body 400 "invalid request body"
  check (is_set req.client_device_id && is_set req.os) 400 "client_device_id and os are required"
  answered
      (upsert_device fails g
        (record {
          user_id = user_id;
          api_key_id = api_key_id;
          client_device_id = req.client_device_id;
          os = req.os;
          hostname = req.hostname;
        })
        db)
      500 "failed to register device"

-- `deviceListHandler`.
unfoldable pub device_list : Bool → Caller → ServerDb → Result Failure (List Device)
unfolding list_devices_by_user
device_list fails caller db = do
  user_id ← present caller.user_id 401 "not authenticated"
  answered (list_devices_by_user fails user_id db) 500 "failed to list devices"

-- `deviceUpdateHandler`: the id of the path and the `device_name` of the body, none if they do not
-- parse.
unfoldable pub device_update :
    Bool → Option ℕ → Option String → ServerDb → Result Failure (ServerDb × Device)
unfolding update_device_name
device_update fails path_id body db = do
  device_id ← present path_id 400 "invalid device ID"
  name ← present body 400 "invalid request body"
  check (is_set name) 400 "device_name is required"
  stored (update_device_name fails device_id name db)
      (record { status = 404; error = "device not found" })
      (record { status = 500; error = "failed to update device" })
