-- ===== src/Api/Devices.antt =====
-- api/devices.py with schemas/device.py: list, facet, read, create, update and delete of devices.
pub mod Calls
pub mod Refinement
use mdmfleetmanagement.Prelude.{
  ℕ, String, Bool, true, false, not, Option, none, some, List, [], ◌∷◌, ◌++◌, if◌then◌else◌, ◌==◌,
  ◌&&◌, ◌||◌, is_some, leb,
}
use mdmfleetmanagement.Prelude.Rows.{find_where, any_where, delete_where}
use mdmfleetmanagement.Models.{Database, Device, DeviceGroupMember, OtaEvent, str, columns}
use mdmfleetmanagement.Session.{
  Action, http, integrity_error, pure, raise_if, or_raise, query, execute, commit, ◌>>=◌, ◌>>◌,
}
use mdmfleetmanagement.Audit.{log}
use mdmfleetmanagement.Broadcasts.{has_home_id}
use mdmfleetmanagement.Mqtt.Heartbeat.{has_id, add_device}
use mdmfleetmanagement.Mqtt.Heartbeat.{update_device as write_device}
use mdmfleetmanagement.Mqtt.Registration.{mac_taken}
use mdmfleetmanagement.Repositories.Device.{
  Listing, SortKey, get_filtered_paginated, distinct_values,
}
use mdmfleetmanagement.Api.Patch.{Patch, patch_column, patch_text, is_nulled, item, named}

pub record DeviceCreate : Type 0 where
  pub device_id : String
  pub mac : String
  pub firmware_version : String
  pub role : String
  pub home_id : Option String

pub record DeviceUpdate : Type 0 where
  pub firmware_version : Patch
  pub role : Patch
  pub status : Patch
  pub home_id : Patch

pub record DeviceListResponse : Type 0 where
  pub items : List Device
  pub total : ℕ
  pub limit : ℕ
  pub offset : ℕ

-- GET /, with Query(50, ge=1, le=500) on the limit
unfoldable pub list_devices :
    (String → String → Bool)
    → (SortKey → List Device → List Device)
    → Listing
    → Action DeviceListResponse
list_devices ilike order_by q = do
  raise_if (not (leb 1 q.limit && leb q.limit 500)) (http 422)
  page ← query (λ d. get_filtered_paginated ilike order_by q d.devices)
  pure (record { items = page.0; total = page.1; limit = q.limit; offset = q.skip })

-- GET /facets/{column}
unfoldable pub list_facet : (List String → List String) → String → Action (List String)
list_facet order_by column = query (λ d. distinct_values order_by column d.devices)

-- GET /{device_id}
unfoldable pub get_device : String → Action Device
get_device id = do or_raise (← query (λ d. find_where (has_id id) d.devices)) (http 404)

-- Device(**payload.model_dump()), with the defaults of models/device.py
unfoldable pub created_device : DeviceCreate → Device
created_device p = record {
  device_id = p.device_id;
  mac = some p.mac;
  display_name = none;
  custom_id = none;
  firmware_version = some p.firmware_version;
  target_firmware_version = none;
  device_type = "room_sensor";
  provision_token = none;
  role = p.role;
  status = "unknown";
  last_seen = none;
  home_id = p.home_id;
  rssi = none;
  heap = none;
  uptime = none;
}

-- The foreign key on homes.home_id.
unfoldable pub home_missing : Option String → Database → Bool
home_missing none d = false
home_missing (some h) d = not (any_where (has_home_id h) d.homes)

-- POST /
unfoldable pub create_device : DeviceCreate → Action Device
create_device p = do
  raise_if (is_some (← query (λ d. find_where (has_id p.device_id) d.devices))) (http 409)
  raise_if (← query (mac_taken p.device_id (some p.mac))) integrity_error
  raise_if (← query (home_missing p.home_id)) integrity_error
  execute (add_device (created_device p))
  commit
  log none "create" "device" (("device_id", str p.device_id) ∷ [])
  pure (created_device p)

unfoldable pub patched_device : DeviceUpdate → Device → Device
patched_device p x = record x {
  firmware_version = patch_column p.firmware_version x.firmware_version;
  role = patch_text p.role x.role;
  status = patch_text p.status x.status;
  home_id = patch_column p.home_id x.home_id;
}

unfoldable pub device_changes : DeviceUpdate → List (String × Option String)
device_changes p =
    item "firmware_version" p.firmware_version
    ++ (item "role" p.role ++ (item "status" p.status ++ item "home_id" p.home_id))

-- PATCH /{device_id}
unfoldable pub update_device : String → DeviceUpdate → Action Device
update_device id p = do
  x ← get_device id
  raise_if (is_nulled p.role || is_nulled p.status) integrity_error
  raise_if (← query (home_missing (named p.home_id))) integrity_error
  execute (write_device id (patched_device p))
  commit
  log none "update" "device" (("device_id", str id) ∷ ("changes", columns (device_changes p)) ∷ [])
  pure (patched_device p x)

unfoldable pub is_event_of : String → OtaEvent → Bool
is_event_of id e = e.device_id == id

unfoldable pub is_member : String → DeviceGroupMember → Bool
is_member id m = m.device_id == id

-- The row goes with its group memberships (ON DELETE CASCADE).
unfoldable pub remove_device : String → Database → Database
remove_device id d = record d {
  devices = delete_where (has_id id) d.devices;
  device_group_members = delete_where (is_member id) d.device_group_members;
}

-- DELETE /{device_id}: the foreign key of ota_events refuses a device that has events.
unfoldable pub delete_device : String → Action (Unit {0})
delete_device id = do
  get_device id
  raise_if (← query (λ d. any_where (is_event_of id) d.ota_events)) integrity_error
  execute (remove_device id)
  commit
  log none "delete" "device" (("device_id", str id) ∷ [])
