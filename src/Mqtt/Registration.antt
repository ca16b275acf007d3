-- ===== src/Mqtt/Registration.antt =====
-- mqtt/handlers.py, handle_registration: a device announces itself on boot.
use mdmfleetmanagement.Prelude.{
  ℕ, String, Bool, true, false, not, Option, none, some, List, [], ◌∷◌, ◌++◌, if◌then◌else◌, ◌==◌,
  ◌&&◌, eq_sql,
}
use mdmfleetmanagement.Prelude.Rows.{find_where, any_where}
use mdmfleetmanagement.Prelude.Text.{concat}
use mdmfleetmanagement.Models.{Database, Device, Home}
use mdmfleetmanagement.Session.{
  Action, pure, raise, raise_if, or_raise, query, execute, commit, value_error, integrity_error,
  ◌>>=◌, ◌>>◌,
}
use mdmfleetmanagement.Mqtt.Json.{
  Driver, Json, Scalar, null, text, find_key, fields_of, stripped, to_column,
}
use mdmfleetmanagement.Mqtt.Heartbeat.{has_id, add_device, update_device}

-- What a registration reports, as the columns hold it.
pub record Registration : Type 0 where
  pub mac : Option String
  pub version : Option String
  pub role : String
  pub home_id : Option String
  pub display_name : Option String
  pub custom_id : Option String

-- `if new is not None: x.column = new`
unfoldable pub kept_or : Option String → Option String → Option String
kept_or none old = old
kept_or (some new) old = some new

-- The assignments to a device that is known.
unfoldable pub reregister : ℕ → Registration → Device → Device
reregister now g x = record x {
  mac = g.mac;
  firmware_version = g.version;
  role = g.role;
  status = "alive";
  last_seen = some now;
  home_id = kept_or g.home_id x.home_id;
  display_name = kept_or g.display_name x.display_name;
  custom_id = kept_or g.custom_id x.custom_id;
}

-- The row of a new device, with the defaults of models/device.py.
unfoldable pub registered : String → ℕ → Registration → Device
registered name now g = record {
  device_id = name;
  mac = g.mac;
  display_name = g.display_name;
  custom_id = g.custom_id;
  firmware_version = g.version;
  target_firmware_version = none;
  device_type = "room_sensor";
  provision_token = none;
  role = g.role;
  status = "alive";
  last_seen = some now;
  home_id = g.home_id;
  rssi = none;
  heap = none;
  uptime = none;
}

unfoldable pub has_home : String → Home → Bool
has_home h x = x.home_id == h

abbrev pub add_home : Home → Database → Database
add_home h d = record d { homes = d.homes ++ h ∷ [] }

-- The placeholder of a home that an installer named.
unfoldable pub placeholder : String → Home
placeholder h = record { home_id = h; patient_name = h; address = none }

unfoldable pub create_home : String → Bool → Action (Unit {0})
create_home h true = pure tt
create_home h false = execute (add_home (placeholder h))

unfoldable pub ensure_home : Option String → Action (Unit {0})
ensure_home none = pure tt
ensure_home (some h) = do exists ← query (λ d. any_where (has_home h) d.homes); create_home h exists

-- The unique constraint on devices.mac: another device has this address. NULLs do not clash.
unfoldable pub has_mac : String → String → Device → Bool
has_mac name m x = not (x.device_id == name) && eq_sql x.mac m

unfoldable pub mac_taken : String → Option String → Database → Bool
mac_taken name none d = false
mac_taken name (some m) d = any_where (has_mac name m) d.devices

-- The write of the row, by whether the device is known. The commit fails if the address is taken.
unfoldable pub write_row : String → ℕ → Registration → Bool → Action (Unit {0})
write_row name now g known = do
  raise_if (← query (mac_taken name g.mac)) integrity_error
  execute
      (if known then update_device name (reregister now g) else add_device (registered name now g))
  commit

unfoldable pub registration_of : Driver → List (String × Scalar) → Action Registration
registration_of driver fields = do
  home_id ← stripped (find_key "home_id" fields null)
  display_name ← stripped (find_key "label" fields null)
  custom_id ← stripped (find_key "custom_id" fields null)
  mac ← to_column (driver.bind_text (find_key "mac" fields (text "unknown")))
  version ← to_column (driver.bind_text (find_key "version" fields (text "unknown")))
  role ← to_column (driver.bind_text (find_key "role" fields (text "sensor")))
  role_not_null ← or_raise role integrity_error
  pure (record {
    mac = mac;
    version = version;
    role = role_not_null;
    home_id = home_id;
    display_name = display_name;
    custom_id = custom_id;
  })

-- The upsert of a device with what it reports.
unfoldable pub register_device : ℕ → String → Registration → Action Device
register_device now name g = do
  ensure_home g.home_id
  known ← query (λ d. any_where (has_id name) d.devices)
  write_row name now g known
  or_raise (← query (λ d. find_where (has_id name) d.devices)) integrity_error

unfoldable pub registration_payload : Driver → ℕ → String → Option Json → Action Device
registration_payload driver now name none =
    raise (value_error (concat ("Invalid registration payload from " ∷ name ∷ [])))
registration_payload driver now name (some payload) = do
  fields ← fields_of payload
  g ← registration_of driver fields
  register_device now name g

unfoldable pub handle_registration : Driver → ℕ → String → String → Action Device
handle_registration driver now name raw = registration_payload driver now name (driver.loads raw)
