-- ===== src/Mqtt/Heartbeat.antt =====
-- mqtt/handlers.py, handle_heartbeat. `clock i` is the i-th reading of the clock in a call.
use mdmfleetmanagement.Prelude.{
  ℕ, ◌+◌, ◌*◌, String, Bool, true, false, Option, none, some, List, [], ◌∷◌, ◌++◌, ◌==◌, ◌&&◌, leb,
  eqb, is_some,
}
use mdmfleetmanagement.Prelude.Int.{ℤ}
use mdmfleetmanagement.Prelude.Rows.{select_where, update_where, find_where}
use mdmfleetmanagement.Models.{Database, Device, OtaEvent}
use mdmfleetmanagement.Session.{Action, pure, query, execute, commit, ◌>>=◌, ◌>>◌}
use mdmfleetmanagement.Ota.Select.{in_flight}
use mdmfleetmanagement.Ota.Latest.{latest}
use mdmfleetmanagement.Mqtt.Json.{
  Driver, Json, Scalar, null, find_key, fields_of, is_below, to_column,
}

-- A device row by its key: Device.device_id == name
unfoldable pub has_id : String → Device → Bool
has_id name x = x.device_id == name

abbrev pub seconds : ℕ → ℕ
seconds n = n * 1_000_000

-- What a heartbeat reports, as the columns hold it.
pub record Beat : Type 0 where
  pub rssi : Option ℤ
  pub heap : Option ℤ
  pub uptime : Option ℤ

-- The values of the UPDATE.
unfoldable pub beat : ℕ → Beat → Device → Device
beat now b x = record x {
  status = "alive";
  last_seen = some now;
  rssi = b.rssi;
  heap = b.heap;
  uptime = b.uptime;
}

-- The row that a heartbeat of an unknown device creates, with the defaults of models/device.py.
unfoldable pub new_device : String → ℕ → Beat → Device
new_device name now b = record {
  device_id = name;
  mac = none;
  display_name = none;
  custom_id = none;
  firmware_version = none;
  target_firmware_version = none;
  device_type = "room_sensor";
  provision_token = none;
  role = "sensor";
  status = "alive";
  last_seen = some now;
  home_id = none;
  rssi = b.rssi;
  heap = b.heap;
  uptime = b.uptime;
}

abbrev pub add_device : Device → Database → Database
add_device x d = record d { devices = d.devices ++ x ∷ [] }

abbrev pub update_device : String → (Device → Device) → Database → Database
update_device name f d = record d { devices = update_where (has_id name) f d.devices }

abbrev pub update_event : ℕ → (OtaEvent → OtaEvent) → Database → Database
update_event id f d = record d { ota_events = update_where (λ e. eqb e.id id) f d.ota_events }

-- The events that a reboot can confirm: in flight on this device for ten minutes at most.
unfoldable pub is_recent : String → ℕ → OtaEvent → Bool
is_recent name now e =
    e.device_id == name && in_flight e.status && leb now (e.started_at + seconds 600)

abbrev pub succeed : ℕ → OtaEvent → OtaEvent
succeed now e = record e { status = "success"; completed_at = some now }

abbrev pub install : String → Device → Device
install v x = record x { firmware_version = some v }

-- The event that is taken for confirmed, if there is one.
unfoldable pub confirm : String → ℕ → Option OtaEvent → Action (Unit {0})
confirm name now none = pure tt
confirm name now (some e) = do
  execute (update_event e.id (succeed now))
  execute (update_device name (install e.to_version))
  commit

-- A heartbeat soon after a boot takes the latest event in flight for a success.
unfoldable pub promote : (ℕ → ℕ) → String → Bool → Action (Unit {0})
promote clock name false = pure tt
promote clock name true = do
  event ← query (λ d. latest (select_where (is_recent name (clock 1)) d.ota_events))
  confirm name (clock 2) event

-- What follows the UPDATE, by whether it found the device.
unfoldable pub after_update : (ℕ → ℕ) → String → Beat → Scalar → Bool → Action Bool
after_update clock name b uptime false = do
  execute (add_device (new_device name (clock 1) b))
  commit
  pure true
after_update clock name b uptime true = do
  fresh ← is_below uptime 180
  promote clock name fresh
  pure true

unfoldable pub beat_of : Driver → List (String × Scalar) → Action Beat
beat_of driver fields = do
  rssi ← to_column (driver.bind_integer (find_key "rssi" fields null))
  heap ← to_column (driver.bind_integer (find_key "heap" fields null))
  uptime ← to_column (driver.bind_integer (find_key "uptime" fields null))
  pure (record { rssi = rssi; heap = heap; uptime = uptime })

unfoldable pub heartbeat_object : Driver → (ℕ → ℕ) → String → Json → Action Bool
heartbeat_object driver clock name payload = do
  fields ← fields_of payload
  b ← beat_of driver fields
  known ← query (λ d. is_some (find_where (has_id name) d.devices))
  execute (update_device name (beat (clock 0) b))
  commit
  after_update clock name b (find_key "uptime" fields null) known

-- A payload that is no JSON is dropped.
unfoldable pub heartbeat_payload : Driver → (ℕ → ℕ) → String → Option Json → Action Bool
heartbeat_payload driver clock name none = pure false
heartbeat_payload driver clock name (some payload) = heartbeat_object driver clock name payload

unfoldable pub handle_heartbeat : Driver → (ℕ → ℕ) → String → String → Action Bool
handle_heartbeat driver clock name raw = heartbeat_payload driver clock name (driver.loads raw)
