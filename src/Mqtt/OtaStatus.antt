-- ===== src/Mqtt/OtaStatus.antt =====
-- mqtt/handlers.py, handle_ota_status: a device reports on an update.
use mdmfleetmanagement.Prelude.{
  ℕ, String, Bool, true, false, not, Option, none, some, if◌then◌else◌, ◌==◌, ◌&&◌, ◌||◌, eq_sql,
}
use mdmfleetmanagement.Prelude.Rows.{select_where}
use mdmfleetmanagement.Models.{OtaEvent}
use mdmfleetmanagement.Session.{
  Action, pure, or_raise, query, execute, commit, integrity_error, ◌>>=◌, ◌>>◌,
}
use mdmfleetmanagement.Ota.Select.{in_flight}
use mdmfleetmanagement.Ota.Latest.{latest}
use mdmfleetmanagement.Mqtt.Json.{
  Driver, Json, Scalar, null, find_key, fields_of, truthy, is_text, to_column,
}
use mdmfleetmanagement.Mqtt.Heartbeat.{update_device, update_event}

-- The events that a report on a version can be about.
unfoldable pub is_active : String → Option String → OtaEvent → Bool
is_active name version e = e.device_id == name && eq_sql version e.to_version && in_flight e.status

-- event.status = status, and completed_at = now if status in ("success", "failed")
unfoldable pub report : Scalar → String → ℕ → OtaEvent → OtaEvent
report status s now e = record e {
  status = s;
  completed_at =
      if is_text status "success" || is_text status "failed" then some now else e.completed_at;
}

-- On success the device has the version that it reports.
unfoldable pub install_if : String → Option String → Bool → Action (Unit {0})
install_if name version true =
    execute (update_device name (λ x. record x { firmware_version = version }))
install_if name version false = pure tt

unfoldable pub write_report : ℕ → String → Scalar → String → Option String → OtaEvent → Action Bool
write_report now name status s version e = do
  execute (update_event e.id (report status s now))
  install_if name version (is_text status "success")
  commit
  pure true

-- What is written when an event is found; its status may not be NULL.
unfoldable pub on_event :
    Driver → ℕ → String → Scalar → Option String → Option OtaEvent → Action Bool
on_event driver now name status version none = pure false
on_event driver now name status version (some e) = do
  s ← or_raise (← to_column (driver.bind_text status)) integrity_error
  write_report now name status s version e

unfoldable pub ota_status_fields : Driver → ℕ → String → Scalar → Scalar → Action Bool
ota_status_fields driver now name status version =
    if not (truthy status) || not (truthy version) then pure false else do
      bound ← to_column (driver.bind_text version)
      event ← query (λ d. latest (select_where (is_active name bound) d.ota_events))
      on_event driver now name status bound event

unfoldable pub ota_status_payload : Driver → ℕ → String → Option Json → Action Bool
ota_status_payload driver now name none = pure false
ota_status_payload driver now name (some payload) = do
  fields ← fields_of payload
  ota_status_fields driver now name (find_key "status" fields null) (find_key "version" fields null)

unfoldable pub handle_ota_status : Driver → ℕ → String → String → Action Bool
handle_ota_status driver now name raw = ota_status_payload driver now name (driver.loads raw)
