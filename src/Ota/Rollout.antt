-- ===== src/Ota/Rollout.antt =====
-- Starting and aborting a rollout: services/ota.py (start_rollout, _publish_ota_command,
-- abort_rollout). The clock and the publish function are arguments; `publish_fn m` tells whether
-- the publisher took the message, and a publisher that does not take it raises.
use mdmfleetmanagement.Prelude.{
  ℕ, suc, ◌+◌, String, Bool, ◌&&◌, Option, none, some, List, [], ◌∷◌, ◌++◌, length, if◌then◌else◌,
  ◌==◌,
}
use mdmfleetmanagement.Prelude.Rows.{update_where, count_where}
use mdmfleetmanagement.Prelude.Text.{concat, rstrip_slash}
use mdmfleetmanagement.Models.{Database, Device, FirmwareVersion, OtaEvent}
use mdmfleetmanagement.Config.{Settings}
use mdmfleetmanagement.Session.{
  Action, integrity_error, publish_error, Message, pure, query, or_raise, execute, commit, ok, err,
  ◌>>=◌, ◌>>◌,
}
use mdmfleetmanagement.Ota.Select.{Rollout, in_flight, require_firmware, select_devices}

-- The pending event of a device in front of those that follow; from_version may not be NULL.
unfoldable pub add_event :
    ℕ → ℕ → String → String → Option String → Option (List OtaEvent) → Option (List OtaEvent)
add_event id now v device_id (some from) (some rest) = some (
    record {
      id = id;
      device_id = device_id;
      from_version = from;
      to_version = v;
      status = "pending";
      started_at = now;
      completed_at = none;
    }
    ∷ rest)
add_event id now v device_id _ _ = none

-- The rows that the loop of `start_rollout` adds, numbered from the next number.
unfoldable pub new_events : ℕ → ℕ → String → List Device → Option (List OtaEvent)
unfolding add_event
new_events id now v [] = some []
new_events id now v (x ∷ xs) =
    add_event id now v x.device_id x.firmware_version (new_events (suc id) now v xs)

abbrev pub insert_events : List OtaEvent → Database → Database
insert_events es d = record d { ota_events = d.ota_events ++ es; next_id = d.next_id + length es }

-- The command that `_publish_ota_command` sends to a device.
unfoldable pub ota_command : Settings → String → String → String → Message
ota_command settings device_id version checksum = record {
  topic = concat ("fleet/" ∷ device_id ∷ "/ota/cmd" ∷ []);
  payload =
      ("version", version)
      ∷ (
        "url",
        concat (rstrip_slash settings.server_url ∷ "/firmware/" ∷ version ∷ "/firmware.bin" ∷ []),
      )
      ∷ ("checksum", checksum)
      ∷ [];
}

abbrev pub PublishFn : Type 0
PublishFn = Message → Bool

unfoldable pub publish : PublishFn → Message → Action (Unit {0})
publish publish_fn m s =
    if publish_fn m
    then (ok tt, record s { published = s.published ++ m ∷ [] })
    else (err publish_error, s)

-- OTAService._publish_ota_command
unfoldable pub publish_ota_command :
    Settings → Option PublishFn → String → String → String → Action (Unit {0})
unfolding publish ota_command
publish_ota_command settings none device_id version checksum = pure tt
publish_ota_command settings (some publish_fn) device_id version checksum =
    publish publish_fn (ota_command settings device_id version checksum)

unfoldable pub publish_all :
    Settings → Option PublishFn → String → String → List Device → Action (Unit {0})
unfolding publish_ota_command
publish_all settings publish_fn version checksum [] = pure tt
publish_all settings publish_fn version checksum (x ∷ xs) =
    publish_ota_command settings publish_fn x.device_id version checksum
    >> publish_all settings publish_fn version checksum xs

-- The part of `start_rollout` after the devices are selected.
unfoldable pub roll_out :
    Settings
    → Option PublishFn
    → ℕ
    → FirmwareVersion
    → Rollout
    → List Device
    → Action (List OtaEvent)
unfolding new_events publish_all
roll_out settings publish_fn now firmware r [] = pure []
roll_out settings publish_fn now firmware r (x ∷ xs) = do
  id ← query (λ d. d.next_id)
  events ← or_raise (new_events id now r.target_version (x ∷ xs)) integrity_error
  execute (insert_events events)
  commit
  publish_all settings publish_fn r.target_version firmware.checksum (x ∷ xs)
  pure events

-- OTAService.start_rollout
unfoldable pub start_rollout : Settings → Option PublishFn → ℕ → Rollout → Action (List OtaEvent)
start_rollout settings publish_fn now r = do
  firmware ← require_firmware r.target_version
  devices ← select_devices r
  roll_out settings publish_fn now firmware r devices

-- The rows that `abort_rollout` cancels, and what it writes.
unfoldable pub is_abortable : String → OtaEvent → Bool
is_abortable v e = e.to_version == v && in_flight e.status

abbrev pub cancel : OtaEvent → OtaEvent
cancel e = record e { status = "cancelled" }

-- OTAService.abort_rollout
unfoldable pub abort_rollout : String → Action ℕ
abort_rollout v = do
  cancelled ← query (λ d. count_where (is_abortable v) d.ota_events)
  execute (λ d. record d { ota_events = update_where (is_abortable v) cancel d.ota_events })
  commit
  pure cancelled
