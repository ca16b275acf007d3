-- ===== src/Examples/Fleet.antt =====
-- A small fleet: a device that reports and one that is silent, two versions, a community, a user.
use mdmfleetmanagement.Prelude.{true, none, some, [], ◌∷◌, ◌==◌, if◌then◌else◌, ltb}
use mdmfleetmanagement.Prelude.Int.{pos}
use mdmfleetmanagement.Models.{
  Database, no_rows, Device, FirmwareVersion, OtaEvent, ScheduledRollout, User,
}
use mdmfleetmanagement.Session.{Session, open_session}
use mdmfleetmanagement.Ota.Select.{Rollout}
use mdmfleetmanagement.Ota.Rollout.{PublishFn}
use mdmfleetmanagement.Auth.Tokens.{Crypto, Claims}

abbrev pub sensor : Device
sensor = record {
  device_id = "esp32-0a1b2c3d";
  mac = none;
  display_name = none;
  custom_id = none;
  firmware_version = some "1.0.0";
  target_firmware_version = none;
  device_type = "room_sensor";
  provision_token = none;
  role = "sensor";
  status = "alive";
  last_seen = some 5_000_000;
  home_id = none;
  rssi = none;
  heap = none;
  uptime = none;
}

abbrev pub gateway : Device
gateway = record sensor { device_id = "esp32-44556677"; status = "dead"; role = "gateway" }

abbrev pub release : FirmwareVersion
release = record {
  id = 1;
  version = "1.1.0";
  binary_path = "data/firmware/1.1.0/firmware.bin";
  checksum = "aa00";
  release_notes = none;
}

abbrev pub pending_update : OtaEvent
pending_update = record {
  id = 2;
  device_id = "esp32-0a1b2c3d";
  from_version = "1.0.0";
  to_version = "1.1.0";
  status = "pending";
  started_at = 60_000_000;
  completed_at = none;
}

abbrev pub planned : ScheduledRollout
planned = record {
  id = 3;
  target_version = "1.1.0";
  strategy = "full";
  target_devices = "esp32-0a1b2c3d" ∷ [];
  canary_count = none;
  fire_at = 70_000_000;
  status = "pending";
  created_by = none;
  fired_at = none;
  error = none;
}

abbrev pub alice : User
alice = record {
  id = "u1";
  email = "alice";
  hashed_password = "secret";
  role = "admin";
  is_active = true;
}

abbrev pub fleet : Database
fleet = record no_rows {
  devices = sensor ∷ gateway ∷ [];
  communities = record { community_id = "c1"; name = "North"; description = none } ∷ [];
  device_groups = record { id = 4; name = "lab"; description = none; created_by = none } ∷ [];
  device_group_members = record { group_id = 4; device_id = "esp32-44556677" } ∷ [];
  provision_jobs =
      record {
        id = "j1";
        device_id = "esp32-0a1b2c3d";
        device_type = "room_sensor";
        status = "pending";
        firmware_path = none;
        error = none;
      }
      ∷ [];
  firmware_versions = release ∷ [];
  ota_events = pending_update ∷ [];
  scheduled_rollouts = planned ∷ record planned { id = 5; fire_at = 90_000_000 } ∷ [];
  users = alice ∷ record alice { id = "u2"; email = "bob"; role = "viewer" } ∷ [];
  next_id = 6;
}

abbrev pub session : Session
session = open_session fleet

abbrev pub full_rollout : Rollout
full_rollout = record {
  target_version = "1.1.0";
  strategy = "full";
  canary_count = pos 2;
  target_devices = none;
  target_community = none;
}

abbrev pub take_all : PublishFn
take_all m = true

-- The session claims of alice after a login at time 0, and a toy of a token library for them.
abbrev pub alice_claims : Claims
alice_claims = record { sub = "u1"; role = "admin"; exp = 28_800_000_000 }

abbrev pub toy : Crypto
toy = record {
  hashpw = λ salt p. p;
  checkpw = λ p h. p == h;
  encode = λ k. "token";
  decode = λ now t. if ltb now 28_800_000_000 then some alice_claims else none;
}
