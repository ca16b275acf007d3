-- ===== src/Models/Rollouts.antt =====
-- models/firmware.py, ota_event.py, scheduled_rollout.py
use mdmfleetmanagement.Prelude.{ℕ, String, Option, List}
use mdmfleetmanagement.Prelude.Int.{ℤ}

pub record FirmwareVersion : Type 0 where
  pub id : ℕ
  pub version : String
  pub binary_path : String
  pub checksum : String
  pub release_notes : Option String

pub record OtaEvent : Type 0 where
  pub id : ℕ
  pub device_id : String
  pub from_version : String
  pub to_version : String
  pub status : String
  pub started_at : ℕ
  pub completed_at : Option ℕ

pub record ScheduledRollout : Type 0 where
  pub id : ℕ
  pub target_version : String
  pub strategy : String
  pub target_devices : List String
  pub canary_count : Option ℤ
  pub fire_at : ℕ
  pub status : String
  pub created_by : Option String
  pub fired_at : Option ℕ
  pub error : Option String
