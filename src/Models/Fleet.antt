-- ===== src/Models/Fleet.antt =====
-- models/device.py, home.py, community.py, device_group.py, provision_job.py
use mdmfleetmanagement.Prelude.{ℕ, String, Option}
use mdmfleetmanagement.Prelude.Int.{ℤ}

pub record Device : Type 0 where
  pub device_id : String
  pub mac : Option String
  pub display_name : Option String
  pub custom_id : Option String
  pub firmware_version : Option String
  pub target_firmware_version : Option String
  pub device_type : String
  pub provision_token : Option String
  pub role : String
  pub status : String
  pub last_seen : Option ℕ
  pub home_id : Option String
  pub rssi : Option ℤ
  pub heap : Option ℤ
  pub uptime : Option ℤ

pub record Home : Type 0 where
  pub home_id : String
  pub patient_name : String
  pub address : Option String

pub record Community : Type 0 where
  pub community_id : String
  pub name : String
  pub description : Option String

-- A row of the table home_community.
pub record HomeCommunity : Type 0 where
  pub home_id : String
  pub community_id : String

pub record DeviceGroup : Type 0 where
  pub id : ℕ
  pub name : String
  pub description : Option String
  pub created_by : Option String

-- A row of the table device_group_members.
pub record DeviceGroupMember : Type 0 where
  pub group_id : ℕ
  pub device_id : String

pub record ProvisionJob : Type 0 where
  pub id : String
  pub device_id : String
  pub device_type : String
  pub status : String
  pub firmware_path : Option String
  pub error : Option String
