-- ===== src/Models/Tables.antt =====
-- The database: the rows of each table, and the next row number. The tables that number their
-- rows draw on one sequence, so numbers are unique but not consecutive in a table.
use mdmfleetmanagement.Prelude.{ℕ, List, []}
use mdmfleetmanagement.Models.Fleet.{
  Device, Home, Community, HomeCommunity, DeviceGroup, DeviceGroupMember, ProvisionJob,
}
use mdmfleetmanagement.Models.Rollouts.{FirmwareVersion, OtaEvent, ScheduledRollout}
use mdmfleetmanagement.Models.Accounts.{User, AuditLog}
use mdmfleetmanagement.Models.Messages.{Broadcast, BroadcastAck}

pub record Database : Type 0 where
  pub devices : List Device
  pub homes : List Home
  pub communities : List Community
  pub home_community : List HomeCommunity
  pub device_groups : List DeviceGroup
  pub device_group_members : List DeviceGroupMember
  pub provision_jobs : List ProvisionJob
  pub firmware_versions : List FirmwareVersion
  pub ota_events : List OtaEvent
  pub scheduled_rollouts : List ScheduledRollout
  pub users : List User
  pub audit_log : List AuditLog
  pub broadcasts : List Broadcast
  pub broadcast_acks : List BroadcastAck
  pub next_id : ℕ

abbrev pub no_rows : Database
no_rows = record {
  devices = [];
  homes = [];
  communities = [];
  home_community = [];
  device_groups = [];
  device_group_members = [];
  provision_jobs = [];
  firmware_versions = [];
  ota_events = [];
  scheduled_rollouts = [];
  users = [];
  audit_log = [];
  broadcasts = [];
  broadcast_acks = [];
  next_id = 1;
}
