-- ===== src/Api/Requests.antt =====
-- The requests that api/router.py serves, with what each carries, and what its answer holds.
use mdmfleetmanagement.Prelude.{ℕ, String, Option, List}
use mdmfleetmanagement.Prelude.Int.{ℤ}
use mdmfleetmanagement.Models.{
  Device, Home, Community, Broadcast, FirmwareVersion, OtaEvent, ScheduledRollout, User,
  ProvisionJob,
}
use mdmfleetmanagement.Auth.Accounts.{TokenResponse, UserCreate, UserUpdate}
use mdmfleetmanagement.Repositories.Device.{Listing}
use mdmfleetmanagement.Broadcasts.{Notice, Push}
use mdmfleetmanagement.DeviceGroups.Members.{
  DeviceGroupCreate, DeviceGroupUpdate, DeviceGroupResponse,
}
use mdmfleetmanagement.ScheduledRollouts.{ScheduledRolloutCreate}
use mdmfleetmanagement.Ota.Select.{Rollout}
use mdmfleetmanagement.Ota.Preview.{RolloutPreview}
use mdmfleetmanagement.Ota.Campaigns.{OtaCampaign}
use mdmfleetmanagement.Api.Devices.{DeviceCreate, DeviceUpdate, DeviceListResponse}
use mdmfleetmanagement.Api.Homes.{HomeUpdate, HomeWithCommunities}
use mdmfleetmanagement.Api.Communities.{CommunityUpdate}
use mdmfleetmanagement.Api.Rollouts.{RolloutResponse}
use mdmfleetmanagement.Api.Listings.{UserResponse, BroadcastDetail}
use mdmfleetmanagement.Api.Receipts.{BroadcastAckCreate}
use mdmfleetmanagement.Api.Provisioning.{Manifest}

pub data Request : Type 0 where
  login : String → String → Request
  logout : Request
  verify : Request
  get_me : Request
  change_my_password : String → String → Request
  create_user : UserCreate → Request
  list_users : Request
  update_user : UserUpdate → String → Request
  reset_user_password : String → Request
  list_devices : Listing → Request
  list_facet : String → Request
  get_device : String → Request
  create_device : DeviceCreate → Request
  update_device : String → DeviceUpdate → Request
  delete_device : String → Request
  list_homes : ℕ → ℕ → Request
  get_home : String → Request
  list_home_communities : String → Request
  create_home : Home → Request
  update_home : String → HomeUpdate → Request
  delete_home : String → Request
  assign_home : String → String → Request
  unassign_home : String → String → Request
  list_communities : ℕ → ℕ → Request
  get_community : String → Request
  list_community_homes : String → Request
  create_community : Community → Request
  update_community : String → CommunityUpdate → Request
  delete_community : String → Request
  list_broadcasts : Option String → ℕ → ℕ → Request
  get_broadcast : ℕ → Request
  send_broadcast : List String → Notice → Request
  acknowledge_broadcast : ℕ → BroadcastAckCreate → Request
  list_firmware : Request
  get_firmware : String → Request
  upload_firmware : String → List ℕ → String → Request
  start_rollout : Rollout → Request
  preview_rollout : Rollout → Request
  list_events : Option String → Request
  list_campaigns : ℤ → Request
  abort_rollout : String → Request
  list_groups : Request
  get_group : ℕ → Request
  create_group : DeviceGroupCreate → Request
  update_group : ℕ → DeviceGroupUpdate → Request
  delete_group : ℕ → Request
  list_scheduled : Request
  create_scheduled : ScheduledRolloutCreate → Request
  cancel_scheduled : ℕ → Request
  provision : String → Request
  get_job : String → Request
  download_firmware : String → Request
  get_manifest : String → Request

-- The answer of an endpoint that does not raise.
abbrev pub Body : Request → Type 0
Body (Request.login a b) = TokenResponse
Body Request.logout = List (String × String)
Body Request.verify = List (String × String)
Body Request.get_me = UserResponse
Body (Request.change_my_password a b) = Unit {0}
Body (Request.create_user a) = User
Body Request.list_users = List UserResponse
Body (Request.update_user a b) = User
Body (Request.reset_user_password a) = String
Body (Request.list_devices a) = DeviceListResponse
Body (Request.list_facet a) = List String
Body (Request.get_device a) = Device
Body (Request.create_device a) = Device
Body (Request.update_device a b) = Device
Body (Request.delete_device a) = Unit {0}
Body (Request.list_homes a b) = List Home
Body (Request.get_home a) = HomeWithCommunities
Body (Request.list_home_communities a) = List Community
Body (Request.create_home a) = Home
Body (Request.update_home a b) = Home
Body (Request.delete_home a) = Unit {0}
Body (Request.assign_home a b) = Unit {0}
Body (Request.unassign_home a b) = Unit {0}
Body (Request.list_communities a b) = List Community
Body (Request.get_community a) = Community
Body (Request.list_community_homes a) = List Home
Body (Request.create_community a) = Community
Body (Request.update_community a b) = Community
Body (Request.delete_community a) = Unit {0}
Body (Request.list_broadcasts a b e) = List Broadcast
Body (Request.get_broadcast a) = BroadcastDetail
Body (Request.send_broadcast a b) = List Broadcast × List Push
Body (Request.acknowledge_broadcast a b) = Unit {0}
Body Request.list_firmware = List FirmwareVersion
Body (Request.get_firmware a) = FirmwareVersion
Body (Request.upload_firmware a b e) = FirmwareVersion
Body (Request.start_rollout a) = RolloutResponse
Body (Request.preview_rollout a) = RolloutPreview
Body (Request.list_events a) = List OtaEvent
Body (Request.list_campaigns a) = List OtaCampaign
Body (Request.abort_rollout a) = ℕ × String
Body Request.list_groups = List DeviceGroupResponse
Body (Request.get_group a) = DeviceGroupResponse
Body (Request.create_group a) = DeviceGroupResponse
Body (Request.update_group a b) = DeviceGroupResponse
Body (Request.delete_group a) = Unit {0}
Body Request.list_scheduled = List ScheduledRollout
Body (Request.create_scheduled a) = ScheduledRollout
Body (Request.cancel_scheduled a) = ScheduledRollout
Body (Request.provision a) = ProvisionJob
Body (Request.get_job a) = ProvisionJob
Body (Request.download_firmware a) = String
Body (Request.get_manifest a) = Manifest
