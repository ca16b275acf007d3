-- ===== src/Api/Handle.antt =====
-- How a request is answered: the guards that api/router.py and the routes put before an endpoint,
-- in the order in which they run, and then the endpoint, all in one session.
use mdmfleetmanagement.Prelude.{ℕ, String, Bool, Option, none, some, List, [], ◌∷◌}
use mdmfleetmanagement.Prelude.Int.{ℤ}
use mdmfleetmanagement.Models.{Device, DeviceGroup, FirmwareVersion, User}
use mdmfleetmanagement.Config.{Settings}
use mdmfleetmanagement.Session.{Action, http, pure, raise, ◌>>=◌}
use mdmfleetmanagement.Auth.Tokens.{Crypto}
use mdmfleetmanagement.Auth.Guards.{
  Credentials, as_some, get_current_user, require_auth, require_role,
}
use mdmfleetmanagement.Auth.Accounts.{
  login, create_user, change_my_password, update_user, reset_user_password,
}
use mdmfleetmanagement.Auth.Browser.{logout, verify}
use mdmfleetmanagement.Repositories.Device.{SortKey}
use mdmfleetmanagement.Broadcasts.{send_broadcast}
use mdmfleetmanagement.Provisioning.{Tokens}
use mdmfleetmanagement.Firmware.{upload_firmware}
use mdmfleetmanagement.DeviceGroups.Members.{get_group, create_group, update_group, delete_group}
use mdmfleetmanagement.ScheduledRollouts.{create_scheduled, cancel_scheduled}
use mdmfleetmanagement.Ota.Rollout.{PublishFn}
use mdmfleetmanagement.Ota.Campaigns.{get_events, get_campaigns}
use mdmfleetmanagement.Api.Devices.{
  list_devices, list_facet, get_device, create_device, update_device, delete_device,
}
use mdmfleetmanagement.Api.Homes.{
  list_homes, get_home, list_home_communities, create_home, update_home, delete_home, assign_home,
  unassign_home,
}
use mdmfleetmanagement.Api.Communities.{
  list_communities, get_community, list_community_homes, create_community, update_community,
  delete_community,
}
use mdmfleetmanagement.Api.Rollouts.{user_id_of, start_rollout, preview_rollout, abort}
use mdmfleetmanagement.Api.Listings.{
  shown, list_users, list_broadcasts, get_broadcast, list_firmware, get_firmware, list_groups,
  list_scheduled,
}
use mdmfleetmanagement.Api.Receipts.{acknowledge_broadcast}
use mdmfleetmanagement.Api.Provisioning.{provision, get_job, download_firmware, manifest}
use mdmfleetmanagement.Api.Requests.{Request, Body}

-- What a server works with: its settings, the libraries and clients, the clock, what is drawn at
-- random, and the orders and the pattern matching of the database.
pub record Server : Type 0 where
  pub settings : Settings
  pub crypto : Crypto
  pub publish_fn : Option PublishFn
  pub sha256 : List ℕ → String
  pub decimal : ℤ → String
  pub now : ℕ
  pub salt : ℕ
  pub password : String
  pub tokens : Tokens
  pub file_exists : String → Bool
  pub ilike : String → String → Bool
  pub order_by : SortKey → List Device → List Device
  pub sorted : List String → List String
  pub users_by_creation : List User → List User
  pub firmware_by_creation : List FirmwareVersion → List FirmwareVersion
  pub groups_by_name : List DeviceGroup → List DeviceGroup

-- Depends(require_role(…)), Depends(require_auth), Depends(get_current_user)
pub data Guard : Type 0 where
  role : List String → Guard
  authenticated : Guard
  current : Guard

-- _any_auth of api/router.py
abbrev pub any_role : Guard
any_role = role ("admin" ∷ "operator" ∷ "viewer" ∷ [])

abbrev pub operators : Guard
operators = role ("admin" ∷ "operator" ∷ [])

-- The dependencies of a route: the router's, the route's own, the endpoint's.
unfoldable pub guards : Request → List Guard
guards (Request.login _ _) = []
guards Request.logout = []
guards Request.verify = authenticated ∷ []
guards (Request.change_my_password _ _) = authenticated ∷ []
guards (Request.create_user _) = role ("admin" ∷ []) ∷ []
guards Request.list_users = role ("admin" ∷ []) ∷ []
guards (Request.update_user _ _) = role ("admin" ∷ []) ∷ []
guards (Request.reset_user_password _) = role ("admin" ∷ []) ∷ []
guards (Request.upload_firmware _ _ _) = any_role ∷ operators ∷ current ∷ []
guards (Request.start_rollout _) = any_role ∷ current ∷ []
guards (Request.create_group _) = any_role ∷ operators ∷ current ∷ []
guards (Request.update_group _ _) = any_role ∷ operators ∷ current ∷ []
guards (Request.delete_group _) = any_role ∷ operators ∷ current ∷ []
guards (Request.create_scheduled _) = any_role ∷ operators ∷ current ∷ []
guards (Request.cancel_scheduled _) = any_role ∷ operators ∷ current ∷ []
guards (Request.provision _) = operators ∷ []
guards (Request.download_firmware _) = []
guards (Request.get_manifest _) = []
guards _ = any_role ∷ []

unfoldable pub admit : Server → Credentials → Guard → Action (Option User)
admit env c (role roles) = as_some (require_role env.crypto roles env.now c)
admit env c authenticated = as_some (require_auth env.crypto env.now c)
admit env c current = get_current_user env.crypto env.now c

-- The guards one after the other; the endpoint is given the user of the last.
unfoldable pub pass : Server → Credentials → List Guard → Option User → Action (Option User)
pass env c [] u = pure u
pass env c (g ∷ gs) u = admit env c g >>= λ v. pass env c gs v

-- The user of a guard that raises if there is none.
unfoldable pub with_user : {A : Type 0} → Option User → (User → Action A) → Action A
with_user none f = raise (http 401)
with_user (some u) f = f u

unfoldable pub endpoint : Server → Option User → (r : Request) → Action (Body r)
endpoint env u (Request.login a b) = login env.crypto env.now a b
endpoint env u Request.logout = pure logout
endpoint env u Request.verify = with_user u (λ v. pure (verify v))
endpoint env u Request.get_me = with_user u (λ v. pure (shown v))
endpoint env u (Request.change_my_password a b) =
    with_user u (change_my_password env.crypto env.salt a b)
endpoint env u (Request.create_user a) = with_user u (create_user env.crypto env.salt a)
endpoint env u Request.list_users = list_users env.users_by_creation
endpoint env u (Request.update_user a b) = with_user u (update_user a b)
endpoint env u (Request.reset_user_password a) =
    with_user u (reset_user_password env.crypto env.salt env.password a)
endpoint env u (Request.list_devices a) = list_devices env.ilike env.order_by a
endpoint env u (Request.list_facet a) = list_facet env.sorted a
endpoint env u (Request.get_device a) = get_device a
endpoint env u (Request.create_device a) = create_device a
endpoint env u (Request.update_device a b) = update_device a b
endpoint env u (Request.delete_device a) = delete_device a
endpoint env u (Request.list_homes a b) = list_homes a b
endpoint env u (Request.get_home a) = get_home a
endpoint env u (Request.list_home_communities a) = list_home_communities a
endpoint env u (Request.create_home a) = create_home a
endpoint env u (Request.update_home a b) = update_home a b
endpoint env u (Request.delete_home a) = delete_home a
endpoint env u (Request.assign_home a b) = assign_home a b
endpoint env u (Request.unassign_home a b) = unassign_home a b
endpoint env u (Request.list_communities a b) = list_communities a b
endpoint env u (Request.get_community a) = get_community a
endpoint env u (Request.list_community_homes a) = list_community_homes a
endpoint env u (Request.create_community a) = create_community a
endpoint env u (Request.update_community a b) = update_community a b
endpoint env u (Request.delete_community a) = delete_community a
endpoint env u (Request.list_broadcasts a b e) = list_broadcasts a b e
endpoint env u (Request.get_broadcast a) = get_broadcast a
endpoint env u (Request.send_broadcast a b) = send_broadcast a b env.now
endpoint env u (Request.acknowledge_broadcast a b) = acknowledge_broadcast env.decimal a b
endpoint env u Request.list_firmware = list_firmware env.firmware_by_creation
endpoint env u (Request.get_firmware a) = get_firmware a
endpoint env u (Request.upload_firmware a b e) =
    upload_firmware env.settings env.sha256 a b e (user_id_of u)
endpoint env u (Request.start_rollout a) = start_rollout env.settings env.publish_fn env.now a u
endpoint env u (Request.preview_rollout a) = preview_rollout a
endpoint env u (Request.list_events a) = get_events a
endpoint env u (Request.list_campaigns a) = get_campaigns a
endpoint env u (Request.abort_rollout a) = abort a
endpoint env u Request.list_groups = list_groups env.groups_by_name
endpoint env u (Request.get_group a) = get_group a
endpoint env u (Request.create_group a) = create_group a (user_id_of u)
endpoint env u (Request.update_group a b) = update_group a b (user_id_of u)
endpoint env u (Request.delete_group a) = delete_group a (user_id_of u)
endpoint env u Request.list_scheduled = list_scheduled
endpoint env u (Request.create_scheduled a) = create_scheduled a env.now (user_id_of u)
endpoint env u (Request.cancel_scheduled a) = cancel_scheduled a (user_id_of u)
endpoint env u (Request.provision a) = provision env.tokens a
endpoint env u (Request.get_job a) = get_job a
endpoint env u (Request.download_firmware a) = download_firmware env.settings env.file_exists a
endpoint env u (Request.get_manifest a) = pure (manifest env.settings a)

-- A request to /api with the credentials that it carries.
unfoldable pub handle : Server → Credentials → (r : Request) → Action (Body r)
handle env c r = pass env c (guards r) none >>= λ u. endpoint env u r
