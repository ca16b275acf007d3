-- ===== src/Api/Listings.antt =====
-- The endpoints that only read: firmware, scheduled rollouts, device groups, users, broadcasts.
use mdmfleetmanagement.Prelude.{
  ℕ, String, Bool, not, Option, none, some, List, [], ◌∷◌, map, if◌then◌else◌, leb,
}
use mdmfleetmanagement.Prelude.Rows.{find_where}
use mdmfleetmanagement.Models.{
  FirmwareVersion, ScheduledRollout, DeviceGroup, User, Broadcast, BroadcastAck,
}
use mdmfleetmanagement.Session.{Action, http, pure, raise_if, or_raise, query, ◌>>=◌, ◌>>◌}
use mdmfleetmanagement.Ota.Select.{get_by_version}
use mdmfleetmanagement.DeviceGroups.Members.{DeviceGroupResponse, to_response}
use mdmfleetmanagement.Broadcasts.{has_broadcast_id, DeliveryStats, get_delivery_stats}
use mdmfleetmanagement.Broadcasts.{get_all as broadcasts_page}
use mdmfleetmanagement.Api.Homes.{is_limit}

-- ORDER BY fire_at ASC
unfoldable pub insert_earliest : ScheduledRollout → List ScheduledRollout → List ScheduledRollout
insert_earliest r [] = r ∷ []
insert_earliest r (q ∷ rs) =
    let rest = insert_earliest r rs in if leb r.fire_at q.fire_at then r ∷ q ∷ rs else q ∷ rest

unfoldable pub earliest_first : List ScheduledRollout → List ScheduledRollout
earliest_first [] = []
earliest_first (r ∷ rs) = insert_earliest r (earliest_first rs)

-- GET / of api/scheduled_rollouts.py
unfoldable pub list_scheduled : Action (List ScheduledRollout)
list_scheduled = query (λ d. earliest_first d.scheduled_rollouts)

-- GET / of api/device_groups.py; the order of names is the database's.
unfoldable pub list_groups :
    (List DeviceGroup → List DeviceGroup) → Action (List DeviceGroupResponse)
list_groups by_name = query (λ d. map (to_response d) (by_name d.device_groups))

-- GET / of api/firmware.py; creation times are the database's.
unfoldable pub list_firmware :
    (List FirmwareVersion → List FirmwareVersion) → Action (List FirmwareVersion)
list_firmware by_creation = query (λ d. by_creation d.firmware_versions)

-- GET /{version} of api/firmware.py
unfoldable pub get_firmware : String → Action FirmwareVersion
get_firmware v = do or_raise (← get_by_version v) (http 404)

-- schemas of api/auth.py: what of a user is shown
pub record UserResponse : Type 0 where
  pub id : String
  pub email : String
  pub role : String
  pub is_active : Bool

unfoldable pub shown : User → UserResponse
shown u = record { id = u.id; email = u.email; role = u.role; is_active = u.is_active }

-- GET /users
unfoldable pub list_users : (List User → List User) → Action (List UserResponse)
list_users by_creation = query (λ d. map shown (by_creation d.users))

-- GET / of api/broadcast.py
unfoldable pub list_broadcasts : Option String → ℕ → ℕ → Action (List Broadcast)
list_broadcasts c skip limit = do
  raise_if (not (is_limit limit)) (http 422)
  broadcasts_page c skip limit

pub record BroadcastDetail : Type 0 where
  pub broadcast : Broadcast
  pub acks : List BroadcastAck
  pub total_targets : ℕ
  pub delivered_count : ℕ

-- stats.get with its defaults
unfoldable pub detail_of : Broadcast → Option DeliveryStats → BroadcastDetail
detail_of b none = record { broadcast = b; acks = []; total_targets = 0; delivered_count = 0 }
detail_of b (some stats) = record {
  broadcast = b;
  acks = stats.acks;
  total_targets = stats.total_targets;
  delivered_count = stats.delivered_count;
}

-- GET /{broadcast_id}
unfoldable pub get_broadcast : ℕ → Action BroadcastDetail
get_broadcast id = do
  b ← or_raise (← query (λ d. find_where (has_broadcast_id id) d.broadcasts)) (http 404)
  stats ← get_delivery_stats id
  pure (detail_of b stats)
