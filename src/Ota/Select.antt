-- ===== src/Ota/Select.antt =====
-- The choice of devices for a rollout: services/ota.py (_select_devices), and the firmware
-- version that it is for: services/firmware.py (get_by_version).
use mdmfleetmanagement.Prelude.{
  String, Bool, true, false, not, ◌&&◌, ◌||◌, Option, none, some, List, [], ◌∷◌, take, eq_sql,
  if◌then◌else◌, ◌==◌,
}
use mdmfleetmanagement.Prelude.Rows.{select_where, any_where, find_where}
use mdmfleetmanagement.Prelude.Int.{ℤ, pos, negsuc}
use mdmfleetmanagement.Prelude.Text.{concat}
use mdmfleetmanagement.Models.{Database, Device, FirmwareVersion}
use mdmfleetmanagement.Session.{
  Action, value_error, data_error, pure, raise, query, or_raise, ◌>>=◌,
}

-- The arguments of a rollout, in the shape of the request OTARolloutCreate.
pub record Rollout : Type 0 where
  pub target_version : String
  pub strategy : String
  pub canary_count : ℤ
  pub target_devices : Option (List String)
  pub target_community : Option String

-- OTAEvent.status.in_(["pending", "downloading", "flashing"])
unfoldable pub in_flight : String → Bool
in_flight s = s == "pending" || s == "downloading" || s == "flashing"

-- Device.status.in_(["alive", "unknown"])
unfoldable pub is_reachable : String → Bool
is_reachable s = s == "alive" || s == "unknown"

-- Device.firmware_version != target_version, which is not true of NULL.
unfoldable pub differs : Option String → String → Bool
differs none v = false
differs (some s) v = not (s == v)

-- The joins with homes and home_community; a home is assigned to a community at most once.
unfoldable pub is_in_community : Database → String → Device → Bool
is_in_community d c x =
    any_where
      (λ h.
        eq_sql x.home_id h.home_id
        && any_where (λ m. m.home_id == h.home_id && m.community_id == c) d.home_community)
      d.homes

-- if target_devices: … elif target_community: …
unfoldable pub is_targeted : Database → Option (List String) → Option String → Device → Bool
unfolding is_in_community
is_targeted d (some (i ∷ ids)) community x = any_where (λ j. x.device_id == j) (i ∷ ids)
is_targeted d _ none x = true
is_targeted d _ (some c) x = if c == "" then true else is_in_community d c x

-- query.limit(n): the database refuses a negative limit.
unfoldable pub limit : {A : Type 0} → ℤ → List A → Action (List A)
limit (pos n) xs = pure (take n xs)
limit (negsuc n) xs = raise data_error

-- The WHERE clause of `_select_devices`.
unfoldable pub is_candidate : Database → Rollout → Device → Bool
is_candidate d r x =
    is_reachable x.status
    && differs x.firmware_version r.target_version
    && is_targeted d r.target_devices r.target_community x

-- OTAService._select_devices
unfoldable pub select_devices : Rollout → Action (List Device)
unfolding limit
select_devices r = do
  found ← query (λ d. select_where (is_candidate d r) d.devices)
  if r.strategy == "canary" then limit r.canary_count found else pure found

-- FirmwareService.get_by_version
unfoldable pub get_by_version : String → Action (Option FirmwareVersion)
get_by_version v = query (λ d. find_where (λ f. f.version == v) d.firmware_versions)

unfoldable pub require_firmware : String → Action FirmwareVersion
unfolding get_by_version
require_firmware v = do
  found ← get_by_version v
  or_raise found (value_error (concat ("Firmware version " ∷ v ∷ " not found" ∷ [])))
