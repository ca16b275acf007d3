-- ===== src/Ota/Preview.antt =====
-- The dry run of a rollout: services/ota.py (preview_rollout).
use mdmfleetmanagement.Prelude.{
  ℕ, suc, String, some, List, [], ◌∷◌, map, length, if◌then◌else◌, ◌==◌,
}
use mdmfleetmanagement.Prelude.Text.{text_or}
use mdmfleetmanagement.Models.{Device}
use mdmfleetmanagement.Session.{Action, pure, ◌>>=◌, ◌>>◌}
use mdmfleetmanagement.Ota.Select.{Rollout, require_firmware, select_devices}

-- d[k] = d.get(k, 0) + 1, on a dict in insertion order.
unfoldable pub count_key : String → List (String × ℕ) → List (String × ℕ)
count_key k [] = (k, 1) ∷ []
count_key k ((j, n) ∷ d) = if j == k then (j, suc n) ∷ d else (j, n) ∷ count_key k d

unfoldable pub count_keys : (Device → String) → List Device → List (String × ℕ) → List (String × ℕ)
unfolding count_key
count_keys key [] d = d
count_keys key (x ∷ xs) d = count_keys key xs (count_key (key x) d)

pub record RolloutPreview : Type 0 where
  pub target_version : String
  pub strategy : String
  pub total : ℕ
  pub by_status : List (String × ℕ)
  pub by_current_version : List (String × ℕ)
  pub by_home : List (String × ℕ)
  pub device_ids : List String

-- What `preview_rollout` reports of the devices that it selects.
unfoldable pub preview_of : Rollout → List Device → RolloutPreview
preview_of r devices = record {
  target_version = r.target_version;
  strategy = r.strategy;
  total = length devices;
  by_status = count_keys (λ x. text_or (some x.status) "unknown") devices [];
  by_current_version = count_keys (λ x. text_or x.firmware_version "unknown") devices [];
  by_home = count_keys (λ x. text_or x.home_id "(unassigned)") devices [];
  device_ids = map (λ x. x.device_id) devices;
}

-- OTAService.preview_rollout
unfoldable pub preview_rollout : Rollout → Action RolloutPreview
preview_rollout r = do
  require_firmware r.target_version
  devices ← select_devices r
  pure (preview_of r devices)
