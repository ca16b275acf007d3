-- ===== src/Api/Rollouts.antt =====
-- api/ota.py: rollouts over HTTP.
use mdmfleetmanagement.Prelude.{ℕ, String, Option, none, some, List, [], ◌∷◌, map, length}
use mdmfleetmanagement.Models.{OtaEvent, User, Detail, str, strs, int}
use mdmfleetmanagement.Config.{Settings}
use mdmfleetmanagement.Session.{
  Action, Error, Result, ok, err, value_error, http, pure, ◌>>=◌, ◌>>◌,
}
use mdmfleetmanagement.Audit.{log}
use mdmfleetmanagement.Ota.Select.{Rollout}
use mdmfleetmanagement.Ota.Rollout.{PublishFn, abort_rollout}
use mdmfleetmanagement.Ota.Rollout.{start_rollout as start}
use mdmfleetmanagement.Ota.Preview.{RolloutPreview}
use mdmfleetmanagement.Ota.Preview.{preview_rollout as preview}

pub record RolloutResponse : Type 0 where
  pub target_version : String
  pub strategy : String
  pub total_devices : ℕ
  pub events : List OtaEvent

-- except ValueError: raise HTTPException(status_code=400)
unfoldable pub answer : Error → Error
answer (value_error why) = http 400
answer e = e

unfoldable pub answered : {A : Type 0} → Result A → Result A
answered (ok a) = ok a
answered (err e) = err (answer e)

unfoldable pub or_400 : {A : Type 0} → Action A → Action A
or_400 m s = let (r, s') = m s in (answered r, s')

unfoldable pub user_id_of : Option User → Option String
user_id_of none = none
user_id_of (some u) = some u.id

unfoldable pub start_details : Rollout → List OtaEvent → List (String × Detail)
start_details r events =
    ("target_version", str r.target_version)
    ∷ ("strategy", str r.strategy)
    ∷ ("total_devices", int (length events))
    ∷ ("device_ids", strs (map (λ e. e.device_id) events))
    ∷ []

-- POST /rollout
unfoldable pub start_rollout :
    Settings → Option PublishFn → ℕ → Rollout → Option User → Action RolloutResponse
start_rollout settings publish_fn now r user = do
  events ← or_400 (start settings publish_fn now r)
  log (user_id_of user) "ota_start" "rollout" (start_details r events)
  pure (record {
    target_version = r.target_version;
    strategy = r.strategy;
    total_devices = length events;
    events = events;
  })

-- POST /preview
unfoldable pub preview_rollout : Rollout → Action RolloutPreview
preview_rollout r = or_400 (preview r)

-- POST /rollout/{target_version}/abort
unfoldable pub abort : String → Action (ℕ × String)
abort v = do count ← abort_rollout v; pure (count, v)
