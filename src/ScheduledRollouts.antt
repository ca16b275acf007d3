-- ===== src/ScheduledRollouts.antt =====
-- api/scheduled_rollouts.py with schemas/scheduled_rollout.py: queueing a rollout for later, and
-- cancelling it. The caller has passed the guard `require_role("admin", "operator")`.
pub mod Cancelling
use mdmfleetmanagement.Prelude.{
  ℕ, suc, String, Bool, true, false, not, Option, none, some, List, [], ◌∷◌, ◌++◌, ◌==◌, ◌||◌, ltb,
  length, is_empty, eqb,
}
use mdmfleetmanagement.Prelude.Int.{ℤ}
use mdmfleetmanagement.Prelude.Rows.{find_where, any_where}
use mdmfleetmanagement.Models.{Database, ScheduledRollout, FirmwareVersion, str, int}
use mdmfleetmanagement.Session.{
  Action, http, integrity_error, pure, raise_if, or_raise, query, execute, commit, ◌>>=◌, ◌>>◌,
}
use mdmfleetmanagement.Audit.{log}
use mdmfleetmanagement.Scheduler.DueRollouts.{update_rollout}

-- A datetime of a request: one without a zone, by its reading, or an instant.
pub data Datetime : Type 0 where
  naive : ℕ → Datetime
  aware : ℕ → Datetime

-- A reading without a zone is taken for UTC.
unfoldable pub to_utc : Datetime → ℕ
to_utc (naive t) = t
to_utc (aware t) = t

pub record ScheduledRolloutCreate : Type 0 where
  pub target_version : String
  pub strategy : String
  pub target_devices : List String
  pub canary_count : Option ℤ
  pub fire_at : Datetime

-- pattern=r"^(full|canary|staged)$"
unfoldable pub is_strategy : String → Bool
is_strategy s = s == "full" || s == "canary" || s == "staged"

unfoldable pub new_rollout : ScheduledRolloutCreate → Option String → ℕ → ScheduledRollout
new_rollout p user_id id = record {
  id = id;
  target_version = p.target_version;
  strategy = p.strategy;
  target_devices = p.target_devices;
  canary_count = p.canary_count;
  fire_at = to_utc p.fire_at;
  status = "pending";
  created_by = user_id;
  fired_at = none;
  error = none;
}

abbrev pub add_rollout : ScheduledRollout → Database → Database
add_rollout row d = record d {
  scheduled_rollouts = d.scheduled_rollouts ++ row ∷ [];
  next_id = suc d.next_id;
}

-- The foreign key on firmware_versions.version.
unfoldable pub has_version : String → FirmwareVersion → Bool
has_version v f = f.version == v

-- POST /
unfoldable pub create_scheduled :
    ScheduledRolloutCreate → ℕ → Option String → Action ScheduledRollout
create_scheduled p now user_id = do
  raise_if (not (is_strategy p.strategy)) (http 422)
  raise_if (ltb (to_utc p.fire_at) now) (http 400)
  raise_if (is_empty p.target_devices) (http 400)
  known ← query (λ d. any_where (has_version p.target_version) d.firmware_versions)
  raise_if (not known) integrity_error
  row ← query (λ d. new_rollout p user_id d.next_id)
  execute (add_rollout row)
  commit
  log user_id "schedule" "rollout" (
      ("id", int row.id)
      ∷ ("target_version", str row.target_version)
      ∷ ("fire_at", int row.fire_at)
      ∷ ("total_devices", int (length row.target_devices))
      ∷ [])
  pure row

abbrev pub cancel_row : ScheduledRollout → ScheduledRollout
cancel_row row = record row { status = "cancelled" }

unfoldable pub cancel_found : Option String → ScheduledRollout → Action ScheduledRollout
cancel_found user_id row = do
  raise_if (not (row.status == "pending")) (http 409)
  execute (update_rollout row.id cancel_row)
  commit
  log user_id "cancel" "rollout"
      (("id", int row.id) ∷ ("target_version", str row.target_version) ∷ [])
  pure (cancel_row row)

-- POST /{scheduled_id}/cancel
unfoldable pub cancel_scheduled : ℕ → Option String → Action ScheduledRollout
cancel_scheduled id user_id = do
  row ← or_raise (← query (λ d. find_where (λ x. eqb x.id id) d.scheduled_rollouts)) (http 404)
  cancel_found user_id row
