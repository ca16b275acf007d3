-- ===== src/Scheduler/DueRollouts.antt =====
-- tasks/scheduler.py, fire_due_scheduled_rollouts. `describe` gives the text of an exception. One
-- reading of the clock, `now`, stands for those of a run, which differ by its duration.
use mdmfleetmanagement.Prelude.{
  ℕ, zero, String, Bool, true, false, Option, none, some, List, [], ◌∷◌, ◌++◌, ◌==◌, ◌&&◌, leb, eqb,
  length,
}
use mdmfleetmanagement.Prelude.Rows.{select_where, update_where}
use mdmfleetmanagement.Prelude.Int.{ℤ, pos}
use mdmfleetmanagement.Prelude.Text.{truncate}
use mdmfleetmanagement.Models.{Database, ScheduledRollout, OtaEvent, int, str}
use mdmfleetmanagement.Config.{Settings}
use mdmfleetmanagement.Session.{
  Action, Error, Result, ok, err, data_error, integrity_error, pure, raise, query, execute, commit,
  ◌>>=◌, ◌>>◌,
}
use mdmfleetmanagement.Ota.Select.{Rollout}
use mdmfleetmanagement.Ota.Rollout.{PublishFn, start_rollout}
use mdmfleetmanagement.Audit.{log}

-- row.canary_count or 2
unfoldable pub count_or_two : Option ℤ → ℤ
count_or_two none = pos 2
count_or_two (some (pos zero)) = pos 2
count_or_two (some n) = n

-- The arguments that the scheduler hands to `start_rollout`.
unfoldable pub rollout_of : ScheduledRollout → Rollout
rollout_of row = record {
  target_version = row.target_version;
  strategy = row.strategy;
  canary_count = count_or_two row.canary_count;
  target_devices = some row.target_devices;
  target_community = none;
}

unfoldable pub is_due : ℕ → ScheduledRollout → Bool
is_due now row = row.status == "pending" && leb row.fire_at now

abbrev pub update_rollout : ℕ → (ScheduledRollout → ScheduledRollout) → Database → Database
update_rollout id f d = record d {
  scheduled_rollouts = update_where (λ x. eqb x.id id) f d.scheduled_rollouts;
}

abbrev pub fire : ℕ → ScheduledRollout → ScheduledRollout
fire now row = record row { status = "fired"; fired_at = some now }

abbrev pub fail : String → ScheduledRollout → ScheduledRollout
fail why row = record row { status = "failed"; error = some (truncate 1000 why) }

-- An error of the database ends the transaction: every statement after it raises, the last commit
-- included.
unfoldable pub is_database_error : Error → Bool
is_database_error data_error = true
is_database_error integrity_error = true
is_database_error _ = false

-- The `except` branch; none for a row that failed. After an error of the database no later row is
-- started and nothing more is stored, so the run raises there.
unfoldable pub settle_failure : (Error → String) → ScheduledRollout → Error → Bool → Action (List ℕ)
settle_failure describe row e true = raise e
settle_failure describe row e false = do
  execute (update_rollout row.id (fail (describe e)))
  pure []

-- What follows `start_rollout` in the `try`, or its `except` branch; none for a row that failed.
unfoldable pub settle :
    (Error → String) → ℕ → ScheduledRollout → Result (List OtaEvent) → Action (List ℕ)
settle describe now row (ok events) = do
  execute (update_rollout row.id (fire now))
  log none "schedule_fired" "rollout" (
      ("id", int row.id)
      ∷ ("target_version", str row.target_version)
      ∷ ("total_devices", int (length row.target_devices))
      ∷ [])
  pure (row.id ∷ [])
settle describe now row (err e) = settle_failure describe row e (is_database_error e)

-- The `try` statement: what the call raises is a value after it.
abbrev pub attempt : {A : Type 0} → Action A → Action (Result A)
attempt m s = let (r, s') = m s in (ok r, s')

unfoldable pub fire_one :
    Settings → PublishFn → (Error → String) → ℕ → ScheduledRollout → Action (List ℕ)
fire_one settings publish_fn describe now row = do
  outcome ← attempt (start_rollout settings (some publish_fn) now (rollout_of row))
  settle describe now row outcome

unfoldable pub fire_all :
    Settings → PublishFn → (Error → String) → ℕ → List ScheduledRollout → Action (List ℕ)
fire_all settings publish_fn describe now [] = pure []
fire_all settings publish_fn describe now (row ∷ rows) = do
  one ← fire_one settings publish_fn describe now row
  rest ← fire_all settings publish_fn describe now rows
  pure (one ++ rest)

-- fire_due_scheduled_rollouts
unfoldable pub fire_due_scheduled_rollouts :
    Settings → PublishFn → (Error → String) → ℕ → Action (List ℕ)
fire_due_scheduled_rollouts settings publish_fn describe now = do
  due ← query (λ d. select_where (is_due now) d.scheduled_rollouts)
  fired ← fire_all settings publish_fn describe now due
  commit
  pure fired
