-- ===== src/System.antt =====
-- The server as a whole: what can happen to its database, one session after the other.
pub mod Handlers
pub mod Accounts
use mdmfleetmanagement.Prelude.{ℕ, String, List, [], ◌∷◌}
use mdmfleetmanagement.Models.{Database}
use mdmfleetmanagement.Config.{Settings}
use mdmfleetmanagement.Session.{Error}
use mdmfleetmanagement.Auth.Guards.{Credentials}
use mdmfleetmanagement.Mqtt.Json.{Driver}
use mdmfleetmanagement.Mqtt.Client.{Incoming, in_session, listen}
use mdmfleetmanagement.Scheduler.DeadDevices.{check_dead_devices}
use mdmfleetmanagement.Scheduler.DueRollouts.{fire_due_scheduled_rollouts}
use mdmfleetmanagement.Ota.Rollout.{PublishFn}
use mdmfleetmanagement.Provisioning.{Toolchain, run_job}
use mdmfleetmanagement.Api.Requests.{Request}
use mdmfleetmanagement.Api.Handle.{Server, handle}

-- A request by anyone, messages of devices, a run of either job of the scheduler, or the task that
-- a provisioning request leaves behind.
pub data Step : Type 0 where
  request : Server → Credentials → Request → Step
  messages : Driver → List Incoming → Step
  sweep : ℕ → Step
  fire_due : Settings → PublishFn → (Error → String) → ℕ → Step
  job : Settings → Toolchain → String → Step

unfoldable pub step : Step → Database → Database
step (request env c r) d = in_session (handle env c r) d
step (messages driver ms) d = listen driver ms d
step (sweep now) d = in_session (check_dead_devices now) d
step (fire_due settings publish_fn describe now) d =
    in_session (fire_due_scheduled_rollouts settings publish_fn describe now) d
step (job settings tools id) d = in_session (run_job settings tools id) d

-- The database after some steps.
unfoldable pub run : List Step → Database → Database
run [] d = d
run (x ∷ xs) d = run xs (step x d)
