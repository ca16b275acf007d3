-- ===== src/System/Handlers.antt =====
-- The MQTT handlers, the jobs of the scheduler and provisioning do not write the users.
use mdmfleetmanagement.Prelude.{
  ℕ, String, Bool, true, false, Option, none, some, List, [], ◌∷◌, ◌++◌, refl,
}
use mdmfleetmanagement.Models.{User, OtaEvent, Device, ProvisionJob, ScheduledRollout}
use mdmfleetmanagement.Config.{Settings}
use mdmfleetmanagement.Session.{Action, Error, Result, ok, err}
use mdmfleetmanagement.Session.Keeps.{Keeps, Keeps-bind, Keeps-pure, keeping}
use mdmfleetmanagement.Session.Users.{OnUsers, Keeps-write}
use mdmfleetmanagement.Api.Writes.{Keeps-log, Keeps-rollout}
use mdmfleetmanagement.Mqtt.Json.{Driver, Json, Scalar}
use mdmfleetmanagement.Mqtt.Reads.{
  Keeps-to_column, Keeps-fields_of, Keeps-is_below, Keeps-beat_of, Keeps-registration_of,
}
use mdmfleetmanagement.Mqtt.Heartbeat.{
  Beat, confirm, promote, after_update, heartbeat_object, heartbeat_payload,
}
use mdmfleetmanagement.Mqtt.Registration.{
  Registration, create_home, ensure_home, write_row, register_device, registration_payload,
}
use mdmfleetmanagement.Mqtt.OtaStatus.{
  install_if, write_report, on_event, ota_status_fields, ota_status_payload,
}
use mdmfleetmanagement.Scheduler.DeadDevices.{check_dead_devices}
use mdmfleetmanagement.Scheduler.DueRollouts.{
  settle, settle_failure, fire_one, fire_all, fire_due_scheduled_rollouts, attempt, rollout_of,
}
use mdmfleetmanagement.Ota.Rollout.{PublishFn}
use mdmfleetmanagement.Provisioning.{
  Toolchain, set_status, finish, build, run_for, run_found, run_job,
}
use mdmfleetmanagement.Provisioning

module _ (P : List User → Type 0) where
  abbrev pub KeepsUsers : {A : Type 0} → Action A → Type 0
  KeepsUsers m = Keeps (OnUsers P) m

  ruleset writing = (
    keeping, Keeps-write, Keeps-log, refl, Keeps-to_column, Keeps-fields_of, Keeps-is_below,
    Keeps-beat_of, Keeps-registration_of,
  )

  confirm-KeepsUsers :
      (name : String) (now : ℕ) (o : Option OtaEvent) → KeepsUsers (confirm name now o)
  unfolding confirm
  confirm-KeepsUsers name now none = search writing
  confirm-KeepsUsers name now (some e) = search writing depth 12

  promote-KeepsUsers :
      (clock : ℕ → ℕ) (name : String) (b : Bool) → KeepsUsers (promote clock name b)
  unfolding promote
  promote-KeepsUsers clock name false = search writing
  promote-KeepsUsers clock name true = search (writing, confirm-KeepsUsers) depth 12

  after_update-KeepsUsers :
      (clock : ℕ → ℕ) (name : String) (b : Beat) (v : Scalar) (known : Bool)
      → KeepsUsers (after_update clock name b v known)
  unfolding after_update
  after_update-KeepsUsers clock name b v false = search writing depth 12
  after_update-KeepsUsers clock name b v true = search (writing, promote-KeepsUsers) depth 12

  pub heartbeat-KeepsUsers :
      (driver : Driver) (clock : ℕ → ℕ) (name : String) (o : Option Json)
      → KeepsUsers (heartbeat_payload driver clock name o)
  unfolding heartbeat_payload heartbeat_object
  heartbeat-KeepsUsers driver clock name none = search writing
  heartbeat-KeepsUsers driver clock name (some payload) =
      search (writing, after_update-KeepsUsers) depth 20

  create_home-KeepsUsers : (h : String) (b : Bool) → KeepsUsers (create_home h b)
  unfolding create_home
  create_home-KeepsUsers h true = search writing
  create_home-KeepsUsers h false = search writing

  ensure_home-KeepsUsers : (o : Option String) → KeepsUsers (ensure_home o)
  unfolding ensure_home
  ensure_home-KeepsUsers none = search writing
  ensure_home-KeepsUsers (some h) = search (writing, create_home-KeepsUsers) depth 12

  write_row-KeepsUsers :
      (name : String) (now : ℕ) (g : Registration) (known : Bool)
      → KeepsUsers (write_row name now g known)
  unfolding write_row
  write_row-KeepsUsers name now g true = search writing depth 20
  write_row-KeepsUsers name now g false = search writing depth 20

  pub registration-KeepsUsers :
      (driver : Driver) (now : ℕ) (name : String) (o : Option Json)
      → KeepsUsers (registration_payload driver now name o)
  unfolding registration_payload register_device
  registration-KeepsUsers driver now name none = search writing
  registration-KeepsUsers driver now name (some payload) =
      search (writing, ensure_home-KeepsUsers, write_row-KeepsUsers) depth 20

  install_if-KeepsUsers :
      (name : String) (version : Option String) (b : Bool) → KeepsUsers (install_if name version b)
  unfolding install_if
  install_if-KeepsUsers name version true = search writing
  install_if-KeepsUsers name version false = search writing

  on_event-KeepsUsers :
      (driver : Driver) (now : ℕ) (name : String) (status : Scalar) (version : Option String)
      (o : Option OtaEvent)
      → KeepsUsers (on_event driver now name status version o)
  unfolding on_event write_report
  on_event-KeepsUsers driver now name status version none = search writing
  on_event-KeepsUsers driver now name status version (some e) =
      search (writing, install_if-KeepsUsers) depth 20

  pub ota_status-KeepsUsers :
      (driver : Driver) (now : ℕ) (name : String) (o : Option Json)
      → KeepsUsers (ota_status_payload driver now name o)
  unfolding ota_status_payload ota_status_fields
  ota_status-KeepsUsers driver now name none = search writing
  ota_status-KeepsUsers driver now name (some payload) =
      search (writing, on_event-KeepsUsers) depth 20

  pub sweep-KeepsUsers : (now : ℕ) → KeepsUsers (check_dead_devices now)
  unfolding check_dead_devices
  sweep-KeepsUsers now = search writing depth 12

  settle_failure-KeepsUsers :
      (describe : Error → String) (row : ScheduledRollout) (e : Error) (b : Bool)
      → KeepsUsers (settle_failure describe row e b)
  unfolding settle_failure
  settle_failure-KeepsUsers describe row e true = search writing
  settle_failure-KeepsUsers describe row e false = search writing depth 12

  settle-KeepsUsers :
      (describe : Error → String) (now : ℕ) (row : ScheduledRollout) (r : Result (List OtaEvent))
      → KeepsUsers (settle describe now row r)
  unfolding settle
  settle-KeepsUsers describe now row (ok es) = search writing depth 12
  settle-KeepsUsers describe now row (err e) = search (writing, settle_failure-KeepsUsers)

  attempt-KeepsUsers : {A : Type 0} (m : Action A) → KeepsUsers m → KeepsUsers (attempt m)
  attempt-KeepsUsers m k = record { at = λ s h. k.at s h }

  fire_one-KeepsUsers :
      (settings : Settings) (f : PublishFn) (describe : Error → String) (now : ℕ)
      (row : ScheduledRollout)
      → KeepsUsers (fire_one settings f describe now row)
  unfolding fire_one
  fire_one-KeepsUsers settings f describe now row =
      Keeps-bind _ _ (attempt-KeepsUsers _ (Keeps-rollout P settings (some f) now (rollout_of row)))
        λ r. settle-KeepsUsers describe now row r

  fire_all-KeepsUsers :
      (settings : Settings) (f : PublishFn) (describe : Error → String) (now : ℕ)
      (rows : List ScheduledRollout)
      → KeepsUsers (fire_all settings f describe now rows)
  unfolding fire_all
  fire_all-KeepsUsers settings f describe now [] = search writing
  fire_all-KeepsUsers settings f describe now (row ∷ rows) =
      Keeps-bind _ _ (fire_one-KeepsUsers settings f describe now row) λ one.
        Keeps-bind _ _ (fire_all-KeepsUsers settings f describe now rows)
          λ rest. Keeps-pure (one ++ rest)

  pub fire_due-KeepsUsers :
      (settings : Settings) (f : PublishFn) (describe : Error → String) (now : ℕ)
      → KeepsUsers (fire_due_scheduled_rollouts settings f describe now)
  unfolding fire_due_scheduled_rollouts
  fire_due-KeepsUsers settings f describe now = search (writing, fire_all-KeepsUsers) depth 12

  finish-KeepsUsers :
      (tools : Toolchain) (id : String) (r : Result String) → KeepsUsers (finish tools id r)
  unfolding finish set_status Provisioning.fail
  finish-KeepsUsers tools id (ok path) = search writing depth 12
  finish-KeepsUsers tools id (err e) = search writing depth 12

  build-KeepsUsers :
      (settings : Settings) (tools : Toolchain) (id : String) (x : Device) (r : Result String)
      → KeepsUsers (build settings tools id x r)
  unfolding build set_status Provisioning.fail
  build-KeepsUsers settings tools id x (ok path) = search (writing, finish-KeepsUsers) depth 12
  build-KeepsUsers settings tools id x (err e) = search writing depth 12

  run_for-KeepsUsers :
      (settings : Settings) (tools : Toolchain) (id : String) (o : Option Device)
      → KeepsUsers (run_for settings tools id o)
  unfolding run_for set_status Provisioning.fail
  run_for-KeepsUsers settings tools id none = search writing depth 12
  run_for-KeepsUsers settings tools id (some x) = search (writing, build-KeepsUsers) depth 12

  run_found-KeepsUsers :
      (settings : Settings) (tools : Toolchain) (o : Option ProvisionJob)
      → KeepsUsers (run_found settings tools o)
  unfolding run_found
  run_found-KeepsUsers settings tools none = search writing
  run_found-KeepsUsers settings tools (some j) = search (writing, run_for-KeepsUsers) depth 12

  pub run_job-KeepsUsers :
      (settings : Settings) (tools : Toolchain) (id : String)
      → KeepsUsers (run_job settings tools id)
  unfolding run_job
  run_job-KeepsUsers settings tools id = search (writing, run_found-KeepsUsers) depth 12
