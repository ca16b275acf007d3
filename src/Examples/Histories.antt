-- ===== src/Examples/Histories.antt =====
-- Sequences of calls, steps and revisions on the small fleet.
use mdmfleetmanagement.Prelude.{
  ℕ, ◌≤◌, false, none, some, List, [], ◌∷◌, ◌≡◌, refl, map, All, inl, inr, arith,
}
use mdmfleetmanagement.Prelude.Rows.{count_where}
use mdmfleetmanagement.Prelude.Keys.{Distinct}
use mdmfleetmanagement.Config.{defaults}
use mdmfleetmanagement.Session.{ok}
use mdmfleetmanagement.Auth.Accounts.{is_active_admin}
use mdmfleetmanagement.Scheduler.DueRollouts.{is_due, fire_due_scheduled_rollouts, count_or_two}
use mdmfleetmanagement.Scheduler.Settling.{fire_due_settles}
use mdmfleetmanagement.Api.Requests.{Request}
use mdmfleetmanagement.Api.Devices.{DeviceCreate}
use mdmfleetmanagement.Api.Devices.Calls.{
  DeviceCall, create, delete, call_all, accepted, replay, registry_of,
}
use mdmfleetmanagement.Api.Devices.Refinement.{calls_refine_registry}
use mdmfleetmanagement.System.{Step, request, messages, sweep, run}
use mdmfleetmanagement.System.Accounts.{run_keeps_admin}
use mdmfleetmanagement.Migrations.Schema.{
  Schema, empty_schema, apply_all, create_table, has_table, has_dangling, is_table, is_dangling,
}
use mdmfleetmanagement.Migrations.Revisions.{initial_schema, upgrade, downgrade}
use mdmfleetmanagement.Migrations.InitialSchema.{
  audit_log, communities, firmware_versions, homes, broadcasts, devices, home_community,
  broadcast_acks, ota_events,
}
use mdmfleetmanagement.Migrations.Undo.{IsClosed}
use mdmfleetmanagement.Migrations.Downgrade.{downgrade-upgrade}
use mdmfleetmanagement.Examples.Fleet.{fleet, session, take_all}
use mdmfleetmanagement.Examples.Rollouts.{describe}
use mdmfleetmanagement.Examples.Sessions.{bearer_token, driver, reported, ids_distinct, one_admin}
use mdmfleetmanagement.Examples.Requests.{server}

-- Alice takes her own admin role away, or tries to; a sweep and a report of a device follow.
abbrev steps : List Step
steps =
    request server bearer_token
      (Request.update_user (record { role = some "viewer"; is_active = none }) "u1")
    ∷ sweep 80_000_000
    ∷ messages driver (reported ∷ [])
    ∷ []

run_keeps_admin_example :
    Distinct (map (λ u. u.id) (run steps fleet).users)
    × (1 ≤ count_where is_active_admin (run steps fleet).users)
run_keeps_admin_example = run_keeps_admin steps fleet ids_distinct one_admin

abbrev fresh_device : DeviceCreate
fresh_device = record {
  device_id = "esp32-new";
  mac = "AA:BB:CC:DD:EE:FF";
  firmware_version = "1.0.0";
  role = "sensor";
  home_id = none;
}

-- The sensor has an event, so it stays.
abbrev device_calls : List DeviceCall
device_calls = create fresh_device ∷ delete "esp32-0a1b2c3d" ∷ delete "esp32-44556677" ∷ []

calls_refine_registry_example :
    registry_of (call_all device_calls fleet) "esp32-new"
    ≡ replay (accepted device_calls fleet) (registry_of fleet) "esp32-new"
calls_refine_registry_example = calls_refine_registry device_calls fleet "esp32-new"

fire_due_settles_example :
    (fired : List ℕ) × ((fire_due_scheduled_rollouts defaults take_all describe 80_000_000
        session).0
      ≡ ok fired)
    × All
        (λ y. is_due 80_000_000 y ≡ false)
        (fire_due_scheduled_rollouts defaults take_all describe 80_000_000
          session).1.committed.scheduled_rollouts
unfolding is_due count_or_two
fire_due_settles_example =
    fire_due_settles defaults take_all describe 80_000_000 session
      ((λ m. elim m [ inl e ↦ omega arith | inr f ↦ f ]), ((λ m. m), tt)) ((2, refl), tt)

empty-IsClosed : IsClosed empty_schema
empty-IsClosed = record {
  no_reference = λ n h. refl;
  no_index = λ n h. refl;
  no_cover = λ t c h. refl;
}

abbrev first_schema : Schema
first_schema = record {
  tables =
      audit_log ∷ communities ∷ firmware_versions ∷ homes ∷ broadcasts ∷ devices ∷ home_community
      ∷ broadcast_acks ∷ ota_events ∷ [];
  indexes = [];
}

first_upgrade : upgrade initial_schema empty_schema ≡ some first_schema
unfolding upgrade apply_all create_table has_table has_dangling is_table is_dangling
first_upgrade = refl

downgrade-upgrade_example : downgrade initial_schema first_schema ≡ some empty_schema
downgrade-upgrade_example =
    downgrade-upgrade initial_schema empty_schema first_schema (λ e. cc) empty-IsClosed
      first_upgrade
