-- ===== src/Examples/Rollouts.antt =====
-- Rollouts: the theorems of Ota and Scheduler used on the small fleet.
use mdmfleetmanagement.Prelude.{
  true, ◌⊎◌, ℕ, String, none, some, List, [], ◌∷◌, ◌≡◌, ◌≤◌, ◌↔◌, ◌==◌, ◌&&◌, refl, ap, inl, inr,
  length, map, All, In, arith,
}
use mdmfleetmanagement.Prelude.Int.{pos}
use mdmfleetmanagement.Prelude.Text.{concat}
use mdmfleetmanagement.Prelude.Rows.{count_where, find_where}
use mdmfleetmanagement.Models.{Device, OtaEvent, FirmwareVersion}
use mdmfleetmanagement.Config.{defaults}
use mdmfleetmanagement.Session.{Error, err, ok, err, value_error, data_error}
use mdmfleetmanagement.Examples.Fleet.{
  sensor, gateway, release, pending_update, fleet, session, full_rollout, take_all,
}
use mdmfleetmanagement.Ota.Select.{
  select_devices, is_candidate, is_reachable, differs, is_targeted, limit, in_flight,
}
use mdmfleetmanagement.Ota.Selection.{
  IsEligible, select_devices_sound, select_canary_capped, select_devices_complete,
}
use mdmfleetmanagement.Ota.Rollout.{start_rollout, abort_rollout}
use mdmfleetmanagement.Ota.Preview.{RolloutPreview, preview_rollout}
use mdmfleetmanagement.Ota.Starting.{ArePendingFor, commands, start_rollout_creates}
use mdmfleetmanagement.Ota.Outcome.{IsNegative, IsCountable, start_rollout_outcome}
use mdmfleetmanagement.Ota.Aborting.{IsAborted, ArePairs, abort_rollout_lem}
use mdmfleetmanagement.Ota.Campaigns.{OtaCampaign, get_campaigns, group, add_campaign}
use mdmfleetmanagement.Ota.History.{row_at, sum_at, event_at, get_campaigns_complete}
use mdmfleetmanagement.Ota.DryRun.{sum_values, preview_rollout_agrees}
use mdmfleetmanagement.Scheduler.DeadDevices.{check_dead_devices}
use mdmfleetmanagement.Scheduler.Sweep.{IsSilent, AreSwept, check_dead_devices_lem}
use mdmfleetmanagement.Scheduler.DueRollouts.{
  is_due, is_database_error, fire_due_scheduled_rollouts,
}
use mdmfleetmanagement.Scheduler.Firing.{AreSettled, fire_due_scheduled_rollouts_lem}

selected : select_devices full_rollout session ≡ (ok (sensor ∷ []), session)
unfolding select_devices is_candidate is_reachable differs is_targeted
selected = refl

preview_rollout_agrees_example :
    (p : RolloutPreview) × (es : List OtaEvent) × (preview_rollout full_rollout session
      ≡ (ok p, session))
    × ((start_rollout defaults (some take_all) 80_000_000 full_rollout session).0 ≡ ok es)
    × (p.device_ids ≡ map (λ e. e.device_id) es)
    × (p.total ≡ length es)
    × (sum_values p.by_status ≡ p.total)
    × (sum_values p.by_current_version ≡ p.total)
    × (sum_values p.by_home ≡ p.total)
preview_rollout_agrees_example =
    preview_rollout_agrees defaults take_all 80_000_000 full_rollout session release (sensor ∷ [])
      (λ m. refl) refl (ap (λ r. r.0) selected)

start_rollout_creates_example :
    (es : List OtaEvent) × ArePendingFor 80_000_000 "1.1.0" (sensor ∷ []) es
    × ((start_rollout defaults (some take_all) 80_000_000 full_rollout session).0 ≡ ok es)
    × ((start_rollout defaults (some take_all) 80_000_000 full_rollout session).1.db.ota_events
        ≡ pending_update ∷ es)
    × ((start_rollout defaults (some take_all) 80_000_000 full_rollout session).1.db.devices
        ≡ sensor ∷ gateway ∷ [])
    × ((start_rollout defaults (some take_all) 80_000_000 full_rollout session).1.published
        ≡ commands defaults "1.1.0" "aa00" (sensor ∷ []))
start_rollout_creates_example =
    start_rollout_creates defaults take_all 80_000_000 full_rollout session release (sensor ∷ [])
      (λ m. refl) refl (ap (λ r. r.0) selected)

start_rollout_outcome_example :
    let (q, s) = start_rollout defaults (some take_all) 80_000_000 full_rollout session in
    let found = find_where (λ g. g.version == "1.1.0") fleet.firmware_versions in
    (((fw : FirmwareVersion) × (found ≡ some fw))
      × IsCountable full_rollout
      × ((es : List OtaEvent) × (q ≡ ok es)))
    ⊎ ((s ≡ session)
        × (((found ≡ none)
              × (q
                  ≡ err (value_error (concat ("Firmware version " ∷ "1.1.0" ∷ " not found" ∷ [])))))
            ⊎ (((fw : FirmwareVersion) × (found ≡ some fw))
                × IsNegative full_rollout
                × (q ≡ err data_error))))
start_rollout_outcome_example =
    start_rollout_outcome defaults take_all 80_000_000 full_rollout session (λ m. refl)

select_devices_sound_example :
    All (λ x. In x fleet.devices × IsEligible fleet full_rollout x) (sensor ∷ [])
    × (session ≡ session)
select_devices_sound_example =
    select_devices_sound full_rollout session session (sensor ∷ []) selected

canary :
    select_devices (record full_rollout { strategy = "canary" }) session
    ≡ (ok (sensor ∷ []), session)
unfolding select_devices is_candidate is_reachable differs is_targeted limit
canary = refl

select_canary_capped_example :
    (length (sensor ∷ []) ≤ 2)
    × All
        (λ x. In x fleet.devices × IsEligible fleet (record full_rollout { strategy = "canary" }) x)
        (sensor ∷ [])
select_canary_capped_example =
    select_canary_capped (record full_rollout { strategy = "canary" }) session session (sensor ∷ [])
      2 refl refl canary

select_devices_complete_example :
    (xs : List Device) × (select_devices full_rollout session ≡ (ok xs, session))
    × ((x : Device) → In x fleet.devices → IsEligible fleet full_rollout x → In x xs)
select_devices_complete_example = select_devices_complete full_rollout session (λ e. cc)

abort_rollout_lem_example :
    let (r, s') = abort_rollout "1.1.0" session in
    (r ≡ ok 1)
    × ArePairs (IsAborted "1.1.0") (pending_update ∷ []) s'.db.ota_events
    × (s'.committed ≡ s'.db)
    × ((abort_rollout "1.1.0" s').0 ≡ ok 0)
unfolding in_flight
abort_rollout_lem_example = abort_rollout_lem "1.1.0" session

one_group : length (group (pending_update ∷ [])) ≤ 5
unfolding group add_campaign
one_group = omega arith

get_campaigns_complete_example :
    (rows : List OtaCampaign) × (get_campaigns (pos 5) session ≡ (ok rows, session))
    × (count_where (row_at "1.1.0" 1) rows ≤ 1)
    × (sum_at "1.1.0" 1 (λ c. c.total) rows
        ≡ count_where (event_at "1.1.0" 1) (pending_update ∷ []))
    × (sum_at "1.1.0" 1 (λ c. c.success) rows
        ≡ count_where (λ e. event_at "1.1.0" 1 e && e.status == "success") (pending_update ∷ []))
    × (sum_at "1.1.0" 1 (λ c. c.failed) rows
        ≡ count_where (λ e. event_at "1.1.0" 1 e && e.status == "failed") (pending_update ∷ []))
    × (sum_at "1.1.0" 1 (λ c. c.in_flight_count) rows
        ≡ count_where (λ e. event_at "1.1.0" 1 e && in_flight e.status) (pending_update ∷ []))
get_campaigns_complete_example = get_campaigns_complete 5 session "1.1.0" 1 one_group

check_dead_devices_lem_example :
    (ids : List String) × ((check_dead_devices 80_000_000 session).0 ≡ ok ids)
    × ((i : String)
        → In i ids
          ↔ ((x : Device) × In x fleet.devices × IsSilent 80_000_000 x × (i ≡ x.device_id)))
    × AreSwept 80_000_000 fleet.devices (check_dead_devices 80_000_000 session).1.db.devices
    × ((check_dead_devices 80_000_000 session).1.committed
        ≡ (check_dead_devices 80_000_000 session).1.db)
    × ((check_dead_devices 80_000_000 (check_dead_devices 80_000_000 session).1).0 ≡ ok [])
check_dead_devices_lem_example = check_dead_devices_lem 80_000_000 session

abbrev pub describe : Error → String
describe e = "failed"

fire_due_scheduled_rollouts_lem_example :
    ((fired : List ℕ) × ((fire_due_scheduled_rollouts defaults take_all describe 80_000_000
          session).0
        ≡ ok fired)
      × AreSettled 80_000_000
          (3 ∷ [])
          fired
          fleet.scheduled_rollouts
          (fire_due_scheduled_rollouts defaults take_all describe 80_000_000
            session).1.committed.scheduled_rollouts)
    ⊎ ((e : Error) × ((fire_due_scheduled_rollouts defaults take_all describe 80_000_000 session).0
          ≡ err e)
        × (is_database_error e ≡ true))
unfolding is_due
fire_due_scheduled_rollouts_lem_example =
    fire_due_scheduled_rollouts_lem defaults take_all describe 80_000_000 session
      ((λ m. elim m [ inl e ↦ omega arith | inr f ↦ f ]), ((λ m. m), tt))
