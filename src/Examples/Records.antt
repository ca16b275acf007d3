-- ===== src/Examples/Records.antt =====
-- Rollouts in waiting, groups, jobs, firmware and broadcasts on the small fleet.
use mdmfleetmanagement.Prelude.Sets.{to_set}
use mdmfleetmanagement.Prelude.{
  ℕ, String, true, false, none, some, List, [], ◌∷◌, ◌≡◌, ◌⊎◌, refl, not, eqb, All, ◌==◌,
}
use mdmfleetmanagement.Prelude.Rows.{find_where, select_where}
use mdmfleetmanagement.Models.{ScheduledRollout, ProvisionJob}
use mdmfleetmanagement.Config.{defaults}
use mdmfleetmanagement.Session.{Session, ok, err, http}
use mdmfleetmanagement.Examples.Fleet.{planned, fleet, session}
use mdmfleetmanagement.Audit.{log, add_entry}
use mdmfleetmanagement.ScheduledRollouts.{cancel_scheduled, cancel_found, cancel_row}
use mdmfleetmanagement.ScheduledRollouts.Cancelling.{
  IsNotDue, cancel_scheduled_lem, cancel_scheduled_refused,
}
use mdmfleetmanagement.DeviceGroups.Members.{
  DeviceGroupResponse, update_group, find_group, get_group, replace_members, insert_members,
  has_group_id, name_taken, all_devices, to_response, members, in_group, edit,
}
use mdmfleetmanagement.DeviceGroups.Membership.{IsMembership, naming, update_group_lem}
use mdmfleetmanagement.Mqtt.Heartbeat.{has_id}
use mdmfleetmanagement.Mqtt.Registration.{kept_or}
use mdmfleetmanagement.Provisioning.{Toolchain, job_by_id, run_job}
use mdmfleetmanagement.Provisioning.Outcome.{HasEnd, run_job-ends}
use mdmfleetmanagement.Firmware.{upload_firmware, upload, new_firmware}
use mdmfleetmanagement.Firmware.Versions.{IsUploaded, upload_firmware_lem}
use mdmfleetmanagement.Ota.Select.{get_by_version}
use mdmfleetmanagement.Broadcasts.{Notice}

abbrev cancelled : Session
cancelled = (cancel_scheduled 3 none session).1

done : cancel_scheduled 3 none session ≡ (ok (cancel_row planned), cancelled)
unfolding cancel_scheduled cancel_found log
done = refl

cancel_scheduled_lem_example :
    ((x : ScheduledRollout) × (find_where (λ y. eqb y.id 3) fleet.scheduled_rollouts ≡ some x)
      × ((x.status == "pending") ≡ true)
      × (cancel_row planned ≡ cancel_row x))
    × All (IsNotDue 3 80_000_000) cancelled.committed.scheduled_rollouts
    × (select_where (λ y. not (eqb y.id 3)) cancelled.committed.scheduled_rollouts
        ≡ select_where (λ y. not (eqb y.id 3)) fleet.scheduled_rollouts)
cancel_scheduled_lem_example =
    cancel_scheduled_lem 3 none (cancel_row planned) session cancelled 80_000_000 done

unknown : cancel_scheduled 9 none session ≡ (err (http 404), session)
unfolding cancel_scheduled
unknown = refl

cancel_scheduled_refused_example :
    (session ≡ session)
    × (((http 404 ≡ http 404) × (find_where (λ y. eqb y.id 9) fleet.scheduled_rollouts ≡ none))
        ⊎ ((http 404 ≡ http 409)
            × (x : ScheduledRollout) × (find_where (λ y. eqb y.id 9) fleet.scheduled_rollouts
                ≡ some x)
            × ((x.status == "pending") ≡ false)))
cancel_scheduled_refused_example =
    cancel_scheduled_refused 9 none (http 404) session session unknown

abbrev ids : List String
ids = "esp32-0a1b2c3d" ∷ "esp32-0a1b2c3d" ∷ []

abbrev regrouped : Session
regrouped = (update_group 4 (naming none none ids) none session).1

abbrev lab : DeviceGroupResponse
lab = record {
  id = 4;
  name = "lab";
  description = none;
  device_ids = "esp32-0a1b2c3d" ∷ [];
  member_count = 1;
}

updated : update_group 4 (naming none none ids) none session ≡ (ok lab, regrouped)
unfolding add_entry update_group find_group get_group replace_members insert_members has_group_id
    name_taken all_devices to_set has_id log to_response members in_group edit kept_or
updated = refl

update_group_lem_example : IsMembership 4 7 ids fleet regrouped.committed
update_group_lem_example =
    update_group_lem 4 7 none none ids none lab session regrouped refl updated

-- A toolchain whose compiler fails.
abbrev broken : Toolchain
broken = record {
  render = λ x. ok "provision/a.yaml";
  yaml_name = λ p. "a.yaml";
  run = λ c. (1, "no space left");
  factory = λ i. [];
  plain = λ i. [];
  copy = λ p i. ok p;
  describe = λ e. "failed";
}

abbrev job : ProvisionJob
job = record {
  id = "j1";
  device_id = "esp32-0a1b2c3d";
  device_type = "room_sensor";
  status = "pending";
  firmware_path = none;
  error = none;
}

job_found : find_where (job_by_id "j1") fleet.provision_jobs ≡ some job
unfolding job_by_id
job_found = refl

run_job-ends_example :
    ((run_job defaults broken "j1" session).0 ≡ ok tt)
    × All (HasEnd "j1") (run_job defaults broken "j1" session).1.committed.provision_jobs
run_job-ends_example = run_job-ends defaults broken "j1" job session job_found

abbrev sum_of : List ℕ → String
sum_of xs = "bb11"

abbrev uploaded : Session
uploaded = (upload_firmware defaults sum_of "1.2.0" (7 ∷ []) "" none session).1

accepted :
    upload_firmware defaults sum_of "1.2.0" (7 ∷ []) "" none session
    ≡ (ok (new_firmware defaults sum_of "1.2.0" (7 ∷ []) "" 6), uploaded)
unfolding upload_firmware upload get_by_version log
accepted = refl

upload_firmware_lem_example :
    IsUploaded sum_of "1.2.0"
      (7 ∷ [])
      (new_firmware defaults sum_of "1.2.0" (7 ∷ []) "" 6)
      uploaded.committed.firmware_versions
upload_firmware_lem_example =
    upload_firmware_lem defaults sum_of "1.2.0" "" (7 ∷ []) none
      (new_firmware defaults sum_of "1.2.0" (7 ∷ []) "" 6) session uploaded ((λ m. m), tt) accepted

abbrev notice : Notice
notice = record {
  message = "Maintenance at noon";
  msg_type = "info";
  priority = "urgent";
  scheduled_at = none;
  sent_by = none;
}
