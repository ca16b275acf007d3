-- ===== src/Examples/Tables.antt =====
-- Deletions, assignments and the sample data.
use mdmfleetmanagement.Prelude.{
  String, ◌↔◌, ◌≢◌, In, false, none, some, Option, [], ◌∷◌, ◌≡◌, refl, suc, ◌⊎◌, true,
}
use mdmfleetmanagement.Prelude.Rows.{find_where, any_where}
use mdmfleetmanagement.Prelude.Keys.{Distinct}
use mdmfleetmanagement.Models.{no_rows, DeviceGroup, Device}
use mdmfleetmanagement.Session.{Session, ok, err, http, integrity_error, open_session}
use mdmfleetmanagement.Mqtt.Client.{in_session}
use mdmfleetmanagement.Seed.{seed}
use mdmfleetmanagement.Seed.Once.{is_refused, IsFilled, seed_once}
use mdmfleetmanagement.Repositories.Device.{distinct_of}
use mdmfleetmanagement.Repositories.Home.{is_assignment, assign_community, remove_community}
use mdmfleetmanagement.Repositories.Assignment.{assign_then_remove, both_known}
use mdmfleetmanagement.Repositories.Values.{Occurs, distinct_of_lem}
use mdmfleetmanagement.DeviceGroups.Members.{has_group_id, delete_group, get_group, members}
use mdmfleetmanagement.DeviceGroups.Deletion.{delete_group_lem}
use mdmfleetmanagement.Api.Homes.{delete_home, is_ack_of}
use mdmfleetmanagement.Api.Homes.Leaving.{IsLeft, delete_home_lem}
use mdmfleetmanagement.Broadcasts.{has_home_id}
use mdmfleetmanagement.Examples.Fleet.{toy, sensor, fleet, session}

seed_once_example :
    let d = in_session (seed toy (λ n. n)) no_rows in
    (IsFilled toy (λ n. n) no_rows d ⊎ ((is_refused toy (λ n. n) no_rows ≡ true) × (d ≡ no_rows)))
    × (in_session (seed toy suc) d ≡ d)
seed_once_example = seed_once toy (λ n. n) suc no_rows

-- A home with one device; the other device has no home.
abbrev housed : Session
housed = open_session (record fleet {
  homes = record { home_id = "h1"; patient_name = "Ann"; address = none } ∷ [];
  devices = record sensor { home_id = some "h1" } ∷ record sensor { device_id = "esp32-1" } ∷ [];
  home_community = record { home_id = "h1"; community_id = "c1" } ∷ [];
})

delete_home_lem_example :
    let (r, s) = delete_home "h1" housed in
    ((r ≡ ok tt) × IsLeft "h1" "h2" housed s)
    ⊎ ((s ≡ housed)
        × (((r ≡ err (http 404)) × (find_where (has_home_id "h1") housed.db.homes ≡ none))
            ⊎ ((r ≡ err integrity_error)
                × (any_where (is_ack_of "h1") housed.db.broadcast_acks ≡ true))))
delete_home_lem_example = delete_home_lem "h1" "h2" housed refl

abbrev homely : Session
homely = open_session (record housed.db { home_community = [] })

assign_then_remove_example :
    let (r, s1) = assign_community "h1" "c1" homely in
    let (r2, s2) = remove_community "h1" "c1" s1 in
    ((r ≡ ok true)
      × (any_where (is_assignment "h1" "c1") s1.committed.home_community ≡ true)
      × (r2 ≡ ok true)
      × (s2 ≡ record homely { committed = homely.db }))
    ⊎ ((s1 ≡ homely)
        × (((r ≡ ok false) × (both_known "h1" "c1" homely ≡ false))
            ⊎ ((r ≡ err integrity_error)
                × (any_where (is_assignment "h1" "c1") homely.db.home_community ≡ true))))
assign_then_remove_example = assign_then_remove "h1" "c1" homely

abbrev alive : String
alive = "alive"

abbrev statuses : Device → Option String
statuses x = some x.status

distinct_of_lem_example :
    (In alive (distinct_of (λ us. us) statuses fleet.devices)
      ↔ ((alive ≢ "") × Occurs statuses alive fleet.devices))
    × Distinct (distinct_of (λ us. us) statuses fleet.devices)
distinct_of_lem_example =
    distinct_of_lem (λ us. us) statuses fleet.devices alive (λ u us. ((λ m. m), (λ m. m)))
      (λ us d. d)

delete_group_lem_example :
    let (r, s) = delete_group 4 (some "u1") session in
    ((r ≡ ok tt)
      × ((g : DeviceGroup) × (find_where (has_group_id 4) fleet.device_groups ≡ some g))
      × (get_group 4 s ≡ (err (http 404), s))
      × (members 4 s.db ≡ [])
      × (find_where (has_group_id 9) s.db.device_groups
          ≡ find_where (has_group_id 9) fleet.device_groups)
      × (members 9 s.db ≡ members 9 fleet)
      × (s.committed ≡ s.db))
    ⊎ ((r ≡ err (http 404))
        × (find_where (has_group_id 4) fleet.device_groups ≡ none)
        × (s ≡ session))
delete_group_lem_example = delete_group_lem 4 9 (some "u1") session refl
