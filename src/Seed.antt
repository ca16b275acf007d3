-- ===== src/Seed.antt =====
-- scripts/seed.py: the sample data of a new installation.
pub mod Once
use mdmfleetmanagement.Prelude.{
  ℕ, String, Bool, true, false, Option, none, some, List, [], ◌∷◌, ◌++◌, map, ◌==◌, ◌||◌, is_empty,
  suc, eq_sql, not,
}
use mdmfleetmanagement.Prelude.Rows.{any_where}
use mdmfleetmanagement.Models.{
  Database, Community, Home, HomeCommunity, Device, FirmwareVersion, User,
}
use mdmfleetmanagement.Session.{
  Action, integrity_error, pure, raise_if, query, execute, commit, ◌>>=◌, ◌>>◌,
}
use mdmfleetmanagement.Auth.Tokens.{Crypto}
use mdmfleetmanagement.Auth.Guards.{user_by_id}
use mdmfleetmanagement.Auth.Accounts.{has_email}
use mdmfleetmanagement.Broadcasts.{has_home_id}
use mdmfleetmanagement.Mqtt.Heartbeat.{has_id}
use mdmfleetmanagement.ScheduledRollouts.{has_version}

abbrev community : String → String → String → Community
community id name description = record {
  community_id = id;
  name = name;
  description = some description;
}

unfoldable pub seed_communities : List Community
seed_communities =
    community "nrh" "NRH" "Neuro Rehab Hospital patients"
    ∷ community "kaiser" "Kaiser Permanente" "Kaiser patients in smart home program"
    ∷ community "stjude" "St Jude" "St Jude affiliated patients"
    ∷ community "sutterhealth" "Sutter Health" "Sutter Health patients"
    ∷ community "all" "All Homes" "Broadcast to entire fleet"
    ∷ []

abbrev home : String → String → String → Home
home id name address = record { home_id = id; patient_name = name; address = some address }

unfoldable pub seed_homes : List Home
seed_homes =
    home "home-001" "Test Patient A" "123 NRH Lane, Salt Lake City, UT"
    ∷ home "home-002" "Test Patient B" "456 Kaiser Blvd, San Francisco, CA"
    ∷ home "home-003" "Test Patient C" "789 Multi Ave, Sacramento, CA"
    ∷ []

abbrev assigned : String → String → HomeCommunity
assigned h c = record { home_id = h; community_id = c }

unfoldable pub seed_assignments : List HomeCommunity
seed_assignments =
    assigned "home-001" "nrh"
    ∷ assigned "home-001" "all"
    ∷ assigned "home-002" "kaiser"
    ∷ assigned "home-002" "all"
    ∷ assigned "home-003" "nrh"
    ∷ assigned "home-003" "sutterhealth"
    ∷ assigned "home-003" "all"
    ∷ []

abbrev device : String → String → String → String → Device
device id mac role home_id = record {
  device_id = id;
  mac = some mac;
  display_name = none;
  custom_id = none;
  firmware_version = some "1.0.0";
  target_firmware_version = none;
  device_type = "room_sensor";
  provision_token = none;
  role = role;
  status = "unknown";
  last_seen = none;
  home_id = some home_id;
  rssi = none;
  heap = none;
  uptime = none;
}

unfoldable pub seed_devices : List Device
seed_devices =
    device "esp32-living-room-001" "AA:BB:CC:DD:E0:01" "hub" "home-001"
    ∷ device "esp32-fall-sensor-001" "AA:BB:CC:DD:E0:02" "sensor" "home-001"
    ∷ device "esp32-motion-002" "AA:BB:CC:DD:E0:03" "sensor" "home-002"
    ∷ device "esp32-door-003" "AA:BB:CC:DD:E0:04" "sensor" "home-003"
    ∷ []

unfoldable pub seed_firmware : ℕ → FirmwareVersion
seed_firmware id = record {
  id = id;
  version = "1.0.0";
  binary_path = "./data/firmware/1.0.0/firmware.bin";
  checksum = "placeholder-sha256";
  release_notes = some "Initial firmware release";
}

abbrev account : String → String → String → String → User
account id email hashed role = record {
  id = id;
  email = email;
  hashed_password = hashed;
  role = role;
  is_active = true;
}

-- `salts` gives the salts that bcrypt draws.
unfoldable pub seed_users : Crypto → (ℕ → ℕ) → List User
seed_users crypto salts =
    account "admin" "admin@tetradapt.com" (crypto.hashpw (salts 0) "admin123") "admin"
    ∷ account "operator1" "operator@tetradapt.com" (crypto.hashpw (salts 1) "operator123")
        "operator"
    ∷ account "viewer1" "viewer@tetradapt.com" (crypto.hashpw (salts 2) "viewer123") "viewer"
    ∷ []

-- The keys of new rows that a table has already; the database refuses them.
unfoldable pub homes_clash : List Home → List Home → Bool
homes_clash xs rows = any_where (λ x. any_where (has_home_id x.home_id) rows) xs

unfoldable pub has_same_mac : Option String → Device → Bool
has_same_mac none y = false
has_same_mac (some m) y = eq_sql y.mac m

unfoldable pub devices_clash : List Device → List Device → Bool
devices_clash xs rows =
    any_where (λ x. any_where (λ y. has_id x.device_id y || has_same_mac x.mac y) rows) xs

unfoldable pub users_clash : List User → List User → Bool
users_clash xs rows =
    any_where (λ x. any_where (λ y. user_by_id x.id y || has_email x.email y) rows) xs

unfoldable pub add_rest : Crypto → (ℕ → ℕ) → Database → Database
add_rest crypto salts d = record d {
  devices = d.devices ++ seed_devices;
  firmware_versions = d.firmware_versions ++ seed_firmware d.next_id ∷ [];
  users = d.users ++ seed_users crypto salts;
  next_id = suc d.next_id;
}

unfoldable pub fill : Crypto → (ℕ → ℕ) → Action (Unit {0})
fill crypto salts = do
  execute (λ d. record d { communities = d.communities ++ seed_communities })
  raise_if (← query (λ d. homes_clash seed_homes d.homes)) integrity_error
  execute (λ d. record d { homes = d.homes ++ seed_homes })
  execute (λ d. record d { home_community = d.home_community ++ seed_assignments })
  raise_if (← query (λ d. devices_clash seed_devices d.devices)) integrity_error
  raise_if (← query (λ d. any_where (has_version "1.0.0") d.firmware_versions)) integrity_error
  raise_if (← query (λ d. users_clash (seed_users crypto salts) d.users)) integrity_error
  execute (add_rest crypto salts)
  commit

unfoldable pub fill_if : Crypto → (ℕ → ℕ) → Bool → Action (Unit {0})
fill_if crypto salts true = fill crypto salts
fill_if crypto salts false = pure tt

-- seed: nothing where a community is there already
unfoldable pub seed : Crypto → (ℕ → ℕ) → Action (Unit {0})
seed crypto salts = do fresh ← query (λ d. is_empty d.communities); fill_if crypto salts fresh
