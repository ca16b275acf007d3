-- ===== src/Provisioning.antt =====
-- services/provisioning.py: a new device and the job that compiles its firmware. What runs outside
-- of the server (jinja, the docker daemon, the file system) is a `Toolchain`.
pub mod Outcome
use mdmfleetmanagement.Prelude.{
  ℕ, String, Bool, true, false, Option, none, some, List, [], ◌∷◌, ◌++◌, if◌then◌else◌, ◌==◌, eqb,
  is_empty,
}
use mdmfleetmanagement.Prelude.Rows.{find_where, update_where}
use mdmfleetmanagement.Prelude.Text.{concat, rstrip_slash}
use mdmfleetmanagement.Models.{Database, Device, ProvisionJob}
use mdmfleetmanagement.Config.{Settings}
use mdmfleetmanagement.Session.{
  Action, Result, ok, err, Error, runtime_error, pure, raise, raise_if, or_raise, query, execute,
  commit, ◌>>=◌, ◌>>◌,
}
use mdmfleetmanagement.Mqtt.Heartbeat.{has_id, add_device}

-- `render` writes the YAML and gives its path, or raises. `run` is the exit code and the tail of
-- the output of a command. `factory` and `plain` are the sorted paths of the binaries of a device,
-- and `copy` publishes one, or raises.
pub record Toolchain : Type 0 where
  pub render : Device → Result String
  pub yaml_name : String → String
  pub run : List String → ℕ × String
  pub factory : String → List String
  pub plain : String → List String
  pub copy : String → String → Result String
  pub describe : Error → String

-- What secrets.token_hex and secrets.token_urlsafe drew.
pub record Tokens : Type 0 where
  pub suffix : String
  pub provision_token : String
  pub job_id : String

unfoldable pub new_device : Tokens → String → Device
new_device t device_type = record {
  device_id = concat ("esp32-" ∷ t.suffix ∷ []);
  mac = none;
  display_name = none;
  custom_id = none;
  firmware_version = some "1.0.0";
  target_firmware_version = none;
  device_type = device_type;
  provision_token = some t.provision_token;
  role = "sensor";
  status = "provisioning";
  last_seen = none;
  home_id = none;
  rssi = none;
  heap = none;
  uptime = none;
}

unfoldable pub new_job : Tokens → String → ProvisionJob
new_job t device_type = record {
  id = t.job_id;
  device_id = concat ("esp32-" ∷ t.suffix ∷ []);
  device_type = device_type;
  status = "pending";
  firmware_path = none;
  error = none;
}

abbrev pub add_job : ProvisionJob → Database → Database
add_job j d = record d { provision_jobs = d.provision_jobs ++ j ∷ [] }

unfoldable pub job_by_id : String → ProvisionJob → Bool
job_by_id id j = j.id == id

abbrev pub update_job : String → (ProvisionJob → ProvisionJob) → Database → Database
update_job id f d = record d { provision_jobs = update_where (job_by_id id) f d.provision_jobs }

-- ProvisioningService.start_job
unfoldable pub start_job : Tokens → String → Action ProvisionJob
start_job t device_type = do
  execute (add_device (new_device t device_type))
  execute (add_job (new_job t device_type))
  commit
  pure (new_job t device_type)

abbrev pub with_status : String → ProvisionJob → ProvisionJob
with_status status j = record j { status = status }

-- _set_status
unfoldable pub set_status : String → String → Action (Unit {0})
set_status id status = execute (update_job id (with_status status)) >> commit

abbrev pub failed_with : String → ProvisionJob → ProvisionJob
failed_with why j = record j { status = "failed"; error = some why }

-- _fail
unfoldable pub fail : String → String → Action (Unit {0})
fail id why = execute (update_job id (failed_with why)) >> commit

-- The command of `_compile`.
unfoldable pub command : Settings → String → List String
command settings name =
    "docker"
    ∷ "run"
    ∷ "--rm"
    ∷ "-v"
    ∷ concat (rstrip_slash settings.host_project_dir ∷ "/esphome:/config" ∷ [])
    ∷ settings.esphome_image
    ∷ "compile"
    ∷ concat ("provision/" ∷ name ∷ [])
    ∷ []

-- candidates[-1]
unfoldable pub last_of : List String → Option String
last_of [] = none
last_of (x ∷ []) = some x
last_of (x ∷ y ∷ xs) = last_of (y ∷ xs)

-- sorted(factory) or sorted(plain)
unfoldable pub candidates : Toolchain → String → List String
candidates tools id = if is_empty (tools.factory id) then tools.plain id else tools.factory id

unfoldable pub publish_binary : Toolchain → String → Option String → Result String
publish_binary tools id none =
    err (runtime_error (concat ("firmware.bin not found for " ∷ id ∷ [])))
publish_binary tools id (some src) = tools.copy src id

-- What follows the command, by its exit code.
unfoldable pub after_run : Toolchain → String → ℕ × String → Result String
after_run tools id (code, tail) =
    if eqb code 0
    then publish_binary tools id (last_of (candidates tools id))
    else err (runtime_error (concat ("esphome compile failed: " ∷ tail ∷ [])))

-- _compile
unfoldable pub compile : Settings → Toolchain → String → String → Result String
compile settings tools yaml_path id =
    after_run tools id (tools.run (command settings (tools.yaml_name yaml_path)))

abbrev pub with_path : String → ProvisionJob → ProvisionJob
with_path path j = record j { firmware_path = some path }

-- The rest of the `try` after the binary is there, or the `except`.
unfoldable pub finish : Toolchain → String → Result String → Action (Unit {0})
finish tools id (ok path) = do execute (update_job id (with_path path)); set_status id "ready"
finish tools id (err e) = fail id (tools.describe e)

-- From the rendered file on.
unfoldable pub build : Settings → Toolchain → String → Device → Result String → Action (Unit {0})
build settings tools id x (err e) = fail id (tools.describe e)
build settings tools id x (ok yaml_path) = do
  set_status id "compiling"
  finish tools id (compile settings tools yaml_path x.device_id)

unfoldable pub run_for : Settings → Toolchain → String → Option Device → Action (Unit {0})
run_for settings tools id none = fail id "device row missing"
run_for settings tools id (some x) = do
  set_status id "rendering"
  build settings tools id x (tools.render x)

unfoldable pub run_found : Settings → Toolchain → Option ProvisionJob → Action (Unit {0})
run_found settings tools none = pure tt
run_found settings tools (some j) = do
  x ← query (λ d. find_where (has_id j.device_id) d.devices)
  run_for settings tools j.id x

-- ProvisioningService._run
unfoldable pub run_job : Settings → Toolchain → String → Action (Unit {0})
run_job settings tools id = do
  j ← query (λ d. find_where (job_by_id id) d.provision_jobs)
  run_found settings tools j
