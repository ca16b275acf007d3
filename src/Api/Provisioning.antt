-- ===== src/Api/Provisioning.antt =====
-- api/provisioning.py: the job of a new device, and the files that its browser flasher fetches.
use mdmfleetmanagement.Prelude.{ℕ, String, Bool, not, [], ◌∷◌}
use mdmfleetmanagement.Prelude.Rows.{find_where}
use mdmfleetmanagement.Prelude.Text.{concat}
use mdmfleetmanagement.Models.{Database, ProvisionJob}
use mdmfleetmanagement.Config.{Settings}
use mdmfleetmanagement.Session.{
  Action, Result, ok, err, http, pure, raise_if, or_raise, query, open_session, ◌>>=◌, ◌>>◌,
}
use mdmfleetmanagement.Mqtt.Client.{in_session}
use mdmfleetmanagement.Provisioning.{Toolchain, Tokens, start_job, job_by_id, run_job}

-- POST /provision, as far as the response
unfoldable pub provision : Tokens → String → Action ProvisionJob
provision t device_type = start_job t device_type

-- The background task, in a session of its own.
unfoldable pub run_in_background : Settings → Toolchain → Result ProvisionJob → Database → Database
run_in_background settings tools (err e) d = d
run_in_background settings tools (ok job) d = in_session (run_job settings tools job.id) d

-- POST /provision with the task that it leaves behind, each in its session.
unfoldable pub provision_and_run : Settings → Toolchain → Tokens → String → Database → Database
provision_and_run settings tools t device_type d =
    let (r, s) = provision t device_type (open_session d) in
    run_in_background settings tools r s.committed

-- GET /jobs/{job_id}
unfoldable pub get_job : String → Action ProvisionJob
get_job id = do or_raise (← query (λ d. find_where (job_by_id id) d.provision_jobs)) (http 404)

-- Path(settings.FIRMWARE_STORAGE_PATH) / device_id / "firmware.bin", for a relative device_id
unfoldable pub firmware_file : Settings → String → String
firmware_file settings id =
    concat (settings.firmware_storage_path ∷ "/" ∷ id ∷ "/firmware.bin" ∷ [])

-- GET /devices/{device_id}/firmware.bin: the path that is sent. Which files exist is an argument.
unfoldable pub download_firmware : Settings → (String → Bool) → String → Action String
download_firmware settings file_exists id = do
  raise_if (not (file_exists (firmware_file settings id))) (http 404)
  pure (firmware_file settings id)

pub record Manifest : Type 0 where
  pub name : String
  pub version : String
  pub home_assistant_domain : String
  pub new_install_prompt_erase : Bool
  pub chip_family : String
  pub path : String
  pub offset : ℕ

-- GET /devices/{device_id}/manifest.json
unfoldable pub manifest : Settings → String → Manifest
manifest settings id = record {
  name = concat ("SmartHome " ∷ id ∷ []);
  version = "1.0.0";
  home_assistant_domain = "esphome";
  new_install_prompt_erase = Bool.true;
  chip_family = "ESP32";
  path = concat (settings.server_url ∷ "/api/provisioning/devices/" ∷ id ∷ "/firmware.bin" ∷ []);
  offset = 0;
}
