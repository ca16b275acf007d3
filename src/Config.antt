-- ===== src/Config.antt =====
-- fleet_server/config.py: the settings that the modelled code reads. A setting that is not given
-- is the empty text there, and so it is here.
use mdmfleetmanagement.Prelude.{String}

pub record Settings : Type 0 where
  pub server_url : String
  pub firmware_storage_path : String
  pub host_project_dir : String
  pub esphome_image : String
  pub fcm_project_id : String
  pub slack_webhook_url : String
  pub sendgrid_api_key : String

-- The values that stand in the file.
abbrev pub defaults : Settings
defaults = record {
  server_url = "http://192.168.1.231:8000";
  firmware_storage_path = "./data/firmware";
  host_project_dir = "/opt/mdm_esp32";
  esphome_image = "esphome/esphome:2024.12.4";
  fcm_project_id = "";
  slack_webhook_url = "";
  sendgrid_api_key = "";
}
