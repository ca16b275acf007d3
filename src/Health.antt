-- ===== src/Health.antt =====
-- fleet_server/main.py, the health probe, and middleware/request_id.py. Whether the database and
-- the broker answer is found out by their clients: arguments.
use mdmfleetmanagement.Prelude.{
  String, Bool, true, false, Option, none, some, [], ◌∷◌, ◌==◌, if◌then◌else◌,
}
use mdmfleetmanagement.Prelude.Text.{concat, truncate}
use mdmfleetmanagement.Config.{Settings}

pub record Checks : Type 0 where
  pub version : String
  pub database : String
  pub mqtt : String
  pub fcm : String
  pub status : String

-- The text of the exception that SELECT 1 raised, if it raised one.
unfoldable pub database_check : Option String → String
database_check none = "ok"
database_check (some why) = concat ("error: " ∷ why ∷ [])

-- What is known of the MQTT client: whether it is connected, or none where asking raises.
unfoldable pub mqtt_check : Option Bool → String
mqtt_check none = "error"
mqtt_check (some true) = "connected"
mqtt_check (some false) = "disconnected"

-- GET /health
unfoldable pub health : Settings → Option String → Option Bool → Checks
health settings failure client = record {
  version = "0.1.0";
  database = database_check failure;
  mqtt = mqtt_check client;
  fcm = if settings.fcm_project_id == "" then "not configured" else "configured";
  status = if database_check failure == "ok" then "ok" else "degraded";
}

-- RequestIDMiddleware.dispatch: the id of a request, for the uuid that is drawn.
unfoldable pub request_id : Option String → String → String
request_id none uuid = truncate 8 uuid
request_id (some rid) uuid = rid
