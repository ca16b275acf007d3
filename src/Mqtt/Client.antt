-- ===== src/Mqtt/Client.antt =====
-- mqtt/client.py: the loop that routes messages to the handlers, each with a session of its own.
-- What a handler raises ends its message only. The payload of a message comes as bytes; here it is
-- given by what `decode` makes of it, none where that raises.
use mdmfleetmanagement.Prelude.{ℕ, String, Option, none, some, List, [], ◌∷◌, if◌then◌else◌}
use mdmfleetmanagement.Prelude.Text.{split, ends_with}
use mdmfleetmanagement.Models.{Database}
use mdmfleetmanagement.Session.{Action, open_session}
use mdmfleetmanagement.Mqtt.Json.{Driver}
use mdmfleetmanagement.Mqtt.Heartbeat.{handle_heartbeat}
use mdmfleetmanagement.Mqtt.Registration.{handle_registration}
use mdmfleetmanagement.Mqtt.OtaStatus.{handle_ota_status}

-- A message, and the readings of the clock while it is handled.
pub record Incoming : Type 0 where
  pub topic : String
  pub payload : Option String
  pub clock : ℕ → ℕ

-- parts[1], where `topic.split("/")` has at least three parts.
unfoldable pub device_of : List String → Option String
device_of (a ∷ name ∷ c ∷ parts) = some name
device_of _ = none

-- The database after a call in a session of its own: what the call committed.
unfoldable pub in_session : {A : Type 0} → Action A → Database → Database
in_session call d = (call (open_session d)).1.committed

unfoldable pub route : Driver → (ℕ → ℕ) → String → String → String → Database → Database
route driver clock topic name payload d =
    if ends_with topic "/heartbeat"
    then in_session (handle_heartbeat driver clock name payload) d
    else if ends_with topic "/register"
    then in_session (handle_registration driver (clock 0) name payload) d
    else if ends_with topic "/ota/status"
    then in_session (handle_ota_status driver (clock 0) name payload) d
    else d

unfoldable pub dispatch : Driver → Incoming → String → Option String → Database → Database
dispatch driver m payload none d = d
dispatch driver m payload (some name) d = route driver m.clock m.topic name payload d

unfoldable pub on_payload : Option String → (String → Database) → Database → Database
on_payload none next d = d
on_payload (some payload) next d = next payload

-- MQTTClient._listen over the messages that come in. The decoding stands outside of the `try`, so
-- a payload that is not UTF-8 ends the loop.
unfoldable pub listen : Driver → List Incoming → Database → Database
listen driver [] d = d
listen driver (m ∷ ms) d =
    on_payload m.payload (λ p. listen driver ms (dispatch driver m p (device_of (split m.topic)) d))
      d
