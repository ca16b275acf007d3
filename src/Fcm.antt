-- ===== src/Fcm.antt =====
-- services/fcm.py, FCMClient.push_to_topic. The HTTP call is an argument: the status code of the
-- answer to a payload, none where it raises.
use mdmfleetmanagement.Prelude.{
  ℕ, String, Bool, true, false, Option, none, some, if◌then◌else◌, ◌==◌, eqb,
}
use mdmfleetmanagement.Config.{Settings}
use mdmfleetmanagement.Broadcasts.{Push}

-- The parts of the payload that differ between pushes.
pub record FcmMessage : Type 0 where
  pub topic : String
  pub title : String
  pub body : String
  pub android_priority : String
  pub apns_priority : String
  pub data_priority : String

unfoldable pub message_of : Push → FcmMessage
message_of p = record {
  topic = p.topic;
  title = p.title;
  body = p.body;
  android_priority = if p.priority == "urgent" then "high" else "normal";
  apns_priority = if p.priority == "urgent" then "10" else "5";
  data_priority = p.priority;
}

abbrev pub is_success : Option ℕ → Bool
is_success none = false
is_success (some code) = eqb code 200

-- Without a project nothing is sent, and that counts as a success.
unfoldable pub push_to_topic : Settings → (FcmMessage → Option ℕ) → Push → Bool
push_to_topic settings post p =
    if settings.fcm_project_id == "" then true else is_success (post (message_of p))
