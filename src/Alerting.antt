-- ===== src/Alerting.antt =====
-- services/alerting.py: the channels of an alert, and the texts that are sent to them. A channel's
-- transport (a webhook, SendGrid) is an argument: the status code of its answer, none where the
-- call raises.
use mdmfleetmanagement.Prelude.{
  ℕ, String, Bool, true, false, Option, none, some, List, [], ◌∷◌, ◌++◌, if◌then◌else◌, ◌==◌, ◌||◌,
  eqb, map, is_empty,
}
use mdmfleetmanagement.Config.{Settings}

pub data AlertChannel : Type 0 where
  console slack email : AlertChannel

pub record Alert : Type 0 where
  pub channel : AlertChannel
  pub device_ids : List String

pub record Transport : Type 0 where
  pub post_slack : List String → Option ℕ
  pub post_email : List String → Option ℕ

abbrev pub slack_accepted : Option ℕ → Bool
slack_accepted none = false
slack_accepted (some code) = eqb code 200

abbrev pub email_accepted : Option ℕ → Bool
email_accepted none = false
email_accepted (some code) = eqb code 200 || eqb code 202

-- SlackChannel.send, EmailChannel.send, ConsoleChannel.send: whether the alert was delivered.
unfoldable pub send : Settings → Transport → AlertChannel → List String → Bool
send settings transport console ids = true
send settings transport slack ids =
    if settings.slack_webhook_url == "" then false else slack_accepted (transport.post_slack ids)
send settings transport email ids =
    if settings.sendgrid_api_key == "" then false else email_accepted (transport.post_email ids)

-- AlertService.__init__
unfoldable pub channels : Settings → List AlertChannel
channels settings =
    console
    ∷ ((if settings.slack_webhook_url == "" then [] else slack ∷ [])
        ++ (if settings.sendgrid_api_key == "" then [] else email ∷ []))

-- AlertService.device_dead: the channels that are called, each with the result of its `send`.
unfoldable pub device_dead : Settings → Transport → List String → List (AlertChannel × Bool)
device_dead settings transport ids =
    if is_empty ids then [] else map (λ c. (c, send settings transport c ids)) (channels settings)
