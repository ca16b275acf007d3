-- ===== src/Examples/Requests.antt =====
-- Requests to the small fleet, by its admin, by a viewer and by nobody.
use mdmfleetmanagement.Prelude.{true, none, some, ◌≡◌, refl}
use mdmfleetmanagement.Config.{defaults}
use mdmfleetmanagement.Auth.Guards.{Credentials, extract_token, user_by_id, role_in}
use mdmfleetmanagement.Prelude.Text.{has_text, text_or}
use mdmfleetmanagement.Api.Requests.{Request}
use mdmfleetmanagement.Api.Handle.{Server, endpoint, handle}
use mdmfleetmanagement.Api.Reads.{is_read, handle_read}
use mdmfleetmanagement.Api.Admission.{IsCaller, handle_decides}
use mdmfleetmanagement.Examples.Fleet.{alice, alice_claims, session, take_all, toy}
use mdmfleetmanagement.Examples.Sessions.{bearer_token}

abbrev pub server : Server
server = record {
  settings = defaults;
  crypto = toy;
  publish_fn = some take_all;
  sha256 = λ content. "aa00";
  decimal = λ i. "7";
  now = 80_000_000;
  salt = 0;
  password = "Xy-12345678";
  tokens = record { suffix = "99"; provision_token = "t"; job_id = "j9" };
  file_exists = λ path. true;
  ilike = λ pattern s. true;
  order_by = λ k xs. xs;
  sorted = λ xs. xs;
  users_by_creation = λ xs. xs;
  firmware_by_creation = λ xs. xs;
  groups_by_name = λ xs. xs;
}

handle_read_example :
    (handle server bearer_token (Request.list_facet "home_id") session).1 ≡ session
unfolding is_read
handle_read_example = handle_read server bearer_token (Request.list_facet "home_id") session refl

abbrev nobody : Credentials
nobody = record { bearer = none; cookie = none }

-- Alice, with a token from when she was a viewer.
abbrev viewers : Server
viewers = record server {
  crypto = record toy { decode = λ now t. some (record alice_claims { role = "viewer" }) };
}

as_viewer : IsCaller viewers bearer_token session (record alice_claims { role = "viewer" }) alice
unfolding extract_token has_text text_or user_by_id
as_viewer = record { has_token = refl; decoded = refl; user = refl; active = refl }

handle_decides_example :
    handle viewers bearer_token (Request.abort_rollout "1.1.0") session
    ≡ endpoint viewers (some alice) (Request.abort_rollout "1.1.0") session
unfolding role_in
handle_decides_example =
    handle_decides viewers bearer_token (Request.abort_rollout "1.1.0") session
      (record alice_claims { role = "viewer" }) alice as_viewer
