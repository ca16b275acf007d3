-- ===== src/Examples/Sessions.antt =====
-- Accounts and messages: the theorems of Auth and Mqtt used on the small fleet.
use mdmfleetmanagement.Prelude.{
  if◌then◌else◌, true, false, none, some, List, [], ◌∷◌, ◌≡◌, ◌≤◌, ◌↔◌, refl, inl, inr, map, eq_iff,
  arith,
}
use mdmfleetmanagement.Prelude.Keys.{Distinct}
use mdmfleetmanagement.Prelude.Rows.{count_where}
use mdmfleetmanagement.Prelude.Text.{has_text, strip}
use mdmfleetmanagement.Audit.{log}
use mdmfleetmanagement.Auth.Tokens.{Crypto, create_access_token}
use mdmfleetmanagement.Models.{User}
use mdmfleetmanagement.Session.{ok, err, http, Session}
use mdmfleetmanagement.Examples.Fleet.{alice, alice_claims, fleet, session, toy, pending_update}
use mdmfleetmanagement.Auth.Accounts.{
  UserUpdate, update_user, update_known, update_target, write_update, log_changes, role_changes,
  active_changes, bad_role, is_valid_role, is_protected_from, loses_admin, apply_update,
  is_active_admin, TokenResponse, login, scalar_one_or_none, check_login, is_named,
}
use mdmfleetmanagement.Auth.Guards.{
  guard_claims, user_of_claims, require_active, require_role, Credentials, role_in, extract_token,
  user_by_id,
}
use mdmfleetmanagement.Auth.Access.{IsAdmitted, require_role_iff}
use mdmfleetmanagement.Auth.Changes.{update_user_then_guard}
use mdmfleetmanagement.Auth.Calls.{AccountCall, edit, log_in, serve_all, accounts_keep_admin}
use mdmfleetmanagement.Auth.Sessions.{login_then_guard}
use mdmfleetmanagement.Mqtt.Json.{Driver, object, text}
use mdmfleetmanagement.Mqtt.Client.{Incoming, listen}
use mdmfleetmanagement.Ota.Succession.{Continues}
use mdmfleetmanagement.Mqtt.Finality.{listen_settled}
use mdmfleetmanagement.Mqtt.Stops.{listen-undecodable}

-- Alice takes her own admin role away, or tries to.
abbrev calls : List AccountCall
calls =
    log_in 0 "alice" "secret"
    ∷ edit (record { role = some "viewer"; is_active = none }) "u1" alice
    ∷ []

pub ids_distinct : Distinct (map (λ (u : User). u.id) fleet.users)
ids_distinct = (
  (λ m. elim m [ inl e ↦ (let q : false ≡ true = (eq_iff "u1" "u2").1 e in cc) | inr f ↦ f ]),
  ((λ m. m), tt),
)

pub one_admin : 1 ≤ count_where is_active_admin fleet.users
unfolding is_active_admin
one_admin = omega arith

accounts_keep_admin_example :
    let d' = serve_all toy calls fleet in
    Distinct (map (λ u. u.id) d'.users) × (1 ≤ count_where is_active_admin d'.users)
accounts_keep_admin_example = accounts_keep_admin toy calls fleet ids_distinct one_admin

abbrev pub bearer_token : Credentials
bearer_token = record { bearer = some "token"; cookie = none }

require_role_iff_example :
    (require_role toy ("admin" ∷ []) 0 bearer_token session ≡ (ok alice, session))
    ↔ IsAdmitted toy ("admin" ∷ []) 0 bearer_token session alice
require_role_iff_example = require_role_iff toy ("admin" ∷ []) 0 bearer_token session alice

-- The user bob, a viewer with a token, whom alice makes an operator.
abbrev bob : User
bob = record alice { id = "u2"; email = "bob"; role = "viewer" }

abbrev bobs : Crypto
bobs = record toy { decode = λ now t. some (record alice_claims { sub = "u2"; role = "viewer" }) }

abbrev promotion : UserUpdate
promotion = record { role = some "operator"; is_active = none }

abbrev promoted : Session
promoted = (update_user promotion "u2" alice session).1

bob_admitted : require_role bobs ("viewer" ∷ []) 0 bearer_token session ≡ (ok bob, session)
unfolding require_role extract_token guard_claims role_in user_of_claims user_by_id require_active
    has_text
bob_admitted = refl

accepted : update_user promotion "u2" alice session ≡ (ok (apply_update promotion bob), promoted)
unfolding update_user update_known update_target write_update log_changes role_changes
    active_changes bad_role is_valid_role is_protected_from loses_admin is_active_admin apply_update
    user_by_id log
accepted = refl

update_user_then_guard_example :
    let v = apply_update promotion bob in
    (v ≡ apply_update promotion bob)
    × (require_role bobs ("viewer" ∷ []) 0 bearer_token promoted
        ≡ ((if v.is_active then ok v else err (http 401)), promoted))
update_user_then_guard_example =
    update_user_then_guard bobs ("viewer" ∷ []) 0 bearer_token promotion alice bob
      (apply_update promotion bob) session promoted bob_admitted accepted

abbrev token_answer : TokenResponse
token_answer = record { access_token = "token"; user_id = "u1"; role = "admin" }

abbrev logged_in : Session
logged_in = (login toy 0 "alice" "secret" session).1

alice_login : login toy 0 "alice" "secret" session ≡ (ok token_answer, logged_in)
unfolding login scalar_one_or_none is_named strip check_login log create_access_token
alice_login = refl

login_then_guard_example :
    (u : User) × (u.id ≡ "u1")
    × (toy.checkpw "secret" u.hashed_password ≡ true)
    × (require_role toy ("admin" ∷ []) 5 bearer_token logged_in ≡ (ok u, logged_in))
unfolding role_in
login_then_guard_example =
    login_then_guard toy 0 5 "alice" "secret" ("admin" ∷ []) session logged_in token_answer
      (record { nonempty = refl; valid = λ now h. ground arith }) ids_distinct alice_login
      (omega arith) refl

-- A client whose JSON library knows one payload only.
abbrev pub driver : Driver
driver = record {
  loads = λ raw. some (object (("status", text "success") ∷ ("version", text "1.1.0") ∷ []));
  bind_integer = λ v. some none;
  bind_text = λ v. some none;
}

abbrev pub reported : Incoming
reported = record {
  topic = "fleet/esp32-0a1b2c3d/ota/status";
  payload = some "{}";
  clock = λ i. 80_000_000;
}

listen_settled_example :
    let d' = listen driver (reported ∷ []) fleet in
    Continues (pending_update ∷ []) d'.ota_events × Distinct (map (λ e. e.id) d'.ota_events)
listen_settled_example = listen_settled driver (reported ∷ []) fleet ((λ m. m), tt)

listen-undecodable_example :
    listen driver (reported ∷ record reported { payload = none } ∷ reported ∷ []) fleet
    ≡ listen driver (reported ∷ []) fleet
listen-undecodable_example =
    listen-undecodable driver (reported ∷ []) (reported ∷ []) (record reported { payload = none })
      fleet refl
