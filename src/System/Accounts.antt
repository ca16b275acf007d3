-- ===== src/System/Accounts.antt =====
-- The accounts under everything that happens.
use mdmfleetmanagement.Prelude.{
  ℕ, ◌≤◌, String, Option, none, some, List, [], ◌∷◌, map, inl, inr, Bool-cases, refl,
}
use mdmfleetmanagement.Prelude.Rows.{count_where}
use mdmfleetmanagement.Prelude.Keys.{Distinct}
use mdmfleetmanagement.Prelude.Text.{split, ends_with}
use mdmfleetmanagement.Models.{Database, User}
use mdmfleetmanagement.Session.{Action, http}
use mdmfleetmanagement.Session.Keeps.{Keeps, Keeps-bind, Keeps-raise, in_session-keeps}
use mdmfleetmanagement.Session.Stays.{Keeps-of_Stays}
use mdmfleetmanagement.Session.Users.{OnUsers}
use mdmfleetmanagement.Auth.Guards.{Credentials}
use mdmfleetmanagement.Auth.Accounts.{is_active_admin}
use mdmfleetmanagement.Auth.Calls.{Keeps-login}
use mdmfleetmanagement.Auth.LastAdmin.{
  HasAdmin, Keeps-update_user, Keeps-create_user, Keeps-change_my_password,
  Keeps-reset_user_password,
}
use mdmfleetmanagement.Api.Requests.{Request}
use mdmfleetmanagement.Api.Handle.{Server, guards, pass, with_user, endpoint, handle}
use mdmfleetmanagement.Api.Reads.{Stays-pass}
use mdmfleetmanagement.Api.Writes.{Keeps-endpoint, writes_users}
use mdmfleetmanagement.Mqtt.Json.{Driver}
use mdmfleetmanagement.Mqtt.Heartbeat.{handle_heartbeat}
use mdmfleetmanagement.Mqtt.Registration.{handle_registration}
use mdmfleetmanagement.Mqtt.OtaStatus.{handle_ota_status}
use mdmfleetmanagement.Mqtt.Client.{Incoming, device_of, in_session, route, dispatch, listen}
use mdmfleetmanagement.Mqtt.Finality.{on_payload_lem}
use mdmfleetmanagement.System.{Step, step, run}
use mdmfleetmanagement.System.Handlers.{
  heartbeat-KeepsUsers, registration-KeepsUsers, ota_status-KeepsUsers, sweep-KeepsUsers,
  fire_due-KeepsUsers, run_job-KeepsUsers,
}

-- What `HasAdmin` says of a database, said of its users.
abbrev AreGoverned : List User → Type 0
AreGoverned us = Distinct (map (λ (u : User). u.id) us) × (1 ≤ count_where is_active_admin us)

HasAdmin-of_users : {A : Type 0} (m : Action A) → Keeps (OnUsers AreGoverned) m → Keeps HasAdmin m
HasAdmin-of_users m k = record {
  at = λ s h.
      let (a, b) = k.at s ((h.0.ids, h.0.admin), (h.1.ids, h.1.admin)) in
      (record { ids = a.0; admin = a.1 }, record { ids = b.0; admin = b.1 });
}

with_user-HasAdmin :
    {A : Type 0} (u : Option User) (f : User → Action A)
    → ((v : User) → Keeps HasAdmin (f v))
    → Keeps HasAdmin (with_user u f)
unfolding with_user
with_user-HasAdmin none f k = Keeps-raise (http 401)
with_user-HasAdmin (some u) f k = k u

endpoint-HasAdmin :
    (env : Server) (u : Option User) (r : Request) → Keeps HasAdmin (endpoint env u r)
unfolding endpoint
endpoint-HasAdmin env u (Request.login a b) = Keeps-login env.crypto env.now a b
endpoint-HasAdmin env u (Request.change_my_password a b) =
    with_user-HasAdmin u _ λ v. Keeps-change_my_password env.crypto env.salt a b v
endpoint-HasAdmin env u (Request.create_user p) =
    with_user-HasAdmin u _ λ v. Keeps-create_user env.crypto env.salt p v
endpoint-HasAdmin env u (Request.update_user p a) =
    with_user-HasAdmin u _ λ v. Keeps-update_user p a v
endpoint-HasAdmin env u (Request.reset_user_password a) =
    with_user-HasAdmin u _ λ v. Keeps-reset_user_password env.crypto env.salt env.password a v
endpoint-HasAdmin env u r =
    HasAdmin-of_users (endpoint env u r)
      (Keeps-endpoint AreGoverned env u r (unfold writes_users in refl))

handle-HasAdmin : (env : Server) (c : Credentials) (r : Request) → Keeps HasAdmin (handle env c r)
unfolding handle
handle-HasAdmin env c r =
    Keeps-bind (pass env c (guards r) none) (λ u. endpoint env u r)
      (Keeps-of_Stays HasAdmin (pass env c (guards r) none) (Stays-pass env c (guards r) none))
      λ u. endpoint-HasAdmin env u r

route-HasAdmin :
    (driver : Driver) (clock : ℕ → ℕ) (topic name payload : String) (d : Database)
    → HasAdmin d
    → HasAdmin (route driver clock topic name payload d)
unfolding route in_session handle_heartbeat handle_registration handle_ota_status
route-HasAdmin driver clock topic name payload d h =
    elim (Bool-cases (ends_with topic "/heartbeat")) [
      | inl p ↦ rw p (
          in_session-keeps _ d
            (HasAdmin-of_users _
              (heartbeat-KeepsUsers AreGoverned driver clock name (driver.loads payload)))
            h)
      | inr p ↦ rw p (elim (Bool-cases (ends_with topic "/register")) [
        | inl q ↦ rw q (
            in_session-keeps _ d
              (HasAdmin-of_users _
                (registration-KeepsUsers AreGoverned driver (clock 0) name (driver.loads payload)))
              h)
        | inr q ↦ rw q (elim (Bool-cases (ends_with topic "/ota/status")) [
          | inl r ↦ rw r (
              in_session-keeps _ d
                (HasAdmin-of_users _
                  (ota_status-KeepsUsers AreGoverned driver (clock 0) name (driver.loads payload)))
                h)
          | inr r ↦ rw r h
        ])
      ])
    ]

dispatch-HasAdmin :
    (driver : Driver) (m : Incoming) (payload : String) (o : Option String) (d : Database)
    → HasAdmin d
    → HasAdmin (dispatch driver m payload o d)
unfolding dispatch
dispatch-HasAdmin driver m payload none d h = h
dispatch-HasAdmin driver m payload (some name) d h =
    route-HasAdmin driver m.clock m.topic name payload d h

listen-HasAdmin :
    (driver : Driver) (ms : List Incoming) (d : Database)
    → HasAdmin d
    → HasAdmin (listen driver ms d)
unfolding listen
listen-HasAdmin driver [] d h = h
listen-HasAdmin driver (m ∷ ms) d h = on_payload_lem HasAdmin m.payload _ d h λ p.
    listen-HasAdmin driver ms (dispatch driver m p (device_of (split m.topic)) d)
      (dispatch-HasAdmin driver m p (device_of (split m.topic)) d h)

step-HasAdmin : (x : Step) (d : Database) → HasAdmin d → HasAdmin (step x d)
unfolding step in_session
step-HasAdmin (Step.request env c r) d h = in_session-keeps _ d (handle-HasAdmin env c r) h
step-HasAdmin (Step.messages driver ms) d h = listen-HasAdmin driver ms d h
step-HasAdmin (Step.sweep now) d h =
    in_session-keeps _ d (HasAdmin-of_users _ (sweep-KeepsUsers AreGoverned now)) h
step-HasAdmin (Step.fire_due settings f describe now) d h =
    in_session-keeps _ d
      (HasAdmin-of_users _ (fire_due-KeepsUsers AreGoverned settings f describe now)) h
step-HasAdmin (Step.job settings tools id) d h =
    in_session-keeps _ d (HasAdmin-of_users _ (run_job-KeepsUsers AreGoverned settings tools id)) h

run-HasAdmin : (xs : List Step) (d : Database) → HasAdmin d → HasAdmin (run xs d)
unfolding run
run-HasAdmin [] d h = h
run-HasAdmin (x ∷ xs) d h = run-HasAdmin xs (step x d) (step-HasAdmin x d h)

-- If user ids are distinct and there is an active admin, then after any requests by anyone, MQTT
-- messages, runs of the scheduler's jobs and provisioning jobs, one session after the other and
-- whether they succeed or not, user ids are distinct and there is an active admin.
pub run_keeps_admin :
    (xs : List Step) (d : Database)
    → Distinct (map (λ u. u.id) d.users)
    → 1 ≤ count_where is_active_admin d.users
    → Distinct (map (λ u. u.id) (run xs d).users)
      × (1 ≤ count_where is_active_admin (run xs d).users)
run_keeps_admin xs d h k =
    let r = run-HasAdmin xs d (record { ids = h; admin = k }) in (r.ids, r.admin)
