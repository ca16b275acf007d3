-- ===== src/Mqtt/Finality.antt =====
-- No message changes an event that is no longer in flight, or what an event is about.
use mdmfleetmanagement.Prelude.{
  ℕ, String, Bool, true, false, Option, none, some, List, [], ◌∷◌, map, eqb, ◌≡◌, refl, arith, In,
  inl, inr, Bool-cases,
}
use mdmfleetmanagement.Prelude.Rows.{find_where, map-update, select_where}
use mdmfleetmanagement.Prelude.Keys.{Distinct}
use mdmfleetmanagement.Models.{Database, OtaEvent}
use mdmfleetmanagement.Session.{Action, Session, integrity_error, data_error}
use mdmfleetmanagement.Session.Keeps.{
  Keeps, Keeps-pure, Keeps-raise, Keeps-query, Keeps-or_raise, Keeps-if, Keeps-raise_if,
  Keeps-execute, Keeps-commit, Keeps-bind, or_raise-at,
}
use mdmfleetmanagement.Ota.Select.{in_flight}
use mdmfleetmanagement.Ota.Latest.{latest, latest-select}
use mdmfleetmanagement.Ota.Succession.{
  Continues, Continues-refl, Continues-trans, KeepsIdentity, Continues-update_id,
}
use mdmfleetmanagement.Mqtt.Json.{Driver, Json, Scalar, null, find_key, is_text, to_column}
use mdmfleetmanagement.Mqtt.Reads.{
  Keeps-to_column, Keeps-fields_of, Keeps-is_below, Keeps-beat_of, Keeps-registration_of,
}
use mdmfleetmanagement.Mqtt.Registration.{
  Registration, create_home, ensure_home, reregister, registered, add_home, placeholder, write_row,
  register_device, registration_payload, handle_registration,
}
use mdmfleetmanagement.Mqtt.OtaStatus.{
  is_active, report, install_if, write_report, on_event, ota_status_fields, ota_status_payload,
  handle_ota_status,
}
use mdmfleetmanagement.Mqtt.Heartbeat.{
  has_id, Beat, update_device, update_event, add_device, new_device, is_recent, succeed, confirm,
  promote, after_update, heartbeat_object, heartbeat_payload, handle_heartbeat, beat,
}
use mdmfleetmanagement.Prelude.Text.{split, ends_with}
use mdmfleetmanagement.Session.Keeps.{in_session-keeps}
use mdmfleetmanagement.Mqtt.Client.{
  Incoming, device_of, in_session, route, dispatch, on_payload, listen,
}

-- The events of a database follow on those of the database before, and their ids are distinct.
abbrev pub Follows : Database → Database → Type 0
Follows d0 d = Continues d0.ota_events d.ota_events × Distinct (map (λ e. e.id) d.ota_events)

pub update_event-Follows :
    (d0 d : Database) (e : OtaEvent) (f : OtaEvent → OtaEvent)
    → KeepsIdentity f
    → In e d.ota_events
    → in_flight e.status ≡ true
    → Follows d0 d
    → Follows d0 (update_event e.id f d)
update_event-Follows d0 d e f k m h w = (
  Continues-trans d0.ota_events d.ota_events (update_event e.id f d).ota_events w.0
      (Continues-update_id e f d.ota_events k w.1 m h),
  rw (map-update (λ (x : OtaEvent). x.id) (λ x. eqb x.id e.id) f d.ota_events k.id) w.1,
)

succeed-KeepsIdentity : (now : ℕ) → KeepsIdentity (succeed now)
succeed-KeepsIdentity now = record {
  id = λ x. refl;
  device = λ x. refl;
  from_version = λ x. refl;
  to_version = λ x. refl;
  start = λ x. refl;
}

report-KeepsIdentity : (v : Scalar) (t : String) (now : ℕ) → KeepsIdentity (report v t now)
unfolding report
report-KeepsIdentity v t now = record {
  id = λ x. refl;
  device = λ x. refl;
  from_version = λ x. refl;
  to_version = λ x. refl;
  start = λ x. refl;
}

module _ (d0 : Database) where
  abbrev KeepsEvents : {A : Type 0} → Action A → Type 0
  KeepsEvents m = Keeps (Follows d0) m

  confirm-Follows :
      (name : String) (at now : ℕ) (o : Option OtaEvent) (s : Session)
      → latest (select_where (is_recent name at) s.db.ota_events) ≡ o
      → Follows d0 s.committed × Follows d0 s.db
      → Follows d0 (confirm name now o s).1.committed × Follows d0 (confirm name now o s).1.db
  unfolding confirm is_recent
  confirm-Follows name at now none s q h = h
  confirm-Follows name at now (some e) s q h =
      let (m, p) = latest-select (is_recent name at) s.db.ota_events e q in
      let w =
        update_event-Follows d0 s.db e (succeed now) (succeed-KeepsIdentity now) m (ground arith)
          h.1 in
      (w, w)

  promote-KeepsEvents :
      (clock : ℕ → ℕ) (name : String) (b : Bool) → KeepsEvents (promote clock name b)
  unfolding promote
  promote-KeepsEvents clock name false = Keeps-pure tt
  promote-KeepsEvents clock name true = record {
    at = λ s h. confirm-Follows name (clock 1) (clock 2) _ s refl h;
  }

  after_update-KeepsEvents :
      (clock : ℕ → ℕ) (name : String) (b : Beat) (v : Scalar) (known : Bool)
      → KeepsEvents (after_update clock name b v known)
  unfolding after_update
  after_update-KeepsEvents clock name b v false =
      Keeps-bind _ _ (Keeps-execute (add_device (new_device name (clock 1) b)) (λ d h. h))
        λ _. Keeps-bind _ _ Keeps-commit λ _. Keeps-pure true
  after_update-KeepsEvents clock name b v true =
      Keeps-bind _ _ (Keeps-is_below v 180)
        λ fresh. Keeps-bind _ _ (promote-KeepsEvents clock name fresh) λ _. Keeps-pure true

  heartbeat_payload-KeepsEvents :
      (driver : Driver) (clock : ℕ → ℕ) (name : String) (o : Option Json)
      → KeepsEvents (heartbeat_payload driver clock name o)
  unfolding heartbeat_payload heartbeat_object
  heartbeat_payload-KeepsEvents driver clock name none = Keeps-pure false
  heartbeat_payload-KeepsEvents driver clock name (some payload) =
      Keeps-bind _ _ (Keeps-fields_of payload) λ fields.
        Keeps-bind _ _ (Keeps-beat_of driver fields) λ b. Keeps-bind _ _ (Keeps-query _) λ known.
          Keeps-bind _ _ (Keeps-execute (update_device name (beat (clock 0) b)) (λ d h. h)) λ _.
            Keeps-bind _ _ Keeps-commit
              λ _. after_update-KeepsEvents clock name b (find_key "uptime" fields null) known

  pub handle_heartbeat-KeepsEvents :
      (driver : Driver) (clock : ℕ → ℕ) (name raw : String)
      → KeepsEvents (handle_heartbeat driver clock name raw)
  unfolding handle_heartbeat
  handle_heartbeat-KeepsEvents driver clock name raw =
      heartbeat_payload-KeepsEvents driver clock name (driver.loads raw)

  create_home-KeepsEvents : (h : String) (b : Bool) → KeepsEvents (create_home h b)
  unfolding create_home
  create_home-KeepsEvents h true = Keeps-pure tt
  create_home-KeepsEvents h false = Keeps-execute (add_home (placeholder h)) (λ d w. w)

  ensure_home-KeepsEvents : (o : Option String) → KeepsEvents (ensure_home o)
  unfolding ensure_home
  ensure_home-KeepsEvents none = Keeps-pure tt
  ensure_home-KeepsEvents (some h) =
      Keeps-bind _ _ (Keeps-query _) λ exists. create_home-KeepsEvents h exists

  write_row-KeepsEvents :
      (name : String) (now : ℕ) (g : Registration) (known : Bool)
      → KeepsEvents (write_row name now g known)
  unfolding write_row
  write_row-KeepsEvents name now g true = Keeps-bind _ _ (Keeps-query _) λ taken.
      Keeps-bind _ _ (Keeps-raise_if taken integrity_error) λ _.
        Keeps-bind _ _ (Keeps-execute (update_device name (reregister now g)) (λ d h. h))
          λ _. Keeps-commit
  write_row-KeepsEvents name now g false = Keeps-bind _ _ (Keeps-query _) λ taken.
      Keeps-bind _ _ (Keeps-raise_if taken integrity_error) λ _.
        Keeps-bind _ _ (Keeps-execute (add_device (registered name now g)) (λ d h. h))
          λ _. Keeps-commit

  registration_payload-KeepsEvents :
      (driver : Driver) (now : ℕ) (name : String) (o : Option Json)
      → KeepsEvents (registration_payload driver now name o)
  unfolding registration_payload register_device
  registration_payload-KeepsEvents driver now name none = Keeps-raise _
  registration_payload-KeepsEvents driver now name (some payload) =
      Keeps-bind _ _ (Keeps-fields_of payload) λ fields.
        Keeps-bind _ _ (Keeps-registration_of driver fields) λ g.
          Keeps-bind _ _ (ensure_home-KeepsEvents g.home_id) λ _.
            Keeps-bind _ _ (Keeps-query _) λ known.
              Keeps-bind _ _ (write_row-KeepsEvents name now g known) λ _.
                Keeps-bind _ _ (Keeps-query (λ d. find_where (has_id name) d.devices))
                  λ row. Keeps-or_raise row integrity_error

  pub handle_registration-KeepsEvents :
      (driver : Driver) (now : ℕ) (name raw : String)
      → KeepsEvents (handle_registration driver now name raw)
  unfolding handle_registration
  handle_registration-KeepsEvents driver now name raw =
      registration_payload-KeepsEvents driver now name (driver.loads raw)

  install_if-KeepsEvents :
      (name : String) (version : Option String) (b : Bool) → KeepsEvents (install_if name version b)
  unfolding install_if
  install_if-KeepsEvents name version true =
      Keeps-execute (update_device name (λ x. record x { firmware_version = version })) (λ d h. h)
  install_if-KeepsEvents name version false = Keeps-pure tt

  -- The view of both the transaction and the database.
  abbrev Both : Session → Type 0
  Both s = Follows d0 s.committed × Follows d0 s.db

  write_report-Follows :
      (now : ℕ) (name : String) (status : Scalar) (t : String) (version bound : Option String)
      (e : OtaEvent) (s : Session)
      → latest (select_where (is_active name bound) s.db.ota_events) ≡ some e
      → Both s
      → Both (write_report now name status t version e s).1
  unfolding write_report is_active
  write_report-Follows now name status t version bound e s q h =
      let (m, p) = latest-select (is_active name bound) s.db.ota_events e q in
      let d = update_event e.id (report status t now) s.db in
      let w =
        update_event-Follows d0 s.db e (report status t now) (report-KeepsIdentity status t now) m
          (ground arith) h.1 in
      (Keeps-bind _ _ (install_if-KeepsEvents name version (is_text status "success"))
          (λ _. Keeps-bind _ _ Keeps-commit λ _. Keeps-pure true)).at
        (record s { db = d }) (h.0, w)

  on_event-Follows :
      (driver : Driver) (now : ℕ) (name : String) (status : Scalar) (version : Option String)
      (o : Option OtaEvent) (s : Session)
      → latest (select_where (is_active name version) s.db.ota_events) ≡ o
      → Both s
      → Both (on_event driver now name status version o s).1
  unfolding on_event to_column
  on_event-Follows driver now name status version none s q h = h
  on_event-Follows driver now name status version (some e) s q h =
      or_raise-at Both (driver.bind_text status) data_error _ s h λ bound _.
        or_raise-at Both bound integrity_error _ s h
          λ t _. write_report-Follows now name status t version version e s q h

  ota_status_fields-KeepsEvents :
      (driver : Driver) (now : ℕ) (name : String) (status version : Scalar)
      → KeepsEvents (ota_status_fields driver now name status version)
  unfolding ota_status_fields
  ota_status_fields-KeepsEvents driver now name status version = Keeps-if _ _ _ (Keeps-pure false) (
      Keeps-bind _ _ (Keeps-to_column _)
        λ bound. record { at = λ s h. on_event-Follows driver now name status bound _ s refl h })

  ota_status_payload-KeepsEvents :
      (driver : Driver) (now : ℕ) (name : String) (o : Option Json)
      → KeepsEvents (ota_status_payload driver now name o)
  unfolding ota_status_payload
  ota_status_payload-KeepsEvents driver now name none = Keeps-pure false
  ota_status_payload-KeepsEvents driver now name (some payload) =
      Keeps-bind _ _ (Keeps-fields_of payload) λ fields.
        ota_status_fields-KeepsEvents driver now name (find_key "status" fields null)
          (find_key "version" fields null)

  pub handle_ota_status-KeepsEvents :
      (driver : Driver) (now : ℕ) (name raw : String)
      → KeepsEvents (handle_ota_status driver now name raw)
  unfolding handle_ota_status
  handle_ota_status-KeepsEvents driver now name raw =
      ota_status_payload-KeepsEvents driver now name (driver.loads raw)

-- Any one message.
pub route-Follows :
    (d0 d : Database) (driver : Driver) (clock : ℕ → ℕ) (topic name payload : String)
    → Follows d0 d
    → Follows d0 (route driver clock topic name payload d)
unfolding route in_session
route-Follows d0 d driver clock topic name payload h =
    elim (Bool-cases (ends_with topic "/heartbeat")) [
      | inl p ↦
          rw p (in_session-keeps _ d (handle_heartbeat-KeepsEvents d0 driver clock name payload) h)
      | inr p ↦ rw p (elim (Bool-cases (ends_with topic "/register")) [
        | inl q ↦ rw q (
            in_session-keeps _ d (handle_registration-KeepsEvents d0 driver (clock 0) name payload)
              h)
        | inr q ↦ rw q (elim (Bool-cases (ends_with topic "/ota/status")) [
          | inl r ↦ rw r (
              in_session-keeps _ d (handle_ota_status-KeepsEvents d0 driver (clock 0) name payload)
                h)
          | inr r ↦ rw r h
        ])
      ])
    ]

pub dispatch-Follows :
    (d0 d : Database) (driver : Driver) (m : Incoming) (payload : String) (o : Option String)
    → Follows d0 d
    → Follows d0 (dispatch driver m payload o d)
unfolding dispatch
dispatch-Follows d0 d driver m payload none h = h
dispatch-Follows d0 d driver m payload (some name) h =
    route-Follows d0 d driver m.clock m.topic name payload h

pub on_payload_lem :
    (P : Database → Type 0) (o : Option String) (next : String → Database) (d : Database)
    → P d
    → ((p : String) → P (next p))
    → P (on_payload o next d)
unfolding on_payload
on_payload_lem P none next d h k = h
on_payload_lem P (some p) next d h k = k p

listen-Follows :
    (d0 d : Database) (driver : Driver) (ms : List Incoming)
    → Follows d0 d
    → Follows d0 (listen driver ms d)
unfolding listen
listen-Follows d0 d driver [] h = h
listen-Follows d0 d driver (m ∷ ms) h = on_payload_lem (Follows d0) m.payload _ d h λ p.
    listen-Follows d0 (dispatch driver m p (device_of (split m.topic)) d) driver ms
      (dispatch-Follows d0 d driver m p (device_of (split m.topic)) h)

-- Whatever the messages, well formed or not, and whatever they raise: after the loop every event
-- is still there, in its place, about the same device, versions and start, and an event that was
-- not in flight before is as it was. The ids of events stay distinct.
pub listen_settled :
    (driver : Driver) (ms : List Incoming) (d : Database)
    → Distinct (map (λ e. e.id) d.ota_events)
    → let d' = listen driver ms d in
      Continues d.ota_events d'.ota_events × Distinct (map (λ e. e.id) d'.ota_events)
listen_settled driver ms d h = listen-Follows d d driver ms (Continues-refl d.ota_events, h)
