-- ===== src/Api/Devices/Calls.antt =====
-- What the endpoints of api/devices.py that write promise: a registry of devices by their ids, on
-- which each call that is accepted acts as one update. The endpoints run each in a session.
use mdmfleetmanagement.Prelude.{
  String, Bool, true, false, Option, none, some, List, [], ◌∷◌, if◌then◌else◌, ◌==◌,
}
use mdmfleetmanagement.Prelude.Rows.{find_where}
use mdmfleetmanagement.Models.{Database, Device}
use mdmfleetmanagement.Session.{Action, Result, ok, err, Session, open_session}
use mdmfleetmanagement.Mqtt.Heartbeat.{has_id}
use mdmfleetmanagement.Broadcasts.{map_option}
use mdmfleetmanagement.Api.Devices.{
  DeviceCreate, DeviceUpdate, created_device, create_device, patched_device, update_device,
  delete_device,
}

pub data DeviceCall : Type 0 where
  create : DeviceCreate → DeviceCall
  update : String → DeviceUpdate → DeviceCall
  delete : String → DeviceCall

abbrev pub is_ok : {A : Type 0} → Result A → Bool
is_ok (ok a) = true
is_ok (err e) = false

abbrev pub outcome : {A : Type 0} → Action A → Session → Bool × Session
outcome m s = let (r, s') = m s in (is_ok r, s')

-- Whether the call is accepted, and the session after it.
unfoldable pub call : DeviceCall → Session → Bool × Session
call (create p) = outcome (create_device p)
call (update id p) = outcome (update_device id p)
call (delete id) = outcome (delete_device id)

-- The calls one after the other, each in a session of its own.
unfoldable pub call_all : List DeviceCall → Database → Database
call_all [] d = d
call_all (c ∷ cs) d = call_all cs (call c (open_session d)).1.committed

-- Those of the calls that are accepted.
unfoldable pub accepted : List DeviceCall → Database → List DeviceCall
accepted [] d = []
accepted (c ∷ cs) d =
    let (b, s) = call c (open_session d) in
    let rest = accepted cs s.committed in if b then c ∷ rest else rest

-- The registry: the device of an id, if there is one.
abbrev pub Registry : Type 0
Registry = String → Option Device

unfoldable pub registry_of : Database → Registry
registry_of d id = find_where (has_id id) d.devices

unfoldable pub apply : DeviceCall → Registry → Registry
apply (create p) m id = if p.device_id == id then some (created_device p) else m id
apply (update k p) m id = if k == id then map_option (patched_device p) (m id) else m id
apply (delete k) m id = if k == id then none else m id

unfoldable pub replay : List DeviceCall → Registry → Registry
replay [] m = m
replay (c ∷ cs) m = replay cs (apply c m)
