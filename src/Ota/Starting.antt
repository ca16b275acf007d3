-- ===== src/Ota/Starting.antt =====
-- What `start_rollout` adds to the events, and what it publishes.
use mdmfleetmanagement.Prelude.{
  ℕ, suc, String, true, Option, none, some, List, [], ◌∷◌, ◌++◌, map, All, In, ◌∙◌, ◌≡◌, refl, ◌==◌,
}
use mathlib.Core.List.{append_assoc, append-nil}
use mdmfleetmanagement.Prelude.Rows.{find_where}
use mdmfleetmanagement.Prelude.Text.{concat}
use mdmfleetmanagement.Models.{Database, Device, FirmwareVersion, OtaEvent}
use mdmfleetmanagement.Config.{Settings}
use mdmfleetmanagement.Session.{Session, Message, ok, err, value_error}
use mdmfleetmanagement.Ota.Select.{Rollout, select_devices, require_firmware}
use mdmfleetmanagement.Ota.Selection.{IsEligible, select_devices_sound, select_devices_reads}
use mdmfleetmanagement.Ota.Rollout.{
  new_events, insert_events, ota_command, PublishFn, publish_all, roll_out, start_rollout,
}

-- The event that a rollout at `now` to version `v` makes for a device.
pub record IsPendingFor (now : ℕ) (v : String) (x : Device) (e : OtaEvent) : Type 0 where
  pub device : e.device_id ≡ x.device_id
  pub version_before : x.firmware_version ≡ some e.from_version
  pub version_after : e.to_version ≡ v
  pub pending : e.status ≡ "pending"
  pub started : e.started_at ≡ now
  pub open_end : e.completed_at ≡ none

-- The events stand one for one, in order, for the devices.
abbrev pub ArePendingFor : ℕ → String → List Device → List OtaEvent → Type 0
ArePendingFor now v [] [] = Unit
ArePendingFor now v (x ∷ xs) (e ∷ es) = IsPendingFor now v x e × ArePendingFor now v xs es
ArePendingFor now v _ _ = ⊥

abbrev pub HasVersion : Device → Type 0
HasVersion x = (u : String) × (x.firmware_version ≡ some u)

pub new_events_lem :
    (id now : ℕ) (v : String) (xs : List Device)
    → All HasVersion xs
    → (es : List OtaEvent) × (new_events id now v xs ≡ some es) × ArePendingFor now v xs es
unfolding new_events
new_events_lem id now v [] h = ([], refl, tt)
new_events_lem id now v (x ∷ xs) ((u, e), h) =
    let (es, q, w) = new_events_lem (suc id) now v xs h in
    (
      record {
        id = id;
        device_id = x.device_id;
        from_version = u;
        to_version = v;
        status = "pending";
        started_at = now;
        completed_at = none;
      }
          ∷ es,
      rw (e, q),
      (
        record {
          device = refl;
          version_before = e;
          version_after = refl;
          pending = refl;
          started = refl;
          open_end = refl;
        },
        w,
      ),
    )

-- The commands of a rollout, one for each device.
abbrev pub commands : Settings → String → String → List Device → List Message
commands settings v checksum xs = map (λ x. ota_command settings x.device_id v checksum) xs

publish_all_lem :
    (settings : Settings) (f : PublishFn) (v c : String) (xs : List Device) (s : Session)
    → ((m : Message) → f m ≡ true)
    → publish_all settings (some f) v c xs s
      ≡ (ok tt, record s { published = s.published ++ commands settings v c xs })
unfolding publish_all
publish_all_lem settings f v c [] s h = rw append-nil
publish_all_lem settings f v c (x ∷ xs) s h =
    let m = ota_command settings x.device_id v c in
    rw (h m) (
      publish_all_lem settings f v c xs (record s { published = s.published ++ m ∷ [] }) h
      ∙ rw append_assoc)

roll_out_lem :
    (settings : Settings) (f : PublishFn) (now : ℕ) (fw : FirmwareVersion) (r : Rollout)
    (xs : List Device) (s : Session)
    → ((m : Message) → f m ≡ true)
    → All HasVersion xs
    → (es : List OtaEvent) × ArePendingFor now r.target_version xs es
      × ((roll_out settings (some f) now fw r xs s).0 ≡ ok es)
      × ((roll_out settings (some f) now fw r xs s).1.db.ota_events ≡ s.db.ota_events ++ es)
      × ((roll_out settings (some f) now fw r xs s).1.db.devices ≡ s.db.devices)
      × ((roll_out settings (some f) now fw r xs s).1.published
          ≡ s.published ++ commands settings r.target_version fw.checksum xs)
unfolding roll_out
roll_out_lem settings f now fw r [] s h k = ([], tt, refl, rw append-nil, refl, rw append-nil)
roll_out_lem settings f now fw r (x ∷ xs) s h k =
    let (es, q, w) = new_events_lem s.db.next_id now r.target_version (x ∷ xs) k in
    let d = insert_events es s.db in
    let p =
      publish_all_lem settings f r.target_version fw.checksum (x ∷ xs)
        (record s { committed = d; db = d }) h in
    (es, w, rw (q, p), rw (q, p), rw (q, p), rw (q, p))

pub versions_of_eligible :
    (d : Database) (r : Rollout) (ys xs : List Device)
    → All (λ x. In x ys × IsEligible d r x) xs
    → All HasVersion xs
versions_of_eligible d r ys [] h = tt
versions_of_eligible d r ys (x ∷ xs) (h, hs) =
    ((h.1.version, h.1.known), versions_of_eligible d r ys xs hs)

pub require_firmware_lem :
    (v : String) (s : Session) (fw : FirmwareVersion)
    → find_where (λ f. f.version == v) s.db.firmware_versions ≡ some fw
    → require_firmware v s ≡ (ok fw, s)
unfolding require_firmware
require_firmware_lem v s fw h = rw h

-- For a version in the catalogue and a publisher that takes every message, a rollout whose
-- selection succeeds returns; it adds to the events one pending event for each selected device,
-- in order, with the version that the device reports and the rollout's version, publishes one
-- command to each of these devices, in order, and changes no device.
pub start_rollout_creates :
    (settings : Settings) (f : PublishFn) (now : ℕ) (r : Rollout) (s : Session)
    (fw : FirmwareVersion) (xs : List Device)
    → ((m : Message) → f m ≡ true)
    → find_where (λ g. g.version == r.target_version) s.db.firmware_versions ≡ some fw
    → (select_devices r s).0 ≡ ok xs
    → (es : List OtaEvent) × ArePendingFor now r.target_version xs es
      × ((start_rollout settings (some f) now r s).0 ≡ ok es)
      × ((start_rollout settings (some f) now r s).1.db.ota_events ≡ s.db.ota_events ++ es)
      × ((start_rollout settings (some f) now r s).1.db.devices ≡ s.db.devices)
      × ((start_rollout settings (some f) now r s).1.published
          ≡ s.published ++ commands settings r.target_version fw.checksum xs)
unfolding start_rollout
start_rollout_creates settings f now r s fw xs h found selected =
    let e : select_devices r s ≡ (ok xs, s) = select_devices_reads r s ∙ rw selected in
    let good = versions_of_eligible s.db r s.db.devices xs (select_devices_sound r s s xs e).0 in
    rw (require_firmware_lem r.target_version s fw found)
      (rw e (roll_out_lem settings f now fw r xs s h good))

pub start_rollout_unknown_version :
    (settings : Settings) (f : Option PublishFn) (now : ℕ) (r : Rollout) (s : Session)
    → find_where (λ g. g.version == r.target_version) s.db.firmware_versions ≡ none
    → start_rollout settings f now r s
      ≡ (err (value_error (concat ("Firmware version " ∷ r.target_version ∷ " not found" ∷ []))), s)
unfolding start_rollout require_firmware
start_rollout_unknown_version settings f now r s h = rw h
