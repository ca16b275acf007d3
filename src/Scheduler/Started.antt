-- ===== src/Scheduler/Started.antt =====
-- A rollout that is started does not write the table of the scheduled rollouts.
use mdmfleetmanagement.Prelude.{
  ℕ, String, Bool, true, false, Option, none, some, List, [], ◌∷◌, ◌++◌, ◌≡◌, refl, if◌then◌else◌,
  ◌==◌,
}
use mdmfleetmanagement.Prelude.Rows.{select_where, find_where}
use mdmfleetmanagement.Prelude.Int.{ℤ, pos, negsuc}
use mdmfleetmanagement.Prelude.Text.{concat}
use mdmfleetmanagement.Models.{Database, Device, ScheduledRollout, FirmwareVersion}
use mdmfleetmanagement.Config.{Settings}
use mdmfleetmanagement.Session.{
  Session, Message, publish_error, value_error, integrity_error, Result, ok, err,
}
use mdmfleetmanagement.Session.Leaves.{
  Leaves, Leaves-pure, Leaves-raise, Leaves-query, Leaves-or_raise, Leaves-if, Leaves-execute,
  Leaves-commit, Leaves-bind,
}
use mdmfleetmanagement.Ota.Select.{
  Rollout, is_candidate, limit, select_devices, get_by_version, require_firmware,
}
use mdmfleetmanagement.Ota.Rollout.{
  PublishFn, publish, publish_ota_command, publish_all, roll_out, start_rollout, ota_command,
  new_events, insert_events,
}

abbrev pub scheduled : Database → List ScheduledRollout
scheduled d = d.scheduled_rollouts

Leaves-limit : (n : ℤ) (xs : List Device) → Leaves scheduled (limit n xs)
unfolding limit
Leaves-limit (pos n) xs = Leaves-pure _
Leaves-limit (negsuc n) xs = Leaves-raise _

Leaves-publish : (f : PublishFn) (m : Message) → Leaves scheduled (publish f m)
unfolding publish
Leaves-publish f m = record { view = λ s. go s (f m) }
  where
    go :
        (s : Session) (b : Bool)
        → (let r : Result (Unit {0}) × Session =
              if b
              then (ok tt, record s { published = s.published ++ m ∷ [] })
              else (err publish_error, s) in
            scheduled r.1.db)
          ≡ scheduled s.db
    go s true = refl
    go s false = refl

Leaves-publish_all :
    (settings : Settings) (f : Option PublishFn) (v c : String) (xs : List Device)
    → Leaves scheduled (publish_all settings f v c xs)
unfolding publish_all publish_ota_command
Leaves-publish_all settings f v c [] = Leaves-pure _
Leaves-publish_all settings none v c (x ∷ xs) =
    Leaves-bind _ _ (Leaves-pure tt) λ _. Leaves-publish_all settings none v c xs
Leaves-publish_all settings (some f) v c (x ∷ xs) =
    Leaves-bind _ _ (Leaves-publish f (ota_command settings x.device_id v c))
      λ _. Leaves-publish_all settings (some f) v c xs

Leaves-roll_out :
    (settings : Settings) (f : Option PublishFn) (now : ℕ) (fw : FirmwareVersion) (r : Rollout)
    (xs : List Device)
    → Leaves scheduled (roll_out settings f now fw r xs)
unfolding roll_out
Leaves-roll_out settings f now fw r [] = Leaves-pure _
Leaves-roll_out settings f now fw r (x ∷ xs) = Leaves-bind _ _ (Leaves-query (λ d. d.next_id)) λ id.
    Leaves-bind _ _ (Leaves-or_raise (new_events id now r.target_version (x ∷ xs)) integrity_error)
      λ es. Leaves-bind _ _ (Leaves-execute (insert_events es) (λ d. refl)) λ _.
        Leaves-bind _ _ Leaves-commit λ _.
          Leaves-bind _ _ (Leaves-publish_all settings f r.target_version fw.checksum (x ∷ xs))
            λ _. Leaves-pure es

Leaves-require_firmware : (v : String) → Leaves scheduled (require_firmware v)
unfolding require_firmware get_by_version
Leaves-require_firmware v =
    Leaves-bind _ _ (Leaves-query (λ d. find_where (λ x. x.version == v) d.firmware_versions))
      λ o. Leaves-or_raise o (value_error (concat ("Firmware version " ∷ v ∷ " not found" ∷ [])))

Leaves-select_devices : (r : Rollout) → Leaves scheduled (select_devices r)
unfolding select_devices
Leaves-select_devices r =
    Leaves-bind _ _ (Leaves-query (λ d. select_where (is_candidate d r) d.devices)) λ found.
      Leaves-if (r.strategy == "canary") _ _ (Leaves-limit r.canary_count found) (Leaves-pure found)

pub Leaves-start_rollout :
    (settings : Settings) (f : Option PublishFn) (now : ℕ) (r : Rollout)
    → Leaves scheduled (start_rollout settings f now r)
unfolding start_rollout
Leaves-start_rollout settings f now r =
    Leaves-bind _ _ (Leaves-require_firmware r.target_version)
      λ fw. Leaves-bind _ _ (Leaves-select_devices r) λ xs. Leaves-roll_out settings f now fw r xs
