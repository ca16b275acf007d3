-- ===== src/Api/Writes.antt =====
-- The endpoints that write, but not the users.
use mdmfleetmanagement.Prelude.{
  ℕ, String, Bool, true, false, Option, none, some, List, [], ◌∷◌, ◌≡◌, refl, inl, inr, Bool-cases,
}
use mdmfleetmanagement.Models.{Device, User, Detail, ScheduledRollout, FirmwareVersion}
use mdmfleetmanagement.Config.{Settings}
use mdmfleetmanagement.Session.{Action, Message}
use mdmfleetmanagement.Session.Keeps.{Keeps, Keeps-bind, keeping}
use mdmfleetmanagement.Session.Users.{OnUsers, Keeps-write}
use mdmfleetmanagement.Audit.{log, add_entry}
use mdmfleetmanagement.Broadcasts.{send, send_broadcast, insert_ack, record_ack}
use mdmfleetmanagement.Firmware.{upload, upload_firmware}
use mdmfleetmanagement.Ota.Select.{Rollout, get_by_version, select_devices, require_firmware, limit}
use mdmfleetmanagement.Ota.Rollout.{
  PublishFn, publish, publish_ota_command, publish_all, roll_out, abort_rollout, ota_command,
}
use mdmfleetmanagement.Ota.Rollout
use mdmfleetmanagement.DeviceGroups.Members.{
  insert_members, replace_members, find_group, get_group, create_group, update_group, delete_group,
}
use mdmfleetmanagement.ScheduledRollouts.{create_scheduled, cancel_found, cancel_scheduled}
use mdmfleetmanagement.Repositories.Home.{insert_assignment, assign_community, remove_community}
use mdmfleetmanagement.Provisioning.{start_job}
use mdmfleetmanagement.Api.Devices.{
  create_device, update_device, delete_device, get_device, remove_device,
}
use mdmfleetmanagement.Api.Homes.{
  create_home, update_home, delete_home, remove_home, assign_home, unassign_home,
}
use mdmfleetmanagement.Api.Communities.{
  get_community, create_community, update_community, delete_community, remove_community_row,
}
use mdmfleetmanagement.Api.Rollouts.{or_400, start_rollout, abort}
use mdmfleetmanagement.Api.Provisioning.{provision}
use mdmfleetmanagement.Api.Requests.{Request}
use mdmfleetmanagement.Api.Handle.{Server, endpoint}
use mdmfleetmanagement.Api.Reads.{is_read, Stays-endpoint}
use mdmfleetmanagement.Session.Stays.{Keeps-of_Stays}
use mdmfleetmanagement.Prelude.Int.{ℤ, pos, negsuc}
use mdmfleetmanagement.Api.Receipts.{acknowledge_broadcast}

-- The requests that write users, and login, whose audit entry is written under the same lemmas.
unfoldable pub writes_users : Request → Bool
writes_users (Request.login _ _) = true
writes_users (Request.change_my_password _ _) = true
writes_users (Request.create_user _) = true
writes_users (Request.update_user _ _) = true
writes_users (Request.reset_user_password _) = true
writes_users _ = false

module _ (P : List User → Type 0) where
  pub Keeps-log :
      (user_id : Option String) (action resource : String) (details : List (String × Detail))
      → Keeps (OnUsers P) (log user_id action resource details)
  unfolding log add_entry
  Keeps-log user_id action resource details = search (keeping, Keeps-write, refl) depth 8

  ruleset writing = (keeping, Keeps-write, Keeps-log, refl)

  pub Keeps-insert_ack :
      (id : ℕ) (h status : String) (at : Option ℕ) (known : Bool)
      → Keeps (OnUsers P) (insert_ack id h status at known)
  unfolding insert_ack
  Keeps-insert_ack id h status at true = search writing depth 20
  Keeps-insert_ack id h status at false = search writing

  pub Keeps-insert_assignment :
      (h c : String) (known : Bool) → Keeps (OnUsers P) (insert_assignment h c known)
  unfolding insert_assignment
  Keeps-insert_assignment h c true = search writing depth 20
  Keeps-insert_assignment h c false = search writing

  pub Keeps-insert_members :
      (id : ℕ) (ids : List String) → Keeps (OnUsers P) (insert_members id ids)
  unfolding insert_members
  Keeps-insert_members id ids = search writing depth 20

  pub Keeps-replace_members :
      (id : ℕ) (ids : Option (List String)) → Keeps (OnUsers P) (replace_members id ids)
  unfolding replace_members
  Keeps-replace_members id none = search writing
  Keeps-replace_members id (some ids) = search (writing, Keeps-insert_members) depth 20

  Keeps-publish : (f : PublishFn) (m : Message) → Keeps (OnUsers P) (publish f m)
  unfolding publish
  Keeps-publish f m = record {
    at = λ s h. elim (Bool-cases (f m)) [ inl e ↦ rw e h | inr e ↦ rw e h ];
  }

  Keeps-publish_all :
      (settings : Settings) (f : Option PublishFn) (v c : String) (xs : List Device)
      → Keeps (OnUsers P) (publish_all settings f v c xs)
  unfolding publish_all publish_ota_command
  Keeps-publish_all settings f v c [] = search writing
  Keeps-publish_all settings none v c (x ∷ xs) =
      search (writing, Keeps-publish_all settings none v c xs)
  Keeps-publish_all settings (some f) v c (x ∷ xs) =
      Keeps-bind _ _ (Keeps-publish f (ota_command settings x.device_id v c))
        λ _. Keeps-publish_all settings (some f) v c xs

  Keeps-roll_out :
      (settings : Settings) (f : Option PublishFn) (now : ℕ) (fw : FirmwareVersion) (r : Rollout)
      (xs : List Device)
      → Keeps (OnUsers P) (roll_out settings f now fw r xs)
  unfolding roll_out
  Keeps-roll_out settings f now fw r [] = search writing
  Keeps-roll_out settings f now fw r (x ∷ xs) = search (writing, Keeps-publish_all) depth 20

  Keeps-limit : (n : ℤ) (xs : List Device) → Keeps (OnUsers P) (limit n xs)
  unfolding limit
  Keeps-limit (pos n) xs = search writing
  Keeps-limit (negsuc n) xs = search writing

  pub Keeps-rollout :
      (settings : Settings) (f : Option PublishFn) (now : ℕ) (r : Rollout)
      → Keeps (OnUsers P) (Rollout.start_rollout settings f now r)
  unfolding Rollout.start_rollout require_firmware get_by_version select_devices
  Keeps-rollout settings f now r = search (writing, Keeps-limit, Keeps-roll_out) depth 20

  Keeps-or_400 : {A : Type 0} (m : Action A) → Keeps (OnUsers P) m → Keeps (OnUsers P) (or_400 m)
  unfolding or_400
  Keeps-or_400 m k = record { at = λ s h. k.at s h }

  Keeps-cancel_found :
      (u : Option String) (row : ScheduledRollout) → Keeps (OnUsers P) (cancel_found u row)
  unfolding cancel_found
  Keeps-cancel_found u row = search writing depth 20

  ruleset endpoints = (
    writing, Keeps-insert_ack, Keeps-insert_assignment, Keeps-insert_members, Keeps-replace_members,
    Keeps-rollout, Keeps-or_400, Keeps-cancel_found,
  )

  -- The requests that do not write users.
  pub Keeps-endpoint :
      (env : Server) (u : Option User) (r : Request)
      → writes_users r ≡ false
      → Keeps (OnUsers P) (endpoint env u r)
  unfolding endpoint writes_users create_device update_device delete_device get_device remove_device
      create_home update_home delete_home remove_home assign_home unassign_home assign_community
      remove_community create_community update_community delete_community get_community
      remove_community_row send send_broadcast record_ack acknowledge_broadcast upload
      upload_firmware get_by_version start_rollout abort abort_rollout find_group get_group
      create_group update_group delete_group create_scheduled cancel_scheduled start_job provision
  Keeps-endpoint env u Request.logout h = search endpoints depth 24
  Keeps-endpoint env u (Request.create_device a) h = search endpoints depth 24
  Keeps-endpoint env u (Request.update_device a b) h = search endpoints depth 24
  Keeps-endpoint env u (Request.delete_device a) h = search endpoints depth 24
  Keeps-endpoint env u (Request.create_home a) h = search endpoints depth 24
  Keeps-endpoint env u (Request.update_home a b) h = search endpoints depth 24
  Keeps-endpoint env u (Request.delete_home a) h = search endpoints depth 24
  Keeps-endpoint env u (Request.assign_home a b) h = search endpoints depth 24
  Keeps-endpoint env u (Request.unassign_home a b) h = search endpoints depth 24
  Keeps-endpoint env u (Request.create_community a) h = search endpoints depth 24
  Keeps-endpoint env u (Request.update_community a b) h = search endpoints depth 24
  Keeps-endpoint env u (Request.delete_community a) h = search endpoints depth 24
  Keeps-endpoint env u (Request.send_broadcast a b) h = search endpoints depth 24
  Keeps-endpoint env u (Request.acknowledge_broadcast a b) h = search endpoints depth 24
  Keeps-endpoint env u (Request.upload_firmware a b e) h = search endpoints depth 24
  Keeps-endpoint env u (Request.start_rollout a) h = search endpoints depth 24
  Keeps-endpoint env u (Request.abort_rollout a) h = search endpoints depth 24
  Keeps-endpoint env u (Request.create_group a) h = search endpoints depth 24
  Keeps-endpoint env u (Request.update_group a b) h = search endpoints depth 24
  Keeps-endpoint env u (Request.delete_group a) h = search endpoints depth 24
  Keeps-endpoint env u (Request.create_scheduled a) h = search endpoints depth 24
  Keeps-endpoint env u (Request.cancel_scheduled a) h = search endpoints depth 24
  Keeps-endpoint env u (Request.provision a) h = search endpoints depth 24
  Keeps-endpoint env u (Request.get_manifest a) h = search endpoints depth 24
  Keeps-endpoint env u (Request.login a b) h = cc
  Keeps-endpoint env u (Request.change_my_password a b) h = cc
  Keeps-endpoint env u (Request.create_user a) h = cc
  Keeps-endpoint env u (Request.update_user a b) h = cc
  Keeps-endpoint env u (Request.reset_user_password a) h = cc
  Keeps-endpoint env u r h =
      Keeps-of_Stays (OnUsers P) (endpoint env u r)
        (Stays-endpoint env u r (unfold is_read in refl))
