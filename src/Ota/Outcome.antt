-- ===== src/Ota/Outcome.antt =====
-- When a rollout starts and when it is refused.
use mdmfleetmanagement.Prelude.{
  ℕ, true, false, none, some, List, [], ◌∷◌, ◌≡◌, ◌⊎◌, inl, inr, refl, ap, ◌==◌, take, Bool-cases,
  Option-cases,
}
use mdmfleetmanagement.Prelude.Rows.{find_where, select_where}
use mdmfleetmanagement.Prelude.Int.{ℤ, pos, negsuc}
use mdmfleetmanagement.Prelude.Text.{concat}
use mdmfleetmanagement.Models.{Device, FirmwareVersion, OtaEvent}
use mdmfleetmanagement.Config.{Settings}
use mdmfleetmanagement.Session.{Session, Message, ok, err, value_error, data_error}
use mdmfleetmanagement.Ota.Select.{Rollout, is_candidate, limit, select_devices, require_firmware}
use mdmfleetmanagement.Ota.Rollout.{PublishFn, start_rollout}
use mdmfleetmanagement.Ota.Starting.{start_rollout_creates, start_rollout_unknown_version}

-- A canary rollout with a count below 0.
abbrev pub IsNegative : Rollout → Type 0
IsNegative r = ((r.strategy == "canary") ≡ true) × (n : ℕ) × (r.canary_count ≡ negsuc n)

abbrev pub IsCountable : Rollout → Type 0
IsCountable r = ((r.strategy == "canary") ≡ false) ⊎ ((n : ℕ) × (r.canary_count ≡ pos n))

by_sign : (z : ℤ) → ((n : ℕ) × (z ≡ pos n)) ⊎ ((n : ℕ) × (z ≡ negsuc n))
by_sign (pos n) = inl (n, refl)
by_sign (negsuc n) = inr (n, refl)

select_devices_outcome :
    (r : Rollout) (s : Session)
    → (IsCountable r × (xs : List Device) × (select_devices r s ≡ (ok xs, s)))
      ⊎ (IsNegative r × (select_devices r s ≡ (err data_error, s)))
unfolding select_devices limit
select_devices_outcome r s =
    let found = select_where (is_candidate s.db r) s.db.devices in
    elim (Bool-cases (r.strategy == "canary")) [
      | inr e ↦ inl (inl e, found, rw e refl)
      | inl e ↦ (elim (by_sign r.canary_count) [
        | inl (n, p) ↦ inl (inr (n, p), take n found, rw (e, p) refl)
        | inr (n, p) ↦ inr ((e, n, p), rw (e, p) refl)
      ])
    ]

refused :
    (settings : Settings) (f : PublishFn) (now : ℕ) (r : Rollout) (s : Session)
    (fw : FirmwareVersion)
    → find_where (λ g. g.version == r.target_version) s.db.firmware_versions ≡ some fw
    → select_devices r s ≡ (err data_error, s)
    → start_rollout settings (some f) now r s ≡ (err data_error, s)
unfolding start_rollout require_firmware
refused settings f now r s fw h p = rw (h, p) refl

-- With a publisher that takes every message a rollout returns its events if the version is in the
-- catalogue and the count of a canary is not below 0. Else it raises and nothing has changed: a
-- ValueError that names the version where the catalogue does not have it, and an error of the
-- database where it does and the count is below 0.
pub start_rollout_outcome :
    (settings : Settings) (f : PublishFn) (now : ℕ) (r : Rollout) (s : Session)
    → ((m : Message) → f m ≡ true)
    → let (q, s') = start_rollout settings (some f) now r s in
      let found = find_where (λ g. g.version == r.target_version) s.db.firmware_versions in
      (((fw : FirmwareVersion) × (found ≡ some fw))
        × IsCountable r
        × ((es : List OtaEvent) × (q ≡ ok es)))
      ⊎ ((s' ≡ s)
          × (((found ≡ none)
                × (q
                    ≡ err (
                        value_error
                          (concat ("Firmware version " ∷ r.target_version ∷ " not found" ∷ [])))))
              ⊎ (((fw : FirmwareVersion) × (found ≡ some fw))
                  × IsNegative r
                  × (q ≡ err data_error))))
start_rollout_outcome settings f now r s takes =
    elim (Option-cases (find_where (λ g. g.version == r.target_version) s.db.firmware_versions)) [
      | inl e ↦
          (let p = start_rollout_unknown_version settings (some f) now r s e in
            inr (ap (λ t. t.1) p, inl (e, ap (λ t. t.0) p)))
      | inr (fw, e) ↦ (elim (select_devices_outcome r s) [
        | inl (c, xs, p) ↦
            (let (es, w, q, added, same, sent) =
                start_rollout_creates settings f now r s fw xs takes e (ap (λ t. t.0) p) in
              inl ((fw, e), c, (es, q)))
        | inr (n, p) ↦
            (let q = refused settings f now r s fw e p in
              inr (ap (λ t. t.1) q, inr ((fw, e), n, ap (λ t. t.0) q)))
      ])
    ]
