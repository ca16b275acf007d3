-- ===== src/Ota/DryRun.antt =====
-- The dry run of a rollout tells what the rollout would do.
use mdmfleetmanagement.Prelude.{
  ℕ, suc, ◌+◌, String, List, [], ◌∷◌, map, length, ◌≡◌, refl, ap, arith, some, ◌==◌, true,
}
use mdmfleetmanagement.Prelude.Rows.{find_where}
use mdmfleetmanagement.Prelude.Text.{text_or}
use mdmfleetmanagement.Models.{Device, FirmwareVersion, OtaEvent}
use mdmfleetmanagement.Config.{Settings}
use mdmfleetmanagement.Session.{Session, Message, ok}
use mdmfleetmanagement.Ota.Select.{Rollout, select_devices}
use mdmfleetmanagement.Ota.Selection.{select_devices_reads}
use mdmfleetmanagement.Ota.Rollout.{PublishFn, start_rollout}
use mdmfleetmanagement.Ota.Starting.{ArePendingFor, start_rollout_creates, require_firmware_lem}
use mdmfleetmanagement.Ota.Preview.{
  count_key, count_keys, RolloutPreview, preview_of, preview_rollout,
}

-- The sum of a dict's numbers.
abbrev pub sum_values : List (String × ℕ) → ℕ
sum_values [] = 0
sum_values ((k, n) ∷ d) = n + sum_values d

sum-count_key :
    (k : String) (d : List (String × ℕ)) → sum_values (count_key k d) ≡ suc (sum_values d)
unfolding count_key
sum-count_key k [] = refl
sum-count_key k ((j, n) ∷ d) = ground (arith, sum-count_key k d)

sum-count_keys :
    (key : Device → String) (xs : List Device) (d : List (String × ℕ))
    → sum_values (count_keys key xs d) ≡ length xs + sum_values d
unfolding count_keys
sum-count_keys key [] d = omega arith
sum-count_keys key (x ∷ xs) d =
    omega (arith, sum-count_keys key xs (count_key (key x) d), sum-count_key (key x) d)

ids_of_events :
    (now : ℕ) (v : String) (xs : List Device) (es : List OtaEvent)
    → ArePendingFor now v xs es
    → (map (λ x. x.device_id) xs ≡ map (λ e. e.device_id) es) × (length xs ≡ length es)
ids_of_events now v [] [] h = (refl, refl)
ids_of_events now v (x ∷ xs) [] h = absurd h
ids_of_events now v [] (e ∷ es) h = absurd h
ids_of_events now v (x ∷ xs) (e ∷ es) (h, hs) =
    let (p, q) = ids_of_events now v xs es hs in (rw (h.device, p), ap suc q)

-- Whenever a rollout succeeds with a publisher that takes every message, the dry run in the same
-- state succeeds, changes nothing, and names exactly the devices of the events that the rollout
-- makes, in the same order; its total is the number of these events, and each of its three
-- breakdowns adds up to the total.
pub preview_rollout_agrees :
    (settings : Settings) (f : PublishFn) (now : ℕ) (r : Rollout) (s : Session)
    (fw : FirmwareVersion) (xs : List Device)
    → ((m : Message) → f m ≡ true)
    → find_where (λ g. g.version == r.target_version) s.db.firmware_versions ≡ some fw
    → (select_devices r s).0 ≡ ok xs
    → (p : RolloutPreview) × (es : List OtaEvent) × (preview_rollout r s ≡ (ok p, s))
      × ((start_rollout settings (some f) now r s).0 ≡ ok es)
      × (p.device_ids ≡ map (λ e. e.device_id) es)
      × (p.total ≡ length es)
      × (sum_values p.by_status ≡ p.total)
      × (sum_values p.by_current_version ≡ p.total)
      × (sum_values p.by_home ≡ p.total)
unfolding preview_rollout preview_of
preview_rollout_agrees settings f now r s fw xs h found selected =
    let (es, w, done, _, _, _) = start_rollout_creates settings f now r s fw xs h found selected in
    let (ids, size) = ids_of_events now r.target_version xs es w in
    let total = λ (key : Device → String). sum-count_keys key xs [] in
    (
      preview_of r xs,
      es,
      rw (require_firmware_lem r.target_version s fw found)
          (rw (select_devices_reads r s) (rw selected refl)),
      done,
      ids,
      size,
      omega (arith, total (λ x. text_or (some x.status) "unknown")),
      omega (arith, total (λ x. text_or x.firmware_version "unknown")),
      omega (arith, total (λ x. text_or x.home_id "(unassigned)")),
    )
