-- ===== src/Scheduler/Settling.antt =====
-- A run of the scheduler whose canary counts are in order ends, with no rollout left due.
use mdmfleetmanagement.Prelude.{
  ℕ, String, Bool, true, false, some, List, [], ◌∷◌, ◌++◌, All, In, take, ◌≡◌, ◌⊎◌, refl, ap, ◌∙◌,
  inl, inr, Bool-cases, Option-cases, ◌==◌,
}
use mdmfleetmanagement.Prelude.Int.{ℤ, pos}
use mdmfleetmanagement.Prelude.Rows.{select_where, find_where, In-select}
use mdmfleetmanagement.Prelude.Keys.{Distinct, In-map}
use mdmfleetmanagement.Models.{Device, FirmwareVersion, OtaEvent, ScheduledRollout}
use mdmfleetmanagement.Prelude.Text.{concat}
use mdmfleetmanagement.Audit.{log}
use mdmfleetmanagement.Config.{Settings}
use mdmfleetmanagement.Session.{Session, Error, Result, ok, err, value_error, publish_error}
use mdmfleetmanagement.Ota.Select.{Rollout, select_devices, is_candidate}
use mdmfleetmanagement.Ota.Selection.{pick, select_devices-eq-pick, select_devices_sound}
use mdmfleetmanagement.Ota.Rollout.{
  PublishFn, ota_command, insert_events, publish, publish_all, roll_out, start_rollout,
}
use mdmfleetmanagement.Ota.Starting.{
  HasVersion, new_events_lem, versions_of_eligible, require_firmware_lem,
  start_rollout_unknown_version,
}
use mdmfleetmanagement.Scheduler.DueRollouts.{
  count_or_two, rollout_of, is_due, fire, fail, is_database_error, settle, settle_failure, fire_one,
  fire_all, fire_due_scheduled_rollouts,
}
use mdmfleetmanagement.Scheduler.Firing.{AreSettled, ids_of, fire_due_scheduled_rollouts_lem}

-- No error of the database.
abbrev IsMild : {A : Type 0} → Result A → Type 0
IsMild r = (e : Error) → r ≡ err e → is_database_error e ≡ false

ok-IsMild : {A : Type 0} (a : A) → IsMild (ok a)
ok-IsMild a e h = cc

publish_all_ends :
    (settings : Settings) (f : PublishFn) (v c : String) (xs : List Device) (s : Session)
    → ((publish_all settings (some f) v c xs s).0 ≡ ok tt)
      ⊎ ((publish_all settings (some f) v c xs s).0 ≡ err publish_error)
unfolding publish_all publish
publish_all_ends settings f v c [] s = inl refl
publish_all_ends settings f v c (x ∷ xs) s =
    let m = ota_command settings x.device_id v c in
    elim (Bool-cases (f m)) [
      | inl e ↦
          rw e (publish_all_ends settings f v c xs (record s { published = s.published ++ m ∷ [] }))
      | inr e ↦ rw e (inr refl)
    ]

roll_out-IsMild :
    (settings : Settings) (f : PublishFn) (now : ℕ) (fw : FirmwareVersion) (r : Rollout)
    (xs : List Device) (s : Session)
    → All HasVersion xs
    → IsMild (roll_out settings (some f) now fw r xs s).0
unfolding roll_out
roll_out-IsMild settings f now fw r [] s k = ok-IsMild []
roll_out-IsMild settings f now fw r (x ∷ xs) s k =
    let (es, q, w) = new_events_lem s.db.next_id now r.target_version (x ∷ xs) k in
    let d = insert_events es s.db in
    elim (publish_all_ends settings f r.target_version fw.checksum (x ∷ xs)
      (record s { committed = d; db = d })) [
        | inl e ↦ rw (q, e) (ok-IsMild es)
        | inr e ↦
            rw (q, e)
              (λ y h. let z : y ≡ publish_error = cc in rw z (unfold is_database_error in refl))
      ]

pick_ok :
    (b : Bool) (m : ℤ) (n : ℕ) (ys : List Device)
    → m ≡ pos n
    → (xs : List Device) × (pick b m ys ≡ ok xs)
pick_ok true m n ys k = (take n ys, rw k refl)
pick_ok false m n ys k = (ys, refl)

start_rollout-IsMild :
    (settings : Settings) (f : PublishFn) (now n : ℕ) (r : Rollout) (s : Session)
    → r.canary_count ≡ pos n
    → IsMild (start_rollout settings (some f) now r s).0
unfolding start_rollout
start_rollout-IsMild settings f now n r s k =
    elim (Option-cases (find_where (λ g. g.version == r.target_version) s.db.firmware_versions)) [
      | inl e ↦ rw (start_rollout_unknown_version settings (some f) now r s e) (λ y h.
          let z : y
              ≡ value_error (concat ("Firmware version " ∷ r.target_version ∷ " not found" ∷ [])) =
            cc in
          rw z (unfold is_database_error in refl))
      | inr (fw, e) ↦
          (let (xs, p) =
              pick_ok (r.strategy == "canary") r.canary_count n
                (select_where (is_candidate s.db r) s.db.devices) k in
            let q : select_devices r s ≡ (ok xs, s) =
              select_devices-eq-pick r s ∙ ap (λ a. (a, s)) p in
            let good =
              versions_of_eligible s.db r s.db.devices xs (select_devices_sound r s s xs q).0 in
            rw (require_firmware_lem r.target_version s fw e)
              (rw q (roll_out-IsMild settings f now fw r xs s good)))
    ]

settle_ok :
    (describe : Error → String) (now : ℕ) (row : ScheduledRollout) (r : Result (List OtaEvent))
    (s : Session)
    → IsMild r
    → (ids : List ℕ) × ((settle describe now row r s).0 ≡ ok ids)
unfolding settle log
settle_ok describe now row (ok es) s h = (row.id ∷ [], refl)
settle_ok describe now row (err e) s h =
    let b = h e refl in unfold settle_failure in rw b ([], refl)

-- The canary count of a row, or 2, is zero or more.
abbrev pub IsCountable : ScheduledRollout → Type 0
IsCountable row = (n : ℕ) × (count_or_two row.canary_count ≡ pos n)

fire_one_ok :
    (settings : Settings) (f : PublishFn) (describe : Error → String) (now : ℕ)
    (row : ScheduledRollout) (s : Session)
    → IsCountable row
    → (ids : List ℕ) × ((fire_one settings f describe now row s).0 ≡ ok ids)
unfolding fire_one
fire_one_ok settings f describe now row s (n, k) =
    let (r, t) = start_rollout settings (some f) now (rollout_of row) s in
    settle_ok describe now row r t
      (start_rollout-IsMild settings f now n (rollout_of row) s (unfold rollout_of in k))

fire_all_ok :
    (settings : Settings) (f : PublishFn) (describe : Error → String) (now : ℕ)
    (rows : List ScheduledRollout) (s : Session)
    → All IsCountable rows
    → (ids : List ℕ) × ((fire_all settings f describe now rows s).0 ≡ ok ids)
unfolding fire_all
fire_all_ok settings f describe now [] s h = ([], refl)
fire_all_ok settings f describe now (row ∷ rows) s (h, hs) =
    let (one, p) = fire_one_ok settings f describe now row s h in
    let (rest, q) =
      fire_all_ok settings f describe now rows (fire_one settings f describe now row s).1 hs in
    (one ++ rest, rw (p, q) refl)

fired_not_due : (now : ℕ) (x : ScheduledRollout) → is_due now (fire now x) ≡ false
unfolding is_due
fired_not_due now x = refl

failed_not_due : (now : ℕ) (why : String) (x : ScheduledRollout) → is_due now (fail why x) ≡ false
unfolding is_due
failed_not_due now why x = refl

not_selected :
    (now : ℕ) (rows : List ScheduledRollout) (x : ScheduledRollout)
    → In x rows
    → ¬ (In x.id (ids_of (select_where (is_due now) rows)))
    → is_due now x ≡ false
not_selected now rows x m n = elim (Bool-cases (is_due now x)) [
  | inl e ↦ absurd (
      n (
        In-map (λ (z : ScheduledRollout). z.id) x (select_where (is_due now) rows)
          (In-select (is_due now) x rows m e)))
  | inr e ↦ e
]

settled_not_due :
    (now : ℕ) (rows : List ScheduledRollout) (fired : List ℕ) (xs ys : List ScheduledRollout)
    → ((x : ScheduledRollout) → In x xs → In x rows)
    → AreSettled now (ids_of (select_where (is_due now) rows)) fired xs ys
    → All (λ y. is_due now y ≡ false) ys
settled_not_due now rows fired [] [] sub h = tt
settled_not_due now rows fired [] (y ∷ ys) sub h = absurd h
settled_not_due now rows fired (x ∷ xs) [] sub h = absurd h
settled_not_due now rows fired (x ∷ xs) (y ∷ ys) sub (h, hs) = (
  elim h [
    | inl (n, q) ↦ rw q (not_selected now rows x (sub x (inl refl)) n)
    | inr (m, inl (i, q)) ↦ rw q (fired_not_due now x)
    | inr (m, inr (i, why, q)) ↦ rw q (failed_not_due now why x)
  ],
  settled_not_due now rows fired xs ys (λ z m. sub z (inr m)) hs,
)

-- If the ids of the rollouts are distinct, and the canary count of each rollout that is due, or 2
-- where it has none, is zero or more, then a run returns, whatever its rollouts raise, and
-- afterwards no stored rollout is due at this time.
pub fire_due_settles :
    (settings : Settings) (f : PublishFn) (describe : Error → String) (now : ℕ) (s : Session)
    → Distinct (ids_of s.db.scheduled_rollouts)
    → All IsCountable (select_where (is_due now) s.db.scheduled_rollouts)
    → (fired : List ℕ) × ((fire_due_scheduled_rollouts settings f describe now s).0 ≡ ok fired)
      × All
          (λ y. is_due now y ≡ false)
          (fire_due_scheduled_rollouts settings f describe now s).1.committed.scheduled_rollouts
fire_due_settles settings f describe now s d h =
    elim (fire_due_scheduled_rollouts_lem settings f describe now s d) [
      | inl (fired, e, w) ↦ (
        fired,
        e,
        settled_not_due now s.db.scheduled_rollouts fired s.db.scheduled_rollouts _ (λ x m. m) w,
      )
      | inr (e, g, b) ↦
          (let (ids, q) =
              fire_all_ok settings f describe now
                (select_where (is_due now) s.db.scheduled_rollouts) s h in
            let z : (fire_due_scheduled_rollouts settings f describe now s).0 ≡ ok ids =
              unfold fire_due_scheduled_rollouts in rw q refl in
            absurd (cc))
    ]
