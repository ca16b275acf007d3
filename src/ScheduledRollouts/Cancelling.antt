-- ===== src/ScheduledRollouts/Cancelling.antt =====
-- What a cancellation comes to, and that a cancelled rollout is not due at any time.
use mdmfleetmanagement.Prelude.{
  ℕ, ◌⊎◌, String, Bool, true, false, not, Option, none, some, List, [], ◌∷◌, ◌==◌, ◌≡◌, refl, sym,
  ap, ◌∙◌, if◌then◌else◌, All, eqb, Bool-cases, Option-cases, inl, inr, arith,
}
use mdmfleetmanagement.Prelude.Rows.{find_where, update_where, select_where, find-holds}
use mdmfleetmanagement.Models.{ScheduledRollout}
use mdmfleetmanagement.Session.{Session, Result, Error, ok, err, http}
use mdmfleetmanagement.Audit.{log, add_entry}
use mdmfleetmanagement.Scheduler.DueRollouts.{is_due}
use mdmfleetmanagement.ScheduledRollouts.{cancel_scheduled, cancel_found, cancel_row}

eqb_sound : {a b : ℕ} → eqb a b ≡ true → a ≡ b
eqb_sound h = ground arith

ok-injective : {A : Type 0} (a b : A) → Result.ok a ≡ Result.ok b → a ≡ b
ok-injective a b e = cc

err-injective : {A : Type 0} (a b : Error) → (let x : Result A = err a in x) ≡ err b → a ≡ b
err-injective a b e = cc

-- No row of this id is due.
abbrev pub IsNotDue : ℕ → ℕ → ScheduledRollout → Type 0
IsNotDue id now x = eqb x.id id ≡ true → is_due now x ≡ false

cancelled-IsNotDue :
    (id now : ℕ) (rows : List ScheduledRollout)
    → All (IsNotDue id now) (update_where (λ x. eqb x.id id) cancel_row rows)
unfolding is_due
cancelled-IsNotDue id now [] = tt
cancelled-IsNotDue id now (x ∷ xs) = (go (eqb x.id id) refl, cancelled-IsNotDue id now xs)
  where
    go : (b : Bool) → eqb x.id id ≡ b → IsNotDue id now (if b then cancel_row x else x)
    go true e h = refl
    go false e h = cc

-- The rows of other ids are what they were.
cancel_others :
    (id : ℕ) (rows : List ScheduledRollout)
    → select_where (λ x. not (eqb x.id id)) (update_where (λ x. eqb x.id id) cancel_row rows)
      ≡ select_where (λ x. not (eqb x.id id)) rows
cancel_others id [] = refl
cancel_others id (x ∷ xs) = ground (arith, cancel_others id xs)

cancel_found_lem :
    (id : ℕ) (user_id : Option String) (x row : ScheduledRollout) (s s' : Session)
    → eqb x.id id ≡ true
    → cancel_found user_id x s ≡ (ok row, s')
    → ((x.status == "pending") ≡ true)
      × (row ≡ cancel_row x)
      × (s'.committed.scheduled_rollouts
          ≡ update_where (λ y. eqb y.id id) cancel_row s.db.scheduled_rollouts)
unfolding cancel_found log add_entry
cancel_found_lem id user_id x row s s' k h = elim (Bool-cases (x.status == "pending")) [
  | inr e ↦ (let g = rw e at h in let q : err (http 409) ≡ ok row = ap (λ p. p.0) g in cc)
  | inl e ↦
      (let g = rw e at h in
        (
          e,
          sym (ok-injective _ row (ap (λ p. p.0) g)),
          sym (ap (λ p. p.1.committed.scheduled_rollouts) g) ∙ rw (eqb_sound k) refl,
        ))
]

-- A cancellation that succeeds was of a pending rollout; afterwards it is stored that no rollout of
-- this id is due at any time, and the other rollouts are what they were.
pub cancel_scheduled_lem :
    (id : ℕ) (user_id : Option String) (row : ScheduledRollout) (s s' : Session) (now : ℕ)
    → cancel_scheduled id user_id s ≡ (ok row, s')
    → ((x : ScheduledRollout) × (find_where (λ y. eqb y.id id) s.db.scheduled_rollouts ≡ some x)
        × ((x.status == "pending") ≡ true)
        × (row ≡ cancel_row x))
      × All (IsNotDue id now) s'.committed.scheduled_rollouts
      × (select_where (λ y. not (eqb y.id id)) s'.committed.scheduled_rollouts
          ≡ select_where (λ y. not (eqb y.id id)) s.db.scheduled_rollouts)
unfolding cancel_scheduled
cancel_scheduled_lem id user_id row s s' now h =
    elim (Option-cases (find_where (λ y. eqb y.id id) s.db.scheduled_rollouts)) [
      | inl e ↦ (let g = rw e at h in let q : err (http 404) ≡ ok row = ap (λ p. p.0) g in cc)
      | inr (x, e) ↦
          (let g = rw e at h in
            let (p, q, t) =
              cancel_found_lem id user_id x row s s'
                (find-holds (λ y. eqb y.id id) s.db.scheduled_rollouts x e) g in
            (
              (x, e, p, q),
              rw t (cancelled-IsNotDue id now s.db.scheduled_rollouts),
              rw t (cancel_others id s.db.scheduled_rollouts),
            ))
    ]

-- A cancellation that is refused changes nothing: the rollout is not there (404), or it is not
-- pending (409).
pub cancel_scheduled_refused :
    (id : ℕ) (user_id : Option String) (why : Error) (s s' : Session)
    → cancel_scheduled id user_id s ≡ (err why, s')
    → (s' ≡ s)
      × (((why ≡ http 404) × (find_where (λ y. eqb y.id id) s.db.scheduled_rollouts ≡ none))
          ⊎ ((why ≡ http 409)
              × (x : ScheduledRollout) × (find_where (λ y. eqb y.id id) s.db.scheduled_rollouts
                  ≡ some x)
              × ((x.status == "pending") ≡ false)))
unfolding cancel_scheduled cancel_found log
cancel_scheduled_refused id user_id why s s' h =
    elim (Option-cases (find_where (λ y. eqb y.id id) s.db.scheduled_rollouts)) [
      | inl e ↦
          (let g = rw e at h in
            (sym (ap (λ p. p.1) g), inl (sym (err-injective _ why (ap (λ p. p.0) g)), e)))
      | inr (x, e) ↦ elim (Bool-cases (x.status == "pending")) [
        | inl p ↦
            (let g = rw (e, p) at h in let q : ok (cancel_row x) ≡ err why = ap (λ p. p.0) g in cc)
        | inr p ↦
            (let g = rw (e, p) at h in
              (sym (ap (λ p. p.1) g), inr (sym (err-injective _ why (ap (λ p. p.0) g)), x, e, p)))
      ]
    ]
