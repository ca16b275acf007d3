-- ===== src/Scheduler/Firing.antt =====
-- What a run of the scheduler does to the rollouts that are due, and to the others.
use mdmfleetmanagement.Prelude.{
  ◌++◌, ℕ, String, Bool, true, false, some, List, [], ◌∷◌, map, ◌≡◌, ◌⊎◌, inl, inr, refl,
  if◌then◌else◌, eqb, In, arith,
}
use mathlib.Core.Path.{subst}
use mdmfleetmanagement.Prelude.Rows.{select_where, In_of_select, update_where}
use mdmfleetmanagement.Prelude.Keys.{Distinct, In-map, In_of_map}
use mdmfleetmanagement.Models.{ScheduledRollout, OtaEvent}
use mdmfleetmanagement.Config.{Settings}
use mdmfleetmanagement.Session.{Session, Error, Result, ok, err, continue, pure, ◌>>=◌}
use mdmfleetmanagement.Audit.{log, add_entry}
use mdmfleetmanagement.Ota.Rollout.{PublishFn, start_rollout}
use mdmfleetmanagement.Scheduler.Started.{Leaves-start_rollout}
use mdmfleetmanagement.Scheduler.DueRollouts.{
  is_due, fire, fail, settle, settle_failure, is_database_error, fire_one, fire_all,
  fire_due_scheduled_rollouts, rollout_of,
}

-- How one row comes out of a run, by whether its id is among the due and the fired.
abbrev pub IsSettled : ℕ → List ℕ → List ℕ → ScheduledRollout → ScheduledRollout → Type 0
IsSettled now due fired x y =
    ((¬ (In x.id due)) × (y ≡ x))
    ⊎ (In x.id due
        × ((In x.id fired × (y ≡ fire now x))
            ⊎ ((¬ (In x.id fired)) × (why : String) × (y ≡ fail why x))))

-- The rows one for one.
abbrev pub AreSettled : ℕ → List ℕ → List ℕ → List ScheduledRollout → List ScheduledRollout → Type 0
AreSettled now due fired [] [] = Unit
AreSettled now due fired (x ∷ xs) (y ∷ ys) =
    IsSettled now due fired x y × AreSettled now due fired xs ys
AreSettled now due fired _ _ = ⊥

-- One rollout: it is fired, and its id is returned, or it failed, and nothing is returned.
abbrev IsRaised : {A : Type 0} → Result A → Type 0
IsRaised r = (e : Error) × (r ≡ err e) × (is_database_error e ≡ true)

abbrev IsOneOf : ℕ → ScheduledRollout → List ScheduledRollout → Result (List ℕ) × Session → Type 0
IsOneOf now row rows (r, s') =
    ((r ≡ ok (row.id ∷ []))
      × (s'.db.scheduled_rollouts ≡ update_where (λ x. eqb x.id row.id) (fire now) rows))
    ⊎ ((r ≡ ok [])
        × (why : String) × (s'.db.scheduled_rollouts
            ≡ update_where (λ x. eqb x.id row.id) (fail why) rows))
    ⊎ IsRaised r

settle_failure_lem :
    (describe : Error → String) (now : ℕ) (row : ScheduledRollout) (e : Error) (b : Bool)
    (s : Session)
    → is_database_error e ≡ b
    → IsOneOf now row s.db.scheduled_rollouts (settle_failure describe row e b s)
unfolding settle_failure
settle_failure_lem describe now row e true s h = inr (inr (e, refl, h))
settle_failure_lem describe now row e false s h = inr (inl (refl, describe e, refl))

settle_lem :
    (describe : Error → String) (now : ℕ) (row : ScheduledRollout) (r : Result (List OtaEvent))
    (s : Session)
    → IsOneOf now row s.db.scheduled_rollouts (settle describe now row r s)
unfolding settle log add_entry
settle_lem describe now row (ok es) s = inl (refl, refl)
settle_lem describe now row (err e) s =
    settle_failure_lem describe now row e (is_database_error e) s refl

fire_one_lem :
    (settings : Settings) (f : PublishFn) (describe : Error → String) (now : ℕ)
    (row : ScheduledRollout) (s : Session)
    → IsOneOf now row s.db.scheduled_rollouts (fire_one settings f describe now row s)
unfolding fire_one
fire_one_lem settings f describe now row s =
    let (r, t) = start_rollout settings (some f) now (rollout_of row) s in
    let k : t.db.scheduled_rollouts ≡ s.db.scheduled_rollouts =
      (Leaves-start_rollout settings (some f) now (rollout_of row)).view s in
    subst (λ rows. IsOneOf now row rows (settle describe now row r t)) k
      (settle_lem describe now row r t)

-- One row under the first update of a run, whose rollout is fired, and the rest of the run.
fired_step :
    (now : ℕ) (row x y : ScheduledRollout) (due rest : List ℕ) (b : Bool)
    → eqb x.id row.id ≡ b
    → ¬ (In row.id due)
    → IsSettled now due rest (if b then fire now x else x) y
    → IsSettled now (row.id ∷ due) (row.id ∷ rest) x y
fired_step now row x y due rest true e n (inl (m, q)) =
    let k : x.id ≡ row.id = ground arith in inr (inl k, inl (inl k, q))
fired_step now row x y due rest true e n (inr (m, q)) =
    let k : x.id ≡ row.id = ground arith in absurd (n (subst (λ i. In i due) k m))
fired_step now row x y due rest false e n h = elim h [
  | inl (m, q) ↦ inl ((λ k. new_or due m k), q)
  | inr (m, inl (i, q)) ↦ inr (inr m, inl (inr i, q))
  | inr (m, inr (i, why, q)) ↦ inr (inr m, inr ((λ k. new_or rest i k), why, q))
]
  where
    new_or : (xs : List ℕ) → ¬ (In x.id xs) → ¬ (In x.id (row.id ∷ xs))
    new_or xs n (inl k) = ground arith
    new_or xs n (inr k) = n k

-- The same where the rollout failed.
failed_step :
    (now : ℕ) (row x y : ScheduledRollout) (why : String) (due rest : List ℕ) (b : Bool)
    → eqb x.id row.id ≡ b
    → ¬ (In row.id due)
    → ((i : ℕ) → In i rest → In i due)
    → IsSettled now due rest (if b then fail why x else x) y
    → IsSettled now (row.id ∷ due) rest x y
failed_step now row x y why due rest true e n sub (inl (m, q)) =
    let k : x.id ≡ row.id = ground arith in inr (inl k, inr ((λ i. m (sub x.id i)), why, q))
failed_step now row x y why due rest true e n sub (inr (m, q)) =
    let k : x.id ≡ row.id = ground arith in absurd (n (subst (λ i. In i due) k m))
failed_step now row x y why due rest false e n sub (inl (m, q)) = inl (new_or, q)
  where
    new_or : ¬ (In x.id (row.id ∷ due))
    new_or (inl k) = ground arith
    new_or (inr k) = m k
failed_step now row x y why due rest false e n sub (inr (m, q)) = inr (inr m, q)

fired_steps :
    (now : ℕ) (row : ScheduledRollout) (due rest : List ℕ) (xs ys : List ScheduledRollout)
    → ¬ (In row.id due)
    → AreSettled now due rest (update_where (λ x. eqb x.id row.id) (fire now) xs) ys
    → AreSettled now (row.id ∷ due) (row.id ∷ rest) xs ys
fired_steps now row due rest [] [] n h = tt
fired_steps now row due rest [] (y ∷ ys) n h = absurd h
fired_steps now row due rest (x ∷ xs) [] n h = absurd h
fired_steps now row due rest (x ∷ xs) (y ∷ ys) n h = (
  fired_step now row x y due rest (eqb x.id row.id) refl n h.0,
  fired_steps now row due rest xs ys n h.1,
)

failed_steps :
    (now : ℕ) (row : ScheduledRollout) (why : String) (due rest : List ℕ)
    (xs ys : List ScheduledRollout)
    → ¬ (In row.id due)
    → ((i : ℕ) → In i rest → In i due)
    → AreSettled now due rest (update_where (λ x. eqb x.id row.id) (fail why) xs) ys
    → AreSettled now (row.id ∷ due) rest xs ys
failed_steps now row why due rest [] [] n sub h = tt
failed_steps now row why due rest [] (y ∷ ys) n sub h = absurd h
failed_steps now row why due rest (x ∷ xs) [] n sub h = absurd h
failed_steps now row why due rest (x ∷ xs) (y ∷ ys) n sub h = (
  failed_step now row x y why due rest (eqb x.id row.id) refl n sub h.0,
  failed_steps now row why due rest xs ys n sub h.1,
)

untouched : (now : ℕ) (xs : List ScheduledRollout) → AreSettled now [] [] xs xs
untouched now [] = tt
untouched now (x ∷ xs) = (inl ((λ m. m), refl), untouched now xs)

abbrev pub ids_of : List ScheduledRollout → List ℕ
ids_of rows = map (λ x. x.id) rows

-- The outcome of the loop over some rows that raises no error of the database.
abbrev IsFired : ℕ → List ℕ → List ScheduledRollout → Result (List ℕ) × Session → Type 0
IsFired now due before (r, s') =
    (fired : List ℕ) × (r ≡ ok fired)
    × ((i : ℕ) → In i fired → In i due)
    × AreSettled now due fired before s'.db.scheduled_rollouts

-- The rest of a run after its first row.
IsFired-next :
    (now : ℕ) (row : ScheduledRollout) (due : List ℕ) (xs : List ScheduledRollout)
    (p : Result (List ℕ) × Session) (next : Session → Result (List ℕ) × Session)
    → ¬ (In row.id due)
    → IsOneOf now row xs p
    → (IsFired now due p.1.db.scheduled_rollouts (next p.1) ⊎ IsRaised (next p.1).0)
    → let q : Result (List ℕ) × Session =
        continue p.0 (λ one. next >>= λ rest. pure (one ++ rest)) p.1 in
      IsFired now (row.id ∷ due) xs q ⊎ IsRaised q.0
IsFired-next now row due xs (r, t) next n (inl (k, q)) (inl (fired, e, sub, h)) = inl (
    rw (k, e)
      (
        row.id ∷ fired,
        refl,
        (λ i m. elim m [ inl p ↦ inl p | inr p ↦ inr (sub i p) ]),
        fired_steps now row due fired xs _ n
            (subst (λ ys. AreSettled now due fired ys (next t).1.db.scheduled_rollouts) q h),
      ))
IsFired-next now row due xs (r, t) next n (inr (inl (k, why, q))) (inl (fired, e, sub, h)) = inl (
    rw (k, e)
      (
        fired,
        refl,
        (λ i m. inr (sub i m)),
        failed_steps now row why due fired xs _ n sub
            (subst (λ ys. AreSettled now due fired ys (next t).1.db.scheduled_rollouts) q h),
      ))
IsFired-next now row due xs (r, t) next n (inl (k, q)) (inr (e, g, b)) = inr (e, rw (k, g) refl, b)
IsFired-next now row due xs (r, t) next n (inr (inl (k, why, q))) (inr (e, g, b)) =
    inr (e, rw (k, g) refl, b)
IsFired-next now row due xs (r, t) next n (inr (inr (e, g, b))) h = inr (e, rw g refl, b)

fire_all_lem :
    (settings : Settings) (f : PublishFn) (describe : Error → String) (now : ℕ)
    (rows : List ScheduledRollout) (s : Session)
    → Distinct (ids_of rows)
    → IsFired now (ids_of rows) s.db.scheduled_rollouts (fire_all settings f describe now rows s)
      ⊎ IsRaised (fire_all settings f describe now rows s).0
unfolding fire_all
fire_all_lem settings f describe now [] s d =
    inl ([], refl, (λ i m. m), untouched now s.db.scheduled_rollouts)
fire_all_lem settings f describe now (row ∷ rows) s d =
    IsFired-next now row (ids_of rows) s.db.scheduled_rollouts
      (fire_one settings f describe now row s) (fire_all settings f describe now rows) d.0
      (fire_one_lem settings f describe now row s)
      (fire_all_lem settings f describe now rows (fire_one settings f describe now row s).1 d.1)

select_ids-Distinct :
    (p : ScheduledRollout → Bool) (rows : List ScheduledRollout)
    → Distinct (ids_of rows)
    → Distinct (ids_of (select_where p rows))
select_ids-Distinct p [] d = tt
select_ids-Distinct p (x ∷ xs) d = go (p x) (select_ids-Distinct p xs d.1)
  where
    go :
        (b : Bool)
        → Distinct (ids_of (select_where p xs))
        → Distinct (ids_of (if b then x ∷ select_where p xs else select_where p xs))
    go true k = (
      (λ m.
          let (y, i, e) = In_of_map (λ (z : ScheduledRollout). z.id) x.id (select_where p xs) m in
          d.0 (rw e (In-map (λ (z : ScheduledRollout). z.id) y xs (In_of_select p y xs i)))),
      k,
    )
    go false k = k

-- A run over rollouts with distinct ids returns, whatever else its rollouts raise, or raises an
-- error of the database. When it returns, what it leaves is stored: the rows are the same in number
-- and order, a row that was due is now fired at this time if its id is among the returned ones and
-- else failed with a reason, and every other row is what it was.
pub fire_due_scheduled_rollouts_lem :
    (settings : Settings) (f : PublishFn) (describe : Error → String) (now : ℕ) (s : Session)
    → Distinct (ids_of s.db.scheduled_rollouts)
    → ((fired : List ℕ) × ((fire_due_scheduled_rollouts settings f describe now s).0 ≡ ok fired)
        × AreSettled now
            (ids_of (select_where (is_due now) s.db.scheduled_rollouts))
            fired
            s.db.scheduled_rollouts
            (fire_due_scheduled_rollouts settings f describe now s).1.committed.scheduled_rollouts)
      ⊎ ((e : Error) × ((fire_due_scheduled_rollouts settings f describe now s).0 ≡ err e)
          × (is_database_error e ≡ true))
unfolding fire_due_scheduled_rollouts
fire_due_scheduled_rollouts_lem settings f describe now s d =
    let due = select_where (is_due now) s.db.scheduled_rollouts in
    elim (fire_all_lem settings f describe now due s
      (select_ids-Distinct (is_due now) s.db.scheduled_rollouts d)) [
        | inl (fired, e, sub, h) ↦ rw e (inl (fired, refl, h))
        | inr (e, g, b) ↦ rw g (inr (e, refl, b))
      ]
