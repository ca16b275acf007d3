-- ===== src/Ota/Selection.antt =====
-- Which devices `_select_devices` returns.
use mdmfleetmanagement.Prelude.{
  ◌≤◌, String, true, Option, none, some, List, length, take, All, In, All-take, length-take,
  All-of_In, All-In, sym, ap, ◌∙◌, Bool, false, if◌then◌else◌, ◌≡◌, ◌≢◌, ◌⊎◌, refl, arith, eq_iff,
  ◌==◌, ℕ,
}
use mdmfleetmanagement.Prelude.Rows.{select_where, All-select, In-select, In_of_select}
use mdmfleetmanagement.Prelude.Int.{ℤ, pos, negsuc}
use mdmfleetmanagement.Models.{Database, Device}
use mdmfleetmanagement.Session.{Session, Result, ok, err, data_error, pure}
use mdmfleetmanagement.Ota.Select.{
  Rollout, is_reachable, differs, is_targeted, is_candidate, select_devices, limit,
}

-- A device that a rollout may go to: it was heard of or is not known to be dead, and it reports
-- a version, which is another one.
pub record IsEligible (d : Database) (r : Rollout) (x : Device) : Type 0 where
  pub reachable : (x.status ≡ "alive") ⊎ (x.status ≡ "unknown")
  pub version : String
  pub known : x.firmware_version ≡ some version
  pub outdated : version ≢ r.target_version
  pub targeted : is_targeted d r.target_devices r.target_community x ≡ true

pub is_reachable_iff : (s : String) → is_reachable s ≡ true → (s ≡ "alive") ⊎ (s ≡ "unknown")
unfolding is_reachable
is_reachable_iff s h = ground (arith, eq_iff s "alive", eq_iff s "unknown")

pub differs_lem :
    (o : Option String) (v : String) → differs o v ≡ true → (u : String) × (o ≡ some u) × (u ≢ v)
unfolding differs
differs_lem none v h = cc
differs_lem (some u) v h = (u, refl, ground (arith, eq_iff u v))

pub is_candidate_sound :
    (d : Database) (r : Rollout) (x : Device) → is_candidate d r x ≡ true → IsEligible d r x
unfolding is_candidate
is_candidate_sound d r x h =
    let (u, e, ne) = differs_lem x.firmware_version r.target_version (ground arith) in
    record {
      reachable = is_reachable_iff x.status (ground arith);
      version = u;
      known = e;
      outdated = ne;
      targeted = ground arith;
    }

pub is_candidate_complete :
    (d : Database) (r : Rollout) (x : Device) → IsEligible d r x → is_candidate d r x ≡ true
unfolding is_candidate is_reachable differs
is_candidate_complete d r x h = rw h.known (
    ground (
      arith,
      eq_iff x.status "alive",
      eq_iff x.status "unknown",
      eq_iff h.version r.target_version,
      h.reachable,
      h.outdated,
      h.targeted,
    ))

candidates_sound :
    (d : Database) (r : Rollout) (xs : List Device)
    → All (λ x. In x xs × IsEligible d r x) (select_where (is_candidate d r) xs)
candidates_sound d r xs =
    All-of_In (λ x. In x xs × IsEligible d r x) (select_where (is_candidate d r) xs)
      λ x m. (
        In_of_select (is_candidate d r) x xs m,
        is_candidate_sound d r x (
            All-In (λ y. is_candidate d r y ≡ true) (select_where (is_candidate d r) xs)
              (All-select (is_candidate d r) xs) m),
      )

-- The selection as a value: the part of the candidates that the strategy leaves.
abbrev pub pick : Bool → ℤ → List Device → Result (List Device)
pick false n xs = ok xs
pick true (pos n) xs = ok (take n xs)
pick true (negsuc n) xs = err data_error

limit_lem : (n : ℤ) (xs : List Device) (s : Session) → limit n xs s ≡ (pick true n xs, s)
unfolding limit
limit_lem (pos n) xs s = refl
limit_lem (negsuc n) xs s = refl

strategy_lem :
    (b : Bool) (n : ℤ) (xs : List Device) (s : Session)
    → (if b then limit n xs else pure xs) s ≡ (pick b n xs, s)
strategy_lem true n xs s = limit_lem n xs s
strategy_lem false n xs s = refl

pub select_devices-eq-pick :
    (r : Rollout) (s : Session)
    → select_devices r s ≡ (
      pick
          (r.strategy == "canary")
          r.canary_count
          (select_where (is_candidate s.db r) s.db.devices),
      s,
    )
unfolding select_devices
select_devices-eq-pick r s =
    strategy_lem (r.strategy == "canary") r.canary_count
      (select_where (is_candidate s.db r) s.db.devices) s

-- Selecting leaves the session alone.
pub select_devices_reads :
    (r : Rollout) (s : Session) → select_devices r s ≡ ((select_devices r s).0, s)
select_devices_reads r s =
    let p = select_devices-eq-pick r s in p ∙ ap (λ a. (a, s)) (sym (ap (λ q. q.0) p))

pick_sound :
    (P : Device → Type 0) (b : Bool) (n : ℤ) (ys xs : List Device)
    → pick b n ys ≡ ok xs
    → All P ys
    → All P xs × ((k : ℕ) → b ≡ true → n ≡ pos k → length xs ≤ k)
pick_sound P false n ys xs e h = let q : ys ≡ xs = cc in (rw (← q) h, λ k t. cc)
pick_sound P true (pos m) ys xs e h =
    let q : take m ys ≡ xs = cc in
    (
      rw (← q) (All-take P m ys h),
      λ k t u. rw (← q) (let w : m ≡ k = cc in omega (arith, length-take m ys)),
    )
pick_sound P true (negsuc m) ys xs e h = cc

selection_bounds :
    (r : Rollout) (s s' : Session) (xs : List Device)
    → select_devices r s ≡ (ok xs, s')
    → All (λ x. In x s.db.devices × IsEligible s.db r x) xs
      × ((n : ℕ) → (r.strategy == "canary") ≡ true → r.canary_count ≡ pos n → length xs ≤ n)
selection_bounds r s s' xs h =
    let e = sym (select_devices-eq-pick r s) ∙ h in
    pick_sound (λ x. In x s.db.devices × IsEligible s.db r x) (r.strategy == "canary")
      r.canary_count (select_where (is_candidate s.db r) s.db.devices) xs (ap (λ p. p.0) e)
      (candidates_sound s.db r s.db.devices)

-- What a rollout selects, if the selection succeeds: registered devices that are eligible. The
-- session is as it was.
pub select_devices_sound :
    (r : Rollout) (s s' : Session) (xs : List Device)
    → select_devices r s ≡ (ok xs, s')
    → All (λ x. In x s.db.devices × IsEligible s.db r x) xs × (s' ≡ s)
select_devices_sound r s s' xs h =
    ((selection_bounds r s s' xs h).0, sym (ap (λ p. p.1) (sym (select_devices-eq-pick r s) ∙ h)))

-- A canary rollout selects no more devices than its count, and each of them is registered and
-- eligible.
pub select_canary_capped :
    (r : Rollout) (s s' : Session) (xs : List Device) (n : ℕ)
    → r.strategy ≡ "canary"
    → r.canary_count ≡ pos n
    → select_devices r s ≡ (ok xs, s')
    → (length xs ≤ n) × All (λ x. In x s.db.devices × IsEligible s.db r x) xs
select_canary_capped r s s' xs n c k h =
    let (a, b) = selection_bounds r s s' xs h in (b n ((eq_iff r.strategy "canary").1 c) k, a)

-- Every strategy but the canary selects each registered device that is eligible, without fail.
pub select_devices_complete :
    (r : Rollout) (s : Session)
    → r.strategy ≢ "canary"
    → (xs : List Device) × (select_devices r s ≡ (ok xs, s))
      × ((x : Device) → In x s.db.devices → IsEligible s.db r x → In x xs)
select_devices_complete r s ne = (
  select_where (is_candidate s.db r) s.db.devices,
  select_devices-eq-pick r s
      ∙ rw (
          let e : (r.strategy == "canary") ≡ false =
            ground (arith, eq_iff r.strategy "canary", ne) in
          e),
  λ x m h. In-select (is_candidate s.db r) x s.db.devices m (is_candidate_complete s.db r x h),
)
