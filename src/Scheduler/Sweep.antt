-- ===== src/Scheduler/Sweep.antt =====
-- What a sweep for dead devices does.
use mdmfleetmanagement.Prelude.{
  ℕ, ◌+◌, ◌<◌, String, Bool, true, false, Option, none, some, List, [], ◌∷◌, map, if◌then◌else◌,
  ◌≡◌, refl, arith, eq_iff, All, All-In, ◌↔◌, In,
}
use mdmfleetmanagement.Prelude.Rows.{
  select_where, update_where, In-select, In_of_select, All-select,
}
use mdmfleetmanagement.Prelude.Keys.{In-map, In_of_map}
use mdmfleetmanagement.Models.{Device}
use mdmfleetmanagement.Session.{Session, ok}
use mdmfleetmanagement.Scheduler.DeadDevices.{
  dead_threshold, seen_before, is_silent, bury, check_dead_devices,
}

-- Alive, but last heard of more than the threshold ago.
abbrev pub IsSilent : ℕ → Device → Type 0
IsSilent now x =
    (x.status ≡ "alive") × (t : ℕ) × (x.last_seen ≡ some t) × (t + dead_threshold < now)

-- How a device may change in a sweep.
pub record IsSwept (now : ℕ) (before after : Device) : Type 0 where
  pub died : IsSilent now before → after ≡ bury before
  pub lived : ¬ (IsSilent now before) → after ≡ before

abbrev pub AreSwept : ℕ → List Device → List Device → Type 0
AreSwept now [] [] = Unit
AreSwept now (x ∷ xs) (y ∷ ys) = IsSwept now x y × AreSwept now xs ys
AreSwept now _ _ = ⊥

seen_before_sound :
    (now : ℕ) (o : Option ℕ)
    → seen_before now o ≡ true
    → (t : ℕ) × (o ≡ some t) × (t + dead_threshold < now)
unfolding seen_before
seen_before_sound now none h = cc
seen_before_sound now (some t) h = (t, refl, ground arith)

is_silent_sound : (now : ℕ) (x : Device) → is_silent now x ≡ true → IsSilent now x
unfolding is_silent
is_silent_sound now x h =
    let (t, e, l) = seen_before_sound now x.last_seen (ground arith) in
    (ground (arith, eq_iff x.status "alive"), t, e, l)

is_silent_complete : (now : ℕ) (x : Device) → IsSilent now x → is_silent now x ≡ true
unfolding is_silent seen_before
is_silent_complete now x (a, t, e, l) = rw (a, e) (ground arith)

sweep_one :
    (now : ℕ) (x : Device) (b : Bool)
    → is_silent now x ≡ b
    → IsSwept now x (if b then bury x else x)
sweep_one now x true h = record {
  died = λ q. refl;
  lived = λ q. absurd (q (is_silent_sound now x h));
}
sweep_one now x false h = record {
  died = λ q. let t = is_silent_complete now x q in cc;
  lived = λ q. refl;
}

sweep_all : (now : ℕ) (xs : List Device) → AreSwept now xs (update_where (is_silent now) bury xs)
sweep_all now [] = tt
sweep_all now (x ∷ xs) = (sweep_one now x (is_silent now x) refl, sweep_all now xs)

not_silent_after :
    (now : ℕ) (x : Device) (b : Bool)
    → is_silent now x ≡ b
    → is_silent now (if b then bury x else x) ≡ false
unfolding is_silent
not_silent_after now x true h = refl
not_silent_after now x false h = h

sweep_leaves_none :
    (now : ℕ) (xs : List Device)
    → All (λ y. is_silent now y ≡ false) (update_where (is_silent now) bury xs)
sweep_leaves_none now [] = tt
sweep_leaves_none now (x ∷ xs) =
    (not_silent_after now x (is_silent now x) refl, sweep_leaves_none now xs)

select_none :
    (p : Device → Bool) (xs : List Device) → All (λ x. p x ≡ false) xs → select_where p xs ≡ []
select_none p [] h = refl
select_none p (x ∷ xs) h = rw h.0 (select_none p xs h.1)

IsSilent-ids :
    (now : ℕ) (xs : List Device) (i : String)
    → In i (map (λ (x : Device). x.device_id) (select_where (is_silent now) xs))
      ↔ ((x : Device) × In x xs × IsSilent now x × (i ≡ x.device_id))
IsSilent-ids now xs i = (
  (λ m.
      let (x, n, e) =
        In_of_map (λ (y : Device). y.device_id) i (select_where (is_silent now) xs) m in
      (
        x,
        In_of_select (is_silent now) x xs n,
        is_silent_sound now x (
            All-In (λ y. is_silent now y ≡ true) (select_where (is_silent now) xs)
              (All-select (is_silent now) xs) n),
        e,
      )),
  (λ (x, n, q, e). rw e (
      In-map (λ (y : Device). y.device_id) x (select_where (is_silent now) xs)
        (In-select (is_silent now) x xs n (is_silent_complete now x q)))),
)

-- A sweep returns and commits. It marks dead exactly the devices that are alive and were last
-- heard of more than the threshold ago, and changes nothing else of them and no other device; in
-- particular not one that was never heard of. It returns the ids of the devices that it marked,
-- and a second sweep at the same time marks none.
pub check_dead_devices_lem :
    (now : ℕ) (s : Session)
    → (ids : List String) × ((check_dead_devices now s).0 ≡ ok ids)
      × ((i : String)
          → In i ids ↔ ((x : Device) × In x s.db.devices × IsSilent now x × (i ≡ x.device_id)))
      × AreSwept now s.db.devices (check_dead_devices now s).1.db.devices
      × ((check_dead_devices now s).1.committed ≡ (check_dead_devices now s).1.db)
      × ((check_dead_devices now (check_dead_devices now s).1).0 ≡ ok [])
unfolding check_dead_devices
check_dead_devices_lem now s = (
  map (λ x. x.device_id) (select_where (is_silent now) s.db.devices),
  refl,
  (λ i. IsSilent-ids now s.db.devices i),
  sweep_all now s.db.devices,
  refl,
  rw (
      select_none (is_silent now) (update_where (is_silent now) bury s.db.devices)
        (sweep_leaves_none now s.db.devices)),
)
