-- ===== src/Api/Devices/Refinement.antt =====
-- The device endpoints implement the registry.
use mathlib.Core.Path.{subst}
use mdmfleetmanagement.Prelude.{
  String, Bool, true, false, none, some, List, [], ◌∷◌, ◌++◌, if◌then◌else◌, ◌==◌, ◌||◌, ◌≡◌, inl,
  inr, refl, sym, ◌∙◌, arith, eq_iff, eq_refl, is_some, Bool-cases, Option-cases,
}
use mdmfleetmanagement.Prelude.Rows.{
  find_where, any_where, update_where, delete_where, find-append, find-delete,
}
use mdmfleetmanagement.Models.{Database, Device}
use mdmfleetmanagement.Session.{Session, open_session}
use mdmfleetmanagement.Audit.{log, add_entry}
use mdmfleetmanagement.Mqtt.Heartbeat.{has_id}
use mdmfleetmanagement.Mqtt.Registration.{mac_taken}
use mdmfleetmanagement.Broadcasts.{map_option}
use mdmfleetmanagement.Api.Patch.{is_nulled, named}
use mdmfleetmanagement.Api.Devices.{
  DeviceCreate, DeviceUpdate, created_device, create_device, get_device, patched_device,
  update_device, is_event_of, remove_device, delete_device, home_missing,
}
use mdmfleetmanagement.Api.Devices.Calls.{
  DeviceCall, create, update, delete, outcome, call, call_all, accepted, Registry, registry_of,
  apply, replay,
}

module _ {A : Type 0} where
  find-append_other :
      (q : A → Bool) (xs : List A) (y : A)
      → q y ≡ false
      → find_where q (xs ++ y ∷ []) ≡ find_where q xs
  find-append_other q [] y h = ground arith
  find-append_other q (x ∷ xs) y h = ground (arith, find-append_other q xs y)

  find-update_other :
      (p q : A → Bool) (f : A → A) (xs : List A)
      → ((x : A) → p x ≡ true → q x ≡ false)
      → ((x : A) → q (f x) ≡ q x)
      → find_where q (update_where p f xs) ≡ find_where q xs
  find-update_other p q f [] h k = refl
  find-update_other p q f (x ∷ xs) h k = ground (arith, h x, k x, find-update_other p q f xs h k)

  find-delete_other :
      (p q : A → Bool) (xs : List A)
      → ((x : A) → p x ≡ true → q x ≡ false)
      → find_where q (delete_where p xs) ≡ find_where q xs
  find-delete_other p q [] h = refl
  find-delete_other p q (x ∷ xs) h = ground (arith, h x, find-delete_other p q xs h)

  none_of_find :
      (p : A → Bool) (xs : List A) → is_some (find_where p xs) ≡ false → any_where p xs ≡ false
  none_of_find p [] h = refl
  none_of_find p (x ∷ xs) h = ground (arith, none_of_find p xs)

other_id : (i j : String) → (i == j) ≡ false → (x : Device) → has_id i x ≡ true → has_id j x ≡ false
unfolding has_id
other_id i j n x h = elim (Bool-cases (x.device_id == j)) [
  | inl e ↦
      (let p : i ≡ j = sym ((eq_iff x.device_id i).0 h) ∙ (eq_iff x.device_id j).0 e in
        let q = (eq_iff i j).1 p in cc)
  | inr e ↦ e
]

find-update_map :
    {A : Type 0} (p : A → Bool) (f : A → A) (xs : List A)
    → ((x : A) → p (f x) ≡ p x)
    → find_where p (update_where p f xs) ≡ map_option f (find_where p xs)
find-update_map p f [] k = refl
find-update_map p f (x ∷ xs) k = ground (arith, k x, find-update_map p f xs k)

has_id-patched :
    (i : String) (p : DeviceUpdate) (x : Device) → has_id i (patched_device p x) ≡ has_id i x
unfolding has_id patched_device
has_id-patched i p x = refl

-- The rows after each write, by the ids.
created_found :
    (p : DeviceCreate) (xs : List Device) (id : String)
    → is_some (find_where (has_id p.device_id) xs) ≡ false
    → find_where (has_id id) (xs ++ created_device p ∷ [])
      ≡ (if p.device_id == id then some (created_device p) else find_where (has_id id) xs)
created_found p xs id h = elim (Bool-cases (p.device_id == id)) [
  | inl e ↦
      (let own : has_id p.device_id (created_device p) ≡ true =
          unfold has_id created_device in eq_refl p.device_id in
        let q = find-append (has_id p.device_id) xs (created_device p) (none_of_find _ xs h) own in
        rw e (
          subst (λ i. find_where (has_id i) (xs ++ created_device p ∷ []) ≡ some (created_device p))
            ((eq_iff p.device_id id).0 e) q))
  | inr e ↦
      (let n : has_id id (created_device p) ≡ false = unfold has_id created_device in e in
        rw e (find-append_other (has_id id) xs (created_device p) n))
]

updated_found :
    (k : String) (p : DeviceUpdate) (xs : List Device) (id : String)
    → find_where (has_id id) (update_where (has_id k) (patched_device p) xs) ≡ (
        if k == id
        then map_option (patched_device p) (find_where (has_id id) xs)
        else find_where (has_id id) xs)
updated_found k p xs id = elim (Bool-cases (k == id)) [
  | inl e ↦
      (let q = find-update_map (has_id k) (patched_device p) xs (has_id-patched k p) in
        rw e (
          subst
            (λ i.
              find_where (has_id i) (update_where (has_id k) (patched_device p) xs)
              ≡ map_option (patched_device p) (find_where (has_id i) xs))
            ((eq_iff k id).0 e) q))
  | inr e ↦ rw e (
      find-update_other (has_id k) (has_id id) (patched_device p) xs (other_id k id e)
        (has_id-patched id p))
]

deleted_found :
    (k : String) (xs : List Device) (id : String)
    → find_where (has_id id) (delete_where (has_id k) xs)
      ≡ (if k == id then none else find_where (has_id id) xs)
deleted_found k xs id = elim (Bool-cases (k == id)) [
  | inl e ↦ rw e (
      subst (λ i. find_where (has_id i) (delete_where (has_id k) xs) ≡ none) ((eq_iff k id).0 e)
        (find-delete (has_id k) xs))
  | inr e ↦ rw e (find-delete_other (has_id k) (has_id id) xs (other_id k id e))
]

-- An accepted call acts as its update and is stored; one that is refused changes nothing.
abbrev Acts : DeviceCall → Session → Bool × Session → Type 0
Acts c s (true, s') =
    ((id : String) → registry_of s'.db id ≡ apply c (registry_of s.db) id) × (s'.committed ≡ s'.db)
Acts c s (false, s') = s' ≡ s

create-Acts : (p : DeviceCreate) (s : Session) → Acts (create p) s (outcome (create_device p) s)
unfolding create_device log add_entry registry_of apply
create-Acts p s = elim (Bool-cases (is_some (find_where (has_id p.device_id) s.db.devices))) [
  | inl e ↦ rw e refl
  | inr e ↦ (elim (Bool-cases (mac_taken p.device_id (some p.mac) s.db)) [
    | inl f ↦ rw (e, f) refl
    | inr f ↦ (elim (Bool-cases (home_missing p.home_id s.db)) [
      | inl g ↦ rw (e, f, g) refl
      | inr g ↦ rw (e, f, g) ((λ id. created_found p s.db.devices id e), refl)
    ])
  ])
]

update-Acts :
    (k : String) (p : DeviceUpdate) (s : Session)
    → Acts (update k p) s (outcome (update_device k p) s)
unfolding update_device get_device log add_entry registry_of apply
update-Acts k p s = elim (Option-cases (find_where (has_id k) s.db.devices)) [
  | inl e ↦ rw e refl
  | inr (x, e) ↦ (elim (Bool-cases (is_nulled p.role || is_nulled p.status)) [
    | inl f ↦ rw (e, f) refl
    | inr f ↦ (elim (Bool-cases (home_missing (named p.home_id) s.db)) [
      | inl g ↦ rw (e, f, g) refl
      | inr g ↦ rw (e, f, g) ((λ id. updated_found k p s.db.devices id), refl)
    ])
  ])
]

delete-Acts : (k : String) (s : Session) → Acts (delete k) s (outcome (delete_device k) s)
unfolding delete_device get_device remove_device log add_entry registry_of apply
delete-Acts k s = elim (Option-cases (find_where (has_id k) s.db.devices)) [
  | inl e ↦ rw e refl
  | inr (x, e) ↦ (elim (Bool-cases (any_where (is_event_of k) s.db.ota_events)) [
    | inl f ↦ rw (e, f) refl
    | inr f ↦ rw (e, f) ((λ id. deleted_found k s.db.devices id), refl)
  ])
]

call-Acts : (c : DeviceCall) (s : Session) → Acts c s (call c s)
unfolding call
call-Acts (create p) s = create-Acts p s
call-Acts (update k p) s = update-Acts k p s
call-Acts (delete k) s = delete-Acts k s

apply-cong :
    (c : DeviceCall) (m n : Registry)
    → ((id : String) → m id ≡ n id)
    → (id : String) → apply c m id ≡ apply c n id
unfolding apply
apply-cong (create p) m n h id = rw (h id) refl
apply-cong (update k p) m n h id = rw (h id) refl
apply-cong (delete k) m n h id = rw (h id) refl

replay-cong :
    (cs : List DeviceCall) (m n : Registry)
    → ((id : String) → m id ≡ n id)
    → (id : String) → replay cs m id ≡ replay cs n id
unfolding replay
replay-cong [] m n h id = h id
replay-cong (c ∷ cs) m n h id = replay-cong cs (apply c m) (apply c n) (apply-cong c m n h) id

-- One call before others.
refined_step :
    (c : DeviceCall) (cs : List DeviceCall) (d : Database) (b : Bool) (s' : Session) (id : String)
    → Acts c (open_session d) (b, s')
    → ((e : Database) (i : String)
        → registry_of (call_all cs e) i ≡ replay (accepted cs e) (registry_of e) i)
    → let rest = accepted cs s'.committed in
      registry_of (call_all cs s'.committed) id
      ≡ replay (if b then c ∷ rest else rest) (registry_of d) id
refined_step c cs d true s' id (h, e) ih =
    ih s'.committed id
    ∙ unfold replay in
      replay-cong (accepted cs s'.committed) (registry_of s'.committed) (apply c (registry_of d))
        (λ i. subst (λ x. registry_of x i ≡ apply c (registry_of d) i) (sym e) (h i)) id
refined_step c cs d false s' id e ih = rw e (ih d id)

-- Any sequence of creations, updates and deletions of devices, each in a session of its own, leaves
-- the registry that the accepted ones of them make of the registry before, one update for each.
pub calls_refine_registry :
    (cs : List DeviceCall) (d : Database) (id : String)
    → registry_of (call_all cs d) id ≡ replay (accepted cs d) (registry_of d) id
unfolding call_all accepted
calls_refine_registry [] d id = unfold replay in refl
calls_refine_registry (c ∷ cs) d id =
    refined_step c cs d (call c (open_session d)).0 (call c (open_session d)).1 id
      (call-Acts c (open_session d)) (λ e i. calls_refine_registry cs e i)
