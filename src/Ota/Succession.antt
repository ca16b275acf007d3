-- ===== src/Ota/Succession.antt =====
-- How an event may change: what it is about never, and its status only while it is in flight.
use mdmfleetmanagement.Prelude.{
  Bool, true, false, List, [], ◌∷◌, ◌++◌, map, if◌then◌else◌, eqb, ◌≡◌, refl, ap, ◌∙◌, arith, In,
  All, All-of_In,
}
use mdmfleetmanagement.Prelude.Rows.{update_where}
use mdmfleetmanagement.Prelude.Keys.{Distinct, row_unique}
use mdmfleetmanagement.Models.{OtaEvent}
use mdmfleetmanagement.Ota.Select.{in_flight}

-- The same event, later.
pub record IsSuccessor (before after : OtaEvent) : Type 0 where
  pub same_id : after.id ≡ before.id
  pub same_device : after.device_id ≡ before.device_id
  pub same_version :
      (after.from_version ≡ before.from_version) × (after.to_version ≡ before.to_version)
  pub same_start : after.started_at ≡ before.started_at
  pub settled : in_flight before.status ≡ false → after ≡ before

-- Every event is there later, in its place; further events may follow.
abbrev pub Continues : List OtaEvent → List OtaEvent → Type 0
Continues [] ys = Unit
Continues (x ∷ xs) [] = ⊥
Continues (x ∷ xs) (y ∷ ys) = IsSuccessor x y × Continues xs ys

pub IsSuccessor-refl : (x : OtaEvent) → IsSuccessor x x
IsSuccessor-refl x = record {
  same_id = refl;
  same_device = refl;
  same_version = (refl, refl);
  same_start = refl;
  settled = λ h. refl;
}

IsSuccessor-trans : (x y z : OtaEvent) → IsSuccessor x y → IsSuccessor y z → IsSuccessor x z
IsSuccessor-trans x y z p q = record {
  same_id = q.same_id ∙ p.same_id;
  same_device = q.same_device ∙ p.same_device;
  same_version = (q.same_version.0 ∙ p.same_version.0, q.same_version.1 ∙ p.same_version.1);
  same_start = q.same_start ∙ p.same_start;
  settled =
      λ h. let e = p.settled h in q.settled (ap (λ (w : OtaEvent). in_flight w.status) e ∙ h) ∙ e;
}

pub Continues-refl : (xs : List OtaEvent) → Continues xs xs
Continues-refl [] = tt
Continues-refl (x ∷ xs) = (IsSuccessor-refl x, Continues-refl xs)

pub Continues-trans :
    (xs ys zs : List OtaEvent) → Continues xs ys → Continues ys zs → Continues xs zs
Continues-trans [] ys zs p q = tt
Continues-trans (x ∷ xs) [] zs p q = absurd p
Continues-trans (x ∷ xs) (y ∷ ys) [] p q = absurd q
Continues-trans (x ∷ xs) (y ∷ ys) (z ∷ zs) p q =
    (IsSuccessor-trans x y z p.0 q.0, Continues-trans xs ys zs p.1 q.1)

pub Continues-append : (xs ys : List OtaEvent) → Continues xs (xs ++ ys)
Continues-append [] ys = tt
Continues-append (x ∷ xs) ys = (IsSuccessor-refl x, Continues-append xs ys)

-- An update that leaves alone what an event is about.
pub record KeepsIdentity (f : OtaEvent → OtaEvent) : Type 0 where
  pub id : (x : OtaEvent) → (f x).id ≡ x.id
  pub device : (x : OtaEvent) → (f x).device_id ≡ x.device_id
  pub from_version : (x : OtaEvent) → (f x).from_version ≡ x.from_version
  pub to_version : (x : OtaEvent) → (f x).to_version ≡ x.to_version
  pub start : (x : OtaEvent) → (f x).started_at ≡ x.started_at

updated-IsSuccessor :
    (b : Bool) (f : OtaEvent → OtaEvent) (x : OtaEvent)
    → KeepsIdentity f
    → (b ≡ true → in_flight x.status ≡ true)
    → IsSuccessor x (if b then f x else x)
updated-IsSuccessor false f x k h = IsSuccessor-refl x
updated-IsSuccessor true f x k h = record {
  same_id = k.id x;
  same_device = k.device x;
  same_version = (k.from_version x, k.to_version x);
  same_start = k.start x;
  settled = λ q. cc (h refl);
}

pub Continues-update :
    (p : OtaEvent → Bool) (f : OtaEvent → OtaEvent) (xs : List OtaEvent)
    → KeepsIdentity f
    → All (λ x. p x ≡ true → in_flight x.status ≡ true) xs
    → Continues xs (update_where p f xs)
Continues-update p f [] k h = tt
Continues-update p f (x ∷ xs) k h =
    (updated-IsSuccessor (p x) f x k h.0, Continues-update p f xs k h.1)

-- An event that is in flight may be updated by its id, since ids are distinct.
pub Continues-update_id :
    (e : OtaEvent) (f : OtaEvent → OtaEvent) (xs : List OtaEvent)
    → KeepsIdentity f
    → Distinct (map (λ x. x.id) xs)
    → In e xs
    → in_flight e.status ≡ true
    → Continues xs (update_where (λ x. eqb x.id e.id) f xs)
Continues-update_id e f xs k d m h =
    Continues-update (λ x. eqb x.id e.id) f xs k
      (All-of_In (λ x. eqb x.id e.id ≡ true → in_flight x.status ≡ true) xs
        λ x n t.
          ap (λ (w : OtaEvent). in_flight w.status)
            (row_unique (λ (w : OtaEvent). w.id) xs x e d n m (ground arith))
          ∙ h)
