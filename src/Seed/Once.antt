-- ===== src/Seed/Once.antt =====
-- Seeding happens once, or not at all.
use mathlib.Core.Path.{subst}
use mdmfleetmanagement.Prelude.{
  Bool, not, ◌||◌, ℕ, true, false, List, [], ◌∷◌, ◌++◌, ◌≡◌, ◌⊎◌, inl, inr, refl, sym, ◌∙◌,
  Bool-cases, is_empty,
}
use mdmfleetmanagement.Prelude.Rows.{any_where}
use mdmfleetmanagement.Models.{Database, User}
use mdmfleetmanagement.Auth.Tokens.{Crypto}
use mdmfleetmanagement.ScheduledRollouts.{has_version}
use mdmfleetmanagement.Mqtt.Client.{in_session}
use mdmfleetmanagement.Seed.{
  seed_communities, seed_homes, seed_devices, seed_users, homes_clash, devices_clash, users_clash,
  add_rest, fill, fill_if, seed,
}

-- All of the sample data is there in addition, or nothing has changed.
abbrev pub IsFilled : Crypto → (ℕ → ℕ) → Database → Database → Type 0
IsFilled crypto salts d d' =
    (is_empty d.communities ≡ true)
    × (d'.communities ≡ d.communities ++ seed_communities)
    × (d'.homes ≡ d.homes ++ seed_homes)
    × (d'.devices ≡ d.devices ++ seed_devices)
    × (d'.users ≡ d.users ++ seed_users crypto salts)

-- There is a community, or a row of the sample data has a key or a value that is taken.
abbrev pub is_refused : Crypto → (ℕ → ℕ) → Database → Bool
is_refused crypto salts d =
    not (is_empty d.communities)
    || homes_clash seed_homes d.homes
    || devices_clash seed_devices d.devices
    || any_where (has_version "1.0.0") d.firmware_versions
    || users_clash (seed_users crypto salts) d.users

users_clash_lem :
    (crypto : Crypto) (salts other : ℕ → ℕ) (rows : List User)
    → users_clash (seed_users crypto salts) rows ≡ users_clash (seed_users crypto other) rows
unfolding users_clash seed_users
users_clash_lem crypto salts other rows = refl

seed_cases :
    (crypto : Crypto) (salts : ℕ → ℕ) (d : Database)
    → IsFilled crypto salts d (in_session (seed crypto salts) d)
      ⊎ ((is_refused crypto salts d ≡ true)
          × ((other : ℕ → ℕ) → in_session (seed crypto other) d ≡ d))
unfolding seed fill_if fill add_rest in_session
seed_cases crypto salts d = elim (Bool-cases (is_empty d.communities)) [
  | inr e ↦ inr (rw e refl, λ other. rw e refl)
  | inl e ↦ (elim (Bool-cases (homes_clash seed_homes d.homes)) [
    | inl h ↦ inr (rw (e, h) refl, λ other. rw (e, h) refl)
    | inr h ↦ (elim (Bool-cases (devices_clash seed_devices d.devices)) [
      | inl k ↦ inr (rw (e, h, k) refl, λ other. rw (e, h, k) refl)
      | inr k ↦ (elim (Bool-cases (any_where (has_version "1.0.0") d.firmware_versions)) [
        | inl f ↦ inr (rw (e, h, k, f) refl, λ other. rw (e, h, k, f) refl)
        | inr f ↦ (elim (Bool-cases (users_clash (seed_users crypto salts) d.users)) [
          | inl u ↦ inr (
            rw (e, h, k, f, u) refl,
            λ other.
                let v = sym (users_clash_lem crypto salts other d.users) ∙ u in
                rw (e, h, k, f, v) refl,
          )
          | inr u ↦ inl (rw (e, h, k, f, u) (refl, refl, refl, refl, refl))
        ])
      ])
    ])
  ])
]

not_empty : {A : Type 0} (xs : List A) (y : A) (ys : List A) → is_empty (xs ++ y ∷ ys) ≡ false
not_empty [] y ys = refl
not_empty (x ∷ xs) y ys = refl

seed_nonempty :
    (crypto : Crypto) (salts : ℕ → ℕ) (d : Database)
    → is_empty d.communities ≡ false
    → in_session (seed crypto salts) d ≡ d
unfolding seed fill_if in_session
seed_nonempty crypto salts d e = rw e refl

-- A seeding, whatever is in the database: all of its communities, homes, devices and users are
-- there in addition, and there was no community before; or nothing has changed, and there was a
-- community before or a row of the sample data has a key or a value that is taken. A second
-- seeding, whatever the salts, changes nothing.
pub seed_once :
    (crypto : Crypto) (salts other : ℕ → ℕ) (d : Database)
    → let d' = in_session (seed crypto salts) d in
      (IsFilled crypto salts d d' ⊎ ((is_refused crypto salts d ≡ true) × (d' ≡ d)))
      × (in_session (seed crypto other) d' ≡ d')
seed_once crypto salts other d = elim (seed_cases crypto salts d) [
  | inl w ↦
      (let e : is_empty (in_session (seed crypto salts) d).communities ≡ false =
          subst (λ cs. is_empty cs ≡ false) (sym w.1)
            (unfold seed_communities in not_empty d.communities _ _) in
        (inl w, seed_nonempty crypto other (in_session (seed crypto salts) d) e))
  | inr (b, k) ↦
      (let e = k salts in
        (inr (b, e), subst (λ x. in_session (seed crypto other) x ≡ x) (sym e) (k other)))
]
