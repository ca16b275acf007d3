-- ===== src/Firmware/Versions.antt =====
-- An upload of firmware: the versions stay distinct, and the new one is found by its version.
use mdmfleetmanagement.Prelude.{
  ℕ, String, Bool, false, Option, none, some, List, [], ◌∷◌, ◌++◌, map, ◌≡◌, refl, sym, ap, ◌==◌,
  is_empty, Option-cases, Bool-cases, inl, inr, eq_iff, eq_refl, All-In, In, arith,
}
use mathlib.Core.Path.{subst}
use mathlib.Core.List.{map-append}
use mdmfleetmanagement.Prelude.Rows.{find_where, find_none, any_where, find-append}
use mdmfleetmanagement.Prelude.Keys.{Distinct, Distinct-snoc, In_of_map}
use mdmfleetmanagement.Models.{FirmwareVersion}
use mdmfleetmanagement.Config.{Settings}
use mdmfleetmanagement.Session.{Session, ok, err, http}
use mdmfleetmanagement.Audit.{log, add_entry}
use mdmfleetmanagement.Ota.Select.{get_by_version}
use mdmfleetmanagement.Firmware.{upload, upload_firmware, new_firmware}

abbrev pub versions : List FirmwareVersion → List String
versions rows = map (λ (f : FirmwareVersion). f.version) rows

abbrev pub of_version : String → FirmwareVersion → Bool
of_version v f = f.version == v

no_version :
    (v : String) (rows : List FirmwareVersion)
    → find_where (of_version v) rows ≡ none
    → ¬ (In v (versions rows))
no_version v rows h m =
    let (f, i, e) = In_of_map (λ (f : FirmwareVersion). f.version) v rows m in
    let q : (f.version == v) ≡ false =
      All-In (λ x. of_version v x ≡ false) rows (find_none (of_version v) rows h) i in
    let t = (eq_iff f.version v).1 (sym e) in cc

any_of_find :
    {A : Type 0} (p : A → Bool) (xs : List A) → find_where p xs ≡ none → any_where p xs ≡ false
any_of_find p [] h = refl
any_of_find p (x ∷ xs) h = ground (arith, any_of_find p xs)

-- What an upload that is accepted has done.
pub record IsUploaded (sha256 : List ℕ → String) (version : String) (content : List ℕ)
    (f : FirmwareVersion) (rows : List FirmwareVersion) : Type 0 where
  pub distinct : Distinct (versions rows)
  pub found : find_where (of_version version) rows ≡ some f
  pub checksum : f.checksum ≡ sha256 content

new_version_found :
    (settings : Settings) (sha256 : List ℕ → String) (version notes : String) (content : List ℕ)
    (id : ℕ) (rows : List FirmwareVersion)
    → Distinct (versions rows)
    → find_where (of_version version) rows ≡ none
    → IsUploaded sha256 version content
        (new_firmware settings sha256 version content notes id)
        (rows ++ new_firmware settings sha256 version content notes id ∷ [])
unfolding new_firmware
new_version_found settings sha256 version notes content id rows h e = record {
  distinct = rw map-append (Distinct-snoc (versions rows) version h (no_version version rows e));
  found =
      find-append (of_version version) rows _ (any_of_find (of_version version) rows e)
        (eq_refl version);
  checksum = refl;
}

ok_inj : {A : Type 0} {a b : A} → ok a ≡ ok b → a ≡ b
ok_inj e = cc

-- An upload that is accepted keeps the versions distinct in what is stored, and the version then
-- finds the new row, whose checksum is that of the content.
pub upload_firmware_lem :
    (settings : Settings) (sha256 : List ℕ → String) (version notes : String) (content : List ℕ)
    (user_id : Option String) (f : FirmwareVersion) (s s' : Session)
    → Distinct (versions s.db.firmware_versions)
    → upload_firmware settings sha256 version content notes user_id s ≡ (ok f, s')
    → IsUploaded sha256 version content f s'.committed.firmware_versions
unfolding upload_firmware upload get_by_version log add_entry
upload_firmware_lem settings sha256 version notes content user_id f s s' d h =
    elim (Option-cases (find_where (of_version version) s.db.firmware_versions)) [
      | inr (x, e) ↦ (let g = rw e at h in let q : err (http 409) ≡ ok f = ap (λ p. p.0) g in cc)
      | inl e ↦ elim (Bool-cases (is_empty content)) [
        | inl n ↦ (let g = rw (e, n) at h in let q : err (http 400) ≡ ok f = ap (λ p. p.0) g in cc)
        | inr n ↦
            (let g = rw (e, n) at h in
              let x = new_firmware settings sha256 version content notes s.db.next_id in
              let rows = s.db.firmware_versions in
              subst (λ t. IsUploaded sha256 version content f t)
                (ap (λ p. p.1.committed.firmware_versions) g)
                (subst (λ y. IsUploaded sha256 version content y (rows ++ x ∷ []))
                  (ok_inj (ap (λ p. p.0) g))
                  (new_version_found settings sha256 version notes content s.db.next_id rows d e)))
      ]
    ]
