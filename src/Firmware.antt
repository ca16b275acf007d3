-- ===== src/Firmware.antt =====
-- services/firmware.py and api/firmware.py: the catalogue of firmware versions. The hash function
-- is an argument; `content` is the text of the uploaded bytes, its length their number.
pub mod Versions
use mdmfleetmanagement.Prelude.{
  ℕ, suc, String, Bool, true, false, Option, none, some, List, [], ◌∷◌, ◌++◌, ◌==◌, length,
  is_empty, is_some,
}
use mdmfleetmanagement.Prelude.Text.{concat}
use mdmfleetmanagement.Models.{Database, FirmwareVersion, str, int}
use mdmfleetmanagement.Config.{Settings}
use mdmfleetmanagement.Session.{Action, http, pure, raise_if, query, execute, commit, ◌>>=◌, ◌>>◌}
use mdmfleetmanagement.Audit.{log}
use mdmfleetmanagement.Ota.Select.{get_by_version}

-- Path(root) / version / "firmware.bin", for a version that is no path of its own
unfoldable pub binary_path : Settings → String → String
binary_path settings version =
    concat (settings.firmware_storage_path ∷ "/" ∷ version ∷ "/firmware.bin" ∷ [])

unfoldable pub new_firmware :
    Settings → (List ℕ → String) → String → List ℕ → String → ℕ → FirmwareVersion
new_firmware settings sha256 version content notes id = record {
  id = id;
  version = version;
  binary_path = binary_path settings version;
  checksum = sha256 content;
  release_notes = some notes;
}

abbrev pub add_firmware : FirmwareVersion → Database → Database
add_firmware f d = record d {
  firmware_versions = d.firmware_versions ++ f ∷ [];
  next_id = suc d.next_id;
}

-- FirmwareService.upload
unfoldable pub upload :
    Settings → (List ℕ → String) → String → List ℕ → String → Action FirmwareVersion
upload settings sha256 version content notes = do
  f ← query (λ d. new_firmware settings sha256 version content notes d.next_id)
  execute (add_firmware f)
  commit
  pure f

-- POST / of api/firmware.py
unfoldable pub upload_firmware :
    Settings → (List ℕ → String) → String → List ℕ → String → Option String → Action FirmwareVersion
upload_firmware settings sha256 version content notes user_id = do
  existing ← get_by_version version
  raise_if (is_some existing) (http 409)
  raise_if (is_empty content) (http 400)
  f ← upload settings sha256 version content notes
  log user_id "upload" "firmware" (
      ("version", str version)
      ∷ ("size_bytes", int (length content))
      ∷ ("checksum", str f.checksum)
      ∷ [])
  pure f
