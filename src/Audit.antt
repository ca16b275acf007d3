-- ===== src/Audit.antt =====
-- services/audit.py: the record of who changed what.
use mdmfleetmanagement.Prelude.{suc, String, Option, List, [], ◌∷◌, ◌++◌}
use mdmfleetmanagement.Models.{Database, Detail}
use mdmfleetmanagement.Session.{Action, execute, commit, ◌>>◌}

unfoldable pub add_entry :
    Option String → String → String → List (String × Detail) → Database → Database
add_entry user_id action resource details d = record d {
  audit_log =
      d.audit_log
      ++ record {
        id = d.next_id;
        user_id = user_id;
        action = action;
        resource = resource;
        details = details;
      }
        ∷ [];
  next_id = suc d.next_id;
}

-- AuditService.log
unfoldable pub log : Option String → String → String → List (String × Detail) → Action (Unit {0})
log user_id action resource details = execute (add_entry user_id action resource details) >> commit
