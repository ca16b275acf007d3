-- ===== src/Session/Users.antt =====
-- Actions that do not write the users: what holds of the users holds afterwards.
use mathlib.Core.Path.{subst}
use mdmfleetmanagement.Prelude.{List, ◌≡◌}
use mdmfleetmanagement.Models.{Database, User}
use mdmfleetmanagement.Session.Actions.{execute}
use mdmfleetmanagement.Session.Keeps.{Keeps, Keeps-execute}

abbrev pub OnUsers : (List User → Type 0) → Database → Type 0
OnUsers P d = P d.users

pub Keeps-write :
    (P : List User → Type 0) (f : Database → Database)
    → ((d : Database) → d.users ≡ (f d).users)
    → Keeps (OnUsers P) (execute f)
Keeps-write P f k = Keeps-execute f (λ d h. subst P (k d) h)
