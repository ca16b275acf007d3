-- ===== src/Api/Refusals.antt =====
-- Requests that the guards refuse.
use mdmfleetmanagement.Prelude.{List, [], ◌∷◌}
use mdmfleetmanagement.Session.{Session}
use mdmfleetmanagement.Api.Handle.{Guard, current}

-- The guards that need a user.
abbrev Strict : Guard → Type 0
Strict current = ⊥
Strict g = Unit

-- The first guard refuses: so does the request, and nothing has changed.
Opens : List Guard → Type 0
Opens [] = ⊥
Opens (g ∷ gs) = Strict g
