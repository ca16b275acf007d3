-- ===== src/Session/Actions.antt =====
-- A database session (fleet_server/database.py) as the services use it. A call is an action on
-- the session: it returns a value or raises, and leaves the session as it is then. Writes go to
-- the transaction and are kept by `commit`; closing the session drops what was not committed.
-- A session also remembers the MQTT messages that were published during it.
use mdmfleetmanagement.Prelude.{ℕ, String, Option, none, some, Bool, true, false, List}
use mdmfleetmanagement.Models.{Database}

-- The exceptions that the modelled code raises or meets. Of an HTTPException only the status.
pub data Error : Type 0 where
  value_error : String → Error
  runtime_error : String → Error
  http : ℕ → Error
  integrity_error : Error
  data_error : Error
  multiple_results : Error
  attribute_error : Error
  type_error : Error
  publish_error : Error

pub data Result (A : Type 0) : Type 0 where
  ok : A → Result A
  err : Error → Result A

pub record Message : Type 0 where
  pub topic : String
  pub payload : List (String × String)

pub record Session : Type 0 where
  pub committed : Database
  pub db : Database
  pub published : List Message

abbrev pub Action : Type 0 → Type 0
Action A = Session → Result A × Session

abbrev pub continue : {A B : Type 0} → Result A → (A → Action B) → Action B
continue (ok a) f s = f a s
continue (err e) f s = (err e, s)

infixl 5 ◌>>=◌ ◌>>◌
abbrev pub ◌>>=◌ : {A B : Type 0} → Action A → (A → Action B) → Action B
◌>>=◌ m f s = let (r, s') = m s in continue r f s'

abbrev pub ◌>>◌ : {A B : Type 0} → Action A → Action B → Action B
m >> k = m >>= λ _. k

module _ {A : Type 0} where
  abbrev pub pure : A → Action A
  pure a s = (ok a, s)

  abbrev pub raise : Error → Action A
  raise e s = (err e, s)

  -- A query: what is read of the transaction's view.
  abbrev pub query : (Database → A) → Action A
  query f s = (ok (f s.db), s)

  abbrev pub or_raise : Option A → Error → Action A
  or_raise none e s = (err e, s)
  or_raise (some a) e s = (ok a, s)

abbrev pub raise_if : Bool → Error → Action (Unit {0})
raise_if true e s = (err e, s)
raise_if false e s = (ok tt, s)

-- A statement that writes.
abbrev pub execute : (Database → Database) → Action (Unit {0})
execute f s = (ok tt, record s { db = f s.db })

-- session.commit()
abbrev pub commit : Action (Unit {0})
commit s = (ok tt, record s { committed = s.db })

-- The end of `async with async_session()`: what was not committed is rolled back.
abbrev pub close : Session → Session
close s = record s { db = s.committed }

abbrev pub open_session : Database → Session
open_session d = record { committed = d; db = d; published = List.[] }
