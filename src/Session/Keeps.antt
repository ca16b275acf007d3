-- ===== src/Session/Keeps.antt =====
-- Properties of a session that an action keeps, whether it returns or raises: one rule for each way
-- to build an action, and what it means for the database after a call in a session of its own.
use mdmfleetmanagement.Prelude.{◌≡◌, refl, Bool, true, false, Option, none, some, if◌then◌else◌}
use mdmfleetmanagement.Models.{Database}
use mdmfleetmanagement.Session.Actions.{
  Session, Action, Error, Result, ok, err, pure, raise, query, or_raise, raise_if, execute, commit,
  continue, open_session, ◌>>=◌,
}

-- The action keeps a property of the committed database and of the transaction's view.
pub record Keeps {A : Type 0} (P : Database → Type 0) (m : Action A) : Type 0 where
  pub at : (s : Session) → P s.committed × P s.db → P (m s).1.committed × P (m s).1.db

module _ {A : Type 0} {P : Database → Type 0} where
  pub Keeps-pure : (a : A) → Keeps P (pure a)
  Keeps-pure a = record { at = λ s h. h }

  pub Keeps-raise : (e : Error) → Keeps P (raise {A = A} e)
  Keeps-raise e = record { at = λ s h. h }

  pub Keeps-query : (f : Database → A) → Keeps P (query f)
  Keeps-query f = record { at = λ s h. h }

  pub Keeps-or_raise : (o : Option A) (e : Error) → Keeps P (or_raise o e)
  Keeps-or_raise none e = record { at = λ s h. h }
  Keeps-or_raise (some a) e = record { at = λ s h. h }

  pub Keeps-if : (b : Bool) (m n : Action A) → Keeps P m → Keeps P n → Keeps P (if b then m else n)
  Keeps-if true m n km kn = km
  Keeps-if false m n km kn = kn

  pub in_session-keeps :
      (m : Action A) (d : Database) → Keeps P m → P d → P (m (open_session d)).1.committed
  in_session-keeps m d k h = (k.at (open_session d) (h, h)).0

module _ {P : Database → Type 0} where
  pub Keeps-raise_if : (b : Bool) (e : Error) → Keeps P (raise_if b e)
  Keeps-raise_if true e = record { at = λ s h. h }
  Keeps-raise_if false e = record { at = λ s h. h }

  pub Keeps-execute :
      (f : Database → Database) → ((d : Database) → P d → P (f d)) → Keeps P (execute f)
  Keeps-execute f k = record { at = λ s h. (h.0, k s.db h.1) }

  pub Keeps-commit : Keeps P commit
  Keeps-commit = record { at = λ s h. (h.1, h.1) }

module _ {A B : Type 0} {P : Database → Type 0} where
  Keeps-continue :
      (r : Result A) (f : A → Action B) → ((a : A) → Keeps P (f a)) → Keeps P (continue r f)
  Keeps-continue (ok a) f k = k a
  Keeps-continue (err e) f k = record { at = λ s h. h }

  pub Keeps-bind :
      (m : Action A) (f : A → Action B) → Keeps P m → ((a : A) → Keeps P (f a)) → Keeps P (m >>= f)
  Keeps-bind m f km kf = record {
    at = λ s h. let (r, s') = m s in (Keeps-continue r f kf).at s' (km.at s h);
  }

module _ {A B : Type 0} where
  -- What holds at a state, whether a value is missing or not.
  pub or_raise-at :
      (Q : Session → Type 0) (o : Option A) (e : Error) (f : A → Action B) (s : Session)
      → Q s
      → ((a : A) → o ≡ some a → Q (f a s).1)
      → Q ((or_raise o e >>= f) s).1
  or_raise-at Q none e f s h k = h
  or_raise-at Q (some a) e f s h k = k a refl

module _ {B : Type 0} where
  pub raise_if-at :
      (Q : Session → Type 0) (b : Bool) (e : Error) (f : Unit {0} → Action B) (s : Session)
      → Q s
      → (b ≡ false → Q (f tt s).1)
      → Q ((raise_if b e >>= f) s).1
  raise_if-at Q true e f s h k = h
  raise_if-at Q false e f s h k = k refl

-- The rules by the ways to build an action; those for writes are the property's own.
pub ruleset keeping = (
  Keeps-pure, Keeps-raise, Keeps-query, Keeps-or_raise, Keeps-if, Keeps-raise_if, Keeps-commit,
  Keeps-bind,
)
