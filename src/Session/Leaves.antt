-- ===== src/Session/Leaves.antt =====
-- A part of the database that an action does not write, whether it returns or raises.
use mdmfleetmanagement.Prelude.{
  ◌≡◌, refl, ◌∙◌, Bool, true, false, Option, none, some, if◌then◌else◌,
}
use mdmfleetmanagement.Models.{Database}
use mdmfleetmanagement.Session.Actions.{
  Session, Action, Error, Result, ok, err, pure, raise, query, or_raise, execute, commit, continue,
  ◌>>=◌,
}

pub record Leaves {A X : Type 0} (g : Database → X) (m : Action A) : Type 0 where
  pub view : (s : Session) → g (m s).1.db ≡ g s.db

module _ {A X : Type 0} {g : Database → X} where
  pub Leaves-pure : (a : A) → Leaves g (pure a)
  Leaves-pure a = record { view = λ s. refl }

  pub Leaves-raise : (e : Error) → Leaves g (raise {A = A} e)
  Leaves-raise e = record { view = λ s. refl }

  pub Leaves-query : (f : Database → A) → Leaves g (query f)
  Leaves-query f = record { view = λ s. refl }

  pub Leaves-or_raise : (o : Option A) (e : Error) → Leaves g (or_raise o e)
  Leaves-or_raise none e = record { view = λ s. refl }
  Leaves-or_raise (some a) e = record { view = λ s. refl }

  pub Leaves-if :
      (b : Bool) (m n : Action A) → Leaves g m → Leaves g n → Leaves g (if b then m else n)
  Leaves-if true m n km kn = km
  Leaves-if false m n km kn = kn

module _ {X : Type 0} {g : Database → X} where
  pub Leaves-execute :
      (f : Database → Database) → ((d : Database) → g (f d) ≡ g d) → Leaves g (execute f)
  Leaves-execute f k = record { view = λ s. k s.db }

  pub Leaves-commit : Leaves g commit
  Leaves-commit = record { view = λ s. refl }

module _ {A B X : Type 0} {g : Database → X} where
  Leaves-continue :
      (r : Result A) (f : A → Action B) → ((a : A) → Leaves g (f a)) → Leaves g (continue r f)
  Leaves-continue (ok a) f k = k a
  Leaves-continue (err e) f k = record { view = λ s. refl }

  pub Leaves-bind :
      (m : Action A) (f : A → Action B)
      → Leaves g m
      → ((a : A) → Leaves g (f a))
      → Leaves g (m >>= f)
  Leaves-bind m f km kf = record {
    view = λ s. let (r, s') = m s in (Leaves-continue r f kf).view s' ∙ km.view s;
  }
