-- ===== src/Session/Stays.antt =====
-- Actions that leave the session as it is, whether they return or raise.
use mathlib.Core.Path.{subst}
use mdmfleetmanagement.Prelude.{
  ◌≡◌, refl, sym, ◌∙◌, Bool, true, false, Option, none, some, if◌then◌else◌,
}
use mdmfleetmanagement.Models.{Database}
use mdmfleetmanagement.Session.Keeps.{Keeps}
use mdmfleetmanagement.Session.Actions.{
  Session, Action, Error, Result, ok, err, pure, raise, query, or_raise, raise_if, continue, ◌>>=◌,
}

pub record Stays {A : Type 0} (m : Action A) : Type 0 where
  pub same : (s : Session) → (m s).1 ≡ s

module _ {A : Type 0} where
  pub Stays-pure : (a : A) → Stays (pure a)
  Stays-pure a = record { same = λ s. refl }

  pub Stays-raise : (e : Error) → Stays (raise {A = A} e)
  Stays-raise e = record { same = λ s. refl }

  pub Stays-query : (f : Database → A) → Stays (query f)
  Stays-query f = record { same = λ s. refl }

  pub Stays-or_raise : (o : Option A) (e : Error) → Stays (or_raise o e)
  Stays-or_raise none e = record { same = λ s. refl }
  Stays-or_raise (some a) e = record { same = λ s. refl }

  pub Stays-if : (b : Bool) (m n : Action A) → Stays m → Stays n → Stays (if b then m else n)
  Stays-if true m n k l = k
  Stays-if false m n k l = l

pub Stays-raise_if : (b : Bool) (e : Error) → Stays (raise_if b e)
Stays-raise_if true e = record { same = λ s. refl }
Stays-raise_if false e = record { same = λ s. refl }

module _ {A B : Type 0} where
  Stays-continue :
      (r : Result A) (f : A → Action B) → ((a : A) → Stays (f a)) → Stays (continue r f)
  Stays-continue (ok a) f k = k a
  Stays-continue (err e) f k = record { same = λ s. refl }

  pub Stays-bind :
      (m : Action A) (f : A → Action B) → Stays m → ((a : A) → Stays (f a)) → Stays (m >>= f)
  Stays-bind m f k l = record {
    same = λ s. let (r, s') = m s in (Stays-continue r f l).same s' ∙ k.same s;
  }

pub Keeps-of_Stays : {A : Type 0} (P : Database → Type 0) (m : Action A) → Stays m → Keeps P m
Keeps-of_Stays P m k = record {
  at = λ s h.
      let e = sym (k.same s) in (subst (λ t. P t.committed) e h.0, subst (λ t. P t.db) e h.1);
}

pub ruleset staying =
    (Stays-pure, Stays-raise, Stays-query, Stays-or_raise, Stays-if, Stays-raise_if, Stays-bind)
