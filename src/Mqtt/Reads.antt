-- ===== src/Mqtt/Reads.antt =====
-- Reading a payload writes nothing.
use mdmfleetmanagement.Prelude.{ℕ, String, Option, List}
use mdmfleetmanagement.Models.{Database}
use mdmfleetmanagement.Session.{data_error}
use mdmfleetmanagement.Session.Keeps.{Keeps, Keeps-pure, Keeps-or_raise, Keeps-if, Keeps-bind}
use mdmfleetmanagement.Mqtt.Json.{
  Driver, Json, object, other, null, text, Scalar, fields_of, strip_scalar, stripped, truthy,
  less_than, is_below, to_column,
}
use mdmfleetmanagement.Mqtt.Heartbeat.{beat_of}
use mdmfleetmanagement.Mqtt.Registration.{registration_of}

module _ {P : Database → Type 0} where
  pub Keeps-to_column : {A : Type 0} (o : Option A) → Keeps P (to_column o)
  unfolding to_column
  Keeps-to_column o = Keeps-or_raise o data_error

  pub Keeps-fields_of : (payload : Json) → Keeps P (fields_of payload)
  unfolding fields_of
  Keeps-fields_of (object fields) = record { at = λ s h. h }
  Keeps-fields_of other = record { at = λ s h. h }

  pub Keeps-is_below : (v : Scalar) (n : ℕ) → Keeps P (is_below v n)
  unfolding is_below less_than
  Keeps-is_below null n = record { at = λ s h. h }
  Keeps-is_below _ n = record { at = λ s h. h }

  Keeps-strip_scalar : (v : Scalar) → Keeps P (strip_scalar v)
  unfolding strip_scalar
  Keeps-strip_scalar (text t) = record { at = λ s h. h }
  Keeps-strip_scalar _ = record { at = λ s h. h }

  Keeps-stripped : (v : Scalar) → Keeps P (stripped v)
  unfolding stripped
  Keeps-stripped v = Keeps-if (truthy v) (strip_scalar v) _ (Keeps-strip_scalar v) (Keeps-pure _)

  pub Keeps-beat_of :
      (driver : Driver) (fields : List (String × Scalar)) → Keeps P (beat_of driver fields)
  unfolding beat_of
  Keeps-beat_of driver fields = Keeps-bind _ _ (Keeps-to_column _) λ a.
      Keeps-bind _ _ (Keeps-to_column _) λ b. Keeps-bind _ _ (Keeps-to_column _) λ c. Keeps-pure _

  pub Keeps-registration_of :
      (driver : Driver) (fields : List (String × Scalar)) → Keeps P (registration_of driver fields)
  unfolding registration_of
  Keeps-registration_of driver fields = Keeps-bind _ _ (Keeps-stripped _) λ a.
      Keeps-bind _ _ (Keeps-stripped _) λ b. Keeps-bind _ _ (Keeps-stripped _) λ c.
        Keeps-bind _ _ (Keeps-to_column _) λ d. Keeps-bind _ _ (Keeps-to_column _) λ e.
          Keeps-bind _ _ (Keeps-to_column _)
            λ f. Keeps-bind _ _ (Keeps-or_raise _ _) λ g. Keeps-pure _
