-- ===== src/Mqtt/Stops.antt =====
-- The loop of the client and a payload that is not UTF-8.
use mdmfleetmanagement.Prelude.{String, Option, none, some, List, [], ◌∷◌, ◌++◌, ◌≡◌, refl}
use mdmfleetmanagement.Prelude.Text.{split}
use mdmfleetmanagement.Models.{Database}
use mdmfleetmanagement.Mqtt.Json.{Driver}
use mdmfleetmanagement.Mqtt.Client.{Incoming, on_payload, dispatch, device_of, listen}

on_payload-ext :
    (p : Option String) (f g : String → Database) (d : Database)
    → ((t : String) → f t ≡ g t)
    → on_payload p f d ≡ on_payload p g d
unfolding on_payload
on_payload-ext none f g d h = refl
on_payload-ext (some t) f g d h = h t

listen_stop :
    (p : Option String) (f : String → Database) (d : Database) → p ≡ none → on_payload p f d ≡ d
unfolding on_payload
listen_stop none f d h = refl
listen_stop (some t) f d h = cc

-- What is received after a payload that is not UTF-8 has no effect at all: the result is that of
-- the messages before it.
pub listen-undecodable :
    (driver : Driver) (before after : List Incoming) (m : Incoming) (d : Database)
    → m.payload ≡ none
    → listen driver (before ++ m ∷ after) d ≡ listen driver before d
unfolding listen
listen-undecodable driver [] after m d h = listen_stop m.payload _ d h
listen-undecodable driver (x ∷ xs) after m d h = on_payload-ext x.payload _ _ d (λ p.
    listen-undecodable driver xs after m (dispatch driver x p (device_of (split x.topic)) d) h)
