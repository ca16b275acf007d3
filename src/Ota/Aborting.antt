-- ===== src/Ota/Aborting.antt =====
-- What `abort_rollout` does to the events.
use mdmfleetmanagement.Prelude.{
  String, Bool, true, false, List, [], ◌∷◌, sym, ◌∙◌, ◌≡◌, ◌≢◌, refl, arith, eq_iff, ◌==◌, ◌&&◌,
  if◌then◌else◌,
}
use mdmfleetmanagement.Prelude.Rows.{update_where, count_where}
use mdmfleetmanagement.Models.{OtaEvent}
use mdmfleetmanagement.Session.{Session, ok}
use mdmfleetmanagement.Ota.Select.{in_flight}
use mdmfleetmanagement.Ota.Rollout.{is_abortable, cancel, abort_rollout}

in_flight_cancelled : in_flight "cancelled" ≡ false
unfolding in_flight
in_flight_cancelled = refl

-- What an abort of version `v` makes of an event.
pub record IsAborted (v : String) (before after : OtaEvent) : Type 0 where
  pub same_event : (after.id ≡ before.id) × (after.device_id ≡ before.device_id)
  pub stopped : after.to_version ≡ v → in_flight after.status ≡ false
  pub finished_kept : in_flight before.status ≡ false → after ≡ before
  pub others_kept : before.to_version ≢ v → after ≡ before

abbrev pub ArePairs : (OtaEvent → OtaEvent → Type 0) → List OtaEvent → List OtaEvent → Type 0
ArePairs R [] [] = Unit
ArePairs R (x ∷ xs) (y ∷ ys) = R x y × ArePairs R xs ys
ArePairs R _ _ = ⊥

abort_stops :
    (v : String) (e : OtaEvent) (b c : Bool)
    → (e.to_version == v) ≡ b
    → in_flight e.status ≡ c
    → e.to_version ≡ v
    → in_flight (if b && c then cancel e else e).status ≡ false
abort_stops v e true true p q h = in_flight_cancelled
abort_stops v e true false p q h = q
abort_stops v e false c p q h = ground (arith, eq_iff e.to_version v)

to_version-abort : (b : Bool) (e : OtaEvent) → (if b then cancel e else e).to_version ≡ e.to_version
to_version-abort true e = refl
to_version-abort false e = refl

abort_event : (v : String) (e : OtaEvent) → IsAborted v e (if is_abortable v e then cancel e else e)
unfolding is_abortable
abort_event v e = record {
  same_event = ground arith;
  stopped = λ h.
      abort_stops v e (e.to_version == v) (in_flight e.status) refl refl
        (sym (to_version-abort (is_abortable v e) e) ∙ h);
  finished_kept = λ h. ground arith;
  others_kept = λ h. ground (arith, eq_iff e.to_version v);
}

abort_pairs :
    (v : String) (es : List OtaEvent)
    → ArePairs (IsAborted v) es (update_where (is_abortable v) cancel es)
abort_pairs v [] = tt
abort_pairs v (e ∷ es) = (abort_event v e, abort_pairs v es)

not_abortable :
    (v : String) (e : OtaEvent) (b : Bool)
    → is_abortable v e ≡ b
    → is_abortable v (if b then cancel e else e) ≡ false
unfolding is_abortable
not_abortable v e true p = ground (arith, in_flight_cancelled)
not_abortable v e false p = p

abort_counts :
    (v : String) (es : List OtaEvent)
    → count_where (is_abortable v) (update_where (is_abortable v) cancel es) ≡ 0
abort_counts v [] = refl
abort_counts v (e ∷ es) = rw (not_abortable v e (is_abortable v e) refl) (rw (abort_counts v es))

-- An abort of version `v` returns and commits; afterwards no event of `v` is in flight, while
-- events that were finished and events of other versions are as they were, each in its place.
-- The number returned is that of the events of `v` that were in flight, and a second abort
-- straight after cancels none.
pub abort_rollout_lem :
    (v : String) (s : Session)
    → let (r, s') = abort_rollout v s in
      (r ≡ ok (count_where (λ e. e.to_version == v && in_flight e.status) s.db.ota_events))
      × ArePairs (IsAborted v) s.db.ota_events s'.db.ota_events
      × (s'.committed ≡ s'.db)
      × ((abort_rollout v s').0 ≡ ok 0)
unfolding abort_rollout is_abortable
abort_rollout_lem v s =
    (refl, abort_pairs v s.db.ota_events, refl, rw (abort_counts v s.db.ota_events))
