-- ===== src/Scheduler/DeadDevices.antt =====
-- tasks/scheduler.py, check_dead_devices: devices that were not heard of for a minute are dead.
use mdmfleetmanagement.Prelude.{
  ℕ, ◌+◌, ◌*◌, String, Bool, false, Option, none, some, List, map, ◌==◌, ◌&&◌, ltb,
}
use mdmfleetmanagement.Prelude.Rows.{select_where, update_where}
use mdmfleetmanagement.Models.{Device}
use mdmfleetmanagement.Session.{Action, pure, query, execute, commit, ◌>>=◌, ◌>>◌}

abbrev pub dead_threshold : ℕ
dead_threshold = 60 * 1_000_000

-- last_seen < now - threshold, which is not true of NULL
unfoldable pub seen_before : ℕ → Option ℕ → Bool
seen_before now none = false
seen_before now (some t) = ltb (t + dead_threshold) now

unfoldable pub is_silent : ℕ → Device → Bool
is_silent now x = x.status == "alive" && seen_before now x.last_seen

abbrev pub bury : Device → Device
bury x = record x { status = "dead" }

-- check_dead_devices: the ids that it returns are those that it hands to the alert service.
unfoldable pub check_dead_devices : ℕ → Action (List String)
check_dead_devices now = do
  dead_ids ← query (λ d. map (λ x. x.device_id) (select_where (is_silent now) d.devices))
  execute (λ d. record d { devices = update_where (is_silent now) bury d.devices })
  commit
  pure dead_ids
