-- ===== src/Api/Receipts.antt =====
-- api/broadcast.py, the receipt of a notification by a mobile app.
use mdmfleetmanagement.Prelude.{ℕ, String, Option, is_none}
use mdmfleetmanagement.Prelude.Int.{ℤ}
use mdmfleetmanagement.Session.{Action, http, raise_if, ◌>>=◌}
use mdmfleetmanagement.Broadcasts.{record_ack}

-- schemas/broadcast.py, BroadcastAckCreate
pub record BroadcastAckCreate : Type 0 where
  pub msg_id : ℤ
  pub status : String
  pub received_at : Option ℕ

-- POST /{broadcast_id}/ack; `str` writes a number in decimal.
unfoldable pub acknowledge_broadcast : (ℤ → String) → ℕ → BroadcastAckCreate → Action (Unit {0})
acknowledge_broadcast str id p = do
  ack ← record_ack id (str p.msg_id) p.status p.received_at
  raise_if (is_none ack) (http 404)
