-- ===== src/Models/Messages.antt =====
-- models/broadcast.py
use mdmfleetmanagement.Prelude.{ℕ, String, Option}

pub record Broadcast : Type 0 where
  pub id : ℕ
  pub community_id : String
  pub message : String
  pub type_name : String
  pub priority : String
  pub scheduled_at : Option ℕ
  pub sent_at : Option ℕ
  pub sent_by : Option String
  pub created_at : ℕ

pub record BroadcastAck : Type 0 where
  pub id : ℕ
  pub broadcast_id : ℕ
  pub home_id : String
  pub status : String
  pub received_at : Option ℕ
