-- ===== src/Broadcasts/Sending.antt =====
-- What `send` stores and pushes.
use mdmfleetmanagement.Prelude.{
  ℕ, String, Bool, List, [], ◌++◌, map, ◌≡◌, if◌then◌else◌, is_none, All,
}
use mdmfleetmanagement.Prelude.Rows.{any_where, select_where}
use mdmfleetmanagement.Models.{Community, Broadcast}
use mdmfleetmanagement.Session.{Session}
use mdmfleetmanagement.Broadcasts.{Notice, Push, has_community_id, sent_at_once}

abbrev pub is_known : List Community → String → Bool
is_known known c = any_where (has_community_id c) known

-- A broadcast of the notice, with all that the notice says: sent at once exactly when no time is set.
pub record IsBroadcastOf (n : Notice) (now : ℕ) (b : Broadcast) : Type 0 where
  pub message : b.message ≡ n.message
  pub kind : b.type_name ≡ n.msg_type
  pub sender : b.sent_by ≡ n.sent_by
  pub created : b.created_at ≡ now
  pub priority : b.priority ≡ n.priority
  pub scheduled : b.scheduled_at ≡ n.scheduled_at
  pub sent : b.sent_at ≡ sent_at_once n.scheduled_at now

-- A push of the notice.
abbrev pub IsPushOf : Notice → Push → Type 0
IsPushOf n p = (p.body ≡ n.message) × (p.priority ≡ n.priority)

-- What a call of `send` returns and stores, and for which topics it pushes.
pub record IsSent (cs : List String) (n : Notice) (now : ℕ) (s s' : Session) (bs : List Broadcast)
    (ps : List Push) : Type 0 where
  pub targets :
      map (λ (b : Broadcast). b.community_id) bs ≡ select_where (is_known s.db.communities) cs
  pub content : All (IsBroadcastOf n now) bs
  pub stored : s'.committed.broadcasts ≡ s.db.broadcasts ++ bs
  pub topics :
      map (λ (p : Push). p.topic) ps
      ≡ (if is_none n.scheduled_at then select_where (is_known s.db.communities) cs else [])
  pub pushed : All (IsPushOf n) ps
