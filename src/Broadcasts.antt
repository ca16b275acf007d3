-- ===== src/Broadcasts.antt =====
-- services/broadcast.py: notifications to the apps of a community, and their receipts. The push
-- function is an argument: whether the push succeeded.
pub mod Sending
use mdmfleetmanagement.Prelude.{
  ℕ, suc, ◌+◌, String, Bool, true, false, Option, none, some, List, [], ◌∷◌, ◌++◌, if◌then◌else◌,
  ◌==◌, ◌&&◌, leb, eqb, length, take, drop, is_none, is_empty, map,
}
use mdmfleetmanagement.Prelude.Rows.{find_where, any_where, select_where, count_where}
use mdmfleetmanagement.Prelude.Text.{has_text, text_or}
use mdmfleetmanagement.Models.{Database, Community, Home, HomeCommunity, Broadcast, BroadcastAck}
use mdmfleetmanagement.Session.{
  Action, http, integrity_error, pure, raise_if, or_raise, query, execute, commit, ◌>>=◌, ◌>>◌,
}

-- The arguments of `send` but for the communities (schemas/broadcast.py, BroadcastCreate).
pub record Notice : Type 0 where
  pub message : String
  pub msg_type : String
  pub priority : String
  pub scheduled_at : Option ℕ
  pub sent_by : Option String

unfoldable pub has_community_id : String → Community → Bool
has_community_id c x = x.community_id == c

-- broadcast.sent_at, which is set at once if no time is given
unfoldable pub sent_at_once : Option ℕ → ℕ → Option ℕ
sent_at_once none now = some now
sent_at_once (some t) now = none

unfoldable pub new_broadcast : Notice → ℕ → ℕ → String → Broadcast
new_broadcast n now id c = record {
  id = id;
  community_id = c;
  message = n.message;
  type_name = n.msg_type;
  priority = n.priority;
  scheduled_at = n.scheduled_at;
  sent_at = sent_at_once n.scheduled_at now;
  sent_by = n.sent_by;
  created_at = now;
}

-- The loop of `send`: unknown communities are skipped.
unfoldable pub new_broadcasts : List Community → Notice → ℕ → ℕ → List String → List Broadcast
new_broadcasts known n now id [] = []
new_broadcasts known n now id (c ∷ cs) =
    if any_where (has_community_id c) known
    then new_broadcast n now id c ∷ new_broadcasts known n now (suc id) cs
    else new_broadcasts known n now id cs

-- What is handed to the push function: topic, title, body, priority.
pub record Push : Type 0 where
  pub topic : String
  pub title : String
  pub body : String
  pub priority : String

-- community.name if community else broadcast.community_id
unfoldable pub title_of : Option Community → String → String
title_of none c = c
title_of (some x) c = x.name

-- _push_broadcast
unfoldable pub push_of : Database → Broadcast → Push
push_of d b = record {
  topic = b.community_id;
  title = title_of (find_where (has_community_id b.community_id) d.communities) b.community_id;
  body = b.message;
  priority = b.priority;
}

-- The pushes of the immediate broadcasts; a push that fails is logged.
unfoldable pub pushes : Option ℕ → Database → List Broadcast → List Push
pushes none d bs = map (push_of d) bs
pushes (some t) d bs = []

-- BroadcastService.send, with the pushes that it makes
unfoldable pub send : List String → Notice → ℕ → Action (List Broadcast × List Push)
send community_ids n now = do
  bs ← query (λ d. new_broadcasts d.communities n now d.next_id community_ids)
  execute (λ d. record d { broadcasts = d.broadcasts ++ bs; next_id = d.next_id + length bs })
  commit
  query (λ d. (bs, pushes n.scheduled_at d bs))

-- POST / of api/broadcast.py
unfoldable pub send_broadcast : List String → Notice → ℕ → Action (List Broadcast × List Push)
send_broadcast community_ids n now = do
  sent ← send community_ids n now
  raise_if (is_empty sent.0) (http 400)
  pure sent

unfoldable pub has_broadcast_id : ℕ → Broadcast → Bool
has_broadcast_id id b = eqb b.id id

unfoldable pub has_home_id : String → Home → Bool
has_home_id h x = x.home_id == h

-- BroadcastService.record_ack: none for an unknown broadcast; home_id is a foreign key.
unfoldable pub insert_ack : ℕ → String → String → Option ℕ → Bool → Action (Option BroadcastAck)
insert_ack broadcast_id home_id status received_at false = pure none
insert_ack broadcast_id home_id status received_at true = do
  known ← query (λ d. any_where (has_home_id home_id) d.homes)
  raise_if (if known then false else true) integrity_error
  ack ← query (λ d. record {
    id = d.next_id;
    broadcast_id = broadcast_id;
    home_id = home_id;
    status = status;
    received_at = received_at;
  })
  execute (λ d. record d { broadcast_acks = d.broadcast_acks ++ ack ∷ []; next_id = suc d.next_id })
  commit
  pure (some ack)

unfoldable pub record_ack : ℕ → String → String → Option ℕ → Action (Option BroadcastAck)
record_ack broadcast_id home_id status received_at = do
  known ← query (λ d. any_where (has_broadcast_id broadcast_id) d.broadcasts)
  insert_ack broadcast_id home_id status received_at known

pub record DeliveryStats : Type 0 where
  pub broadcast_id : ℕ
  pub total_targets : ℕ
  pub delivered_count : ℕ
  pub acks : List BroadcastAck

-- len(community.homes): the homes that home_community joins with the community
unfoldable pub homes_of : String → Database → List Home
homes_of c d =
    select_where
      (λ h. any_where (λ m. m.home_id == h.home_id && m.community_id == c) d.home_community) d.homes

unfoldable pub acks_of : ℕ → Database → List BroadcastAck
acks_of id d = select_where (λ a. eqb a.broadcast_id id) d.broadcast_acks

unfoldable pub stats_of : Database → Broadcast → DeliveryStats
stats_of d b = record {
  broadcast_id = b.id;
  total_targets =
      if any_where (has_community_id b.community_id) d.communities
      then length (homes_of b.community_id d)
      else 0;
  delivered_count = length (acks_of b.id d);
  acks = acks_of b.id d;
}

abbrev pub map_option : {A B : Type 0} → (A → B) → Option A → Option B
map_option f none = none
map_option f (some a) = some (f a)

-- get_delivery_stats: none is the empty dict
unfoldable pub get_delivery_stats : ℕ → Action (Option DeliveryStats)
get_delivery_stats id =
    query (λ d. map_option (stats_of d) (find_where (has_broadcast_id id) d.broadcasts))

-- ORDER BY created_at DESC
unfoldable pub insert_newest : Broadcast → List Broadcast → List Broadcast
insert_newest b [] = b ∷ []
insert_newest b (a ∷ bs) =
    if leb a.created_at b.created_at then b ∷ a ∷ bs else a ∷ insert_newest b bs

unfoldable pub newest_first : List Broadcast → List Broadcast
newest_first [] = []
newest_first (b ∷ bs) = insert_newest b (newest_first bs)

-- BroadcastService.get_all
unfoldable pub get_all : Option String → ℕ → ℕ → Action (List Broadcast)
get_all c skip limit = query (λ d. take limit (
    drop skip (
      newest_first (
        if has_text c
        then select_where (λ b. b.community_id == text_or c "") d.broadcasts
        else d.broadcasts))))
