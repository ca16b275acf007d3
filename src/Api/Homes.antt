-- ===== src/Api/Homes.antt =====
-- api/homes.py with schemas/home.py: homes, and the communities that a home belongs to.
pub mod Leaving
use mdmfleetmanagement.Prelude.{
  ℕ, String, Bool, not, Option, none, some, List, ◌==◌, ◌&&◌, eq_sql, is_some, leb, take, drop,
}
use mdmfleetmanagement.Prelude.Rows.{
  find_where, any_where, select_where, update_where, delete_where,
}
use mdmfleetmanagement.Models.{Database, Device, Home, Community, HomeCommunity, BroadcastAck}
use mdmfleetmanagement.Session.{
  Action, http, integrity_error, pure, raise_if, or_raise, query, execute, commit, ◌>>=◌, ◌>>◌,
}
use mdmfleetmanagement.Broadcasts.{has_home_id}
use mdmfleetmanagement.Mqtt.Registration.{add_home}
use mdmfleetmanagement.Repositories.Home.{assign_community, remove_community}
use mdmfleetmanagement.Api.Patch.{Patch, patch_column, patch_text, is_nulled}

pub record HomeUpdate : Type 0 where
  pub patient_name : Patch
  pub address : Patch

pub record HomeWithCommunities : Type 0 where
  pub home : Home
  pub communities : List Community

-- Query(50, ge=1, le=200)
unfoldable pub is_limit : ℕ → Bool
is_limit n = leb 1 n && leb n 200

-- GET /
unfoldable pub list_homes : ℕ → ℕ → Action (List Home)
list_homes skip limit = do
  raise_if (not (is_limit limit)) (http 422)
  query (λ d. take limit (drop skip d.homes))

-- Home.communities: those that home_community joins with the home.
unfoldable pub communities_of : String → Database → List Community
communities_of h d =
    select_where
      (λ c. any_where (λ m. m.home_id == h && m.community_id == c.community_id) d.home_community)
      d.communities

-- HomeRepository.get_with_communities
unfoldable pub with_communities : Database → Option Home → Option HomeWithCommunities
with_communities d none = none
with_communities d (some x) = some (record { home = x; communities = communities_of x.home_id d })

unfoldable pub get_with_communities : String → Action (Option HomeWithCommunities)
get_with_communities h = query (λ d. with_communities d (find_where (has_home_id h) d.homes))

-- GET /{home_id}
unfoldable pub get_home : String → Action HomeWithCommunities
get_home h = do or_raise (← get_with_communities h) (http 404)

-- GET /{home_id}/communities
unfoldable pub list_home_communities : String → Action (List Community)
list_home_communities h = do x ← get_home h; pure x.communities

-- POST /, for the payload as a row
unfoldable pub create_home : Home → Action Home
create_home x = do
  raise_if (is_some (← query (λ d. find_where (has_home_id x.home_id) d.homes))) (http 409)
  execute (add_home x)
  commit
  pure x

unfoldable pub patched_home : HomeUpdate → Home → Home
patched_home p x = record x {
  patient_name = patch_text p.patient_name x.patient_name;
  address = patch_column p.address x.address;
}

abbrev write_home : String → (Home → Home) → Database → Database
write_home h f d = record d { homes = update_where (has_home_id h) f d.homes }

-- PATCH /{home_id}: a name may not be null.
unfoldable pub update_home : String → HomeUpdate → Action Home
update_home h p = do
  x ← or_raise (← query (λ d. find_where (has_home_id h) d.homes)) (http 404)
  raise_if (is_nulled p.patient_name) integrity_error
  execute (write_home h (patched_home p))
  commit
  pure (patched_home p x)

unfoldable pub lives_in : String → Device → Bool
lives_in h x = eq_sql x.home_id h

abbrev pub moved_out : Device → Device
moved_out x = record x { home_id = none }

unfoldable pub is_of_home : String → HomeCommunity → Bool
is_of_home h m = m.home_id == h

unfoldable pub is_ack_of : String → BroadcastAck → Bool
is_ack_of h a = a.home_id == h

-- What the session does for `delete`: the devices of the home lose it, its rows in home_community
-- go, then its own.
unfoldable pub remove_home : String → Database → Database
remove_home h d = record d {
  homes = delete_where (has_home_id h) d.homes;
  devices = update_where (lives_in h) moved_out d.devices;
  home_community = delete_where (is_of_home h) d.home_community;
}

-- DELETE /{home_id}: the foreign key of broadcast_acks refuses a home that has receipts.
unfoldable pub delete_home : String → Action (Unit {0})
delete_home h = do
  or_raise (← query (λ d. find_where (has_home_id h) d.homes)) (http 404)
  raise_if (← query (λ d. any_where (is_ack_of h) d.broadcast_acks)) integrity_error
  execute (remove_home h)
  commit

-- POST /{home_id}/communities/{community_id}
unfoldable pub assign_home : String → String → Action (Unit {0})
assign_home h c = do found ← assign_community h c; raise_if (not found) (http 404)

-- DELETE /{home_id}/communities/{community_id}
unfoldable pub unassign_home : String → String → Action (Unit {0})
unassign_home h c = do found ← remove_community h c; raise_if (not found) (http 404)
