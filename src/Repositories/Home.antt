-- ===== src/Repositories/Home.antt =====
-- repositories/home.py and community.py: which homes belong to which communities.
use mdmfleetmanagement.Prelude.{
  String, Bool, true, false, List, [], ◌∷◌, ◌++◌, if◌then◌else◌, ◌==◌, ◌&&◌,
}
use mdmfleetmanagement.Prelude.Rows.{any_where, delete_where}
use mdmfleetmanagement.Models.{Home, HomeCommunity}
use mdmfleetmanagement.Session.{
  Action, integrity_error, pure, raise_if, query, execute, commit, ◌>>=◌, ◌>>◌,
}
use mdmfleetmanagement.Broadcasts.{has_home_id, has_community_id, homes_of}

unfoldable pub is_assignment : String → String → HomeCommunity → Bool
is_assignment h c m = m.home_id == h && m.community_id == c

unfoldable pub insert_assignment : String → String → Bool → Action Bool
insert_assignment h c false = pure false
insert_assignment h c true = do
  raise_if (← query (λ d. any_where (is_assignment h c) d.home_community)) integrity_error
  execute (λ d. record d {
    home_community = d.home_community ++ record { home_id = h; community_id = c } ∷ [];
  })
  commit
  pure true

-- HomeRepository.assign_community; the pair is the table's primary key.
unfoldable pub assign_community : String → String → Action Bool
assign_community h c = do
  known ←
      query (λ d. any_where (has_home_id h) d.homes && any_where (has_community_id c) d.communities)
  insert_assignment h c known

-- HomeRepository.remove_community: whether a row was deleted.
unfoldable pub remove_community : String → String → Action Bool
remove_community h c = do
  found ← query (λ d. any_where (is_assignment h c) d.home_community)
  execute (λ d. record d { home_community = delete_where (is_assignment h c) d.home_community })
  commit
  pure found

-- CommunityRepository.get_homes
unfoldable pub get_homes : String → Action (List Home)
get_homes c = query (λ d. if any_where (has_community_id c) d.communities then homes_of c d else [])
