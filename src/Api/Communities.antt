-- ===== src/Api/Communities.antt =====
-- api/communities.py with schemas/community.py: communities and their homes.
use mdmfleetmanagement.Prelude.{
  ℕ, String, Bool, not, List, [], ◌∷◌, ◌++◌, ◌==◌, ◌&&◌, is_none, is_some, is_empty, take, drop,
}
use mdmfleetmanagement.Prelude.Rows.{find_where, any_where, update_where, delete_where}
use mdmfleetmanagement.Models.{Database, Home, Community, HomeCommunity, Broadcast}
use mdmfleetmanagement.Session.{
  Action, http, integrity_error, pure, raise_if, or_raise, query, execute, commit, ◌>>=◌, ◌>>◌,
}
use mdmfleetmanagement.Broadcasts.{has_community_id}
use mdmfleetmanagement.Repositories.Home.{get_homes}
use mdmfleetmanagement.Api.Patch.{Patch, patch_column, patch_text, is_nulled}
use mdmfleetmanagement.Api.Homes.{is_limit}

pub record CommunityUpdate : Type 0 where
  pub name : Patch
  pub description : Patch

-- GET /
unfoldable pub list_communities : ℕ → ℕ → Action (List Community)
list_communities skip limit = do
  raise_if (not (is_limit limit)) (http 422)
  query (λ d. take limit (drop skip d.communities))

-- GET /{community_id}
unfoldable pub get_community : String → Action Community
get_community c = do
  or_raise (← query (λ d. find_where (has_community_id c) d.communities)) (http 404)

abbrev add_community : Community → Database → Database
add_community x d = record d { communities = d.communities ++ x ∷ [] }

-- POST /, for the payload as a row
unfoldable pub create_community : Community → Action Community
create_community x = do
  raise_if (is_some (← query (λ d. find_where (has_community_id x.community_id) d.communities)))
      (http 409)
  execute (add_community x)
  commit
  pure x

unfoldable pub patched_community : CommunityUpdate → Community → Community
patched_community p x = record x {
  name = patch_text p.name x.name;
  description = patch_column p.description x.description;
}

abbrev write_community : String → (Community → Community) → Database → Database
write_community c f d = record d { communities = update_where (has_community_id c) f d.communities }

-- PATCH /{community_id}: a name may not be null.
unfoldable pub update_community : String → CommunityUpdate → Action Community
update_community c p = do
  x ← get_community c
  raise_if (is_nulled p.name) integrity_error
  execute (write_community c (patched_community p))
  commit
  pure (patched_community p x)

unfoldable pub is_of_community : String → HomeCommunity → Bool
is_of_community c m = m.community_id == c

unfoldable pub is_sent_to : String → Broadcast → Bool
is_sent_to c b = b.community_id == c

-- The rows in home_community go with the row.
unfoldable pub remove_community_row : String → Database → Database
remove_community_row c d = record d {
  communities = delete_where (has_community_id c) d.communities;
  home_community = delete_where (is_of_community c) d.home_community;
}

-- DELETE /{community_id}: the foreign key of broadcasts refuses one that has broadcasts.
unfoldable pub delete_community : String → Action (Unit {0})
delete_community c = do
  get_community c
  raise_if (← query (λ d. any_where (is_sent_to c) d.broadcasts)) integrity_error
  execute (remove_community_row c)
  commit

-- GET /{community_id}/homes
unfoldable pub list_community_homes : String → Action (List Home)
list_community_homes c = do
  homes ← get_homes c
  known ← query (λ d. find_where (has_community_id c) d.communities)
  raise_if (is_empty homes && is_none known) (http 404)
  pure homes
