-- ===== src/Api/Reads.antt =====
-- Requests that only read.
use mdmfleetmanagement.Prelude.{
  ℕ, String, Bool, true, false, Option, none, some, List, [], ◌∷◌, ◌≡◌,
}
use mdmfleetmanagement.Prelude.Int.{ℤ, pos, negsuc}
use mdmfleetmanagement.Session.{Session, Action, http}
use mdmfleetmanagement.Session.Stays.{Stays, Stays-pure, Stays-raise, Stays-bind, staying}
use mdmfleetmanagement.Auth.Tokens.{Crypto, Claims}
use mdmfleetmanagement.Auth.Guards.{
  Credentials, user_of_claims, require_active, guard_claims, require_role, user_of_token,
  get_current_user, or_401, require_auth,
}
use mdmfleetmanagement.Models.{User}
use mdmfleetmanagement.Ota.Select.{Rollout, limit, select_devices, require_firmware, get_by_version}
use mdmfleetmanagement.Ota.Preview.{preview_rollout}
use mdmfleetmanagement.Ota.Campaigns.{get_events, get_campaigns}
use mdmfleetmanagement.Broadcasts.{get_delivery_stats, get_all}
use mdmfleetmanagement.DeviceGroups.Members.{find_group, get_group}
use mdmfleetmanagement.Repositories.Home.{get_homes}
use mdmfleetmanagement.Api.Devices.{list_devices, list_facet, get_device}
use mdmfleetmanagement.Api.Homes.{list_homes, get_home, get_with_communities, list_home_communities}
use mdmfleetmanagement.Api.Communities.{list_communities, get_community, list_community_homes}
use mdmfleetmanagement.Api.Listings.{
  list_users, list_broadcasts, get_broadcast, list_firmware, get_firmware, list_groups,
  list_scheduled,
}
use mdmfleetmanagement.Api.Rollouts.{or_400}
use mdmfleetmanagement.Api.Rollouts
use mdmfleetmanagement.Api.Provisioning.{get_job, download_firmware}
use mdmfleetmanagement.Api.Requests.{Request}
use mdmfleetmanagement.Api.Handle.{
  Server, Guard, role, authenticated, current, guards, admit, pass, with_user, endpoint, handle,
}

-- The requests by GET, and the dry run of a rollout.
unfoldable pub is_read : Request → Bool
is_read Request.verify = true
is_read Request.get_me = true
is_read Request.list_users = true
is_read (Request.list_devices _) = true
is_read (Request.list_facet _) = true
is_read (Request.get_device _) = true
is_read (Request.list_homes _ _) = true
is_read (Request.get_home _) = true
is_read (Request.list_home_communities _) = true
is_read (Request.list_communities _ _) = true
is_read (Request.get_community _) = true
is_read (Request.list_community_homes _) = true
is_read (Request.list_broadcasts _ _ _) = true
is_read (Request.get_broadcast _) = true
is_read Request.list_firmware = true
is_read (Request.get_firmware _) = true
is_read (Request.preview_rollout _) = true
is_read (Request.list_events _) = true
is_read (Request.list_campaigns _) = true
is_read Request.list_groups = true
is_read (Request.get_group _) = true
is_read Request.list_scheduled = true
is_read (Request.get_job _) = true
is_read (Request.download_firmware _) = true
is_read (Request.get_manifest _) = true
is_read _ = false

Stays-require_active : (o : Option User) → Stays (require_active o)
unfolding require_active
Stays-require_active none = Stays-raise (http 401)
Stays-require_active (some u) = search staying

Stays-user_of_claims : (k : Claims) → Stays (user_of_claims k)
unfolding user_of_claims
Stays-user_of_claims k = search (staying, Stays-require_active)

Stays-guard_claims : (roles : List String) (o : Option Claims) → Stays (guard_claims roles o)
unfolding guard_claims
Stays-guard_claims roles none = Stays-raise (http 401)
Stays-guard_claims roles (some k) = search (staying, Stays-user_of_claims)

pub Stays-require_role :
    (crypto : Crypto) (roles : List String) (now : ℕ) (c : Credentials)
    → Stays (require_role crypto roles now c)
unfolding require_role
Stays-require_role crypto roles now c = search (staying, Stays-guard_claims)

Stays-user_of_token : (o : Option Claims) → Stays (user_of_token o)
unfolding user_of_token
Stays-user_of_token none = Stays-raise (http 401)
Stays-user_of_token (some k) = Stays-user_of_claims k

pub Stays-get_current_user :
    (crypto : Crypto) (now : ℕ) (c : Credentials) → Stays (get_current_user crypto now c)
unfolding get_current_user
Stays-get_current_user crypto now c = search (staying, Stays-user_of_token)

Stays-or_401 : (o : Option User) → Stays (or_401 o)
unfolding or_401
Stays-or_401 none = Stays-raise (http 401)
Stays-or_401 (some u) = Stays-pure u

pub Stays-require_auth :
    (crypto : Crypto) (now : ℕ) (c : Credentials) → Stays (require_auth crypto now c)
unfolding require_auth
Stays-require_auth crypto now c = search (staying, Stays-get_current_user, Stays-or_401)

pub Stays-admit : (env : Server) (c : Credentials) (g : Guard) → Stays (admit env c g)
unfolding admit
Stays-admit env c (role roles) = search (staying, Stays-require_role)
Stays-admit env c authenticated = search (staying, Stays-require_auth)
Stays-admit env c current = Stays-get_current_user env.crypto env.now c

-- The guards write nothing.
pub Stays-pass :
    (env : Server) (c : Credentials) (gs : List Guard) (u : Option User) → Stays (pass env c gs u)
unfolding pass
Stays-pass env c [] u = Stays-pure u
Stays-pass env c (g ∷ gs) u = search (staying, Stays-admit, Stays-pass env c gs)

Stays-with_user :
    {A : Type 0} (u : Option User) (f : User → Action A)
    → ((v : User) → Stays (f v))
    → Stays (with_user u f)
unfolding with_user
Stays-with_user none f k = Stays-raise (http 401)
Stays-with_user (some u) f k = k u

Stays-limit : {A : Type 0} (n : ℤ) (xs : List A) → Stays (limit n xs)
unfolding limit
Stays-limit (pos n) xs = search staying
Stays-limit (negsuc n) xs = search staying

Stays-preview_rollout : (r : Rollout) → Stays (preview_rollout r)
unfolding preview_rollout select_devices require_firmware get_by_version
Stays-preview_rollout r = search (staying, Stays-limit)

Stays-or_400 : {A : Type 0} (m : Action A) → Stays m → Stays (or_400 m)
unfolding or_400
Stays-or_400 m k = record { same = λ s. k.same s }

ruleset reading = (staying, Stays-with_user, Stays-limit, Stays-preview_rollout, Stays-or_400)

pub Stays-endpoint :
    (env : Server) (u : Option User) (r : Request) → is_read r ≡ true → Stays (endpoint env u r)
unfolding endpoint is_read list_devices list_facet get_device list_homes get_home
    get_with_communities list_home_communities list_communities get_community list_community_homes
    get_homes list_broadcasts get_all get_broadcast get_delivery_stats list_firmware get_firmware
    get_by_version list_users list_groups find_group get_group list_scheduled get_events
    get_campaigns get_job download_firmware Rollouts.preview_rollout
Stays-endpoint env u Request.verify h = search reading
Stays-endpoint env u Request.get_me h = search reading
Stays-endpoint env u Request.list_users h = search reading
Stays-endpoint env u (Request.list_devices a) h = search reading
Stays-endpoint env u (Request.list_facet a) h = search reading
Stays-endpoint env u (Request.get_device a) h = search reading
Stays-endpoint env u (Request.list_homes a b) h = search reading
Stays-endpoint env u (Request.get_home a) h = search reading
Stays-endpoint env u (Request.list_home_communities a) h = search reading
Stays-endpoint env u (Request.list_communities a b) h = search reading
Stays-endpoint env u (Request.get_community a) h = search reading
Stays-endpoint env u (Request.list_community_homes a) h = search reading
Stays-endpoint env u (Request.list_broadcasts a b e) h = search reading
Stays-endpoint env u (Request.get_broadcast a) h = search reading
Stays-endpoint env u Request.list_firmware h = search reading
Stays-endpoint env u (Request.get_firmware a) h = search reading
Stays-endpoint env u (Request.preview_rollout a) h = search reading
Stays-endpoint env u (Request.list_events a) h = search reading
Stays-endpoint env u (Request.list_campaigns a) h = search reading
Stays-endpoint env u Request.list_groups h = search reading
Stays-endpoint env u (Request.get_group a) h = search reading
Stays-endpoint env u Request.list_scheduled h = search reading
Stays-endpoint env u (Request.get_job a) h = search reading
Stays-endpoint env u (Request.download_firmware a) h = search reading
Stays-endpoint env u (Request.get_manifest a) h = search reading
Stays-endpoint env u _ h = cc

-- A GET request, and the dry run of a rollout, leave the database and the messages as they are,
-- whoever sends it and whatever comes of it.
pub handle_read :
    (env : Server) (c : Credentials) (r : Request) (s : Session)
    → is_read r ≡ true
    → (handle env c r s).1 ≡ s
unfolding handle
handle_read env c r s h =
    (Stays-bind (pass env c (guards r) none) (λ u. endpoint env u r)
        (Stays-pass env c (guards r) none) (λ u. Stays-endpoint env u r h)).same
      s
