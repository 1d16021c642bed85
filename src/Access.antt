-- ===== src/Access.antt =====
-- Who may do what: tokens and grants (model/token.go, controller/auth/auth.go), the middleware that
-- guards routes (api/middleware.go), and the scoping of Manager.List
-- (controller/gameserver/manager.go). A request carries no token where authentication is off.
pub mod Laws
pub mod Listing
mod Tests
use game_janitor.Base.{
  ℕ, String, Bool, true, false, ◌&&◌, ◌||◌, not, Option, none, some, List, [], ◌∷◌, ◌++◌, map, keep,
  any, if◌then◌else◌, is_empty, str_eq, str_elem, lookup, is_some, ◌≡◌,
}
use game_janitor.Model.{
  Gameserver, DesiredState, desired_stopped, desired_running, desired_archived,
}
use game_janitor.Store.{
  Store, find_gameserver, owner_query, grants_query, owned_query, granted_query,
}

pub data Role : Type 0 where
  role_admin role_user role_worker : Role

-- model.Token, as far as the checks read it.
pub record Token : Type 0 where
  pub id : String
  pub role : Role
  pub can_create : Bool
  pub max_gameservers : Option ℕ
  pub max_memory_mb : Option ℕ
  pub max_cpu : Option ℕ
  pub max_storage_mb : Option ℕ

abbrev is_admin_role : Role → Bool
is_admin_role role_admin = true
is_admin_role _ = false

-- IsAdmin
unfoldable pub is_admin : Option Token → Bool
is_admin none = false
is_admin (some t) = is_admin_role t.role

-- HasGrantPermission
unfoldable pub has_grant_permission : List String → String → Bool
has_grant_permission perms permission = is_empty perms || str_elem permission perms

-- IntersectIDs
pub intersect_ids : List String → List String → List String
intersect_ids requested allowed =
    if is_empty allowed
    then requested
    else if is_empty requested
    then allowed
    else keep (λ id. str_elem id allowed) requested

-- GetGameserverOwner: the owner of a gameserver, none on an error as well, which callers treat alike.
abbrev pub owner_of : Gameserver → Option String
owner_of gs = gs.created_by_token_id

pub get_gameserver_owner : Store → String → Option String
get_gameserver_owner s id =
    if s.fails owner_query
    then none
    else elim (find_gameserver id s.gameservers) [ none ↦ none | some gs ↦ owner_of gs ]

-- GetGameserverGrants, likewise.
pub get_gameserver_grants : Store → String → Option (List (String × List String))
get_gameserver_grants s id =
    if s.fails grants_query
    then none
    else elim (find_gameserver id s.gameservers) [ none ↦ none | some gs ↦ some gs.grants ]

abbrev pub is_owner : Store → Token → String → Bool
is_owner s t id = elim (get_gameserver_owner s id) [ none ↦ false | some owner ↦ str_eq owner t.id ]

-- The permissions that a token is granted on a gameserver.
abbrev pub granted : Store → Token → String → Option (List String)
granted s t id = elim (get_gameserver_grants s id) [
  | none ↦ none
  | some grants ↦ lookup t.id grants
]

-- The request is served, or answered with 403.
pub data Guarded : Type 0 where
  served forbidden : Guarded

abbrev guard_by : Bool → Guarded
guard_by true = served
guard_by false = forbidden

-- RequireAdmin
pub require_admin : Option Token → Guarded
unfolding is_admin
require_admin none = served
require_admin (some t) = guard_by (is_admin (some t))

-- RequireClusterPermission
pub require_cluster_permission : String → Option Token → Guarded
require_cluster_permission permission none = served
require_cluster_permission permission (some t) =
    guard_by (is_admin (some t) || str_eq permission "gameserver.create" && t.can_create)

-- RequirePermission, for the gameserver of the route, where gameservers can be queried.
pub require_permission : Store → String → String → Option Token → Guarded
require_permission s permission id none = served
require_permission s permission id (some t) =
    if is_admin (some t)
    then served
    else if str_eq id ""
    then forbidden
    else if is_owner s t id
    then served
    else elim (granted s t id) [
      | none ↦ forbidden
      | some perms ↦ guard_by (has_grant_permission perms permission)
    ]

-- RequireGameserverAccess with tokenCanAccessGameserver
pub token_can_access_gameserver : Store → Token → String → Bool
token_can_access_gameserver s t id = is_owner s t id || is_some (granted s t id)

pub require_gameserver_access : Store → String → Option Token → Guarded
unfolding token_can_access_gameserver
require_gameserver_access s id none = served
require_gameserver_access s id (some t) =
    if is_admin (some t)
    then served
    else if str_eq id ""
    then forbidden
    else guard_by (token_can_access_gameserver s t id)

-- ListGameserverIDsByToken and ListGrantedGameserverIDs; none is an error.
abbrev owned_by : Token → Gameserver → Bool
owned_by t gs = elim gs.created_by_token_id [ none ↦ false | some owner ↦ str_eq owner t.id ]

abbrev grants_to : Token → Gameserver → Bool
grants_to t gs = is_some (lookup t.id gs.grants)

pub list_owned : Store → Token → Option (List String)
list_owned s t =
    if s.fails owned_query then none else some (map (λ gs. gs.id) (keep (owned_by t) s.gameservers))

pub list_granted : Store → Token → Option (List String)
list_granted s t =
    if s.fails granted_query
    then none
    else some (map (λ gs. gs.id) (keep (grants_to t) s.gameservers))

-- model.GameserverFilter, but for its pages.
pub record Filter : Type 0 where
  pub game_id : Option String
  pub desired_state : Option DesiredState
  pub node_id : Option String
  pub ids : List String

same_state : DesiredState → DesiredState → Bool
same_state desired_stopped desired_stopped = true
same_state desired_running desired_running = true
same_state desired_archived desired_archived = true
same_state _ _ = false

matches {ℓ} : {A : Type ℓ} → (A → Bool) → Option A → Bool
matches test none = true
matches test (some a) = test a

-- The loop of Manager.List over the specs of the gameservers in memory.
pub passes : Filter → Gameserver → Bool
unfolding same_state matches
passes f gs =
    matches (λ g. str_eq gs.game_id g) f.game_id
    && matches (λ d. same_state gs.desired_state d) f.desired_state
    && matches (λ n. elim gs.node_id [ none ↦ false | some m ↦ str_eq m n ]) f.node_id
    && (is_empty f.ids || str_elem gs.id f.ids)

-- What is listed for a token that is not an admin's, of which `visible` are the ids.
list_visible : List Gameserver → Filter → List String → List Gameserver
list_visible specs f visible =
    let ids = intersect_ids f.ids visible in
    if is_empty visible
    then []
    else if is_empty ids
    then []
    else keep (passes (record f { ids = ids })) specs

-- Manager.List; the fields of a snapshot that are derived for display are left out.
pub list : Store → List Gameserver → Filter → Option Token → Option (List Gameserver)
unfolding list_visible
list s specs f none = some (keep (passes f) specs)
list s specs f (some t) =
    if is_admin (some t) then some (keep (passes f) specs) else elim (list_owned s t) [
      | none ↦ none
      | some owned ↦ elim (list_granted s t) [
        | none ↦ none
        | some others ↦ some (list_visible specs f (owned ++ others))
      ]
    ]
