-- ===== src/Games.antt =====
-- games/: what the controller reads of a game's definition (registry.go, store.go).
use game_janitor.Base.{
  ℕ, String, Bool, true, false, List, ◌==◌, if◌then◌else◌, Option, none, some, lookup, is_some,
}
use game_janitor.Model.{PortMapping}

pub data SteamLoginType : Type 0 where
  login_anonymous login_account login_ownership : SteamLoginType

-- RequiresAuth
unfoldable pub requires_auth : SteamLoginType → Bool
requires_auth login_anonymous = false
requires_auth login_account = true
requires_auth login_ownership = true

pub record EnvVar : Type 0 where
  pub key : String
  pub default : String
  pub label : String
  pub required : Bool
  pub consent_required : Bool
  pub autogenerate : String
  pub system : Bool
  pub triggers_install : Bool

pub record Game : Type 0 where
  pub id : String
  pub app_id : ℕ
  pub server_app_id : ℕ
  pub steam_login : SteamLoginType
  pub default_ports : List PortMapping
  pub default_env : List EnvVar

-- DepotAppID
unfoldable pub depot_app_id : Game → ℕ
depot_app_id g = if g.server_app_id == 0 then g.app_id else g.server_app_id

-- GameStore: the games by their ids, and the ids that aliases stand for.
pub record GameStore : Type 0 where
  pub games : List (String × Game)
  pub aliases : List (String × String)

real_id : GameStore → String → Option String
real_id store id = lookup id store.aliases

-- ResolveGameID
unfoldable pub resolve_game_id : GameStore → String → String
unfolding real_id
resolve_game_id store id =
    if is_some (lookup id store.games)
    then id
    else elim (real_id store id) [ none ↦ id | some real ↦ real ]

-- GetGame
unfoldable pub get_game : GameStore → String → Option Game
unfolding real_id
get_game store id = elim (lookup id store.games) [
  | some g ↦ some g
  | none ↦ elim (real_id store id) [ none ↦ none | some real ↦ lookup real store.games ]
]
