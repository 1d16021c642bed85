-- ===== src/Access/Tests.antt =====
-- Runs of the guards and of the listing for one user token.
use game_janitor.Base.{
  true, false, none, some, [], ◌∷◌, ◌++◌, ◌≡◌, ◌≢◌, ◌↔◌, ◌⊎◌, All, str_elem, refl, lookup,
}
use game_janitor.Model.{Gameserver, desired_running, no_error}
use game_janitor.Store.{Store, find_gameserver}
use game_janitor.Access.{
  Token, role_admin, role_user, Filter, served, require_permission, list, list_owned, list_granted,
  is_admin, intersect_ids, get_gameserver_owner, get_gameserver_grants, has_grant_permission,
  list_visible, passes,
}
use game_janitor.Access.Laws.{require_permission-IsPermitted, IsPermitted}
use game_janitor.Access.Listing.{list-IsVisible}

abbrev server : Gameserver
server = record {
  id = "a";
  name = "server";
  game_id = "cs";
  volume_name = "gamejanitor-a";
  ports = [];
  env = [];
  memory_limit_mb = 512;
  cpu_limit = 500;
  cpu_enforced = false;
  port_mode = "auto";
  node_id = some "n1";
  backup_limit = none;
  storage_limit_mb = none;
  node_tags = [];
  auto_restart = none;
  connection_address = none;
  applied_config = none;
  desired_state = desired_running;
  created_by_token_id = some "t2";
  grants = ("t1", "gameserver.start" ∷ []) ∷ [];
  sftp_username = "server";
  hashed_sftp_password = "";
  instance_id = none;
  installed = true;
  error_reason = no_error;
}

abbrev hidden : Gameserver
hidden = record server { id = "b"; grants = [] }

abbrev database : Store
database = record { gameservers = server ∷ hidden ∷ []; nodes = []; fails = λ q. false }

abbrev user : Token
user = record {
  id = "t1";
  role = role_user;
  can_create = false;
  max_gameservers = none;
  max_memory_mb = none;
  max_cpu = none;
  max_storage_mb = none;
}

require_permission-IsPermitted_example :
    (require_permission database "gameserver.start" "a" (some user) ≡ served) ↔ (
      (user.role ≡ role_admin)
      ⊎ ((server.id ≢ "") × IsPermitted database user "gameserver.start" "a"))
require_permission-IsPermitted_example =
    require_permission-IsPermitted database "gameserver.start" "a" user

may_start : require_permission database "gameserver.start" "a" (some user) ≡ served
unfolding require_permission get_gameserver_owner get_gameserver_grants find_gameserver lookup
    has_grant_permission is_admin
may_start = refl

abbrev everything : Filter
everything = record { game_id = none; desired_state = none; node_id = none; ids = [] }

list-IsVisible_example : All (λ gs. str_elem gs.id ([] ++ "a" ∷ []) ≡ true) (server ∷ [])
unfolding list_owned list_granted list list_visible passes intersect_ids is_admin lookup
list-IsVisible_example =
    list-IsVisible database (server ∷ hidden ∷ []) (server ∷ []) everything user [] ("a" ∷ []) refl
      refl refl refl
