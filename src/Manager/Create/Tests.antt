-- ===== src/Manager/Create/Tests.antt =====
-- A user creates a gameserver (Create of controller/gameserver/manager.go).
use game_janitor.Base.{String, ◌≡◌, refl, true, false, none, some, [], ◌∷◌, lookup, arith}
use game_janitor.Model.{pos, Gameserver, no_error}
use game_janitor.Store.{
  get_worker_node, count_gameservers_by_token, sum_resources_by_token, create_gameserver,
  sum_column, int_limit,
}
use game_janitor.Live.Config.{apply_overrides}
use game_janitor.Naming.{volume_name}
use game_janitor.Games.{Game, login_anonymous, get_game, resolve_game_id}
use game_janitor.Access.{Token, role_user}
use game_janitor.Registry.{online, get}
use game_janitor.Dispatcher.{select_worker_by_node_id}
use game_janitor.Placement.{place_gameserver, check_worker_limits, limits_error}
use game_janitor.Manager.{Manager}
use game_janitor.Manager.Request.{
  Request, passed, validate_create, validate_required_env, enforce_required,
}
use game_janitor.Manager.Create.{Answers, create, draft}
use game_janitor.Manager.Create.Outcome.{create-AllOrNothing, AllOrNothing}
use game_janitor.Manager.Create.Succeeded.{create-takes_over}
use game_janitor.Manager.Create.Placed.{create-IsPlaced, IsConnected, IsChosen}
use game_janitor.Manager.Create.Quotas.{create-FitsQuotas, FitsQuotas, owned}

abbrev user : Token
user = record {
  id = "t1";
  role = role_user;
  can_create = true;
  max_gameservers = some 1;
  max_memory_mb = some 1024;
  max_cpu = none;
  max_storage_mb = none;
}

abbrev game : Game
game = record {
  id = "cs";
  app_id = 730;
  server_app_id = 0;
  steam_login = login_anonymous;
  default_ports = [];
  default_env = [];
}

abbrev answers : Answers
answers = record {
  id = "a";
  sftp_username = "mine";
  hashed = some "hash";
  passwords = λ key. none;
  volume_created = true;
  required = record { memory = true; cpu = false; storage = false };
  games = record { games = ("cs", game) ∷ []; aliases = [] };
}

-- The request names the instance of another gameserver.
abbrev request : Request
request = record {
  name = "mine";
  game_id = "cs";
  ports = none;
  env = none;
  memory_limit_mb = pos 512;
  cpu_limit = pos 0;
  cpu_enforced = false;
  port_mode = "manual";
  node_id = some "n1";
  backup_limit = none;
  storage_limit_mb = none;
  node_tags = [];
  auto_restart = none;
  connection_address = none;
  applied_config = none;
  created_by_token_id = none;
  grants = none;
  instance_id = some "i9";
  installed = true;
  error_reason = no_error;
}

abbrev started : Manager
started = record {
  lives = [];
  placement = record {
    store = record { gameservers = []; nodes = []; fails = λ q. false };
    settings = record {
      port_uniqueness = "cluster";
      port_range_start = 27_000;
      port_range_end = 28_000;
    };
    pending_ports = [];
  };
  registry = record {
    workers =
        (
          "n1",
          record {
            worker = some 1;
            info = record {
              lan_ip = "";
              external_ip = "";
              cpu_cores = 4;
              memory_total_mb = 2048;
              memory_available_mb = 2048;
              disk_total_mb = 0;
              disk_available_mb = 0;
              status = online;
              last_seen = 0;
              token_id = "";
            };
          },
        )
        ∷ [];
    told = [];
  };
  watching = [];
  polling = [];
  log = [];
  restarts = [];
}

create-AllOrNothing_example : AllOrNothing "a" started (create answers (some user) request started)
unfolding lookup
create-AllOrNothing_example = create-AllOrNothing answers (some user) request started refl

abbrev mine : Gameserver
mine = draft answers (some user) request

created : (create answers (some user) request started).outcome ≡ passed mine
unfolding create lookup draft validate_create validate_required_env enforce_required get_game
    resolve_game_id volume_name apply_overrides get_worker_node count_gameservers_by_token
    sum_resources_by_token create_gameserver select_worker_by_node_id get place_gameserver
    check_worker_limits int_limit
created = refl

create-takes_over_example :
    (mine.instance_id ≡ request.instance_id)
    × (mine.installed ≡ request.installed)
    × (mine.error_reason ≡ request.error_reason)
    × (mine.applied_config ≡ request.applied_config)
create-takes_over_example = create-takes_over answers (some user) request started mine created

create-FitsQuotas_example :
    FitsQuotas user
      (owned (create answers (some user) request started).manager.placement.store user)
unfolding lookup draft sum_column int_limit
create-FitsQuotas_example =
    create-FitsQuotas answers user request started mine refl refl (omega arith) (omega arith)
      created

create-IsPlaced_example :
    (id : String) × (mine.node_id ≡ some id)
    × IsConnected started id
    × (limits_error started.placement (draft answers (some user) request) id ≡ none)
    × IsChosen started (draft answers (some user) request) id
create-IsPlaced_example = create-IsPlaced answers (some user) request started mine created
