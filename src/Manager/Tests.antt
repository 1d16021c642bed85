-- ===== src/Manager/Tests.antt =====
-- Runs of controller/gameserver/manager.go with one gameserver on one node.
use game_janitor.Base.{
  String, ◌≡◌, refl, true, false, none, some, [], ◌∷◌, inr, lookup, insert, List, All, subst,
}
use game_janitor.Model.{pos, Gameserver, desired_running, no_error}
use game_janitor.Store.{Store, find_gameserver, get_gameserver}
use game_janitor.Store.Laws.{Stored}
use game_janitor.Live.{System, InstanceStateUpdate, state_exited, new_live}
use game_janitor.Live.Process.{wants_running}
use game_janitor.Games.{GameStore, get_game}
use game_janitor.Access.{Token, role_user, is_admin, has_grant_permission}
use game_janitor.Manager.{Manager, route_process_event, on_worker_offline}
use game_janitor.Manager.Synced.{IsSynced, insert-Synced}
use game_janitor.Manager.Steps.{Run, run-IsSynced}
use game_janitor.Manager.Recovery.{Inspect, Inspected, recover_live, recover_all}
use game_janitor.Manager.Recovery.Honest.{recover_live-IsHonest, IsHonest, IsKnownState}
use game_janitor.Manager.Recovery.Loaded.{recover_all-IsSynced, Knows}
use game_janitor.Manager.Request.{Request, Required, passed, enforce_required, validate_update}
use game_janitor.Manager.Config.{update_config, merge, save}
use game_janitor.Manager.Config.Permissions.{update_config-KeepsRest, KeepsRest}
use game_janitor.Manager.Config.Escalation.{update_config-escalates, only_grants}

abbrev server : Gameserver
server = record {
  id = "a";
  name = "server";
  game_id = "cs";
  volume_name = "gamejanitor-a";
  ports = [];
  env = [];
  memory_limit_mb = 512;
  cpu_limit = 500;
  cpu_enforced = false;
  port_mode = "auto";
  node_id = some "n1";
  backup_limit = none;
  storage_limit_mb = none;
  node_tags = [];
  auto_restart = some true;
  connection_address = none;
  applied_config = none;
  desired_state = desired_running;
  created_by_token_id = some "t2";
  grants = ("t1", "gameserver.configure.name" ∷ []) ∷ [];
  sftp_username = "server";
  hashed_sftp_password = "";
  instance_id = some "i1";
  installed = true;
  error_reason = no_error;
}

abbrev database : Store
database = record { gameservers = server ∷ []; nodes = []; fails = λ q. false }

abbrev started : Manager
started = record {
  lives = [];
  placement = record {
    store = database;
    settings = record {
      port_uniqueness = "cluster";
      port_range_start = 27_000;
      port_range_end = 28_000;
    };
    pending_ports = [];
  };
  registry = record { workers = []; told = [] };
  watching = [];
  polling = [];
  log = [];
  restarts = [];
}

server-Stored : Stored database "a" server
unfolding find_gameserver
server-Stored = ((λ q. refl), refl)

started-IsSynced : IsSynced started
unfolding lookup
started-IsSynced id g e = absurd cc

abbrev loaded : Manager
loaded = record started { lives = insert "a" (new_live server) [] }

loaded-IsSynced : IsSynced loaded
unfolding new_live
loaded-IsSynced =
    insert-Synced "a" (new_live server) database database [] refl server-Stored (λ j gs other h. h)
      started-IsSynced

abbrev exit : InstanceStateUpdate
exit = record {
  instance_id = "i1";
  instance_name = "gamejanitor-a";
  state = state_exited;
  ready = false;
  ready_at = 0;
  exit_code = pos 1;
  started_at = 5;
  exited_at = 9;
  installed = true;
}

run-IsSynced_example : IsSynced (on_worker_offline "n1" (route_process_event 9 exit loaded))
run-IsSynced_example =
    run-IsSynced loaded (on_worker_offline "n1" (route_process_event 9 exit loaded))
      (Run.disconnects "n1" (Run.routes 9 exit Run.start)) loaded-IsSynced

abbrev crashed : Inspected
crashed = record { state = "exited"; exit_code = pos 1; started_at = 5 }

abbrev inspect : Inspect
inspect id = some crashed

known : (instance : String) (info : Inspected) → inspect instance ≡ some info → IsKnownState info
known instance info e = let same : crashed ≡ info = cc in subst IsKnownState same (inr refl)

abbrev system : System
system = record { live = new_live server; store = database; log = []; restarts = 0 }

recover_live-IsHonest_example :
    ((recover_live inspect system).live.spec.desired_state ≡ system.live.spec.desired_state)
    × (wants_running system.live.spec.desired_state ≡ true → IsHonest (recover_live inspect system))
recover_live-IsHonest_example = recover_live-IsHonest inspect system known

recover_all-IsSynced_example :
    (n : Manager) × (recover_all (λ w. inspect) started ≡ some n)
    × IsSynced n
    × All (λ gs. Knows n gs.id) (server ∷ [])
recover_all-IsSynced_example =
    recover_all-IsSynced (λ w. inspect) started (λ q. refl) (tt, tt) started-IsSynced

abbrev user : Token
user = record {
  id = "t1";
  role = role_user;
  can_create = false;
  max_gameservers = none;
  max_memory_mb = none;
  max_cpu = none;
  max_storage_mb = none;
}

abbrev no_requirements : Required
no_requirements = record { memory = false; cpu = false; storage = false }

abbrev no_games : GameStore
no_games = record { games = []; aliases = [] }

abbrev rename : Request
rename = let r = only_grants [] in record r { name = "mine"; grants = none }

renamed :
    update_config no_requirements no_games (some user) "a" rename loaded
    ≡ passed (save false (merge rename server) loaded)
unfolding update_config merge get_gameserver find_gameserver is_admin has_grant_permission lookup
    get_game validate_update enforce_required
renamed = refl

update_config-KeepsRest_example :
    (perms : List String) × (new : Gameserver) × (lookup user.id server.grants ≡ some perms)
    × (find_gameserver "a" (save false (merge rename server) loaded).placement.store.gameservers
        ≡ some new)
    × KeepsRest perms server new
unfolding find_gameserver is_admin
update_config-KeepsRest_example =
    update_config-KeepsRest no_requirements no_games user "a" rename loaded
      (save false (merge rename server) loaded) server (λ q. refl) loaded-IsSynced refl refl refl
      renamed

update_config-escalates_example :
    (n : Manager) × (update_config no_requirements no_games
        (some user)
        "a"
        (only_grants (("t1", []) ∷ []))
        loaded
      ≡ passed n)
    × (find_gameserver "a" n.placement.store.gameservers
        ≡ some (record server { grants = ("t1", []) ∷ [] }))
unfolding find_gameserver lookup enforce_required
update_config-escalates_example =
    update_config-escalates no_requirements no_games user "a" loaded server
      ("gameserver.configure.name" ∷ []) (("t1", []) ∷ []) (λ q. refl) loaded-IsSynced refl refl
      refl
