-- ===== src/Manager/Create.antt =====
-- Create of controller/gameserver/manager.go: a request is checked, placed, completed from the
-- game's definition and stored, and the ports that were allocated are released where it fails.
pub mod Outcome
pub mod Complete
pub mod Succeeded
pub mod Quotas
pub mod Placed
mod Tests
use game_janitor.Base.{
  ℕ, ◌+◌, String, Bool, true, false, ◌&&◌, ◌||◌, not, Option, none, some, List, [], ◌∷◌,
  if◌then◌else◌, ◌==◌, leb, ltb, str_eq, lookup, insert, or_else, is_empty, map,
}
use game_janitor.Model.{Env, PortMapping, Gameserver, desired_stopped}
use game_janitor.Store.{
  Store, create_gameserver, count_gameservers_by_token, sum_resources_by_token,
}
use game_janitor.Live.{new_live, set_worker}
use game_janitor.Live.Config.{apply_overrides}
use game_janitor.Games.{EnvVar, Game, GameStore, get_game, resolve_game_id}
use game_janitor.Access.{Token, Role, role_user}
use game_janitor.Placement.{
  Placement, Result, ok, err, Resource, memory, cpu, storage, exceeds, place_gameserver,
  commit_ports, release_ports,
}
use game_janitor.Dispatcher.{rank_workers_for_placement, select_worker_by_node_id}
use game_janitor.Naming.{volume_name}
use game_janitor.Manager.{Manager, gameserver_created}
use game_janitor.Manager.Request.{
  Request, Checked, passed, rejected, and_then, guard, Refusal, query_failed, save_failed,
  hashing_failed, game_missing, unreachable_worker, no_worker, volume_failed, password_failed,
  unknown_autogenerate, not_placed, quota_exceeded, Quota, gameserver_quota, memory_quota,
  cpu_quota, storage_quota, validate_create, natural, natural_or_absent, validate_required_env,
  Required, enforce_required,
}

-- What is random, and what the worker and the settings answer. A password may fail to be generated.
pub record Answers : Type 0 where
  pub id : String
  pub sftp_username : String
  pub hashed : Option String
  pub passwords : String → Option String
  pub volume_created : Bool
  pub required : Required
  pub games : GameStore

abbrev pub creator : Option Token → Request → Option String
creator none r = r.created_by_token_id
creator (some t) r = some t.id

-- The row before it is placed.
pub draft : Answers → Option Token → Request → Gameserver
unfolding natural natural_or_absent
draft a token r = record {
  id = a.id;
  name = r.name;
  game_id = resolve_game_id a.games r.game_id;
  volume_name = volume_name a.id;
  ports = or_else r.ports [];
  env = or_else r.env [];
  memory_limit_mb = natural r.memory_limit_mb;
  cpu_limit = natural r.cpu_limit;
  cpu_enforced = r.cpu_enforced;
  port_mode = if str_eq r.port_mode "" then "auto" else r.port_mode;
  node_id = r.node_id;
  backup_limit = natural_or_absent r.backup_limit;
  storage_limit_mb = natural_or_absent r.storage_limit_mb;
  node_tags = r.node_tags;
  auto_restart = some (or_else r.auto_restart false);
  connection_address = r.connection_address;
  applied_config = r.applied_config;
  desired_state = desired_stopped;
  created_by_token_id = creator token r;
  grants = or_else r.grants [];
  sftp_username = a.sftp_username;
  hashed_sftp_password = or_else a.hashed "";
  instance_id = r.instance_id;
  installed = r.installed;
  error_reason = r.error_reason;
}

-- enforceQuotas. Sums of Go ints wrap as in checkWorkerLimits.
pub count_quota : Store → Token → Checked {0} Unit
count_quota s t = elim t.max_gameservers [
  | none ↦ passed tt
  | some most ↦ elim (count_gameservers_by_token s t.id) [
    | none ↦ rejected query_failed
    | some n ↦ guard (not (leb most n)) (quota_exceeded gameserver_quota)
  ]
]

pub within : Resource → Option ℕ → ℕ → ℕ → Quota → Checked {0} Unit
unfolding exceeds
within resource none used wanted q = passed tt
within resource (some most) used wanted q =
    guard (not (exceeds resource used wanted most)) (quota_exceeded q)

pub resource_quotas : Token → Gameserver → Option (ℕ × ℕ × ℕ) → Checked {0} Unit
unfolding within
resource_quotas t gs none = rejected query_failed
resource_quotas t gs (some (mem, cpus, disk)) =
    and_then (within memory t.max_memory_mb mem gs.memory_limit_mb memory_quota) (λ _.
      and_then (within cpu t.max_cpu cpus gs.cpu_limit cpu_quota)
        (λ _. within storage t.max_storage_mb disk (or_else gs.storage_limit_mb 0) storage_quota))

pub enforce_quotas : Store → Token → Gameserver → Checked {0} Unit
unfolding count_quota resource_quotas
enforce_quotas s t gs =
    and_then (count_quota s t) (λ _. resource_quotas t gs (sum_resources_by_token s t.id))

abbrev pub is_user_role : Role → Bool
is_user_role role_user = true
is_user_role _ = false

pub quotas_of : Store → Option Token → Gameserver → Checked {0} Unit
unfolding enforce_quotas
quotas_of s none gs = passed tt
quotas_of s (some t) gs = if is_user_role t.role then enforce_quotas s t gs else passed tt

abbrev known : Option Game → Checked {0} Game
known none = rejected game_missing
known (some game) = passed game

abbrev hash_of : Option String → Checked {0} String
hash_of none = rejected hashing_failed
hash_of (some hash) = passed hash

-- The checks before a node is chosen.
pub prepare : Answers → Option Token → Request → Store → Checked {0} Game
unfolding quotas_of draft
prepare a token r s =
    let gs = draft a token r in
    and_then (validate_create r) (λ _. and_then (quotas_of s token gs) (λ _.
      and_then (hash_of a.hashed) (λ hash.
        and_then (known (get_game a.games gs.game_id))
          (λ game. and_then (validate_required_env game.default_env gs.env) (λ _. passed game)))))

-- applyGameDefaults: the environment.
pub default_env : List EnvVar → Env → Env
default_env [] env = env
default_env (v ∷ vs) env = default_env vs (if v.system then env else insert v.key v.default env)

autogenerated : (String → Option String) → EnvVar → Env → Checked {0} Env
autogenerated passwords v env =
    if str_eq v.autogenerate "" || v.system || not (str_eq (or_else (lookup v.key env) "") "")
    then passed env
    else if str_eq v.autogenerate "password"
    then elim (passwords v.key) [
      | none ↦ rejected password_failed
      | some password ↦ passed (insert v.key password env)
    ]
    else rejected (unknown_autogenerate v.autogenerate v.key)

pub autogenerate_all : (String → Option String) → List EnvVar → Env → Checked {0} Env
unfolding autogenerated
autogenerate_all passwords [] env = passed env
autogenerate_all passwords (v ∷ vs) env =
    and_then (autogenerated passwords v env) (λ next. autogenerate_all passwords vs next)

pub apply_game_defaults : (String → Option String) → Game → Gameserver → Checked {0} Gameserver
unfolding default_env autogenerate_all apply_overrides
apply_game_defaults passwords game gs =
    let env = apply_overrides gs.env (default_env game.default_env []) in
    and_then (autogenerate_all passwords game.default_env env) (λ full. passed (record gs {
      ports = if is_empty gs.ports then game.default_ports else gs.ports;
      env = full;
    }))

abbrev pub reachable : Option String → Checked {0} String
reachable none = rejected unreachable_worker
reachable (some node_id) = passed node_id

-- The worker of the chosen node; the empty node has none.
pub target : Manager → Gameserver → Checked {0} (Option String)
target m gs = elim gs.node_id [
  | none ↦ passed none
  | some node_id ↦
      if str_eq node_id ""
      then passed none
      else and_then (reachable (select_worker_by_node_id m.registry node_id)) (λ w. passed (some w))
]

-- Whether the volume exists; a call on no worker panics.
pub with_volume : Bool → Option String → Checked {0} String
with_volume created none = rejected no_worker
with_volume created (some w) = if created then passed w else rejected volume_failed

-- From the placed row to the one that is stored, and the worker.
pub complete : Answers → Game → Gameserver → Manager → Checked {0} (Gameserver × String)
unfolding target apply_game_defaults with_volume
complete a game gs m = and_then (target m gs) (λ w.
    and_then (apply_game_defaults a.passwords game gs) (λ row.
      and_then (enforce_required a.required row.memory_limit_mb row.cpu_limit row.storage_limit_mb)
        (λ _. and_then (with_volume a.volume_created w) (λ worker. passed (row, worker)))))

-- The row with the node and the ports that it was placed on.
pub placed_row : String → Option (List PortMapping) → Gameserver → Gameserver
placed_row node_id ports gs = record gs {
  node_id = if str_eq node_id "" then gs.node_id else some node_id;
  ports = or_else ports gs.ports;
}

-- What a call of Create leaves behind. `volumes` lists the workers that have a volume of the
-- gameserver, none after a rollback, whose removal may fail.
pub record Created : Type 0 where
  pub outcome : Checked {0} Gameserver
  pub manager : Manager
  pub volumes : List String

-- The deferred ReleasePorts.
fail : Refusal → String → Manager → Created
fail reason id m = record {
  outcome = rejected reason;
  manager = record m { placement = release_ports id m.placement };
  volumes = [];
}

abbrev succeed : Gameserver → String → Store → Manager → Created
succeed gs w s m =
    let p = m.placement in
    record {
      outcome = passed gs;
      manager = record m {
        placement = commit_ports gs.id (record p { store = s });
        lives = insert gs.id (set_worker w (new_live gs)) m.lives;
        log = gameserver_created gs.id ∷ m.log;
      };
      volumes = w ∷ [];
    }

pub store_row : Gameserver → String → Manager → Created
unfolding fail
store_row gs w m = elim (create_gameserver gs m.placement.store) [
  | none ↦ fail save_failed gs.id m
  | some s ↦ succeed gs w s m
]

pub store_completed : Checked {0} (Gameserver × String) → String → Manager → Created
unfolding store_row fail
store_completed (rejected reason) id m = fail reason id m
store_completed (passed (gs, w)) id m = store_row gs w m

-- What follows the choice of a node.
pub create_placed : Answers → Game → Gameserver → Manager → Created
unfolding store_completed complete
create_placed a game gs m = store_completed (complete a game gs m) gs.id m

abbrev unchanged : Refusal → Manager → Created
unchanged reason m = record { outcome = rejected reason; manager = m; volumes = [] }

pub place_draft : Answers → Game → Gameserver → Manager → Created
unfolding create_placed placed_row
place_draft a game gs m =
    let ranked = rank_workers_for_placement m.placement.store m.registry gs.node_tags in
    elim (place_gameserver m.placement game.default_ports gs (map (λ c. c.node_id) ranked)) [
      | err e ↦ unchanged (not_placed e) m
      | ok (node_id, ports, p) ↦
          create_placed a game (placed_row node_id ports gs) (record m { placement = p })
    ]

-- Create
pub create : Answers → Option Token → Request → Manager → Created
unfolding prepare place_draft
create a token r m = elim (prepare a token r m.placement.store) [
  | rejected reason ↦ unchanged reason m
  | passed game ↦ place_draft a game (draft a token r) m
]
