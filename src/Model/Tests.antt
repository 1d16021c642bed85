-- ===== src/Model/Tests.antt =====
-- Runs of the restart test of model/gameserver.go on one configuration.
use game_janitor.Base.{true, false, [], ◌∷◌, none, some}
use game_janitor.Model.{Env, Gameserver, AppliedConfig, desired_stopped, no_error}

abbrev map_env : Env
map_env = ("MAP", "dust") ∷ ("MODE", "") ∷ []

abbrev applied : AppliedConfig
applied = record { env = map_env; memory_limit_mb = 512; cpu_limit = 500; cpu_enforced = false }

abbrev configured : Gameserver
configured = record {
  id = "a";
  name = "server";
  game_id = "cs";
  volume_name = "gamejanitor-a";
  ports = [];
  env = map_env;
  memory_limit_mb = 512;
  cpu_limit = 500;
  cpu_enforced = false;
  port_mode = "auto";
  node_id = none;
  backup_limit = none;
  storage_limit_mb = none;
  node_tags = [];
  auto_restart = none;
  connection_address = none;
  applied_config = some applied;
  desired_state = desired_stopped;
  created_by_token_id = none;
  grants = [];
  sftp_username = "server";
  hashed_sftp_password = "";
  instance_id = some "i1";
  installed = true;
  error_reason = no_error;
}
