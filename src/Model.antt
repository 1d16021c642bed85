-- ===== src/Model.antt =====
-- model/: the records that the controller keeps (gameserver.go, operation.go, event.go,
-- worker_node.go, labels.go). Sizes, ports, byte counts and times are numbers from 0 up, CPU limits
-- are in 1024ths of a core (a float64 that is a multiple of 2 ^ -10), a time of 0 is Go's zero time, and a map is an association list.
-- created_at and updated_at are left out.
pub mod Laws
mod Tests
use game_janitor.Base.{
  ℕ, zero, suc, ◌+◌, String, ◌≡◌, Bool, true, false, ◌&&◌, ◌||◌, not, Option, none, some, List, [],
  ◌∷◌, ◌==◌, if◌then◌else◌, lookup, length, all, or_else, str_eq,
}

-- A signed Go int where the code has negative values; `negsuc n` is -(n + 1).
pub data ℤ : Type 0 where
  pos : ℕ → ℤ
  negsuc : ℕ → ℤ

pub data DesiredState : Type 0 where
  desired_stopped desired_running desired_archived : DesiredState

pub data ProcessState : Type 0 where
  process_none process_creating process_starting process_running process_exited : ProcessState

pub data OpType : Type 0 where
  op_start op_stop op_restart op_update op_reinstall op_migrate op_backup : OpType
  op_restore op_archive op_unarchive op_delete : OpType

pub data OperationPhase : Type 0 where
  phase_downloading_game phase_pulling_image phase_installing phase_starting : OperationPhase
  phase_stopping phase_creating_backup phase_restoring_backup phase_updating_game : OperationPhase
  phase_reinstalling phase_migrating phase_deleting : OperationPhase

-- The percentage is determined by the two byte counts.
pub record OperationProgress : Type 0 where
  pub completed_bytes : ℕ
  pub total_bytes : ℕ

pub record Operation : Type 0 where
  pub op_type : OpType
  pub phase : OperationPhase
  pub progress : Option OperationProgress

-- What describeExit (controller/gameserver/live.go) says of an exit code.
pub data ExitReason : Type 0 where
  out_of_memory segmentation_fault terminated killed exited_with_error interrupted : ExitReason
  killed_by_signal : ℕ → ExitReason
  exited_with_code : ℤ → ExitReason

-- The texts that error_reason takes, each with its values; `no_error` is the empty text.
pub data ErrorReason : Type 0 where
  no_error game_not_found worker_unavailable steam_login_required depot_failed : ErrorReason
  image_failed env_invalid ports_invalid scripts_failed depot_copy_failed : ErrorReason
  install_phase_failed no_instance_on_recovery instance_missing_on_recovery : ErrorReason
  install_create_failed install_start_failed create_failed start_failed : String → ErrorReason
  install_exit_code : ℤ → ErrorReason
  instance_state_on_recovery : String → ℤ → ErrorReason
  crashed : ExitReason → ℕ → ErrorReason
  crash_limit : ℕ → ExitReason → ℕ → ErrorReason
  operation_failed : OpType → ErrorReason
  failed_with : String → String → ErrorReason

abbrev pub Env : Type 0
Env = List (String × String)

abbrev pub Labels : Type 0
Labels = List (String × String)

pub record PortMapping : Type 0 where
  pub name : String
  pub port : ℕ
  pub protocol : String

pub record AppliedConfig : Type 0 where
  pub env : Env
  pub memory_limit_mb : ℕ
  pub cpu_limit : ℕ
  pub cpu_enforced : Bool

pub record Gameserver : Type 0 where
  pub id : String
  pub name : String
  pub game_id : String
  pub volume_name : String
  pub ports : List PortMapping
  pub env : Env
  pub memory_limit_mb : ℕ
  pub cpu_limit : ℕ
  pub cpu_enforced : Bool
  pub port_mode : String
  pub node_id : Option String
  pub backup_limit : Option ℕ
  pub storage_limit_mb : Option ℕ
  pub node_tags : Labels
  pub auto_restart : Option Bool
  pub connection_address : Option String
  pub applied_config : Option AppliedConfig
  pub desired_state : DesiredState
  pub created_by_token_id : Option String
  pub grants : List (String × List String)
  pub sftp_username : String
  pub hashed_sftp_password : String
  pub instance_id : Option String
  pub installed : Bool
  pub error_reason : ErrorReason

pub record WorkerNode : Type 0 where
  pub id : String
  pub max_memory_mb : Option ℕ
  pub max_cpu : Option ℕ
  pub max_storage_mb : Option ℕ
  pub cordoned : Bool
  pub tags : Labels
  pub port_range_start : Option ℕ
  pub port_range_end : Option ℕ

-- Go reads a missing key of a map of texts as the empty text.
abbrev pub value_of : List (String × String) → String → String
value_of m k = or_else (lookup k m) ""

-- Env.Equal
pub env_equal : Env → Env → Bool
env_equal e other =
    if length e == length other then all (λ kv. str_eq (value_of other kv.0) kv.1) e else false

-- Labels.HasAll
pub has_all : Labels → Labels → Bool
has_all l required = all (λ kv. str_eq (value_of l kv.0) kv.1) required

bool_equal : Bool → Bool → Bool
bool_equal true b = b
bool_equal false b = not b

-- SnapshotConfig
unfoldable pub snapshot_config : Gameserver → AppliedConfig
snapshot_config gs = record {
  env = gs.env;
  memory_limit_mb = gs.memory_limit_mb;
  cpu_limit = gs.cpu_limit;
  cpu_enforced = gs.cpu_enforced;
}

config_differs : AppliedConfig → Gameserver → Bool
unfolding bool_equal
config_differs ac gs =
    not (ac.memory_limit_mb == gs.memory_limit_mb)
    || not (ac.cpu_limit == gs.cpu_limit)
    || not (bool_equal ac.cpu_enforced gs.cpu_enforced)
    || not (env_equal ac.env gs.env)

required_with : Option AppliedConfig → Option String → Gameserver → Bool
required_with none instance_id gs = false
required_with (some ac) none gs = false
required_with (some ac) (some instance_id) gs = config_differs ac gs

-- ComputeRestartRequired, as the value that it sets.
pub restart_required : Gameserver → Bool
unfolding required_with config_differs
restart_required gs = required_with gs.applied_config gs.instance_id gs

abbrev pub is_archived_state : DesiredState → Bool
is_archived_state desired_archived = true
is_archived_state _ = false

-- IsArchived
unfoldable pub is_archived : Gameserver → Bool
is_archived gs = is_archived_state gs.desired_state
