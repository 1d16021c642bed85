-- ===== src/Manager/Request.antt =====
-- What a client sends to create or to change a gameserver, the checks that come before anything is
-- stored (model/validate.go and controller/gameserver/manager.go), and the answers to a request.
pub mod Laws
use game_janitor.Base.{
  ℕ, ◌+◌, String, Bool, true, false, ◌&&◌, ◌||◌, not, Option, none, some, List, [], ◌∷◌, ◌++◌,
  if◌then◌else◌, leb, ltb, ◌==◌, str_eq, lookup, or_else, any, is_empty, is_some, keep,
}
use game_janitor.Model.{
  ℤ, pos, negsuc, Env, Labels, PortMapping, AppliedConfig, ErrorReason, Gameserver, value_of,
}
use game_janitor.Games.{EnvVar, Game}
use game_janitor.Placement.{Error}

-- The JSON of a model.Gameserver, but for the fields that Create and UpdateConfig overwrite or
-- leave unread. A field that is a map, a slice or a pointer is absent where it is none.
pub record Request : Type 0 where
  pub name : String
  pub game_id : String
  pub ports : Option (List PortMapping)
  pub env : Option Env
  pub memory_limit_mb : ℤ
  pub cpu_limit : ℤ
  pub cpu_enforced : Bool
  pub port_mode : String
  pub node_id : Option String
  pub backup_limit : Option ℤ
  pub storage_limit_mb : Option ℤ
  pub node_tags : Labels
  pub auto_restart : Option Bool
  pub connection_address : Option String
  pub applied_config : Option AppliedConfig
  pub created_by_token_id : Option String
  pub grants : Option (List (String × List String))
  pub instance_id : Option String
  pub installed : Bool
  pub error_reason : ErrorReason

pub data Quota : Type 0 where
  gameserver_quota memory_quota cpu_quota storage_quota : Quota

-- Why a request is turned down.
pub data Refusal : Type 0 where
  invalid : List String → Refusal
  gameserver_not_found no_access query_failed save_failed hashing_failed : Refusal
  game_missing unreachable_worker no_worker volume_failed password_failed : Refusal
  missing_permission : String → String → Refusal
  consent_missing value_missing : String → Refusal
  limit_missing : String → Refusal
  quota_exceeded : Quota → Refusal
  not_placed : Error → Refusal
  unknown_autogenerate : String → String → Refusal

pub data Checked {ℓ} (A : Type ℓ) : Type ℓ where
  passed : A → Checked A
  rejected : Refusal → Checked A

-- Go on where the checks passed.
abbrev pub and_then {ℓ κ} : {A : Type ℓ} {B : Type κ} → Checked A → (A → Checked B) → Checked B
and_then (passed a) next = next a
and_then (rejected r) next = rejected r

-- A check with nothing to return.
abbrev pub guard : Bool → Refusal → Checked {0} Unit
guard b r = if b then passed tt else rejected r

-- FieldErrors: the fields that fail, in order.
abbrev when_false : Bool → String → List String
when_false b field = if b then [] else field ∷ []

abbrev is_natural : ℤ → Bool
is_natural (pos n) = true
is_natural (negsuc n) = false

abbrev is_natural_or_absent : Option ℤ → Bool
is_natural_or_absent none = true
is_natural_or_absent (some i) = is_natural i

unfoldable pub limit_errors : Request → List String
limit_errors r =
    when_false (is_natural r.memory_limit_mb) "memory_limit_mb"
    ++ (when_false (is_natural r.cpu_limit) "cpu_limit"
        ++ (when_false (is_natural_or_absent r.backup_limit) "backup_limit"
            ++ when_false (is_natural_or_absent r.storage_limit_mb) "storage_limit_mb"))

abbrev no_errors : List String → Checked {0} Unit
no_errors errors = guard (is_empty errors) (invalid errors)

-- ValidateCreate and ValidateUpdate
unfoldable pub validate_create : Request → Checked {0} Unit
unfolding limit_errors
validate_create r = no_errors (
    when_false (not (str_eq r.name "")) "name"
    ++ (when_false (not (str_eq r.game_id "")) "game_id" ++ limit_errors r))

unfoldable pub validate_update : Request → Checked {0} Unit
unfolding limit_errors
validate_update r = no_errors (limit_errors r)

-- A number that was validated.
unfoldable pub natural : ℤ → ℕ
natural (pos n) = n
natural (negsuc n) = 0

unfoldable pub natural_or_absent : Option ℤ → Option ℕ
unfolding natural
natural_or_absent none = none
natural_or_absent (some i) = some (natural i)

abbrev is_unset : Option String → Bool
is_unset none = true
is_unset (some value) = str_eq value "" || str_eq value "false"

label_of : EnvVar → String
label_of v = if str_eq v.label "" then v.key else v.label

-- validateRequiredEnv: a value that is absent, empty or "false" does not count.
unfoldable pub validate_required_env : List EnvVar → Env → Checked {0} Unit
unfolding label_of
validate_required_env [] env = passed tt
validate_required_env (v ∷ vs) env =
    let later = validate_required_env vs env in
    if (v.required || v.consent_required) && is_unset (lookup v.key env)
    then rejected
        (if v.consent_required then consent_missing (label_of v) else value_missing (label_of v))
    else later

-- The settings that require limits.
pub record Required : Type 0 where
  pub memory : Bool
  pub cpu : Bool
  pub storage : Bool

-- The checks of the require_* settings.
unfoldable pub enforce_required : Required → ℕ → ℕ → Option ℕ → Checked {0} Unit
enforce_required req mem cpus disk =
    if req.memory && (mem == 0)
    then rejected (limit_missing "memory_limit_mb")
    else if req.cpu && (cpus == 0)
    then rejected (limit_missing "cpu_limit")
    else guard (not (req.storage && (or_else disk 0 == 0))) (limit_missing "storage_limit_mb")

-- installTriggeringEnvChanged, for the variables of the game.
unfoldable pub install_triggering_env_changed : List EnvVar → Env → Env → Bool
install_triggering_env_changed vars before after =
    any (λ v. v.triggers_install && not (str_eq (value_of before v.key) (value_of after v.key)))
      vars
