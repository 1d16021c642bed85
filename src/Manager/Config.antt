-- ===== src/Manager/Config.antt =====
-- UpdateConfig and RegenerateSFTPPassword of controller/gameserver/manager.go.
pub mod Permissions
pub mod Merged
pub mod Escalation
use game_janitor.Base.{
  ℕ, ◌+◌, String, Bool, true, false, ◌&&◌, ◌||◌, not, Option, none, some, List, [], ◌∷◌,
  if◌then◌else◌, ◌==◌, str_eq, lookup, insert, or_else, is_empty, is_some,
}
use game_janitor.Model.{ℤ, pos, negsuc, Env, Labels, Gameserver}
use game_janitor.Store.{Store, get_gameserver, update_gameserver, update_query}
use game_janitor.Live.{Live}
use game_janitor.Games.{EnvVar, Game, GameStore, get_game}
use game_janitor.Access.{Token, is_admin, has_grant_permission}
use game_janitor.Manager.{Manager, gameserver_updated}
use game_janitor.Manager.Request.{
  Request, Checked, passed, rejected, and_then, guard, Refusal, gameserver_not_found, no_access,
  query_failed, save_failed, hashing_failed, missing_permission, validate_update, natural,
  natural_or_absent, validate_required_env, Required, enforce_required,
  install_triggering_env_changed,
}

-- A group of fields: whether the request has one of them, its permission and its name.
abbrev pub FieldCheck : Type 0
FieldCheck = Bool × String × String

abbrev nonzero : ℤ → Bool
nonzero (pos n) = not (n == 0)
nonzero (negsuc n) = true

pub field_checks : Request → List FieldCheck
field_checks r =
    (not (str_eq r.name ""), "gameserver.configure.name", "name")
    ∷ (is_some r.env, "gameserver.configure.env", "env")
    ∷ (
      nonzero r.memory_limit_mb
          || nonzero r.cpu_limit
          || is_some r.storage_limit_mb
          || is_some r.backup_limit
          || not (is_empty r.node_tags),
      "gameserver.configure.resources",
      "resources",
    )
    ∷ (is_some r.ports || not (str_eq r.port_mode ""), "gameserver.configure.ports", "ports")
    ∷ (is_some r.connection_address, "gameserver.configure.connection", "connection_address")
    ∷ (is_some r.auto_restart, "gameserver.configure.auto-restart", "auto_restart")
    ∷ []

pub check_fields : List String → List FieldCheck → Checked {0} Unit
check_fields perms [] = passed tt
check_fields perms ((changed, perm, field) ∷ cs) =
    let later = check_fields perms cs in
    if changed && not (has_grant_permission perms perm)
    then rejected (missing_permission perm field)
    else later

check_grant : Request → Option (List String) → Checked {0} Unit
unfolding check_fields field_checks
check_grant r none = rejected no_access
check_grant r (some perms) = check_fields perms (field_checks r)

abbrev pub is_creator : Token → Gameserver → Bool
is_creator t gs = elim gs.created_by_token_id [ none ↦ false | some id ↦ str_eq id t.id ]

-- The per-field permission checks.
pub check_permissions : Option Token → Gameserver → Request → Checked {0} Unit
unfolding check_grant
check_permissions none gs r = passed tt
check_permissions (some t) gs r =
    if is_admin (some t) || is_creator t gs
    then passed tt
    else check_grant r (lookup t.id gs.grants)

pub check_env_of : Option Game → Option Env → Checked {0} Unit
check_env_of none env = passed tt
check_env_of (some game) none = passed tt
check_env_of (some game) (some env) = validate_required_env game.default_env env

-- Whether the game is to be installed again.
pub install_triggered : Option Game → Gameserver → Option Env → Bool
install_triggered none gs env = false
install_triggered (some game) gs none = false
install_triggered (some game) gs (some env) =
    install_triggering_env_changed game.default_env gs.env env

abbrev given {ℓ} : {A : Type ℓ} → Option A → Option A → Option A
given none old = old
given (some new) old = some new

-- The fields that the request has, over the row.
unfoldable pub merge : Request → Gameserver → Gameserver
unfolding natural natural_or_absent
merge r gs = record gs {
  name = if str_eq r.name "" then gs.name else r.name;
  ports = or_else r.ports gs.ports;
  env = or_else r.env gs.env;
  memory_limit_mb =
      if nonzero r.memory_limit_mb then natural r.memory_limit_mb else gs.memory_limit_mb;
  cpu_limit = if nonzero r.cpu_limit then natural r.cpu_limit else gs.cpu_limit;
  cpu_enforced = if nonzero r.cpu_limit then r.cpu_enforced else gs.cpu_enforced;
  backup_limit = given (natural_or_absent r.backup_limit) gs.backup_limit;
  storage_limit_mb = given (natural_or_absent r.storage_limit_mb) gs.storage_limit_mb;
  node_tags = if is_empty r.node_tags then gs.node_tags else r.node_tags;
  connection_address = given r.connection_address gs.connection_address;
  port_mode = if str_eq r.port_mode "" then gs.port_mode else r.port_mode;
  auto_restart = given r.auto_restart gs.auto_restart;
  grants = or_else r.grants gs.grants;
}

-- UpdateGameserver, with its error: a failed query, or no row of this id.
abbrev present : Option (Option Gameserver) → Checked {0} Gameserver
present none = rejected query_failed
present (some none) = rejected gameserver_not_found
present (some (some gs)) = passed gs

-- The object's spec is swapped, where the gameserver is in the map.
swap_spec : Gameserver → Option Live → Manager → Manager
swap_spec gs none m = m
swap_spec gs (some g) m = record m { lives = insert gs.id (record g { spec = gs }) m.lives }

-- The row is written, and once more with the installed flag cleared, where that is due.
pub save : Bool → Gameserver → Manager → Manager
unfolding swap_spec
save triggered gs m =
    let final : Gameserver = if triggered then record gs { installed = false } else gs in
    let p = m.placement in
    let once = update_gameserver gs p.store in
    let saved : Manager = record m {
      placement = record p { store = if triggered then update_gameserver final once else once };
    } in
    let swapped = swap_spec final (lookup gs.id m.lives) saved in
    record swapped { log = gameserver_updated gs.id ∷ swapped.log }

-- The checks that follow the merge, and the row that is saved.
pub checked_row :
    Required → GameStore → Option Token → Request → Gameserver → Checked {0} Gameserver
unfolding check_permissions check_env_of merge
checked_row req games token r existing = and_then (check_permissions token existing r) (λ _.
    and_then (check_env_of (get_game games existing.game_id) r.env) (λ _.
      let row = merge r existing in
      and_then (enforce_required req row.memory_limit_mb row.cpu_limit row.storage_limit_mb)
        (λ _. passed row)))

save_checked : Bool → Gameserver → Manager → Checked {0} Manager
unfolding save
save_checked triggered row m =
    if m.placement.store.fails update_query
    then rejected save_failed
    else passed (save triggered row m)

-- UpdateConfig of the gameserver with this id.
unfoldable pub update_config :
    Required → GameStore → Option Token → String → Request → Manager → Checked {0} Manager
unfolding checked_row save_checked install_triggered
update_config req games token id r m = and_then (validate_update r) (λ _.
    and_then (present (get_gameserver m.placement.store id)) (λ existing.
      and_then (checked_row req games token r existing) (λ row.
        save_checked (install_triggered (get_game games existing.game_id) existing r.env) row m)))

-- RegenerateSFTPPassword, with the hash of the new password, if it could be hashed.
with_password : String → Live → Live
with_password hash g =
    let spec = g.spec in record g { spec = record spec { hashed_sftp_password = hash } }

show_password : String → String → Option Live → Manager → Manager
unfolding with_password
show_password id hash none m = m
show_password id hash (some g) m = record m { lives = insert id (with_password hash g) m.lives }

save_password : String → String → Gameserver → Manager → Checked {0} Manager
unfolding show_password
save_password id hash gs m =
    let p = m.placement in
    if p.store.fails update_query
    then rejected save_failed
    else passed (
        show_password id hash (lookup id m.lives) (record m {
          placement = record p {
            store = update_gameserver (record gs { hashed_sftp_password = hash }) p.store;
          };
        }))

pub regenerate_sftp_password : Option String → String → Manager → Checked {0} Manager
unfolding save_password
regenerate_sftp_password hashed id m =
    and_then (present (get_gameserver m.placement.store id)) (λ gs. elim hashed [
      | none ↦ rejected hashing_failed
      | some hash ↦ save_password id hash gs m
    ])
