-- ===== src/Live/Lifecycle.antt =====
-- controller/gameserver/lifecycle.go: how an instance is started and stopped. What the worker, the
-- game store, the settings and the context answer in one run is an argument; no event of the worker
-- comes in between two steps of a run. Console logs and default files are not modelled, and an
-- error message is kept as the worker gives it.
pub mod Stale
pub mod Sync
pub mod Outcomes
pub mod Requests
pub mod Stop
mod Tests
use game_janitor.Base.{
  ℕ, zero, suc, ◌+◌, String, ◌≡◌, Bool, true, false, ◌&&◌, ◌||◌, not, Option, none, some, List, [],
  ◌∷◌, ltb, ◌==◌, if◌then◌else◌, str_eq, is_some,
}
use game_janitor.Model.{
  ℤ, pos, negsuc, Env, Gameserver, Operation, OperationProgress, OpType, op_start, op_stop,
  op_restart, op_update, op_reinstall, op_delete, DesiredState, desired_running, desired_stopped,
  phase_downloading_game, phase_pulling_image, phase_installing, phase_starting, phase_stopping,
  ErrorReason, no_error, game_not_found, worker_unavailable, steam_login_required, depot_failed,
  image_failed, env_invalid, ports_invalid, scripts_failed, depot_copy_failed, install_phase_failed,
  install_create_failed, install_start_failed, create_failed, start_failed, install_exit_code,
  operation_failed, snapshot_config, OperationPhase, process_running, is_archived, process_none,
  phase_deleting, ProcessState,
}
use game_janitor.Store.{
  Store, update_gameserver, set_instance_id, set_desired_state, clear_error_reason,
}
use game_janitor.Games.{Game, depot_app_id, requires_auth}
use game_janitor.Live.{
  Live, System, Published, publish, set_phase, set_progress, set_error, clear_process,
  depot_downloading_event, depot_complete_event, depot_cached_event, image_pulling_event,
  image_pulled_event, instance_creating_event, instance_stopped_event, instance_stopping_event,
}
use game_janitor.Live.Config.{
  merge_env, Merged, merged, missing, parse_gameserver_ports, PortBinding,
}

-- An instance by the name that util/naming gives it, or by its id.
pub data InstanceRef : Type 0 where
  named install_named update_named by_id : String → InstanceRef

-- The calls of the worker.
pub data Call : Type 0 where
  ensure_depot : ℕ → Call
  pull_image prepare_scripts copy_depot reconcile_mods remove_volume create_volume : Call
  remove_instance : InstanceRef → Call
  create_instance : InstanceRef → Env → List PortBinding → Call
  start_instance wait_for_exit exec_stop stop_instance : String → Call

-- The object and the calls so far, newest first.
pub record Run : Type 0 where
  pub system : System
  pub calls : List Call

-- An id, or the worker's error.
pub data Answer : Type 0 where
  given refused : String → Answer

pub data Download : Type 0 where
  download_failed download_cached downloaded : Download

-- What a run of executeStart is told. `none` is no error where a message is optional.
pub record Answers : Type 0 where
  pub game : Option Game
  pub refresh_token : String
  pub depot : Download
  pub depot_progress : List OperationProgress
  pub image_progress : List OperationProgress
  pub image_pulled : Bool
  pub scripts_prepared : Bool
  pub depot_copied : Bool
  pub install_instance : Answer
  pub install_start : Option String
  pub install_exit : Option ℤ
  pub instance : Answer
  pub start : Option String
  pub cancelled_after_depot : Bool
  pub cancelled_after_image : Bool
  pub cancelled_after_install : Bool
  pub cancelled_after_create : Bool

-- How a step of an operation ends: goes on, is cancelled, or fails.
pub data Outcome : Type 0 where
  completed interrupted_run broken : Outcome

abbrev pub Done : Type 0
Done = Run × Outcome

-- The next step, where the last one went on.
pub and_then : Done → (Run → Done) → Done
and_then (r, completed) k = k r
and_then (r, interrupted_run) k = (r, interrupted_run)
and_then (r, broken) k = (r, broken)

abbrev pub call : Call → Run → Run
call c r = record r { calls = c ∷ r.calls }

abbrev pub on_system : (System → System) → Run → Run
on_system f r = record r { system = f r.system }

-- setError, and an error is returned.
pub abort : ErrorReason → Run → Done
abort reason r = (on_system (set_error reason) r, broken)

pub check_cancelled : Bool → Run → Done
check_cancelled c r = (r, (if c then interrupted_run else completed))

-- The progress callback, for each report that has a total.
pub report_all : List OperationProgress → System → System
report_all [] s = s
report_all (p ∷ ps) s = report_all ps (if ltb 0 p.total_bytes then set_progress p s else s)

-- What follows the answer of EnsureDepot.
downloaded_as : Download → Run → Done
downloaded_as download_failed r = abort depot_failed r
downloaded_as download_cached r = (on_system (publish depot_cached_event) r, completed)
downloaded_as downloaded r = (on_system (publish depot_complete_event) r, completed)

download : Answers → Game → Run → Done
unfolding downloaded_as report_all
download a game r =
    let app = depot_app_id game in
    let asked =
      call (ensure_depot app)
        (on_system (λ s. set_phase phase_downloading_game (publish depot_downloading_event s)) r) in
    downloaded_as a.depot (on_system (report_all a.depot_progress) asked)

-- The game files, for a game with a depot.
pub depot_step : Answers → Game → Run → Done
unfolding download
depot_step a game r =
    if depot_app_id game == 0
    then (r, completed)
    else if requires_auth game.steam_login && str_eq a.refresh_token ""
    then abort steam_login_required r
    else download a game r

pub image_step : Answers → Run → Done
unfolding report_all
image_step a r =
    let asked =
      call pull_image
        (on_system (λ s. publish image_pulling_event (set_phase phase_pulling_image s)) r) in
    let reported = on_system (report_all a.image_progress) asked in
    if a.image_pulled
    then (on_system (publish image_pulled_event) reported, completed)
    else abort image_failed reported

pub copy_step : Answers → Game → Run → Done
copy_step a game r =
    if not (depot_app_id game == 0) && not r.system.live.spec.installed
    then if a.depot_copied
      then (call copy_depot r, completed)
      else abort depot_copy_failed (call copy_depot r)
    else (r, completed)

pub scripts_step : Answers → Game → Run → Done
unfolding copy_step
scripts_step a game r =
    let asked = call prepare_scripts r in
    if a.scripts_prepared
    then and_then (copy_step a game asked) (λ r. (call reconcile_mods r, completed))
    else abort scripts_failed asked

pub forget_instance : System → System
forget_instance s =
    let g = s.live in
    let spec = g.spec in
    record s {
      live = record g { spec = record spec { instance_id = none } };
      store = set_instance_id spec.id none s.store;
    }

-- An instance id in memory is cleared, also an empty one.
pub clear_instance : System → System
clear_instance s =
    let g = s.live in
    let spec = g.spec in record s { live = record g { spec = record spec { instance_id = none } } }

-- The instance of an earlier run is removed, by its id and by its name. An empty id is cleared in
-- memory alone.
forget_stale : Option String → Run → Run
unfolding forget_instance clear_instance
forget_stale none r = r
forget_stale (some old) r =
    if str_eq old ""
    then on_system clear_instance r
    else call (remove_instance (by_id old)) (on_system forget_instance r)

pub clear_stale : Run → Run
unfolding forget_stale
clear_stale r =
    let id = r.system.live.spec.id in
    call (remove_instance (named id)) (forget_stale r.system.live.spec.instance_id r)

pub mark_installed : System → System
mark_installed s =
    let g = s.live in
    let spec : Gameserver = record g.spec { installed = true } in
    record s { live = record g { spec = spec }; store = update_gameserver spec s.store }

is_success : ℤ → Bool
is_success (pos zero) = true
is_success (pos (suc n)) = false
is_success (negsuc n) = false

-- What follows the exit of the install script; its instance is removed in any case.
install_ended : Option ℤ → Run → Done
unfolding is_success mark_installed
install_ended none r = abort install_phase_failed r
install_ended (some code) r =
    if is_success code
    then (on_system mark_installed r, completed)
    else abort (install_exit_code code) r

run_install : Option ℤ → Option String → String → Run → Done
unfolding install_ended
run_install exit (some message) id r =
    abort (install_start_failed message)
      (call (remove_instance (by_id id)) (call (start_instance id) r))
run_install exit none id r =
    install_ended exit
      (call (remove_instance (by_id id)) (call (wait_for_exit id) (call (start_instance id) r)))

install_created : Answers → Answer → Run → Done
unfolding run_install
install_created a (refused message) r = abort (install_create_failed message) r
install_created a (given id) r = run_install a.install_exit a.install_start id r

-- The install phase, where the gameserver is not installed.
pub install_step : Answers → Env → List PortBinding → Run → Done
unfolding install_created
install_step a env ports r =
    let id = r.system.live.spec.id in
    let asked =
      call (create_instance (install_named id) env ports)
        (call (remove_instance (install_named id)) (on_system (set_phase phase_installing) r)) in
    if r.system.live.spec.installed
    then (r, completed)
    else install_created a a.install_instance asked

-- The instance and the configuration that it was created with.
unfoldable pub record_instance : String → System → System
record_instance id s =
    let g = s.live in
    let old = g.spec in
    let spec : Gameserver = record old {
      instance_id = some id;
      applied_config = some (snapshot_config old);
    } in
    record s { live = record g { spec = spec }; store = update_gameserver spec s.store }

start_ended : Option String → Run → Done
start_ended (some message) r = abort (start_failed message) r
start_ended none r = (on_system (publish instance_creating_event) r, completed)

start_created : Answers → String → Run → Done
unfolding record_instance start_ended
start_created a id r = start_ended a.start (
    call (start_instance id)
      (on_system (λ s. publish instance_creating_event (record_instance id s)) r))

instance_created : Answers → Answer → Run → Done
unfolding start_created
instance_created a (refused message) r = abort (create_failed message) r
instance_created a (given id) r =
    if a.cancelled_after_create
    then (call (remove_instance (by_id id)) r, interrupted_run)
    else start_created a id r

pub launch_step : Answers → Env → List PortBinding → Run → Done
unfolding instance_created
launch_step a env ports r =
    let id = r.system.live.spec.id in
    instance_created a a.instance
      (call (create_instance (named id) env ports) (on_system (set_phase phase_starting) r))

-- What follows the image: the environment, the ports, the scripts and the instances.
configured : Answers → Game → Env → List PortBinding → Run → Done
unfolding scripts_step clear_stale install_step launch_step
configured a game env ports r = and_then (scripts_step a game r) λ r.
    and_then (install_step a env ports (clear_stale r))
      λ r. and_then (check_cancelled a.cancelled_after_install r) λ r. launch_step a env ports r

with_ports : Answers → Game → Env → Option (List PortBinding) → Run → Done
unfolding configured
with_ports a game env none r = abort ports_invalid r
with_ports a game env (some ports) r = configured a game env ports r

with_env : Answers → Game → Merged → Run → Done
unfolding with_ports
with_env a game (missing key label) r = abort env_invalid r
with_env a game (merged env) r =
    with_ports a game env (parse_gameserver_ports game.default_ports r.system.live.spec.ports) r

configure : Answers → Game → Run → Done
unfolding with_env
configure a game r = with_env a game (merge_env game.default_env r.system.live.spec.env) r

after_image : Answers → Game → Run → Done
unfolding configure
after_image a game r = and_then (check_cancelled a.cancelled_after_image r) (configure a game)

after_depot : Answers → Game → Run → Done
unfolding image_step after_image
after_depot a game r =
    and_then (check_cancelled a.cancelled_after_depot r)
      λ r. and_then (image_step a r) (after_image a game)

start_game : Answers → Game → Run → Done
unfolding depot_step after_depot
start_game a game r = and_then (depot_step a game r) (after_depot a game)

start_known : Answers → Option Game → Run → Done
unfolding start_game
start_known a none r = abort game_not_found r
start_known a (some game) r =
    if is_some r.system.live.worker then start_game a game r else abort worker_unavailable r

-- executeStart
pub execute_start : Answers → Run → Done
unfolding start_known
execute_start a r = start_known a a.game r
