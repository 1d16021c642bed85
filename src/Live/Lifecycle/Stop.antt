-- ===== src/Live/Lifecycle/Stop.antt =====
-- controller/gameserver/lifecycle.go and archive.go: how an instance is stopped, by doStop and by
-- stopIfRunning, and the function that Restart submits.
pub mod Laws
pub mod Frame
use game_janitor.Base.{
  ℕ, zero, suc, ◌+◌, String, ◌≡◌, Bool, true, false, ◌&&◌, ◌||◌, not, Option, none, some, List, [],
  ◌∷◌, ltb, ◌==◌, if◌then◌else◌, str_eq, is_some,
}
use game_janitor.Model.{
  ℤ, pos, negsuc, Env, Gameserver, Operation, OperationProgress, OpType, op_start, op_stop,
  op_restart, op_update, op_reinstall, op_delete, DesiredState, desired_running, desired_stopped,
  phase_downloading_game, phase_pulling_image, phase_installing, phase_starting, phase_stopping,
  ErrorReason, no_error, game_not_found, worker_unavailable, steam_login_required, depot_failed,
  image_failed, env_invalid, ports_invalid, scripts_failed, depot_copy_failed, install_phase_failed,
  install_create_failed, install_start_failed, create_failed, start_failed, install_exit_code,
  operation_failed, snapshot_config, OperationPhase, process_running, is_archived, process_none,
  phase_deleting, ProcessState,
}
use game_janitor.Store.{
  Store, update_gameserver, set_instance_id, set_desired_state, clear_error_reason,
}
use game_janitor.Games.{Game, depot_app_id, requires_auth}
use game_janitor.Live.{
  Live, System, Published, publish, set_phase, set_progress, set_error, clear_process,
  depot_downloading_event, depot_complete_event, depot_cached_event, image_pulling_event,
  image_pulled_event, instance_creating_event, instance_stopped_event, instance_stopping_event,
}
use game_janitor.Live.Config.{merge_env, merged, missing, parse_gameserver_ports, PortBinding}
use game_janitor.Live.Lifecycle.{
  Call, Run, Answers, Done, call, on_system, execute_start, by_id, remove_instance, exec_stop,
  stop_instance,
}

-- stopInstanceOnWorker: its errors are logged only.
pub stop_instance_on_worker : String → Run → Run
stop_instance_on_worker id r =
    call (remove_instance (by_id id)) (call (stop_instance id) (call (exec_stop id) r))

-- The two locked sections of doStop.
pub want_stopped : System → System
want_stopped s =
    let g = s.live in
    let spec : Gameserver = record g.spec { desired_state = desired_stopped } in
    record s { live = record g { spec = spec }; store = update_gameserver spec s.store }

pub forget_process : System → System
forget_process s =
    let g = clear_process s.live in
    let spec : Gameserver = record s.live.spec {
      instance_id = none;
      desired_state = desired_stopped;
      error_reason = no_error;
    } in
    record s { live = record g { spec = spec }; store = update_gameserver spec s.store }

pub stop_worker : Live → Run → Run
stop_worker g r =
    if is_some g.worker
    then elim g.spec.instance_id [ none ↦ r | some id ↦ stop_instance_on_worker id r ]
    else r

-- doStop
pub do_stop : Run → Run
unfolding want_stopped forget_process stop_worker
do_stop r =
    let first = on_system (λ s. want_stopped (set_phase phase_stopping s)) r in
    on_system (λ s. publish instance_stopped_event (forget_process s))
      (stop_worker first.system.live first)

forget_running : System → System
forget_running s =
    let g = clear_process s.live in
    let spec : Gameserver = record s.live.spec { instance_id = none } in
    record s { live = record g { spec = spec }; store = set_instance_id spec.id none s.store }

-- stopIfRunning (controller/gameserver/archive.go), which never fails.
pub stop_if_running : Run → Run
unfolding forget_running
stop_if_running r =
    if is_some r.system.live.worker
    then elim r.system.live.spec.instance_id [
      | none ↦ r
      | some id ↦ on_system forget_running (stop_instance_on_worker id r)
    ]
    else r

-- The function that Restart submits.
pub execute_restart : Answers → Run → Done
unfolding stop_if_running
execute_restart a r = execute_start a (stop_if_running (on_system (set_phase phase_stopping) r))
