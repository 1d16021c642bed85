-- ===== src/Live/Lifecycle/Requests.antt =====
-- controller/gameserver/lifecycle.go: what Start, Stop, Restart, UpdateServerGame, Reinstall and
-- Delete do before their goroutine runs.
pub mod Laws
pub mod CrashLoop
use game_janitor.Base.{
  ℕ, String, Bool, true, false, ◌&&◌, not, Option, none, some, List, [], ◌∷◌, if◌then◌else◌,
  is_some, ◌≡◌,
}
use game_janitor.Model.{
  Gameserver, op_start, op_stop, op_restart, op_update, op_reinstall, op_delete, desired_running,
  no_error, is_archived, ProcessState, process_none, process_running, phase_downloading_game,
  phase_stopping, phase_deleting,
}
use game_janitor.Store.{set_desired_state, clear_error_reason}
use game_janitor.Live.{System, Live}
use game_janitor.Live.Process.{is_running}
use game_janitor.Live.Operations.{Opts, Harness, Submitted, submit_pass, update_system}

abbrev pub start_opts : Opts
start_opts = record {
  op_type = op_start;
  initial_phase = phase_downloading_game;
  require_worker = true;
  error_prefix = "";
  clear_on_success = false;
  terminal = false;
}

abbrev pub stop_opts : Opts
stop_opts = record {
  op_type = op_stop;
  initial_phase = phase_stopping;
  require_worker = false;
  error_prefix = "";
  clear_on_success = true;
  terminal = false;
}

abbrev pub restart_opts : Opts
restart_opts = record {
  op_type = op_restart;
  initial_phase = phase_stopping;
  require_worker = true;
  error_prefix = "Restart failed";
  clear_on_success = false;
  terminal = false;
}

abbrev pub update_opts : Opts
update_opts = record {
  op_type = op_update;
  initial_phase = phase_stopping;
  require_worker = true;
  error_prefix = "";
  clear_on_success = false;
  terminal = false;
}

abbrev pub reinstall_opts : Opts
reinstall_opts = record {
  op_type = op_reinstall;
  initial_phase = phase_stopping;
  require_worker = true;
  error_prefix = "Reinstall failed";
  clear_on_success = false;
  terminal = false;
}

abbrev pub delete_opts : Opts
delete_opts = record {
  op_type = op_delete;
  initial_phase = phase_deleting;
  require_worker = false;
  error_prefix = "Delete failed";
  clear_on_success = false;
  terminal = true;
}

-- A request is refused, has nothing to do, or reaches the harness.
pub data Requested : Type 0 where
  bad_request nothing_to_do : Requested
  submitted : Submitted → Requested

-- The locked section of Start.
pub want_running : System → System
want_running s =
    let g = s.live in
    let spec = g.spec in
    record s {
      live = record g {
        spec = record spec { desired_state = desired_running; error_reason = no_error };
        crash_count = 0;
      };
      store = clear_error_reason spec.id (set_desired_state spec.id desired_running s.store);
    }

submit : Opts → Harness → Harness × Requested
submit opts h = let (h', r) = submit_pass opts h in (h', submitted r)

-- Start
pub start : Harness → Harness × Requested
unfolding want_running submit
start h =
    let g = h.system.live in
    if is_archived g.spec
    then (h, bad_request)
    else if is_running g.process_state && g.ready
    then (h, nothing_to_do)
    else submit start_opts (update_system want_running h)

abbrev is_none_state : ProcessState → Bool
is_none_state process_none = true
is_none_state _ = false

-- Stop: the first pass of its submission.
pub stop : Harness → Harness × Requested
unfolding submit
stop h =
    let g = h.system.live in
    if not (is_some g.spec.instance_id)
      && is_none_state g.process_state
      && not (is_some g.operation)
    then (h, nothing_to_do)
    else submit stop_opts h

-- Restart, UpdateServerGame, Reinstall, and the first pass of Delete.
pub restart : Harness → Harness × Requested
unfolding submit
restart h = submit restart_opts h

pub update_server_game : Harness → Harness × Requested
unfolding submit
update_server_game h = submit update_opts h

pub reinstall : Harness → Harness × Requested
unfolding submit
reinstall h = submit reinstall_opts h

pub delete_request : Harness → Harness × Requested
unfolding submit
delete_request h = submit delete_opts h
