-- ===== src/Live/Tests.antt =====
-- Runs of the runtime object (controller/gameserver/live.go) on one gameserver.
use game_janitor.Base.{◌≡◌, refl, true, false, [], ◌∷◌, none, some, arith, ◌⊎◌, ◌↔◌, inl, ◌<◌}
use game_janitor.Model.{
  pos, Gameserver, desired_running, desired_stopped, no_error, process_running, Operation, op_start,
  op_stop, phase_starting, phase_stopping, process_exited,
}
use game_janitor.Store.{Store, find_gameserver}
use game_janitor.Store.Laws.{Stored}
use game_janitor.Live.{
  Live, System, InstanceStateUpdate, state_exited, state_running, watched, operation_event,
}
use game_janitor.Live.Process.{handle_process_event}
use game_janitor.Live.Process.Sync.{handle_process_event-Stored}
use game_janitor.Live.Process.Crash.{
  handle_process_event-restarts, handle_process_event-settles, handle_process_event-intended,
  IsCrash,
}
use game_janitor.Live.Operations.{
  Opts, Goroutine, Harness, submit_passes, waiting, finish, run_deferred, succeeded, happen_all,
  submits, finishes, defers, op_priority,
}
use game_janitor.Live.Operations.Exclusive.{happen_all-IsExclusive, IsExclusive}
use game_janitor.Live.Operations.Overlap.{stop_after_start-spins}

abbrev pub server : Gameserver
server = record {
  id = "a";
  name = "server";
  game_id = "cs";
  volume_name = "gamejanitor-a";
  ports = [];
  env = [];
  memory_limit_mb = 512;
  cpu_limit = 500;
  cpu_enforced = false;
  port_mode = "auto";
  node_id = some "n1";
  backup_limit = none;
  storage_limit_mb = none;
  node_tags = [];
  auto_restart = some true;
  connection_address = none;
  applied_config = none;
  desired_state = desired_running;
  created_by_token_id = none;
  grants = [];
  sftp_username = "server";
  hashed_sftp_password = "";
  instance_id = some "i1";
  installed = true;
  error_reason = no_error;
}

abbrev pub online : Live
online = record {
  spec = server;
  operation = none;
  op_done = none;
  crash_count = 2;
  process_state = process_running;
  ready = true;
  started_at = some 7;
  ready_at = some 9;
  exited_at = none;
  exit_code = pos 0;
  worker = some "n1";
}

abbrev pub database : Store
database = record { gameservers = server ∷ []; nodes = []; fails = λ q. false }

abbrev pub up : System
up = record { live = online; store = database; log = []; restarts = 0 }

abbrev pub exit : InstanceStateUpdate
exit = record {
  instance_id = "i1";
  instance_name = "gamejanitor-a";
  state = state_exited;
  ready = false;
  ready_at = 0;
  exit_code = pos 139;
  started_at = 7;
  exited_at = 20_000_000_007;
  installed = true;
}

handle_process_event-restarts_example :
    let t = handle_process_event 20_000_000_007 exit up in
    ((t.restarts ≡ 1) ↔ (IsCrash online × (server.auto_restart ≡ some true) × (2 < 3)))
    × ((t.restarts ≡ 1) ⊎ (t.restarts ≡ 0))
handle_process_event-restarts_example =
    handle_process_event-restarts 20_000_000_007 exit up refl refl

handle_process_event-settles_example :
    let t = handle_process_event 20_000_000_007 exit up in
    (t.live.operation ≡ none)
    × (t.live.spec.instance_id ≡ none)
    × (t.live.ready ≡ false)
    × (t.live.ready_at ≡ none)
    × (((t.live.process_state ≡ process_exited) × (t.live.exit_code ≡ pos 139)) ⊎ (t.restarts ≡ 1))
handle_process_event-settles_example = handle_process_event-settles 20_000_000_007 exit up refl refl

abbrev unwanted : System
unwanted = record up {
  live = record online { spec = record server { desired_state = desired_stopped } };
}

handle_process_event-intended_example :
    let t = handle_process_event 20_000_000_007 exit unwanted in
    (t.restarts ≡ 0)
    × (t.live.crash_count ≡ 2)
    × (t.live.spec.error_reason ≡ no_error)
    × ((t.log ≡ []) ⊎ (t.log ≡ watched none ∷ operation_event none ∷ []))
handle_process_event-intended_example =
    handle_process_event-intended 20_000_000_007 exit unwanted refl refl (inl (λ e. cc))

abbrev pub starting : Operation
starting = record { op_type = op_start; phase = phase_starting; progress = none }

abbrev pub booting : System
booting = record up { live = record online { operation = some starting; ready = false } }

abbrev ready : InstanceStateUpdate
ready = record exit { state = state_running; ready = true; ready_at = 9 }

pub in_database : Stored database "a" server
unfolding find_gameserver
in_database = (λ q. refl, refl)

handle_process_event-Stored_example :
    let t = handle_process_event 20_000_000_007 exit up in Stored t.store t.live.spec.id t.live.spec
handle_process_event-Stored_example = handle_process_event-Stored 20_000_000_007 exit up in_database

abbrev start_opts : Opts
start_opts = record {
  op_type = op_start;
  initial_phase = phase_starting;
  require_worker = true;
  error_prefix = "Start failed: ";
  clear_on_success = false;
  terminal = false;
}

abbrev stop_opts : Opts
stop_opts = record {
  op_type = op_stop;
  initial_phase = phase_stopping;
  require_worker = false;
  error_prefix = "";
  clear_on_success = true;
  terminal = false;
}

abbrev pub idle : Harness
idle = record { system = up; goroutines = []; closed = []; next_id = 0 }

idle-IsExclusive : IsExclusive idle
idle-IsExclusive = record { at_most_one = omega arith; shown = λ e. refl }

happen_all-IsExclusive_example : IsExclusive (
    happen_all
      (submits start_opts
        ∷ submits stop_opts
        ∷ finishes 0 succeeded
        ∷ defers 0
        ∷ submits stop_opts
        ∷ [])
      idle)
happen_all-IsExclusive_example =
    happen_all-IsExclusive
      (submits start_opts
        ∷ submits stop_opts
        ∷ finishes 0 succeeded
        ∷ defers 0
        ∷ submits stop_opts
        ∷ [])
      idle (tt, (tt, (tt, (tt, (tt, tt))))) idle-IsExclusive

abbrev starter : Goroutine
starter = record { id = 0; opts = start_opts; cancelled = false; returned = false }

abbrev pub in_start : Harness
in_start = record {
  system = record booting { live = record online { operation = some starting; op_done = some 0 } };
  goroutines = starter ∷ [];
  closed = [];
  next_id = 1;
}

stop_after_start-spins_example :
    let h = run_deferred 0 (finish 0 succeeded in_start) in
    submit_passes 5 stop_opts h ≡ (h, waiting none)
unfolding op_priority
stop_after_start-spins_example =
    stop_after_start-spins 5 stop_opts starter starting in_start (refl, refl, refl, refl, refl)
      (omega arith)
