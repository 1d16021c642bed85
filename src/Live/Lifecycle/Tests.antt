-- ===== src/Live/Lifecycle/Tests.antt =====
-- Runs of the lifecycle (controller/gameserver/lifecycle.go) on one gameserver.
use game_janitor.Base.{eq_iff, ◌≡◌, refl, true, false, [], ◌∷◌, none, some, arith, ℕ}
use game_janitor.Model.{
  is_archived, pos, Operation, op_stop, op_restart, phase_stopping, desired_stopped, no_error,
  process_none, restart_required,
}
use game_janitor.Model.Laws.{IsMap}
use game_janitor.Live.Config.{merge_env, parse_gameserver_ports}
use game_janitor.Games.{Game, login_anonymous, depot_app_id, requires_auth}
use game_janitor.Live.{System, InstanceStateUpdate, set_phase}
use game_janitor.Live.Process.{handle_process_event}
use game_janitor.Live.Process.Crash.{IsUp}
use game_janitor.Live.Operations.{Harness}
use game_janitor.Live.Tests.{online, up, exit, in_database, idle}
use game_janitor.Live.Lifecycle.{
  Run, Answers, given, downloaded, execute_start, completed, and_then, check_cancelled,
}
use game_janitor.Live.Lifecycle.Sync.{InSync, EndsWell, execute_start-EndsWell}
use game_janitor.Live.Lifecycle.Outcomes.{execute_start-completed, IsStarted}
use game_janitor.Live.Lifecycle.Stop.{do_stop}
use game_janitor.Live.Lifecycle.Stop.Laws.{do_stop-settles}
use game_janitor.Live.Lifecycle.Requests.{start}
use game_janitor.Live.Lifecycle.Requests.Laws.{start-undoes_stop}
use game_janitor.Live.Lifecycle.Requests.CrashLoop.{crash_rounds, crash_rounds-restarts}

abbrev game : Game
game = record {
  id = "cs";
  app_id = 740;
  server_app_id = 0;
  steam_login = login_anonymous;
  default_ports = [];
  default_env = [];
}

abbrev answers : Answers
answers = record {
  game = some game;
  refresh_token = "";
  depot = downloaded;
  depot_progress = [];
  image_progress = [];
  image_pulled = true;
  scripts_prepared = true;
  depot_copied = true;
  install_instance = given "i2";
  install_start = none;
  install_exit = some (pos 0);
  instance = given "i3";
  start = none;
  cancelled_after_depot = false;
  cancelled_after_image = false;
  cancelled_after_install = false;
  cancelled_after_create = false;
}

abbrev run : Run
run = record { system = up; calls = [] }

execute_start-EndsWell_example : EndsWell (execute_start answers run)
execute_start-EndsWell_example =
    execute_start-EndsWell answers run (λ e. ground (arith, e, eq_iff "i1" "")) in_database

starts : (execute_start answers run).1 ≡ completed
unfolding execute_start depot_app_id requires_auth merge_env parse_gameserver_ports set_phase
    and_then check_cancelled
starts = refl

execute_start-completed_example :
    let t = (execute_start answers run).0 in
    IsStarted answers t
    × (IsMap t.system.live.spec.env → restart_required t.system.live.spec ≡ false)
execute_start-completed_example = execute_start-completed answers run starts

do_stop-settles_example :
    let s = (do_stop run).system in
    InSync s
    × (s.live.spec.desired_state ≡ desired_stopped)
    × (s.live.spec.instance_id ≡ none)
    × (s.live.spec.error_reason ≡ no_error)
    × (s.live.process_state ≡ process_none)
    × ((now : ℕ) (u : InstanceStateUpdate) → handle_process_event now u s ≡ s)
do_stop-settles_example = do_stop-settles run in_database

abbrev stopping : Operation
stopping = record { op_type = op_stop; phase = phase_stopping; progress = none }

abbrev in_stop : Harness
in_stop = record idle {
  system = record up { live = record online { operation = some stopping; ready = false } };
}

start-undoes_stop_example :
    (handle_process_event 20_000_000_007 exit (start in_stop).0.system).restarts ≡ 1
unfolding is_archived
start-undoes_stop_example =
    start-undoes_stop 20_000_000_007 exit in_stop stopping refl refl refl refl refl refl refl

abbrev restarting : Operation
restarting = record { op_type = op_restart; phase = phase_stopping; progress = none }

abbrev in_restart : System
in_restart = record up { live = record online { operation = some restarting } }

abbrev all_up : Harness
all_up = record idle { system = record up { live = record online { crash_count = 0 } } }

is_up : IsUp "i1" all_up.system.live
is_up = record {
  meant = refl;
  restarts = refl;
  instance = refl;
  running = refl;
  idle = refl;
  count = refl;
  online = refl;
}

crash_rounds-restarts_example :
    (crash_rounds 20_000_000_007 exit "i1" ("i2" ∷ "i3" ∷ "i4" ∷ "i5" ∷ []) all_up).system.restarts
    ≡ 4
crash_rounds-restarts_example =
    crash_rounds-restarts 20_000_000_007 exit "i1" ("i2" ∷ "i3" ∷ "i4" ∷ "i5" ∷ []) all_up is_up
