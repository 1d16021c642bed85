-- ===== src/Live/Process.antt =====
-- HandleProcessEvent of controller/gameserver/live.go: the locked section, which changes the object
-- and queues side effects, and the side effects, which are applied after the lock is released.
pub mod Sync
pub mod Crash
pub mod Frame
use game_janitor.Base.{
  ℕ, zero, suc, ◌+◌, ◌-◌, ◌/◌, String, ◌≡◌, Bool, true, false, ◌&&◌, ◌||◌, not, Option, none, some,
  List, [], ◌∷◌, ◌++◌, ltb, ◌==◌, if◌then◌else◌, str_eq, is_some,
}
use game_janitor.Model.{
  ℤ, pos, negsuc, Gameserver, Operation, OpType, op_delete, ProcessState, process_none,
  process_running, process_exited, DesiredState, desired_running, ErrorReason, no_error, crashed,
  crash_limit, ExitReason, out_of_memory, segmentation_fault, terminated, killed, exited_with_error,
  interrupted, killed_by_signal, exited_with_code,
}
use game_janitor.Store.{
  Store, set_error_reason, clear_error_reason, set_instance_id, get_gameserver, update_gameserver,
}
use game_janitor.Live.{
  InstanceState, state_created, state_running, state_exited, InstanceStateUpdate, Live, System,
  Published, operation_event, watched, ready_event, instance_exited_event, error_event, publish,
  clear_process,
}

pub record SideEffects : Type 0 where
  pub mark_installed : Bool
  pub clear_instance_id : Bool
  pub clear_error : Bool
  pub persist_error_reason : ErrorReason
  pub publish_operation_cleared : Bool
  pub publish_ready : Bool
  pub publish_instance_exited : Bool
  pub publish_error : ErrorReason
  pub trigger_auto_restart : Bool
  pub crash_limit_reached : Bool
  pub crash_count : ℕ

abbrev pub no_effects : SideEffects
no_effects = record {
  mark_installed = false;
  clear_instance_id = false;
  clear_error = false;
  persist_error_reason = no_error;
  publish_operation_cleared = false;
  publish_ready = false;
  publish_instance_exited = false;
  publish_error = no_error;
  trigger_auto_restart = false;
  crash_limit_reached = false;
  crash_count = 0;
}

-- setProcessRunningLocked
pub set_process_running : InstanceStateUpdate → Live → Live
set_process_running u g = record g {
  process_state = process_running;
  ready = u.ready;
  started_at = some u.started_at;
  ready_at = if u.ready && not (u.ready_at == 0) then some u.ready_at else g.ready_at;
  exited_at = none;
  exit_code = pos 0;
}

-- setProcessExitedLocked
pub set_process_exited : ℕ → ℤ → ℕ → Live → Live
set_process_exited now exit_code exited_at g = record g {
  process_state = process_exited;
  ready = false;
  exit_code = exit_code;
  exited_at = some (if exited_at == 0 then now else exited_at);
  ready_at = none;
}

-- describeExit, which its caller gives no stats: the reason, beside the uptime in whole seconds.
exit_reason : ℤ → ExitReason
exit_reason (pos n) =
    if n == 137
    then out_of_memory
    else if n == 139
    then segmentation_fault
    else if n == 143
    then terminated
    else if n == 1
    then exited_with_error
    else if n == 2
    then interrupted
    else if ltb 128 n
    then killed_by_signal (n - 128)
    else exited_with_code (pos n)
exit_reason (negsuc zero) = killed
exit_reason (negsuc (suc n)) = exited_with_code (negsuc (suc n))

round_seconds : ℕ → ℕ
round_seconds ns = (ns + 500_000_000) / 1_000_000_000

pub describe_exit : ℕ → InstanceStateUpdate → ErrorReason
unfolding exit_reason round_seconds
describe_exit now u = crashed (exit_reason u.exit_code) (round_seconds (now - u.started_at))

crash_limit_reason : ℕ → ErrorReason → ErrorReason
crash_limit_reason n (crashed what uptime) = crash_limit n what uptime
crash_limit_reason n other = other

abbrev pub wants_running : DesiredState → Bool
wants_running desired_running = true
wants_running _ = false

abbrev pub is_running : ProcessState → Bool
is_running process_running = true
is_running _ = false

abbrev pub is_delete : OpType → Bool
is_delete op_delete = true
is_delete _ = false

abbrev pub deleting : Option Operation → Bool
deleting none = false
deleting (some op) = is_delete op.op_type

abbrev pub has_error : ErrorReason → Bool
has_error no_error = false
has_error _ = true

abbrev pub restarts_itself : Option Bool → Bool
restarts_itself none = false
restarts_itself (some b) = b

abbrev pub max_restart_attempts : ℕ
max_restart_attempts = 3

-- The case worker.StateRunning.
on_running : InstanceStateUpdate → Live → Live × SideEffects
unfolding set_process_running
on_running u g =
    let spec = g.spec in
    let up = set_process_running u g in
    let had_error = has_error spec.error_reason in
    let installs = not spec.installed && u.installed in
    let becomes_ready = u.ready && not g.ready in
    (
      record up {
        spec = record spec { error_reason = no_error; installed = spec.installed || u.installed };
        operation = if becomes_ready then none else g.operation;
      },
      record no_effects {
        clear_error = had_error;
        mark_installed = installs;
        publish_operation_cleared = becomes_ready && is_some g.operation;
        publish_ready = becomes_ready;
      },
    )

-- An exit that was not asked for: the reason is recorded, and the process is restarted or not.
on_crash : ℕ → InstanceStateUpdate → Live → Live × SideEffects
unfolding set_process_exited clear_process crash_limit_reason
on_crash now u g =
    let reason = describe_exit now u in
    let spec = g.spec in
    let down = set_process_exited now u.exit_code u.exited_at g in
    let count = g.crash_count + 1 in
    let limited = crash_limit_reason count reason in
    if restarts_itself spec.auto_restart
    then if ltb max_restart_attempts count
      then (
        record down { spec = record spec { error_reason = limited }; crash_count = count },
        record no_effects {
          persist_error_reason = limited;
          publish_instance_exited = true;
          publish_error = limited;
          crash_limit_reached = true;
          crash_count = count;
        },
      )
      else (
        record (clear_process down) {
          spec = record spec { error_reason = no_error };
          crash_count = count;
        },
        record no_effects {
          clear_error = true;
          publish_instance_exited = true;
          publish_error = reason;
          trigger_auto_restart = true;
          crash_count = count;
        },
      )
    else (
      record down { spec = record spec { error_reason = reason } },
      record no_effects {
        persist_error_reason = reason;
        publish_instance_exited = true;
        publish_error = reason;
      },
    )

-- A crash is an exit that nobody asked for, of a process that ran or was being operated on.
abbrev pub is_crash : Live → Bool
is_crash g =
    wants_running g.spec.desired_state
    && not (deleting g.operation)
    && (is_running g.process_state || is_some g.operation)

-- What both kinds of exit end with: no operation, no instance.
settle : Live × SideEffects → Live × SideEffects
settle (g, se) =
    let spec = g.spec in
    (
      record g { operation = none; spec = record spec { instance_id = none } },
      record se {
        publish_operation_cleared = is_some g.operation;
        clear_instance_id = is_some spec.instance_id;
      },
    )

-- The case worker.StateExited.
on_exited : ℕ → InstanceStateUpdate → Live → Live × SideEffects
unfolding on_crash settle set_process_exited
on_exited now u g = settle (
    if is_crash g
    then on_crash now u g
    else (set_process_exited now u.exit_code u.exited_at g, no_effects))

-- The locked section for an event of the gameserver's own instance.
pub on_state : InstanceState → ℕ → InstanceStateUpdate → Live → Live × SideEffects
unfolding on_running on_exited
on_state state_created now u g = (g, no_effects)
on_state state_running now u g = on_running u g
on_state state_exited now u g = on_exited now u g

-- applyProcessEventSideEffects: the store writes, in order.
store_error : SideEffects → String → Store → Store
store_error se id s =
    if se.clear_error
    then clear_error_reason id s
    else if has_error se.persist_error_reason
    then set_error_reason id se.persist_error_reason s
    else s

store_installed : Bool → String → Store → Store
store_installed marked id s =
    if marked
    then elim (get_gameserver s id) [
      | none ↦ s
      | some found ↦ elim found [
        | none ↦ s
        | some row ↦ update_gameserver (record row { installed = true }) s
      ]
    ]
    else s

store_instance : Bool → String → Store → Store
store_instance cleared id s = if cleared then set_instance_id id none s else s

pub store_effects : SideEffects → String → Store → Store
unfolding store_error store_installed store_instance
store_effects se id s =
    store_instance se.clear_instance_id id
      (store_installed se.mark_installed id (store_error se id s))

-- What it publishes, newest first.
abbrev when : Bool → List Published → List Published → List Published
when b new old = if b then new ++ old else old

pub published_effects : SideEffects → List Published → List Published
published_effects se log = when (has_error se.publish_error) (error_event se.publish_error ∷ []) (
    when se.publish_instance_exited (instance_exited_event ∷ []) (
      when se.publish_ready (ready_event ∷ [])
        (when se.publish_operation_cleared (watched none ∷ operation_event none ∷ []) log)))

pub apply_side_effects : SideEffects → System → System
unfolding store_effects published_effects
apply_side_effects se s = record s {
  store = store_effects se s.live.spec.id s.store;
  log = published_effects se s.log;
  restarts = if se.trigger_auto_restart then s.restarts + 1 else s.restarts;
}

-- The event is about the instance that the gameserver now has.
abbrev pub is_own : InstanceStateUpdate → Live → Bool
is_own u g = elim g.spec.instance_id [ none ↦ false | some id ↦ str_eq u.instance_id id ]

apply_state : Live × SideEffects → System → System
unfolding apply_side_effects
apply_state (g, se) s = apply_side_effects se (record s { live = g })

-- HandleProcessEvent at the time `now`.
pub handle_process_event : ℕ → InstanceStateUpdate → System → System
unfolding on_state apply_state
handle_process_event now u s =
    if is_own u s.live then apply_state (on_state u.state now u s.live) s else s
