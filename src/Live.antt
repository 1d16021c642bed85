-- ===== src/Live.antt =====
-- controller/gameserver/live.go: the runtime object of one gameserver, its observed process state
-- and what it publishes. The lock makes each section one step; `log` holds what was published,
-- newest first, and the store is that of store/gameserver.go.
pub mod Process
pub mod Config
pub mod Lifecycle
pub mod Operations
mod Tests
use game_janitor.Base.{
  ℕ, zero, suc, ◌+◌, ◌-◌, String, ◌≡◌, Bool, true, false, ◌&&◌, ◌||◌, not, Option, none, some, List,
  [], ◌∷◌,
}
use game_janitor.Model.{
  ℤ, pos, Gameserver, Operation, OperationPhase, OperationProgress, OpType, ProcessState,
  process_none, process_running, process_exited, DesiredState, ErrorReason, no_error,
  restart_required,
}
use game_janitor.Store.{Store, set_error_reason}

-- worker/types.go
pub data InstanceState : Type 0 where
  state_created state_running state_exited : InstanceState

pub record InstanceStateUpdate : Type 0 where
  pub instance_id : String
  pub instance_name : String
  pub state : InstanceState
  pub ready : Bool
  pub ready_at : ℕ
  pub exit_code : ℤ
  pub started_at : ℕ
  pub exited_at : ℕ
  pub installed : Bool

-- LiveGameserver. `op_done` names the goroutine of submitOperation that will close the channel and
-- call the cancel function; the worker is named by its node.
pub record Live : Type 0 where
  pub spec : Gameserver
  pub operation : Option Operation
  pub op_done : Option ℕ
  pub crash_count : ℕ
  pub process_state : ProcessState
  pub ready : Bool
  pub started_at : Option ℕ
  pub ready_at : Option ℕ
  pub exited_at : Option ℕ
  pub exit_code : ℤ
  pub worker : Option String

-- What goes to the event bus, and `watched` to the watchers.
pub data Published : Type 0 where
  operation_event watched : Option Operation → Published
  ready_event instance_exited_event instance_stopping_event instance_stopped_event : Published
  depot_downloading_event depot_complete_event depot_cached_event : Published
  image_pulling_event image_pulled_event instance_creating_event deleted_event : Published
  error_event : ErrorReason → Published

-- `restarts` counts the goroutines that were started to call Start.
pub record System : Type 0 where
  pub live : Live
  pub store : Store
  pub log : List Published
  pub restarts : ℕ

-- newLiveGameserver
unfoldable pub new_live : Gameserver → Live
new_live gs = record {
  spec = gs;
  operation = none;
  op_done = none;
  crash_count = 0;
  process_state = process_none;
  ready = false;
  started_at = none;
  ready_at = none;
  exited_at = none;
  exit_code = pos 0;
  worker = none;
}

-- Snapshot
pub record View : Type 0 where
  pub spec : Gameserver
  pub operation : Option Operation
  pub process_state : ProcessState
  pub ready : Bool
  pub worker_online : Bool
  pub exit_code : ℤ
  pub started_at : Option ℕ
  pub ready_at : Option ℕ
  pub exited_at : Option ℕ
  pub restart_required : Bool

pub snapshot : Live → View
snapshot g = record {
  spec = g.spec;
  operation = g.operation;
  process_state = g.process_state;
  ready = g.ready;
  worker_online = elim g.worker [ none ↦ false | some w ↦ true ];
  exit_code = g.exit_code;
  started_at = g.started_at;
  ready_at = g.ready_at;
  exited_at = g.exited_at;
  restart_required = restart_required g.spec;
}

abbrev pub publish : Published → System → System
publish e s = record s { log = e ∷ s.log }

-- clearProcessLocked
unfoldable pub clear_process : Live → Live
clear_process g = record g {
  process_state = process_none;
  ready = false;
  started_at = none;
  ready_at = none;
  exited_at = none;
  exit_code = pos 0;
}

-- SetWorker and ClearWorker
unfoldable pub set_worker : String → Live → Live
set_worker w g = record g { worker = some w }

unfoldable pub clear_worker : Live → Live
unfolding clear_process
clear_worker g = clear_process (record g { worker = none })

-- setError
unfoldable pub set_error : ErrorReason → System → System
set_error reason s =
    let g = s.live in
    let spec = g.spec in
    publish (error_event reason) (record s {
      live = record g { spec = record spec { error_reason = reason } };
      store = set_error_reason spec.id reason s.store;
    })

-- setPhase and setProgress: nothing happens without an operation.
pub set_phase : OperationPhase → System → System
set_phase phase s = elim s.live.operation [
  | none ↦ s
  | some op ↦
      let op' : Operation = record op { phase = phase } in
      let g = s.live in
      publish (watched (some op')) (
        publish (operation_event (some op'))
          (record s { live = record g { operation = some op' } }))
]

pub set_progress : OperationProgress → System → System
set_progress progress s = elim s.live.operation [
  | none ↦ s
  | some op ↦
      let op' : Operation = record op { progress = some progress } in
      let g = s.live in
      publish (watched (some op')) (record s { live = record g { operation = some op' } })
]

-- clearOperation
pub clear_operation : System → System
clear_operation s =
    let g = s.live in
    publish (watched none)
      (publish (operation_event none) (record s { live = record g { operation = none } }))
