-- ===== src/Manager/Recovery.antt =====
-- The recovery of controller/gameserver/manager.go: what the controller makes of a gameserver, given
-- what the worker says of its instance.
pub mod Sound
pub mod Loaded
pub mod Honest
use game_janitor.Base.{
  ℕ, ◌+◌, String, Bool, true, false, ◌&&◌, ◌||◌, Option, none, some, List, [], ◌∷◌, if◌then◌else◌,
  str_eq, lookup, insert, ◌≡◌, is_some, ◌<>◌,
}
use game_janitor.Model.{
  ℤ, Gameserver, ErrorReason, process_running, process_exited, no_instance_on_recovery,
  instance_missing_on_recovery, instance_state_on_recovery,
}
use game_janitor.Store.{Store, set_instance_id, on_node, list_gameservers}
use game_janitor.Live.{Live, System, set_error, clear_process, new_live, set_worker}
use game_janitor.Live.Process.{wants_running}
use game_janitor.Dispatcher.{worker_for}
use game_janitor.Manager.{Manager, on_gameserver, start_polling, system_of, put_system}

-- What InspectInstance answers; an error is none.
pub record Inspected : Type 0 where
  pub state : String
  pub exit_code : ℤ
  pub started_at : ℕ

abbrev pub Inspect : Type 0
Inspect = String → Option Inspected

abbrev on_live : (Live → Live) → System → System
on_live f s = record s { live = f s.live }

-- An error, where the gameserver is meant to run.
blame : ErrorReason → System → System
blame reason s = if wants_running s.live.spec.desired_state then set_error reason s else s

-- There is no instance to recover.
without_instance : System → System
without_instance s =
    if wants_running s.live.spec.desired_state
    then set_error no_instance_on_recovery s
    else on_live clear_process s

-- The instance is forgotten, in memory and in the database.
abbrev forgotten : Live → Live
forgotten g =
    let spec = g.spec in clear_process (record g { spec = record spec { instance_id = none } })

drop_instance : (Live → Live) → System → System
drop_instance then_do s = record s {
  live = then_do (forgotten s.live);
  store = set_instance_id s.live.spec.id none s.store;
}

adopt : Inspected → Live → Live
adopt info g = record g {
  process_state = process_running;
  ready = true;
  started_at = some info.started_at;
  ready_at = some info.started_at;
}

show_exit : Inspected → Live → Live
show_exit info g =
    if str_eq info.state "exited"
    then record g { process_state = process_exited; exit_code = info.exit_code }
    else g

abbrev pub is_over : String → Bool
is_over state = str_eq state "exited" || str_eq state "dead" || str_eq state "created"

reconcile : Inspected → System → System
unfolding adopt drop_instance show_exit blame
reconcile info s =
    if str_eq info.state "running"
    then on_live (adopt info) s
    else if is_over info.state
    then blame (instance_state_on_recovery info.state info.exit_code)
        (drop_instance (show_exit info) s)
    else on_live clear_process s

instance_gone : System → System
unfolding blame drop_instance
instance_gone s = blame instance_missing_on_recovery (drop_instance (λ g. g) s)

-- recoverGameserver, on the object.
pub recover_live : Inspect → System → System
unfolding without_instance reconcile instance_gone
recover_live inspect s = elim s.live.spec.instance_id [
  | none ↦ without_instance s
  | some instance ↦ elim (inspect instance) [
    | none ↦ instance_gone s
    | some info ↦ reconcile info s
  ]
]

-- Whether it starts to poll, and its result.
polls : Inspect → Live → Bool
polls inspect g = elim g.spec.instance_id [
  | none ↦ false
  | some instance ↦ elim (inspect instance) [
    | none ↦ false
    | some info ↦ str_eq info.state "running"
  ]
]

pub reported_missing : Inspect → Live → Bool
reported_missing inspect g = elim g.spec.instance_id [
  | none ↦ false
  | some instance ↦ elim (inspect instance) [
    | none ↦ wants_running g.spec.desired_state
    | some info ↦ false
  ]
]

start_poller : Bool → String → Manager → Manager
start_poller b id m = if b then record m { polling = start_polling id ∷ m.polling } else m

-- recoverGameserver
pub recover_gameserver : Inspect → String → Manager → Manager
unfolding start_poller polls
recover_gameserver inspect id m = elim (lookup id m.lives) [
  | none ↦ m
  | some g ↦ start_poller (polls inspect g) id (on_gameserver id (recover_live inspect) m)
]

-- The gameservers on the node that have an instance.
to_recover : String → List (String × Live) → List String
to_recover node_id [] = []
to_recover node_id ((id, g) ∷ rest) =
    let later = to_recover node_id rest in
    if on_node node_id g.spec && is_some g.spec.instance_id then id ∷ later else later

recover_each : Inspect → List String → Manager → Manager
unfolding recover_gameserver
recover_each inspect [] m = m
recover_each inspect (id ∷ ids) m = recover_each inspect ids (recover_gameserver inspect id m)

-- recoverWorkerGameservers; the orphans that it looks for are only logged.
pub recover_worker_gameservers : Inspect → String → Manager → Manager
unfolding to_recover recover_each
recover_worker_gameservers inspect node_id m = recover_each inspect (to_recover node_id m.lives) m

-- A row that is loaded: its object is new, and is recovered where its worker is connected.
load_one : (String → Inspect) → Gameserver → Manager → Manager
unfolding recover_gameserver
load_one inspects gs m = elim (worker_for m.placement.store m.registry gs.id) [
  | none ↦ record m { lives = insert gs.id (new_live gs) m.lives }
  | some w ↦
      recover_gameserver (inspects w) gs.id
        (record m { lives = insert gs.id (set_worker w (new_live gs)) m.lives })
]

load_each : (String → Inspect) → List Gameserver → Manager → Manager
unfolding load_one
load_each inspects [] m = m
load_each inspects (gs ∷ rest) m = load_each inspects rest (load_one inspects gs m)

-- RecoverAll; none is the error of the query.
pub recover_all : (String → Inspect) → Manager → Option Manager
unfolding load_each
recover_all inspects m = elim (list_gameservers m.placement.store none) [
  | none ↦ none
  | some rows ↦ some (load_each inspects rows m)
]
