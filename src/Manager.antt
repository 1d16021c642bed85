-- ===== src/Manager.antt =====
-- controller/gameserver/manager.go: the gameservers in memory, by their ids, with the database, the
-- ports that wait for a row, the workers, the pollers and the event bus. Methods that hold a lock are
-- one step. `log` and `polling` are newest first; a worker's answers are arguments.
pub mod Recovery
pub mod Request
pub mod Config
pub mod Create
pub mod Synced
pub mod Steps
mod Tests
use game_janitor.Base.{
  ℕ, zero, suc, String, Bool, true, false, ◌&&◌, not, Option, none, some, List, [], ◌∷◌, ◌++◌, map,
  keep, if◌then◌else◌, str_eq, str_elem, lookup, insert, delete, ◌≡◌,
}
use game_janitor.Model.{Gameserver}
use game_janitor.Store.{Store, on_node}
use game_janitor.Registry.{Registry, set_offline}
use game_janitor.Placement.{Placement}
use game_janitor.Naming.{gameserver_id_from_instance_name}
use game_janitor.Live.{
  Live, System, Published, InstanceState, state_created, state_running, state_exited,
  InstanceStateUpdate, set_worker, clear_worker,
}
use game_janitor.Live.Process.{handle_process_event}

pub data Polling : Type 0 where
  start_polling stop_polling : String → Polling

-- What goes to the event bus.
pub data BusEvent : Type 0 where
  of_gameserver : String → Published → BusEvent
  worker_connected worker_disconnected gameserver_created gameserver_updated : String → BusEvent

-- `watching` lists the nodes whose event streams are watched, `restarts` the gameservers that a
-- goroutine was started for to call Start.
pub record Manager : Type 0 where
  pub lives : List (String × Live)
  pub placement : Placement
  pub registry : Registry
  pub watching : List String
  pub polling : List Polling
  pub log : List BusEvent
  pub restarts : List String

-- Get
pub get_live : String → Manager → Option Live
get_live id m = lookup id m.lives

times : ℕ → String → List String → List String
times zero id rest = rest
times (suc n) id rest = id ∷ times n id rest

-- The gameserver's object, with the store that it shares.
abbrev pub system_of : Live → Manager → System
system_of g m = record { live = g; store = m.placement.store; log = []; restarts = 0 }

put_system : String → System → Manager → Manager
unfolding times
put_system id s m =
    let p = m.placement in
    record m {
      lives = insert id s.live m.lives;
      placement = record p { store = s.store };
      log = map (λ e. of_gameserver id e) s.log ++ m.log;
      restarts = times s.restarts id m.restarts;
    }

-- A method of the gameserver's object.
pub on_gameserver : String → (System → System) → Manager → Manager
unfolding put_system
on_gameserver id f m = elim (lookup id m.lives) [
  | none ↦ m
  | some g ↦ put_system id (f (system_of g m)) m
]

-- The switch on the new state at the end of RouteProcessEvent.
poll : InstanceState → String → Manager → Manager
poll state_created id m = m
poll state_running id m = record m { polling = start_polling id ∷ m.polling }
poll state_exited id m = record m { polling = stop_polling id ∷ m.polling }

route_to : ℕ → InstanceStateUpdate → String → Manager → Manager
unfolding poll on_gameserver
route_to now u id m = elim (lookup id m.lives) [
  | none ↦ m
  | some g ↦ poll u.state id (on_gameserver id (handle_process_event now u) m)
]

-- RouteProcessEvent
pub route_process_event : ℕ → InstanceStateUpdate → Manager → Manager
unfolding route_to
route_process_event now u m = elim (gameserver_id_from_instance_name u.instance_name) [
  | none ↦ m
  | some id ↦ route_to now u id m
]

-- A change of every gameserver on a node.
pub map_node : (Live → Live) → String → List (String × Live) → List (String × Live)
map_node f node_id [] = []
map_node f node_id ((id, g) ∷ rest) =
    let later = map_node f node_id rest in
    if on_node node_id g.spec then (id, f g) ∷ later else (id, g) ∷ later

ids_on : String → List (String × Live) → List String
ids_on node_id [] = []
ids_on node_id ((id, g) ∷ rest) =
    let later = ids_on node_id rest in if on_node node_id g.spec then id ∷ later else later

-- OnWorkerOnline, but for the goroutine that recovers the node's gameservers.
pub on_worker_online : String → Manager → Manager
unfolding map_node
on_worker_online node_id m = record m {
  lives = map_node (set_worker node_id) node_id m.lives;
  watching = node_id ∷ keep (λ n. not (str_eq n node_id)) m.watching;
  log = worker_connected node_id ∷ m.log;
}

-- OnWorkerOffline
pub on_worker_offline : String → Manager → Manager
unfolding map_node ids_on
on_worker_offline node_id m = record m {
  lives = map_node clear_worker node_id m.lives;
  watching = keep (λ n. not (str_eq n node_id)) m.watching;
  polling = map (λ id. stop_polling id) (ids_on node_id m.lives) ++ m.polling;
  log = worker_disconnected node_id ∷ m.log;
}

-- Registry.SetOffline with its callback, which is told of a known worker.
worker_lost : String → Manager → Manager
unfolding on_worker_offline
worker_lost node_id m = elim (lookup node_id m.registry.workers) [
  | none ↦ m
  | some rw ↦ on_worker_offline node_id (record m { registry = set_offline node_id m.registry })
]

-- handleStreamBreak: a worker that answers is watched again, any other is marked offline.
pub handle_stream_break : Bool → String → Manager → Manager
unfolding worker_lost
handle_stream_break answers node_id m = if answers then m else worker_lost node_id m
