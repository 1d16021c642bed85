-- ===== src/Manager/Steps.antt =====
-- What can happen to the gameservers in memory (controller/gameserver/manager.go), one step after
-- another, and what holds however the steps are ordered.
use game_janitor.Base.{[], ℕ, String, Bool, false, Option, none, lookup, ◌≡◌}
use game_janitor.Store.{Query}
use game_janitor.Access.{Token}
use game_janitor.Games.{GameStore}
use game_janitor.Live.{InstanceStateUpdate, System}
use game_janitor.Live.Lifecycle.Stop.{do_stop}
use game_janitor.Live.Lifecycle.Stop.Laws.{do_stop-settles}
use game_janitor.Live.Lifecycle.Stop.Frame.{do_stop-Frames}
use game_janitor.Manager.{
  Manager, on_gameserver, route_process_event, on_worker_online, on_worker_offline,
  handle_stream_break,
}
use game_janitor.Manager.Synced.{
  IsSynced, IsSound, on_gameserver-IsSynced, route_process_event-IsSynced,
  on_worker_online-IsSynced, on_worker_offline-IsSynced, handle_stream_break-IsSynced,
}
use game_janitor.Manager.Recovery.{Inspect, recover_gameserver, recover_worker_gameservers}
use game_janitor.Manager.Recovery.Loaded.{
  recover_gameserver-IsSynced, recover_worker_gameservers-IsSynced,
}
use game_janitor.Manager.Request.{Request, Required, passed}
use game_janitor.Manager.Config.{update_config}
use game_janitor.Manager.Config.Merged.{update_config-IsSaved}
use game_janitor.Manager.Create.{Answers, create}
use game_janitor.Manager.Create.Outcome.{create-IsSynced}

-- doStop on the gameserver's object.
unfoldable pub stop_whole : System → System
stop_whole s = (do_stop (record { system = s; calls = [] })).system

stop_whole-IsSound : IsSound stop_whole
unfolding stop_whole
stop_whole-IsSound s h =
    let (same, keeps) = do_stop-Frames (record { system = s; calls = [] }) in
    ((do_stop-settles (record { system = s; calls = [] }) h).0, same, keeps)

-- A run from `m` to `n` of these methods of the manager, in any order: RouteProcessEvent,
-- OnWorkerOnline, OnWorkerOffline, the break of a worker's event stream, doStop, recovery of one
-- gameserver and of a node's, and, where every query is answered at that moment, Create and an UpdateConfig that
-- succeeds. The other calls of a gameserver's lifecycle are no steps of it.
pub data Run (m : Manager) : Manager → Type 0 where
  start : Run m m
  routes :
      (now : ℕ) (u : InstanceStateUpdate) {n : Manager}
      → Run m n
      → Run m (route_process_event now u n)
  connects : (node_id : String) {n : Manager} → Run m n → Run m (on_worker_online node_id n)
  disconnects : (node_id : String) {n : Manager} → Run m n → Run m (on_worker_offline node_id n)
  breaks :
      (answers : Bool) (node_id : String) {n : Manager}
      → Run m n
      → Run m (handle_stream_break answers node_id n)
  stops : (id : String) {n : Manager} → Run m n → Run m (on_gameserver id stop_whole n)
  recovers :
      (inspect : Inspect) (id : String) {n : Manager}
      → Run m n
      → Run m (recover_gameserver inspect id n)
  recovers_node :
      (inspect : Inspect) (node_id : String) {n : Manager}
      → Run m n
      → Run m (recover_worker_gameservers inspect node_id n)
  creates :
      (a : Answers) (token : Option Token) (r : Request) {n : Manager}
      → lookup a.id n.placement.pending_ports ≡ none
      → ((q : Query) → n.placement.store.fails q ≡ false)
      → Run m n
      → Run m (create a token r n).manager
  updates :
      (req : Required) (games : GameStore) (token : Option Token) (id : String) (r : Request)
      {n o : Manager}
      → ((q : Query) → n.placement.store.fails q ≡ false)
      → update_config req games token id r n ≡ passed o
      → Run m n
      → Run m o

-- If every query is answered and memory and database agree on every gameserver in memory, they still
-- do after any sequence of these steps, in any order: RouteProcessEvent, OnWorkerOnline,
-- OnWorkerOffline, the break of a worker's event stream, doStop, the recovery of one gameserver or of a node's
-- gameservers, Create with a new id, and an UpdateConfig that succeeds. Steps in which a gameserver is
-- started, deleted, archived or moved are not among them.
pub run-IsSynced : (m o : Manager) → Run m o → IsSynced m → IsSynced o
run-IsSynced m o start h = h
run-IsSynced m o (routes now u {n = k} run) h =
    route_process_event-IsSynced now u k (run-IsSynced m k run h)
run-IsSynced m o (connects node_id {n = k} run) h =
    on_worker_online-IsSynced node_id k (run-IsSynced m k run h)
run-IsSynced m o (disconnects node_id {n = k} run) h =
    on_worker_offline-IsSynced node_id k (run-IsSynced m k run h)
run-IsSynced m o (breaks answers node_id {n = k} run) h =
    handle_stream_break-IsSynced answers node_id k (run-IsSynced m k run h)
run-IsSynced m o (stops id {n = k} run) h =
    on_gameserver-IsSynced id stop_whole k stop_whole-IsSound (run-IsSynced m k run h)
run-IsSynced m o (recovers inspect id {n = k} run) h =
    (recover_gameserver-IsSynced inspect id k (run-IsSynced m k run h)).0
run-IsSynced m o (recovers_node inspect node_id {n = k} run) h =
    recover_worker_gameservers-IsSynced inspect node_id k (run-IsSynced m k run h)
run-IsSynced m o (creates a token r {n = k} fresh answers run) h =
    create-IsSynced a token r k fresh answers (run-IsSynced m k run h)
run-IsSynced m o (updates req games token id r {n = k} answers e run) h =
    (update_config-IsSaved req games token id r k o answers (run-IsSynced m k run h) e).synced
