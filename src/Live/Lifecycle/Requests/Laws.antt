-- ===== src/Live/Lifecycle/Requests/Laws.antt =====
-- What Start (controller/gameserver/lifecycle.go) changes even where it is refused, and how that and
-- its reset of the crash count meet the events of the worker.
use game_janitor.Base.{ℕ, ◌+◌, true, false, ◌&&◌, some, ◌≡◌, inr, refl, arith}
use game_janitor.Model.{Operation, op_stop, desired_running, is_archived}
use game_janitor.Store.Laws.{Stored-set_desired_state, Stored-clear_error_reason}
use game_janitor.Live.{System, InstanceStateUpdate, state_exited}
use game_janitor.Live.Process.{is_own, handle_process_event, is_running}
use game_janitor.Live.Process.Crash.{handle_process_event-restarts, IsCrash}
use game_janitor.Live.Operations.{Harness, conflict, submit_pass, update_system, op_priority}
use game_janitor.Live.Lifecycle.Sync.{InSync}
use game_janitor.Live.Lifecycle.Requests.{start, want_running, submit, submitted, start_opts}

InSync-want_running : (s : System) → InSync s → InSync (want_running s)
unfolding want_running
InSync-want_running s h =
    Stored-clear_error_reason _ s.live.spec.id _
      (Stored-set_desired_state s.store s.live.spec.id s.live.spec desired_running h)

submit_pass-start :
    (h : Harness) (op : Operation)
    → h.system.live.operation ≡ some op
    → submit_pass start_opts h ≡ (h, conflict op.op_type)
unfolding submit_pass op_priority
submit_pass-start h op e = rw (e, submit_pass) (ground arith)

-- A start of a gameserver with an operation in progress, neither archived nor running and ready, is
-- refused as a conflict; but the gameserver is meant to run from then on, in memory and in the
-- database where these agreed, and its crash count is reset.
pub start-refused :
    (h : Harness) (op : Operation)
    → h.system.live.operation ≡ some op
    → is_archived h.system.live.spec ≡ false
    → is_running h.system.live.process_state && h.system.live.ready ≡ false
    → InSync h.system
    → ((start h).1 ≡ submitted (conflict op.op_type))
      × ((start h).0.system.live.spec.desired_state ≡ desired_running)
      × ((start h).0.system.live.crash_count ≡ 0)
      × InSync (start h).0.system
unfolding start submit
start-refused h op e a b sync = rw a (
    rw b (
      rw (submit_pass-start (update_system want_running h) op e)
        (refl, refl, refl, InSync-want_running h.system sync)))

-- A refused start during a stop makes the exit that the stop brings about a crash: the exit of
-- the gameserver's own instance starts it again, where it restarts by itself.
pub start-undoes_stop :
    (now : ℕ) (u : InstanceStateUpdate) (h : Harness) (op : Operation)
    → h.system.live.operation ≡ some op
    → op.op_type ≡ op_stop
    → is_archived h.system.live.spec ≡ false
    → is_running h.system.live.process_state && h.system.live.ready ≡ false
    → h.system.live.spec.auto_restart ≡ some true
    → is_own u h.system.live ≡ true
    → u.state ≡ state_exited
    → (handle_process_event now u (start h).0.system).restarts ≡ h.system.restarts + 1
unfolding start submit want_running
start-undoes_stop now u h op e stops a b auto own st =
    let crash : IsCrash (want_running h.system).live =
      (refl, (λ op' f g. ground arith), inr (λ f. cc)) in
    rw a (
      rw b (
        rw (submit_pass-start (update_system want_running h) op e) (
          (handle_process_event-restarts now u (want_running h.system) own st).0.1
            (crash, auto, omega arith))))
