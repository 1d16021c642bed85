-- ===== src/Live/Lifecycle/Stop/Laws.antt =====
-- What doStop (controller/gameserver/lifecycle.go) leaves, and the events of the worker during it.
use game_janitor.Base.{◌≡◌, refl, none, Bool-cases, inl, inr, ℕ, subst, sym, Option-cases, is_some}
use game_janitor.Model.{desired_stopped, no_error, process_none, phase_stopping}
use game_janitor.Store.Laws.{Stored-update_gameserver}
use game_janitor.Live.{System, Live, InstanceStateUpdate, set_phase, clear_process}
use game_janitor.Live.Process.{handle_process_event}
use game_janitor.Live.Process.Crash.{handle_process_event-stale}
use game_janitor.Live.Lifecycle.{Run, on_system}
use game_janitor.Live.Lifecycle.Sync.{InSync, InSync-set_phase}
use game_janitor.Live.Lifecycle.Stop.{
  do_stop, want_stopped, forget_process, stop_worker, stop_instance_on_worker,
}

InSync-want_stopped : (s : System) → InSync s → InSync (want_stopped s)
unfolding want_stopped
InSync-want_stopped s h =
    Stored-update_gameserver s.store s.live.spec
      (record s.live.spec { desired_state = desired_stopped }) refl refl h

InSync-forget_process : (s : System) → InSync s → InSync (forget_process s)
unfolding forget_process
InSync-forget_process s h =
    Stored-update_gameserver s.store s.live.spec
      (record s.live.spec {
        instance_id = none;
        desired_state = desired_stopped;
        error_reason = no_error;
      })
      refl refl h

pub stop_worker-system : (g : Live) (r : Run) → (stop_worker g r).system ≡ r.system
unfolding stop_worker stop_instance_on_worker
stop_worker-system g r = elim (Bool-cases (is_some g.worker)) [
  | inr e ↦ rw e refl
  | inl e ↦
      rw e (elim (Option-cases g.spec.instance_id) [ inl f ↦ rw f refl | inr (id, f) ↦ rw f refl ])
]

-- After doStop memory and database agree where they did before, nothing is wanted, recorded, shown
-- or wrong, and whatever event the worker still sends changes nothing.
pub do_stop-settles :
    (r : Run)
    → InSync r.system
    → let s = (do_stop r).system in
      InSync s
      × (s.live.spec.desired_state ≡ desired_stopped)
      × (s.live.spec.instance_id ≡ none)
      × (s.live.spec.error_reason ≡ no_error)
      × (s.live.process_state ≡ process_none)
      × ((now : ℕ) (u : InstanceStateUpdate) → handle_process_event now u s ≡ s)
unfolding do_stop forget_process clear_process
do_stop-settles r h =
    let first = on_system (λ s. want_stopped (set_phase phase_stopping s)) r in
    let synced : InSync first.system =
      InSync-want_stopped (set_phase phase_stopping r.system)
        (InSync-set_phase phase_stopping r.system h) in
    (
      InSync-forget_process (stop_worker first.system.live first).system
          (subst InSync (sym (stop_worker-system first.system.live first)) synced),
      refl,
      refl,
      refl,
      refl,
      λ now u. handle_process_event-stale now u _ (λ e. cc),
    )
