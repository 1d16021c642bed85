-- ===== src/Live/Lifecycle/Stop/Frame.antt =====
-- doStop (controller/gameserver/lifecycle.go) keeps the gameserver's id and the rows of the others.
use game_janitor.Base.{◌≡◌, refl, ◌∙◌, subst, Option-cases, none, inl, inr}
use game_janitor.Model.{phase_stopping, desired_stopped, no_error}
use game_janitor.Store.Frame.{Keeps, Keeps-trans, update_gameserver-Keeps}
use game_janitor.Live.{System, set_phase}
use game_janitor.Live.Lifecycle.{Run, on_system}
use game_janitor.Live.Lifecycle.Stop.{do_stop, want_stopped, forget_process, stop_worker}
use game_janitor.Live.Lifecycle.Stop.Laws.{stop_worker-system}

-- The gameserver is the same, and the other rows are as they were.
abbrev pub Frames : System → System → Type 0
Frames s t = (t.live.spec.id ≡ s.live.spec.id) × Keeps s.live.spec.id s.store t.store

Frames-trans : (s t u : System) → Frames s t → Frames t u → Frames s u
Frames-trans s t u (same, keeps) (same', keeps') = (
  same' ∙ same,
  Keeps-trans s.live.spec.id s.store t.store u.store keeps
      (subst (λ k. Keeps k t.store u.store) same keeps'),
)

set_phase-Frames : (s : System) → Frames s (set_phase phase_stopping s)
unfolding set_phase
set_phase-Frames s = elim (Option-cases s.live.operation) [
  | inl e ↦ rw (e, set_phase) (refl, λ j gs other h. h)
  | inr (op, e) ↦ rw (e, set_phase) (refl, λ j gs other h. h)
]

want_stopped-Frames : (s : System) → Frames s (want_stopped s)
unfolding want_stopped
want_stopped-Frames s =
    (refl, update_gameserver-Keeps (record s.live.spec { desired_state = desired_stopped }) s.store)

forget_process-Frames : (s : System) → Frames s (forget_process s)
unfolding forget_process
forget_process-Frames s = (
  refl,
  update_gameserver-Keeps
      (record s.live.spec {
        instance_id = none;
        desired_state = desired_stopped;
        error_reason = no_error;
      })
      s.store,
)

pub do_stop-Frames : (r : Run) → Frames r.system (do_stop r).system
unfolding do_stop
do_stop-Frames r =
    let phased = set_phase phase_stopping r.system in
    let wanted = want_stopped phased in
    let first = on_system (λ s. want_stopped (set_phase phase_stopping s)) r in
    let last = (stop_worker first.system.live first).system in
    Frames-trans r.system wanted (forget_process last)
      (Frames-trans r.system phased wanted (set_phase-Frames r.system) (want_stopped-Frames phased))
      (subst (λ s. Frames s (forget_process last)) (stop_worker-system first.system.live first)
        (forget_process-Frames last))
