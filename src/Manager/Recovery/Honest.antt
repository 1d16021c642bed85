-- ===== src/Manager/Recovery/Honest.antt =====
-- Recovery (controller/gameserver/manager.go) does not hide that a gameserver is down.
use game_janitor.Base.{
  String, ◌≡◌, ◌≢◌, ◌⊎◌, refl, true, some, str_eq, Bool-cases, Option-cases, inl, inr, arith, ap,
  ◌∙◌,
}
use game_janitor.Model.{
  ErrorReason, process_running, no_error, instance_missing_on_recovery, instance_state_on_recovery,
}
use game_janitor.Live.{System, Live, set_error, clear_process}
use game_janitor.Live.Process.{wants_running}
use game_janitor.Manager.Recovery.{
  Inspect, Inspected, blame, without_instance, drop_instance, adopt, show_exit, is_over, reconcile,
  instance_gone, recover_live,
}

-- The process runs, or an error is shown.
abbrev pub IsHonest : System → Type 0
IsHonest s = (s.live.process_state ≡ process_running) ⊎ (s.live.spec.error_reason ≢ no_error)

set_error-shows :
    (reason : ErrorReason) (s : System)
    → reason ≢ no_error
    → (set_error reason s).live.spec.error_reason ≢ no_error
unfolding set_error
set_error-shows reason s shown = shown

-- The states that the recovery has a case for.
abbrev pub IsKnownState : Inspected → Type 0
IsKnownState info = (str_eq info.state "running" ≡ true) ⊎ (is_over info.state ≡ true)

blame_wanted :
    (reason : ErrorReason) (s : System)
    → reason ≢ no_error
    → wants_running s.live.spec.desired_state ≡ true
    → (blame reason s).live.spec.error_reason ≢ no_error
unfolding blame
blame_wanted reason s shown wanted = rw wanted (set_error-shows reason s shown)

drop_instance-desired :
    (f : Live → Live) (s : System)
    → ((g : Live) → (f g).spec ≡ g.spec)
    → (drop_instance f s).live.spec.desired_state ≡ s.live.spec.desired_state
unfolding drop_instance clear_process
drop_instance-desired f s same = ap (λ gs. gs.desired_state) (same _)

blame-shows :
    (f : Live → Live) (reason : ErrorReason) (s : System)
    → ((g : Live) → (f g).spec ≡ g.spec)
    → reason ≢ no_error
    → wants_running s.live.spec.desired_state ≡ true
    → (blame reason (drop_instance f s)).live.spec.error_reason ≢ no_error
blame-shows f reason s same shown wanted =
    blame_wanted reason (drop_instance f s) shown
      (ap wants_running (drop_instance-desired f s same) ∙ wanted)

desired_kept :
    (reason : ErrorReason) (s : System)
    → (blame reason s).live.spec.desired_state ≡ s.live.spec.desired_state
unfolding blame set_error
desired_kept reason s = elim (Bool-cases (wants_running s.live.spec.desired_state)) [
  | inl e ↦ rw e refl
  | inr e ↦ rw e refl
]

dropped_desired :
    (f : Live → Live) (reason : ErrorReason) (s : System)
    → ((g : Live) → (f g).spec ≡ g.spec)
    → (blame reason (drop_instance f s)).live.spec.desired_state ≡ s.live.spec.desired_state
dropped_desired f reason s same =
    desired_kept reason (drop_instance f s) ∙ drop_instance-desired f s same

show_exit-spec : (info : Inspected) (g : Live) → (show_exit info g).spec ≡ g.spec
unfolding show_exit
show_exit-spec info g = ground arith

reconcile-IsHonest :
    (info : Inspected) (s : System)
    → wants_running s.live.spec.desired_state ≡ true
    → IsKnownState info
    → IsHonest (reconcile info s)
unfolding reconcile adopt
reconcile-IsHonest info s wanted (inl running) = rw (running, reconcile) (inl refl)
reconcile-IsHonest info s wanted (inr over) = elim (Bool-cases (str_eq info.state "running")) [
  | inl e ↦ rw (e, reconcile) (inl refl)
  | inr e ↦
      rw (e, reconcile)
        (rw over (
          inr (
            blame-shows (show_exit info) (instance_state_on_recovery info.state info.exit_code) s
              (show_exit-spec info) (λ shown. cc) wanted)))
]

reconcile_desired :
    (info : Inspected) (s : System)
    → (reconcile info s).live.spec.desired_state ≡ s.live.spec.desired_state
unfolding reconcile adopt clear_process
reconcile_desired info s = elim (Bool-cases (str_eq info.state "running")) [
  | inl e ↦ rw (e, reconcile) refl
  | inr e ↦
      rw (e, reconcile)
        (elim (Bool-cases (is_over info.state)) [
          | inl f ↦ rw f (dropped_desired (show_exit info) _ s (show_exit-spec info))
          | inr f ↦ rw f refl
        ])
]

-- Recovery does not change whether a gameserver is meant to run. One that is meant to run has a running process
-- afterwards or shows an error, where its instance is in none but the states running, exited, dead
-- and created.
pub recover_live-IsHonest :
    (inspect : Inspect) (s : System)
    → ((instance : String) (info : Inspected) → inspect instance ≡ some info → IsKnownState info)
    → ((recover_live inspect s).live.spec.desired_state ≡ s.live.spec.desired_state)
      × (wants_running s.live.spec.desired_state ≡ true → IsHonest (recover_live inspect s))
unfolding recover_live without_instance instance_gone set_error clear_process
recover_live-IsHonest inspect s known = elim (Option-cases s.live.spec.instance_id) [
  | inl e ↦
      rw (e, recover_live)
        (elim (Bool-cases (wants_running s.live.spec.desired_state)) [
          | inl f ↦ rw f (refl, λ wanted. inr (λ shown. cc))
          | inr f ↦ rw f (refl, λ wanted. cc)
        ])
  | inr (instance, e) ↦
      rw (e, recover_live)
        (elim (Option-cases (inspect instance)) [
          | inl f ↦
              rw (f, recover_live)
                (
                  dropped_desired (λ g. g) instance_missing_on_recovery s (λ g. refl),
                  λ wanted. inr (
                      blame-shows (λ g. g) instance_missing_on_recovery s (λ g. refl) (λ shown. cc)
                        wanted),
                )
          | inr (info, f) ↦
              rw (f, recover_live)
                (
                  reconcile_desired info s,
                  λ wanted. reconcile-IsHonest info s wanted (known instance info f),
                )
        ])
]
