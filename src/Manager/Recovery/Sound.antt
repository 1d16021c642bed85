-- ===== src/Manager/Recovery/Sound.antt =====
-- Recovery (controller/gameserver/manager.go) keeps each gameserver in step with its row and leaves
-- the rows of the others alone.
use game_janitor.Base.{
  ◌≡◌, refl, sym, ap, ◌∙◌, subst, none, str_eq, Bool-cases, Option-cases, inl, inr, arith,
}
use game_janitor.Model.{
  Gameserver, ErrorReason, no_instance_on_recovery, instance_missing_on_recovery,
  instance_state_on_recovery,
}
use game_janitor.Store.{set_instance_id}
use game_janitor.Store.Laws.{Stored, Stored-set_error_reason, Stored-set_instance_id}
use game_janitor.Store.Frame.{Keeps, Keeps-trans, set_error_reason-Keeps, set_instance_id-Keeps}
use game_janitor.Live.{Live, System, set_error, clear_process}
use game_janitor.Live.Process.{wants_running}
use game_janitor.Live.Lifecycle.Sync.{InSync}
use game_janitor.Manager.Synced.{IsSound}
use game_janitor.Manager.Recovery.{
  Inspect, Inspected, blame, without_instance, drop_instance, adopt, show_exit, is_over, reconcile,
  instance_gone, recover_live,
}

-- A step keeps the object and its row in step.
abbrev Steps : System → System → Type 0
Steps s t = InSync t × (t.live.spec.id ≡ s.live.spec.id) × Keeps s.live.spec.id s.store t.store

set_error-Steps : (reason : ErrorReason) (s : System) → InSync s → Steps s (set_error reason s)
unfolding set_error
set_error-Steps reason s h = (
  Stored-set_error_reason s.store s.live.spec.id s.live.spec reason h,
  refl,
  set_error_reason-Keeps s.live.spec.id reason s.store,
)

blame-Steps : (reason : ErrorReason) (s : System) → InSync s → Steps s (blame reason s)
unfolding blame
blame-Steps reason s h = elim (Bool-cases (wants_running s.live.spec.desired_state)) [
  | inl e ↦ rw e (set_error-Steps reason s h)
  | inr e ↦ rw e (h, refl, λ j gs other k. k)
]

drop_instance-Steps :
    (f : Live → Live) (s : System)
    → ((g : Live) → (f g).spec ≡ g.spec)
    → InSync s
    → Steps s (drop_instance f s)
unfolding drop_instance clear_process
drop_instance-Steps f s same h =
    let gs = s.live.spec in
    let cleared : Gameserver = record gs { instance_id = none } in
    let t = set_instance_id gs.id none s.store in
    let kept : cleared ≡ (drop_instance f s).live.spec = sym (same _) in
    (
      subst (λ row. Stored t row.id row) kept (Stored-set_instance_id s.store gs.id gs none h),
      ap (λ row. row.id) (sym kept),
      set_instance_id-Keeps gs.id none s.store,
    )

show_exit-spec : (info : Inspected) (g : Live) → (show_exit info g).spec ≡ g.spec
unfolding show_exit
show_exit-spec info g = ground arith

Steps-trans : (s t u : System) → Steps s t → Steps t u → Steps s u
Steps-trans s t u (h, e, k) (h', e', k') = (
  h',
  e' ∙ e,
  Keeps-trans s.live.spec.id s.store t.store u.store k
      (subst (λ id. Keeps id t.store u.store) e k'),
)

-- Dropping the instance and showing why.
dropped-Steps :
    (f : Live → Live) (reason : ErrorReason) (s : System)
    → ((g : Live) → (f g).spec ≡ g.spec)
    → InSync s
    → Steps s (blame reason (drop_instance f s))
dropped-Steps f reason s same h =
    let first = drop_instance-Steps f s same h in
    Steps-trans s (drop_instance f s) (blame reason (drop_instance f s)) first
      (blame-Steps reason (drop_instance f s) first.0)

reconcile-Steps : (info : Inspected) (s : System) → InSync s → Steps s (reconcile info s)
unfolding reconcile adopt clear_process
reconcile-Steps info s h = elim (Bool-cases (str_eq info.state "running")) [
  | inl e ↦ rw (e, reconcile) (h, refl, λ j gs other k. k)
  | inr e ↦
      rw (e, reconcile)
        (elim (Bool-cases (is_over info.state)) [
          | inl f ↦ rw f (
              dropped-Steps (show_exit info) (instance_state_on_recovery info.state info.exit_code)
                s (show_exit-spec info) h)
          | inr f ↦ rw f (h, refl, λ j gs other k. k)
        ])
]

without_instance-Steps : (s : System) → InSync s → Steps s (without_instance s)
unfolding without_instance clear_process
without_instance-Steps s h = elim (Bool-cases (wants_running s.live.spec.desired_state)) [
  | inl e ↦ rw e (set_error-Steps no_instance_on_recovery s h)
  | inr e ↦ rw e (h, refl, λ j gs other k. k)
]

pub recover_live-IsSound : (inspect : Inspect) → IsSound (recover_live inspect)
unfolding recover_live instance_gone
recover_live-IsSound inspect s h = elim (Option-cases s.live.spec.instance_id) [
  | inl e ↦ rw (e, recover_live) (without_instance-Steps s h)
  | inr (instance, e) ↦
      rw (e, recover_live)
        (elim (Option-cases (inspect instance)) [
          | inl f ↦
              rw (f, recover_live)
                (dropped-Steps (λ g. g) instance_missing_on_recovery s (λ g. refl) h)
          | inr (info, f) ↦ rw (f, recover_live) (reconcile-Steps info s h)
        ])
]
