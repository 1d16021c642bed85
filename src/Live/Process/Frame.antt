-- ===== src/Live/Process/Frame.antt =====
-- HandleProcessEvent (controller/gameserver/live.go) keeps the gameserver's id and the rows of the
-- other gameservers.
use game_janitor.Base.{
  ℕ, String, ◌≡◌, refl, ap, ◌∙◌, Bool, true, false, none, some, Bool-cases, inl, inr, Option-cases,
  subst,
}
use game_janitor.Model.{Gameserver}
use game_janitor.Store.{Store, get_gameserver, update_gameserver}
use game_janitor.Store.Laws.{get_gameserver-id}
use game_janitor.Store.Frame.{
  Keeps, Keeps-trans, set_error_reason-Keeps, clear_error_reason-Keeps, set_instance_id-Keeps,
  update_gameserver-Keeps,
}
use game_janitor.Live.{System, Live, InstanceStateUpdate}
use game_janitor.Live.Process.{
  SideEffects, has_error, store_error, store_installed, store_instance, store_effects, on_state,
  apply_state, is_own, handle_process_event,
}
use game_janitor.Live.Process.Sync.{spec_after-id, on_state-Agrees, Agrees}

store_error-Keeps : (se : SideEffects) (id : String) (s : Store) → Keeps id s (store_error se id s)
unfolding store_error
store_error-Keeps se id s = elim (Bool-cases se.clear_error) [
  | inl e ↦ rw e (clear_error_reason-Keeps id s)
  | inr e ↦ rw e (elim (Bool-cases (has_error se.persist_error_reason)) [
    | inl f ↦ rw f (set_error_reason-Keeps id se.persist_error_reason s)
    | inr f ↦ rw f (λ j gs other h. h)
  ])
]

store_installed-Keeps :
    (marked : Bool) (id : String) (s : Store) → Keeps id s (store_installed marked id s)
unfolding store_installed
store_installed-Keeps false id s = λ j gs other h. h
store_installed-Keeps true id s = elim (Option-cases (get_gameserver s id)) [
  | inl e ↦ rw e (λ j gs other h. h)
  | inr (found, e) ↦ rw e (elim (Option-cases found) [
    | inl f ↦ rw f (λ j gs other h. h)
    | inr (row, f) ↦ rw f (
        subst (λ k. Keeps k s (update_gameserver (record row { installed = true }) s))
          (get_gameserver-id s id row (e ∙ ap some f))
          (update_gameserver-Keeps (record row { installed = true }) s))
  ])
]

store_instance-Keeps :
    (cleared : Bool) (id : String) (s : Store) → Keeps id s (store_instance cleared id s)
unfolding store_instance
store_instance-Keeps false id s = λ j gs other h. h
store_instance-Keeps true id s = set_instance_id-Keeps id none s

store_effects-Keeps :
    (se : SideEffects) (id : String) (s : Store) → Keeps id s (store_effects se id s)
unfolding store_effects
store_effects-Keeps se id s =
    let first = store_error se id s in
    let second = store_installed se.mark_installed id first in
    let third = store_instance se.clear_instance_id id second in
    Keeps-trans id s first third (store_error-Keeps se id s) (
      Keeps-trans id first second third (store_installed-Keeps se.mark_installed id first)
        (store_instance-Keeps se.clear_instance_id id second))

same_id : (gs : Gameserver) (r : Live × SideEffects) → Agrees gs r → r.0.spec.id ≡ gs.id
same_id gs (g, se) e = ap (λ row. row.id) e ∙ spec_after-id se gs

apply_state-Keeps :
    (r : Live × SideEffects) (s : System)
    → r.0.spec.id ≡ s.live.spec.id
    → Keeps s.live.spec.id s.store (apply_state r s).store
unfolding apply_state
apply_state-Keeps (g, se) s e =
    subst (λ id. Keeps id s.store (store_effects se g.spec.id s.store)) e
      (store_effects-Keeps se g.spec.id s.store)

pub handle_process_event-id :
    (now : ℕ) (u : InstanceStateUpdate) (s : System)
    → (handle_process_event now u s).live.spec.id ≡ s.live.spec.id
unfolding handle_process_event apply_state
handle_process_event-id now u s = elim (Bool-cases (is_own u s.live)) [
  | inl own ↦
      rw own
        (same_id s.live.spec (on_state u.state now u s.live) (on_state-Agrees u.state now u s.live))
  | inr other ↦ rw other refl
]

pub handle_process_event-Keeps :
    (now : ℕ) (u : InstanceStateUpdate) (s : System)
    → Keeps s.live.spec.id s.store (handle_process_event now u s).store
unfolding handle_process_event
handle_process_event-Keeps now u s = elim (Bool-cases (is_own u s.live)) [
  | inl own ↦ rw own (
      apply_state-Keeps (on_state u.state now u s.live) s (
        same_id s.live.spec (on_state u.state now u s.live) (on_state-Agrees u.state now u s.live)))
  | inr other ↦ rw other (λ j gs other h. h)
]
