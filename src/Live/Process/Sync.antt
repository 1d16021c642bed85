-- ===== src/Live/Process/Sync.antt =====
-- The durable fields in memory and in the store stay equal across HandleProcessEvent
-- (controller/gameserver/live.go).
use game_janitor.Base.{
  ◌≡◌, refl, ap, ◌∙◌, ◌+◌, ltb, Bool, true, false, if◌then◌else◌, none, arith, Bool-cases, inl, inr,
  String, ℕ, subst, sym, Option-cases,
}
use game_janitor.Model.{Gameserver, no_error}
use game_janitor.Store.{Store, get_query}
use game_janitor.Store.Laws.{
  Stored, Stored-set_error_reason, Stored-clear_error_reason, Stored-set_instance_id,
  Stored-update_gameserver, get_gameserver-answers,
}
use game_janitor.Live.{
  System, Live, InstanceStateUpdate, InstanceState, state_created, state_running, state_exited,
}
use game_janitor.Live.Process.{
  SideEffects, describe_exit, has_error, store_error, store_installed, store_instance,
  store_effects, on_state, on_crash, settle, is_crash, apply_state, is_own, handle_process_event,
  set_process_exited, restarts_itself, max_restart_attempts, no_effects,
}

-- The spec after the store writes of some side effects.
error_after : SideEffects → Gameserver → Gameserver
error_after se gs =
    if se.clear_error
    then record gs { error_reason = no_error }
    else if has_error se.persist_error_reason
    then record gs { error_reason = se.persist_error_reason }
    else gs

installed_after : Bool → Gameserver → Gameserver
installed_after marked gs = if marked then record gs { installed = true } else gs

instance_after : Bool → Gameserver → Gameserver
instance_after cleared gs = if cleared then record gs { instance_id = none } else gs

pub spec_after : SideEffects → Gameserver → Gameserver
unfolding error_after installed_after instance_after
spec_after se gs =
    instance_after se.clear_instance_id (installed_after se.mark_installed (error_after se gs))

Stored-store_error :
    (se : SideEffects) (s : Store) (id : String) (gs : Gameserver)
    → Stored s id gs
    → Stored (store_error se id s) id (error_after se gs)
unfolding store_error error_after
Stored-store_error se s id gs h = elim (Bool-cases se.clear_error) [
  | inl e ↦ rw e (Stored-clear_error_reason s id gs h)
  | inr e ↦ rw e (elim (Bool-cases (has_error se.persist_error_reason)) [
    | inl f ↦ rw f (Stored-set_error_reason s id gs se.persist_error_reason h)
    | inr f ↦ rw f h
  ])
]

Stored-store_installed :
    (marked : Bool) (s : Store) (gs : Gameserver)
    → Stored s gs.id gs
    → Stored (store_installed marked gs.id s) gs.id (installed_after marked gs)
unfolding store_installed installed_after
Stored-store_installed false s gs h = h
Stored-store_installed true s gs h =
    rw (get_gameserver-answers s gs.id (h.0 get_query), store_installed)
      (rw (h.1, store_installed)
        (Stored-update_gameserver s gs (record gs { installed = true }) refl refl h))

Stored-store_instance :
    (cleared : Bool) (s : Store) (id : String) (gs : Gameserver)
    → Stored s id gs
    → Stored (store_instance cleared id s) id (instance_after cleared gs)
unfolding store_instance instance_after
Stored-store_instance false s id gs h = h
Stored-store_instance true s id gs h = Stored-set_instance_id s id gs none h

error_after-id : (se : SideEffects) (gs : Gameserver) → (error_after se gs).id ≡ gs.id
unfolding error_after
error_after-id se gs = ground arith

pub spec_after-id : (se : SideEffects) (gs : Gameserver) → (spec_after se gs).id ≡ gs.id
unfolding spec_after error_after
spec_after-id se gs = ground arith

Stored-store_effects :
    (se : SideEffects) (s : Store) (gs : Gameserver)
    → Stored s gs.id gs
    → Stored (store_effects se gs.id s) gs.id (spec_after se gs)
unfolding store_effects spec_after
Stored-store_effects se s gs h =
    let e = error_after-id se gs in
    let first = Stored-store_error se s gs.id gs h in
    Stored-store_instance se.clear_instance_id _ gs.id _ (
      subst
        (λ id.
          Stored (store_installed se.mark_installed id (store_error se gs.id s)) id
            (installed_after se.mark_installed (error_after se gs)))
        e
        (Stored-store_installed se.mark_installed (store_error se gs.id s) (error_after se gs)
          (subst (λ id. Stored (store_error se gs.id s) id (error_after se gs)) (sym e) first)))

-- A section under the lock and the writes that it queues agree on the spec.
abbrev pub Agrees : Gameserver → Live × SideEffects → Type 0
Agrees gs (g, se) = g.spec ≡ spec_after se gs

-- Before the instance is cleared, an exit has changed the error reason at most.
abbrev ErrorOnly : Gameserver → Live × SideEffects → Type 0
ErrorOnly gs (g, se) = (g.spec ≡ error_after se gs) × (se.mark_installed ≡ false)

on_crash-ErrorOnly :
    (now : ℕ) (u : InstanceStateUpdate) (g : Live) → ErrorOnly g.spec (on_crash now u g)
unfolding on_crash error_after describe_exit
on_crash-ErrorOnly now u g = elim (Bool-cases (restarts_itself g.spec.auto_restart)) [
  | inl e ↦ rw e (elim (Bool-cases (ltb max_restart_attempts (g.crash_count + 1))) [
    | inl f ↦ rw f (refl, refl)
    | inr f ↦ rw f (refl, refl)
  ])
  | inr e ↦ rw e (refl, refl)
]

clear_none : (gs : Gameserver) → gs.instance_id ≡ none → record gs { instance_id = none } ≡ gs
clear_none gs e = λ i. record gs { instance_id = sym e i }

settle-Agrees : (gs : Gameserver) (r : Live × SideEffects) → ErrorOnly gs r → Agrees gs (settle r)
unfolding settle spec_after
settle-Agrees gs (g, se) (e, f) = elim (Option-cases g.spec.instance_id) [
  | inl absent ↦ rw (absent, f) (clear_none g.spec absent ∙ e)
  | inr (id, present) ↦ rw (present, f) (rw e)
]

pub on_state-Agrees :
    (state : InstanceState) (now : ℕ) (u : InstanceStateUpdate) (g : Live)
    → Agrees g.spec (on_state state now u g)
unfolding on_state spec_after
on_state-Agrees state_created now u g = refl
on_state-Agrees state_running now u g = ground arith
on_state-Agrees state_exited now u g = elim (Bool-cases (is_crash g)) [
  | inl e ↦ rw e (settle-Agrees g.spec (on_crash now u g) (on_crash-ErrorOnly now u g))
  | inr e ↦ rw e (
      settle-Agrees g.spec (set_process_exited now u.exit_code u.exited_at g, no_effects)
        (refl, refl))
]

apply_state-Stored :
    (r : Live × SideEffects) (s : System)
    → Agrees s.live.spec r
    → Stored s.store s.live.spec.id s.live.spec
    → let t = apply_state r s in Stored t.store t.live.spec.id t.live.spec
unfolding apply_state
apply_state-Stored (g, se) s e h =
    let gs = s.live.spec in
    let same : (spec_after se gs).id ≡ g.spec.id = ap (λ row. row.id) (sym e) in
    subst (λ id. Stored (store_effects se id s.store) id g.spec) (sym (spec_after-id se gs) ∙ same)
      (subst (λ row. Stored (store_effects se gs.id s.store) gs.id row) (sym e)
        (Stored-store_effects se s.store gs h))

-- Where the database answers and holds the gameserver's spec, it holds the spec after the event
-- too: every field that HandleProcessEvent changes in memory is changed in the row as well.
pub handle_process_event-Stored :
    (now : ℕ) (u : InstanceStateUpdate) (s : System)
    → Stored s.store s.live.spec.id s.live.spec
    → let t = handle_process_event now u s in Stored t.store t.live.spec.id t.live.spec
unfolding handle_process_event
handle_process_event-Stored now u s h = elim (Bool-cases (is_own u s.live)) [
  | inr other ↦ rw other h
  | inl own ↦ rw own (
      apply_state-Stored (on_state u.state now u s.live) s (on_state-Agrees u.state now u s.live) h)
]
